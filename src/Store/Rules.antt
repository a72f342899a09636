-- ===== src/Store/Rules.antt =====
-- What a program guarantees against every server that behaves as documented.
use lens_chat_service.Prelude.{List, Result, ok, err}
use lens_chat_service.Mongo.{AnswerOf, Does, IsUnique}
use lens_chat_service.Schema.{Message, Channel, ChannelState, OutboxEvent, OutboxRelayLease}
use lens_chat_service.Response.{Error}
use lens_chat_service.Store.Indexes.{
  message_clash, channel_clash, state_clash, event_clash, lease_clash,
}
use lens_chat_service.Store.Actions.{
  Call, messages, channels, states, outbox, leases, Answer, Program, done, call, Action, ◌>>=◌,
  and_then, Server, View, Db, view, perform, run,
}

-- Every collection keeps its unique indexes.
pub record IsIndexed (v : View) : Type 0 where
  pub messages : IsUnique message_clash v.messages
  pub channels : IsUnique channel_clash v.channels
  pub states : IsUnique state_clash v.states
  pub outbox : IsUnique event_clash v.outbox
  pub leases : IsUnique lease_clash v.leases

-- `K` holds of every answer and of every database that a call may leave.
abbrev pub After : (c : Call) → (Answer c → View → Type 0) → View → Type 0
After (messages o) K v =
    (r : AnswerOf o) (ds : List Message)
    → Does message_clash o v.messages r ds
    → IsUnique message_clash ds
    → K r (record v { messages = ds })
After (channels o) K v =
    (r : AnswerOf o) (ds : List Channel)
    → Does channel_clash o v.channels r ds
    → IsUnique channel_clash ds
    → K r (record v { channels = ds })
After (states o) K v =
    (r : AnswerOf o) (ds : List ChannelState)
    → Does state_clash o v.states r ds
    → IsUnique state_clash ds
    → K r (record v { states = ds })
After (outbox o) K v =
    (r : AnswerOf o) (ds : List OutboxEvent)
    → Does event_clash o v.outbox r ds
    → IsUnique event_clash ds
    → K r (record v { outbox = ds })
After (leases o) K v =
    (r : AnswerOf o) (ds : List OutboxRelayLease)
    → Does lease_clash o v.leases r ds
    → IsUnique lease_clash ds
    → K r (record v { leases = ds })

-- `Q` holds of every result of the program with every database that it may leave.
abbrev pub Ensures : {A : Type 0} → Program A → (A → View → Type 0) → View → Type 0
Ensures (done a) Q v = Q a v
Ensures (call c k) Q v = After c (λ r w. Ensures (k r) Q w) v

module _ (server : Server) where
  pub view-IsIndexed : (db : Db server) → IsIndexed (view server db)
  view-IsIndexed db = record {
    messages = server.messages.unique db.messages;
    channels = server.channels.unique db.channels;
    states = server.states.unique db.states;
    outbox = server.outbox.unique db.outbox;
    leases = server.leases.unique db.leases;
  }

  After-perform :
      (c : Call) (K : Answer c → View → Type 0) (db : Db server)
      → After c K (view server db)
      → K (perform server c db).0 (view server (perform server c db).1)
  After-perform (messages o) K db h =
      h _ _ (server.messages.performs o db.messages) (server.messages.unique _)
  After-perform (channels o) K db h =
      h _ _ (server.channels.performs o db.channels) (server.channels.unique _)
  After-perform (states o) K db h =
      h _ _ (server.states.performs o db.states) (server.states.unique _)
  After-perform (outbox o) K db h =
      h _ _ (server.outbox.performs o db.outbox) (server.outbox.unique _)
  After-perform (leases o) K db h =
      h _ _ (server.leases.performs o db.leases) (server.leases.unique _)

  -- A guarantee holds of every run.
  pub Ensures-run :
      {A : Type 0} (m : Program A) (Q : A → View → Type 0) (db : Db server)
      → Ensures m Q (view server db)
      → Q (run server m db).0 (view server (run server m db).1)
  unfolding run
  Ensures-run (done a) Q db h = h
  Ensures-run (call c k) Q db h =
      Ensures-run (k (perform server c db).0) Q (perform server c db).1
        (After-perform c (λ r w. Ensures (k r) Q w) db h)

pub After-mono :
    (c : Call) {K L : Answer c → View → Type 0} (v : View)
    → ((r : Answer c) (w : View) → K r w → L r w)
    → After c K v
    → After c L v
After-mono (messages o) v kl h = λ r ds d u. kl r _ (h r ds d u)
After-mono (channels o) v kl h = λ r ds d u. kl r _ (h r ds d u)
After-mono (states o) v kl h = λ r ds d u. kl r _ (h r ds d u)
After-mono (outbox o) v kl h = λ r ds d u. kl r _ (h r ds d u)
After-mono (leases o) v kl h = λ r ds d u. kl r _ (h r ds d u)

pub Ensures-mono :
    {A : Type 0} (m : Program A) {Q R : A → View → Type 0} (v : View)
    → ((a : A) (w : View) → Q a w → R a w)
    → Ensures m Q v
    → Ensures m R v
Ensures-mono (done a) v qr h = qr a v h
Ensures-mono (call c k) v qr h = After-mono c v (λ r w. Ensures-mono (k r) w qr) h

-- What holds after `m` when the rest of the block is `f`.
abbrev pub Then :
    {A B : Type 0}
    → (A → Action B)
    → (Result Error B → View → Type 0)
    → Result Error A
    → View
    → Type 0
Then f Q (ok a) v = Ensures (f a) Q v
Then f Q (err e) v = Q (err e) v

pub Ensures-bind :
    {A B : Type 0} (m : Action A) (f : A → Action B) (Q : Result Error B → View → Type 0) (v : View)
    → Ensures m (Then f Q) v
    → Ensures (m >>= f) Q v
Ensures-bind (done (ok a)) f Q v h = h
Ensures-bind (done (err e)) f Q v h = h
Ensures-bind (call c k) f Q v h = After-mono c v (λ r w. Ensures-bind (k r) f Q w) h

pub Ensures-and_then :
    {A B : Type 0} (m : Program A) (f : A → Program B) (Q : B → View → Type 0) (v : View)
    → Ensures m (λ a w. Ensures (f a) Q w) v
    → Ensures (and_then m f) Q v
Ensures-and_then (done a) f Q v h = h
Ensures-and_then (call c k) f Q v h = After-mono c v (λ r w. Ensures-and_then (k r) f Q w) h
