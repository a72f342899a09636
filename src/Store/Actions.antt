-- ===== src/Store/Actions.antt =====
-- A program is a sequence of driver calls, each chosen by the answers before it. It can be run
-- against any server that behaves as documented.
use lens_chat_service.Prelude.{List, Result, ok, err}
use lens_chat_service.Mongo.{Op, AnswerOf, Collection}
use lens_chat_service.Schema.{Message, Channel, ChannelState, OutboxEvent, OutboxRelayLease}
use lens_chat_service.Response.{Error}
use lens_chat_service.Store.Indexes.{
  message_clash, channel_clash, state_clash, event_clash, lease_clash,
}

pub data Call : Type 0 where
  messages : Op Message → Call
  channels : Op Channel → Call
  states : Op ChannelState → Call
  outbox : Op OutboxEvent → Call
  leases : Op OutboxRelayLease → Call

abbrev pub Answer : Call → Type 0
Answer (messages o) = AnswerOf o
Answer (channels o) = AnswerOf o
Answer (states o) = AnswerOf o
Answer (outbox o) = AnswerOf o
Answer (leases o) = AnswerOf o

pub data Program (A : Type 0) : Type 0 where
  done : A → Program A
  call : (c : Call) → (Answer c → Program A) → Program A

-- A Go function that talks to the database and returns a value and an `error`.
abbrev pub Action : Type 0 → Type 0
Action A = Program (Result Error A)

abbrev pub return : {A : Type 0} → A → Action A
return a = done (ok a)

abbrev pub fail : {A : Type 0} → Error → Action A
fail e = done (err e)

-- `x, err := m; if err != nil { return err }`, and the rest with `x`.
infixl 5 ◌>>=◌
abbrev pub ◌>>=◌ : {A B : Type 0} → Action A → (A → Action B) → Action B
done (ok a) >>= f = f a
done (err e) >>= f = done (err e)
call c k >>= f = call c (λ r. k r >>= f)

-- The rest of a function that looks at the error itself.
abbrev pub and_then : {A B : Type 0} → Program A → (A → Program B) → Program B
and_then (done a) f = f a
and_then (call c k) f = call c (λ r. and_then (k r) f)

pub record Server : Type 1 where
  pub messages : Collection Message message_clash
  pub channels : Collection Channel channel_clash
  pub states : Collection ChannelState state_clash
  pub outbox : Collection OutboxEvent event_clash
  pub leases : Collection OutboxRelayLease lease_clash

-- The documents of the five collections.
pub record View : Type 0 where
  pub messages : List Message
  pub channels : List Channel
  pub states : List ChannelState
  pub outbox : List OutboxEvent
  pub leases : List OutboxRelayLease

module _ (server : Server) where
  pub record Db : Type 0 where
    pub messages : server.messages.State
    pub channels : server.channels.State
    pub states : server.states.State
    pub outbox : server.outbox.State
    pub leases : server.leases.State

  abbrev pub view : Db → View
  view db = record {
    messages = server.messages.docs db.messages;
    channels = server.channels.docs db.channels;
    states = server.states.docs db.states;
    outbox = server.outbox.docs db.outbox;
    leases = server.leases.docs db.leases;
  }

  abbrev pub perform : (c : Call) → Db → Answer c × Db
  perform (messages o) db =
      let (r, s) = server.messages.perform o db.messages in (r, record db { messages = s })
  perform (channels o) db =
      let (r, s) = server.channels.perform o db.channels in (r, record db { channels = s })
  perform (states o) db =
      let (r, s) = server.states.perform o db.states in (r, record db { states = s })
  perform (outbox o) db =
      let (r, s) = server.outbox.perform o db.outbox in (r, record db { outbox = s })
  perform (leases o) db =
      let (r, s) = server.leases.perform o db.leases in (r, record db { leases = s })

  unfoldable pub run : {A : Type 0} → Program A → Db → A × Db
  run (done a) db = (a, db)
  run (call c k) db = let (r, db') = perform c db in run (k r) db'
