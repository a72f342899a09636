-- ===== src/Message/Create/NewMessage.antt =====
-- `Create` for a request that is not stored yet, with no other writer in between.
use lens_chat_service.Prelude.{
  ℕ, suc, ◌≡◌, refl, ap, subst, inl, inr, true, List, [], ◌∷◌, ◌++◌, none, ok, err, arith, ◌∙◌,
  IsIn, Bool-cases, ℤ, pos, eqb_ℤ, inc64, ◌<ℤ◌, ltb_ℤ,
}
use lens_chat_service.GoText.{Bytes}
use lens_chat_service.Schema.{ObjectId, Message, Channel, OutboxEvent, message_created}
use lens_chat_service.Mongo.{
  Reply, Found, Inserted, Modified, any_order, no_documents, duplicate_key, driver_failed,
  Updated-old, eq_of_clash,
}
use lens_chat_service.Store.{
  Action, View, Ensures, IsIndexed, same_request, message_clash, event_clash, channel_clash,
}
use lens_chat_service.Message.Events.{Fresh, outbox_event, message_data}
use lens_chat_service.Message.Queries.{in_channel, newest_first}
use lens_chat_service.Message.Create.{
  Saved, existing_of, settle, accepts, summarise, max_attempts, after_event, after_summary, finish,
  after_insert, insert_after, after_latest, after_channel, attempts, create,
}
use lens_chat_service.Message.Create.Spec.{IsReady, IsCreated, Creates, stamped, pointed_at}
use lens_chat_service.Message.Create.Steps.{
  Ensures-existing_or, Ensures-after_channel, Ensures-attempts,
}
use lens_chat_service.Message.Create.Candidate.{
  IsTop, IsCandidate, accepts-shape, candidate, no_clash, IsTop-of_latest, IsTop-of_summary,
}

summarise-pointed_at :
    (m : Message) (c : Channel) → c.last_message_seq <ℤ m.sequence → summarise m c ≡ pointed_at m c
unfolding summarise
summarise-pointed_at m c h =
    let newer : ltb_ℤ c.last_message_seq m.sequence ≡ true = ground arith in rw newer refl

module _ (hex : ObjectId → Bytes) (fresh : Fresh) (msg : Message) (v : View)
    (ready : IsReady fresh msg v) where
  abbrev Candidate : Message → Type 0
  Candidate m = IsCandidate hex fresh msg v ready m

  after_event_lem :
      (m : Message) (r : Reply (Unit {0})) (w : View)
      → IsCreated hex fresh msg m v w
      → Ensures (after_event hex fresh m r) (Creates hex fresh msg v) w
  unfolding after_event
  after_event_lem m (ok _) w h = inr (m, refl, h)
  after_event_lem m (err e) w h = inl tt

  after_summary_lem :
      (m : Message) (ms : List Message) (r : Reply Channel) (cs : List Channel)
      → Candidate m
      → ms ≡ v.messages ++ m ∷ []
      → Modified channel_clash (accepts msg) (summarise m) none v.channels r cs
      → Ensures
          (after_summary hex fresh m r)
          (Creates hex fresh msg v)
          (record v { messages = ms; channels = cs })
  unfolding after_summary
  after_summary_lem m ms (ok ch) cs cand em (inl (u, made)) = λ r ds d _. event r ds d
    where
      row : Channel → OutboxEvent
      row c = outbox_event hex fresh fresh.occurred_at message_created c (message_data hex c m)

      over : u.old.last_message_seq <ℤ m.sequence
      over = cand.over u.old (Updated-old u) u.matched

      pointed : summarise m u.old ≡ pointed_at m u.old
      pointed = summarise-pointed_at m u.old over

      event :
          (r : Reply (Unit {0})) (ds : List OutboxEvent)
          → Inserted event_clash (row ch) v.outbox r ds
          → Ensures
              (after_event hex fresh m r)
              (Creates hex fresh msg v)
              (record v { messages = ms; channels = cs; outbox = ds })
      event (ok _) ds d = after_event_lem m (ok tt) _ (record {
        request = cand.shape;
        stored = em;
        newest = cand.newest;
        summary = record {
          old = u.old;
          pre = u.pre;
          post = u.post;
          matched = u.matched;
          before = u.before;
          after = u.after ∙ ap (λ c. u.pre ++ c ∷ u.post) pointed;
        };
        following = elim cand.reached [
          | inl (x, i, here, s) ↦ inl (x, i, here, cand.next ∙ ap inc64 s)
          | inr every ↦ inr (cand.next ∙ ap inc64 (every u.old (Updated-old u) u.matched))
        ];
        advanced = over;
        announced = d ∙ ap (λ c. v.outbox ++ row c ∷ []) (made ∙ pointed);
        states = refl;
        leases = refl;
      })
      event (err e) ds d = unfold after_event in inl tt
  after_summary_lem m ms (ok ch) cs cand em (inr (h, _)) = absurd h
  after_summary_lem m ms (err no_documents) cs cand em (_, h) =
      cc (h ready.channel ready.listed, ready.accepted)
  after_summary_lem m ms (err duplicate_key) cs cand em d = inl tt
  after_summary_lem m ms (err (driver_failed n)) cs cand em d = inl tt

  finish_lem :
      (m : Message) (ms : List Message)
      → Candidate m
      → ms ≡ v.messages ++ m ∷ []
      → Ensures (finish hex fresh m) (Creates hex fresh msg v) (record v { messages = ms })
  unfolding finish
  finish_lem m ms cand em = elim (Bool-cases (eqb_ℤ m.sequence (pos 0))) [
    | inl e ↦ absurd (ground (arith, cand.positive))
    | inr e ↦ rw e λ r cs d _. after_summary_lem m ms r cs cand em (
        subst (λ q. Modified channel_clash q (summarise m) none v.channels r cs)
          (accepts-shape hex fresh msg v ready m cand.shape) d)
  ]

  insert_lem :
      (s : ℤ) (rest : Action Saved)
      → IsTop hex fresh msg v ready s
      → Ensures
          (insert_after hex fresh (stamped fresh msg msg.sequence) s rest)
          (Creates hex fresh msg v)
          v
  unfolding insert_after
  insert_lem s rest h = λ r ms d _. after r ms d
    where
      m : Message
      m = stamped fresh msg (inc64 s)

      after :
          (r : Reply (Unit {0})) (ms : List Message)
          → Inserted message_clash m v.messages r ms
          → Ensures
              (after_insert hex fresh (stamped fresh msg msg.sequence) m rest r)
              (Creates hex fresh msg v)
              (record v { messages = ms })
      after (ok _) ms d =
          unfold after_insert in finish_lem m ms (candidate hex fresh msg v ready s h) d
      after (err no_documents) ms d = unfold after_insert in inl tt
      after (err duplicate_key) ms (e, (x, i, clash)) =
          absurd (no_clash hex fresh msg v ready m x (candidate hex fresh msg v ready s h) i clash)
      after (err (driver_failed n)) ms d = unfold after_insert in inl tt

  -- One round of the loop, once its channel has been read.
  round_lem :
      (ch : Channel) (rest : Action Saved) (r : Reply Message)
      → IsIn ch v.channels
      → accepts msg ch ≡ true
      → ((c : Channel) → IsIn c v.channels → accepts msg c ≡ true → c ≡ ch)
      → Found (in_channel msg.channel_id) newest_first v.messages r
      → Ensures
          (after_latest hex fresh (stamped fresh msg msg.sequence) ch rest r)
          (Creates hex fresh msg v)
          v
  unfolding after_latest
  round_lem ch rest (ok latest) i a only f =
      insert_lem _ rest (IsTop-of_latest hex fresh msg v ready ch latest i a f only)
  round_lem ch rest (err no_documents) i a only f =
      insert_lem _ rest (IsTop-of_summary hex fresh msg v ready ch i a f only)
  round_lem ch rest (err duplicate_key) i a only f = inl tt
  round_lem ch rest (err (driver_failed n)) i a only f = inl tt

  -- Only one channel can accept the message.
  only_channel :
      (c ch : Channel)
      → IsIndexed v
      → IsIn c v.channels
      → IsIn ch v.channels
      → accepts msg c ≡ true
      → accepts msg ch ≡ true
      → c ≡ ch
  unfolding accepts channel_clash
  only_channel c ch unique i j a b =
      eq_of_clash channel_clash v.channels c ch unique.channels i j (ground arith) (ground arith)

  channel_lem :
      (rest : Action Saved) (r : Reply Channel)
      → IsIndexed v
      → Found (accepts msg) any_order v.channels r
      → Ensures
          (after_channel hex fresh (stamped fresh msg msg.sequence) rest r)
          (Creates hex fresh msg v)
          v
  unfolding after_channel
  channel_lem rest (ok ch) unique (i, a, _) =
      Ensures-after_channel (stamped fresh msg msg.sequence) (Creates hex fresh msg v) v hex fresh
        ch rest λ r f. round_lem ch rest r i a (λ c j b. only_channel c ch unique j i b a) f
  channel_lem rest (err no_documents) unique f = cc (f ready.channel ready.listed, ready.accepted)
  channel_lem rest (err duplicate_key) unique f = inl tt
  channel_lem rest (err (driver_failed n)) unique f = inl tt

  loop_lem :
      (n : ℕ)
      → IsIndexed v
      → Ensures
          (attempts hex fresh (suc n) (stamped fresh msg msg.sequence))
          (Creates hex fresh msg v)
          v
  unfolding accepts
  loop_lem n unique =
      Ensures-attempts (stamped fresh msg msg.sequence) (Creates hex fresh msg v) v hex fresh n
        λ r f. channel_lem _ r unique f

  settle_lem :
      (r : Reply Message)
      → IsIndexed v
      → Found (same_request msg) any_order v.messages r
      → Ensures
          (settle
            (existing_of msg r)
            (attempts hex fresh max_attempts (stamped fresh msg msg.sequence)))
          (Creates hex fresh msg v)
          v
  unfolding settle existing_of
  settle_lem (ok m) unique (i, h, _) = cc (ready.unseen m i)
  settle_lem (err no_documents) unique f = loop_lem 63 unique
  settle_lem (err duplicate_key) unique f = inl tt
  settle_lem (err (driver_failed n)) unique f = inl tt

-- With no other writer in between, a request that is not stored and whose sender may write
-- creates its message: it is stored with the sequence that is one more than the greatest of those of
-- its channel's messages and of the channel's summary, the summary is brought up to it, and one event that carries it and the
-- channel's next version is put at the end of the outbox. Nothing else changes. The only other
-- outcome is a failure of the driver.
pub create-Creates :
    (hex : ObjectId → Bytes) (fresh : Fresh) (msg : Message) (v : View)
    → IsIndexed v
    → IsReady fresh msg v
    → Ensures (create hex fresh msg) (Creates hex fresh msg v) v
unfolding create
create-Creates hex fresh msg v unique ready =
    Ensures-existing_or msg (Creates hex fresh msg v) v
      (attempts hex fresh max_attempts (stamped fresh msg msg.sequence))
      λ r f. settle_lem hex fresh msg v ready r unique f
