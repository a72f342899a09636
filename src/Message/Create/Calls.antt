-- ===== src/Message/Create/Calls.antt =====
-- How many calls of the driver `Create` makes.
use lens_chat_service.Prelude.{
  ℕ, zero, suc, ◌≤◌, arith, ℤ, pos, eqb_ℤ, inc64, ok, err, Bool, true, false, if◌then◌else◌,
}
use lens_chat_service.GoText.{Bytes, str_eq}
use lens_chat_service.Schema.{ObjectId, Message, Channel}
use lens_chat_service.Mongo.{Reply, no_documents, duplicate_key, driver_failed}
use lens_chat_service.Response.{conflict}
use lens_chat_service.Store.{Action, fail, AtMost, AtMost-more, AtMost-if}
use lens_chat_service.Message.Events.{Fresh}
use lens_chat_service.Message.Create.{
  Saved, existing_of, settle, existing_or, after_event, after_summary, finish, after_insert,
  insert_after, after_latest, after_channel, attempts, max_attempts, create,
}

same_hash :
    (b : Bool) (m : Message) (rest : Action Saved) (n : ℕ)
    → AtMost n (settle (if b then ok m else err conflict) rest)
unfolding settle
same_hash true m rest n = tt
same_hash false m rest n = tt

settle-AtMost :
    (msg : Message) (rest : Action Saved) (r : Reply Message) (n : ℕ)
    → AtMost n rest
    → AtMost n (settle (existing_of msg r) rest)
unfolding settle existing_of
settle-AtMost msg rest (ok m) n h = same_hash (str_eq m.request_hash msg.request_hash) m rest n
settle-AtMost msg rest (err no_documents) n h = h
settle-AtMost msg rest (err duplicate_key) n h = tt
settle-AtMost msg rest (err (driver_failed k)) n h = tt

existing_or-AtMost :
    (msg : Message) (rest : Action Saved) (n : ℕ)
    → AtMost n rest
    → AtMost (suc n) (existing_or msg rest)
unfolding existing_or
existing_or-AtMost msg rest n h = λ r. settle-AtMost msg rest r n h

module _ (hex : ObjectId → Bytes) (fresh : Fresh) where
  event-AtMost : (msg : Message) (r : Reply (Unit {0})) → AtMost 0 (after_event hex fresh msg r)
  unfolding after_event
  event-AtMost msg (ok _) = tt
  event-AtMost msg (err e) = tt

  summary-AtMost : (msg : Message) (r : Reply Channel) → AtMost 1 (after_summary hex fresh msg r)
  unfolding after_summary
  summary-AtMost msg (ok ch) = λ r. event-AtMost msg r
  summary-AtMost msg (err no_documents) = λ r. tt
  summary-AtMost msg (err duplicate_key) = tt
  summary-AtMost msg (err (driver_failed n)) = tt

  finish-AtMost : (msg : Message) → AtMost 2 (finish hex fresh msg)
  unfolding finish
  finish-AtMost msg =
      AtMost-if (eqb_ℤ msg.sequence (pos 0)) (fail conflict) _ 2 tt λ r. summary-AtMost msg r

  module _ (msg : Message) (rest : Action Saved) (n : ℕ) (two : 2 ≤ n) (h : AtMost n rest) where
    insert-AtMost :
        (candidate : Message) (r : Reply (Unit {0}))
        → AtMost (suc n) (after_insert hex fresh msg candidate rest r)
    unfolding after_insert
    insert-AtMost candidate (ok _) =
        AtMost-more (finish hex fresh candidate) 2 (suc n) (omega (arith, two))
          (finish-AtMost candidate)
    insert-AtMost candidate (err no_documents) = tt
    insert-AtMost candidate (err duplicate_key) = existing_or-AtMost msg rest n h
    insert-AtMost candidate (err (driver_failed k)) = tt

    insert_after-AtMost : (s : ℤ) → AtMost (suc (suc n)) (insert_after hex fresh msg s rest)
    unfolding insert_after
    insert_after-AtMost s = λ r. insert-AtMost (record msg { sequence = inc64 s }) r

    latest-AtMost :
        (ch : Channel) (r : Reply Message)
        → AtMost (suc (suc n)) (after_latest hex fresh msg ch rest r)
    unfolding after_latest
    latest-AtMost ch (ok latest) = insert_after-AtMost _
    latest-AtMost ch (err no_documents) = insert_after-AtMost ch.last_message_seq
    latest-AtMost ch (err duplicate_key) = tt
    latest-AtMost ch (err (driver_failed k)) = tt

    channel-AtMost :
        (r : Reply Channel) → AtMost (suc (suc (suc n))) (after_channel hex fresh msg rest r)
    unfolding after_channel
    channel-AtMost (ok ch) = λ r. latest-AtMost ch r
    channel-AtMost (err no_documents) = tt
    channel-AtMost (err duplicate_key) = tt
    channel-AtMost (err (driver_failed k)) = tt

  -- Four calls in a round, and two after the last.
  abbrev of_rounds : ℕ → ℕ
  of_rounds zero = 2
  of_rounds (suc n) = suc (suc (suc (suc (of_rounds n))))

  two-of_rounds : (n : ℕ) → 2 ≤ of_rounds n
  two-of_rounds zero = omega arith
  two-of_rounds (suc n) = omega (arith, two-of_rounds n)

  attempts-AtMost : (n : ℕ) (msg : Message) → AtMost (of_rounds n) (attempts hex fresh n msg)
  unfolding attempts
  attempts-AtMost zero msg = finish-AtMost msg
  attempts-AtMost (suc n) msg = λ r.
      channel-AtMost msg (attempts hex fresh n msg) (of_rounds n) (two-of_rounds n)
        (attempts-AtMost n msg) r

  pub create-AtMost : (msg : Message) → AtMost 259 (create hex fresh msg)
  unfolding create
  create-AtMost msg = existing_or-AtMost msg _ 258 (attempts-AtMost max_attempts _)
