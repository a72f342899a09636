-- ===== src/Message/Create/Failures.antt =====
-- `Create` answers no error of the driver that the driver did not answer.
use lens_chat_service.Prelude.{
  List, ◌∷◌, ◌++◌, ℕ, zero, suc, refl, inl, ℤ, pos, eqb_ℤ, inc64, ok, err, Bool, true, false,
  if◌then◌else◌,
}
use lens_chat_service.GoText.{Bytes, str_eq}
use lens_chat_service.Schema.{ObjectId, Message, Channel}
use lens_chat_service.Mongo.{Reply, DriverError, no_documents, duplicate_key, driver_failed}
use lens_chat_service.Response.{conflict}
use lens_chat_service.Store.{Action, fail, PassesOn, IsHonest, IsHonest-if, reply_errors}
use lens_chat_service.Message.Events.{Fresh}
use lens_chat_service.Message.Create.{
  Saved, existing_of, settle, existing_or, after_event, after_summary, finish, after_insert,
  insert_after, after_latest, after_channel, attempts, max_attempts, create,
}

abbrev Heard : {A : Type 0} → Reply A → Action Saved → Type 0
Heard r m = (seen : List DriverError) → PassesOn (reply_errors r ++ seen) m

same_hash :
    (b : Bool) (m : Message) (rest : Action Saved)
    → IsHonest (settle (if b then ok m else err conflict) rest)
unfolding settle
same_hash true m rest seen = tt
same_hash false m rest seen = tt

settled :
    (msg : Message) (rest : Action Saved) (r : Reply Message)
    → IsHonest rest
    → Heard r (settle (existing_of msg r) rest)
unfolding settle existing_of
settled msg rest (ok m) h seen = same_hash (str_eq m.request_hash msg.request_hash) m rest seen
settled msg rest (err no_documents) h seen = h (no_documents ∷ seen)
settled msg rest (err duplicate_key) h seen = inl refl
settled msg rest (err (driver_failed n)) h seen = inl refl

existing_or-IsHonest :
    (msg : Message) (rest : Action Saved) → IsHonest rest → IsHonest (existing_or msg rest)
unfolding existing_or
existing_or-IsHonest msg rest h seen = λ r. settled msg rest r h seen

module _ (hex : ObjectId → Bytes) (fresh : Fresh) where
  event-Heard : (msg : Message) (r : Reply (Unit {0})) → Heard r (after_event hex fresh msg r)
  unfolding after_event
  event-Heard msg (ok _) seen = tt
  event-Heard msg (err e) seen = inl refl

  summary-Heard : (msg : Message) (r : Reply Channel) → Heard r (after_summary hex fresh msg r)
  unfolding after_summary
  summary-Heard msg (ok ch) seen = λ r. event-Heard msg r seen
  summary-Heard msg (err no_documents) seen = λ r. tt
  summary-Heard msg (err duplicate_key) seen = inl refl
  summary-Heard msg (err (driver_failed n)) seen = inl refl

  finish-IsHonest : (msg : Message) → IsHonest (finish hex fresh msg)
  unfolding finish
  finish-IsHonest msg =
      IsHonest-if (eqb_ℤ msg.sequence (pos 0)) (fail conflict) _ (λ seen. tt)
        λ seen r. summary-Heard msg r seen

  insert-Heard :
      (msg candidate : Message) (rest : Action Saved) (r : Reply (Unit {0}))
      → IsHonest rest
      → Heard r (after_insert hex fresh msg candidate rest r)
  unfolding after_insert
  insert-Heard msg candidate rest (ok _) h seen = finish-IsHonest candidate seen
  insert-Heard msg candidate rest (err no_documents) h seen = inl refl
  insert-Heard msg candidate rest (err duplicate_key) h seen =
      existing_or-IsHonest msg rest h (duplicate_key ∷ seen)
  insert-Heard msg candidate rest (err (driver_failed n)) h seen = inl refl

  insert_after-IsHonest :
      (msg : Message) (s : ℤ) (rest : Action Saved)
      → IsHonest rest
      → IsHonest (insert_after hex fresh msg s rest)
  unfolding insert_after
  insert_after-IsHonest msg s rest h seen =
      λ r. insert-Heard msg (record msg { sequence = inc64 s }) rest r h seen

  latest-Heard :
      (msg : Message) (ch : Channel) (rest : Action Saved) (r : Reply Message)
      → IsHonest rest
      → Heard r (after_latest hex fresh msg ch rest r)
  unfolding after_latest
  latest-Heard msg ch rest (ok latest) h seen = insert_after-IsHonest msg _ rest h seen
  latest-Heard msg ch rest (err no_documents) h seen =
      insert_after-IsHonest msg ch.last_message_seq rest h (no_documents ∷ seen)
  latest-Heard msg ch rest (err duplicate_key) h seen = inl refl
  latest-Heard msg ch rest (err (driver_failed n)) h seen = inl refl

  channel-Heard :
      (msg : Message) (rest : Action Saved) (r : Reply Channel)
      → IsHonest rest
      → Heard r (after_channel hex fresh msg rest r)
  unfolding after_channel
  channel-Heard msg rest (ok ch) h seen = λ r. latest-Heard msg ch rest r h seen
  channel-Heard msg rest (err no_documents) h seen = tt
  channel-Heard msg rest (err duplicate_key) h seen = inl refl
  channel-Heard msg rest (err (driver_failed n)) h seen = inl refl

  attempts-IsHonest : (n : ℕ) (msg : Message) → IsHonest (attempts hex fresh n msg)
  unfolding attempts
  attempts-IsHonest zero msg seen = finish-IsHonest msg seen
  attempts-IsHonest (suc n) msg seen =
      λ r. channel-Heard msg (attempts hex fresh n msg) r (attempts-IsHonest n msg) seen

  pub create-IsHonest : (msg : Message) → IsHonest (create hex fresh msg)
  unfolding create
  create-IsHonest msg = existing_or-IsHonest msg _ (attempts-IsHonest max_attempts _)
