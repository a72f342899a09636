-- ===== src/Message/ReadCursor/Failures.antt =====
-- `Read` answers no error of the driver that the driver did not answer.
use lens_chat_service.Prelude.{refl, inl, ok, err, Bool, true, false, ℤ, List, ◌∷◌, ◌++◌}
use lens_chat_service.GoText.{Bytes}
use lens_chat_service.Schema.{ObjectId, Channel, ChannelState}
use lens_chat_service.Mongo.{
  Reply, UpdateResult, DriverError, no_documents, duplicate_key, driver_failed,
}
use lens_chat_service.Store.{Action, PassesOn, IsHonest, reply_errors}
use lens_chat_service.Message.Events.{Fresh}
use lens_chat_service.Message.ReadCursor.{
  has_advanced, after_event, after_bump, after_state, read_back, after_advance, read,
}

abbrev Heard : {A : Type 0} → Reply A → Action ℤ → Type 0
Heard r m = (seen : List DriverError) → PassesOn (reply_errors r ++ seen) m

module _ (hex : ObjectId → Bytes) (fresh : Fresh) (ch : ObjectId) (user : Bytes) where
  event-Heard : (n : ℤ) (r : Reply (Unit {0})) → Heard r (after_event hex fresh ch user n r)
  unfolding after_event
  event-Heard n (ok _) seen = tt
  event-Heard n (err e) seen = inl refl

  bump-Heard : (n : ℤ) (r : Reply Channel) → Heard r (after_bump hex fresh ch user n r)
  unfolding after_bump
  bump-Heard n (ok c) seen = λ r. event-Heard n r seen
  bump-Heard n (err no_documents) seen = tt
  bump-Heard n (err duplicate_key) seen = inl refl
  bump-Heard n (err (driver_failed k)) seen = inl refl

  state-Heard :
      (advanced : Bool) (r : Reply ChannelState)
      → Heard r (after_state hex fresh ch user advanced r)
  unfolding after_state
  state-Heard true (ok s) seen = λ r. bump-Heard s.last_read_seq r seen
  state-Heard false (ok s) seen = tt
  state-Heard true (err e) seen = inl refl
  state-Heard false (err e) seen = inl refl

  read_back-IsHonest : (advanced : Bool) → IsHonest (read_back hex fresh ch user advanced)
  unfolding read_back
  read_back-IsHonest advanced seen = λ r. state-Heard advanced r seen

  advance-Heard : (r : Reply UpdateResult) → Heard r (after_advance hex fresh ch user r)
  unfolding after_advance
  advance-Heard (ok r) seen = read_back-IsHonest (has_advanced r) seen
  advance-Heard (err no_documents) seen = inl refl
  advance-Heard (err duplicate_key) seen = read_back-IsHonest false (duplicate_key ∷ seen)
  advance-Heard (err (driver_failed n)) seen = inl refl

  pub read-IsHonest : (seq : ℤ) → IsHonest (read hex fresh ch user seq)
  unfolding read
  read-IsHonest seq seen = λ r. advance-Heard r seen
