-- ===== src/Message/ReadCursor/Calls.antt =====
-- How many calls of the driver `Read` makes.
use lens_chat_service.Prelude.{ok, err, Bool, true, false, ℤ}
use lens_chat_service.GoText.{Bytes}
use lens_chat_service.Schema.{ObjectId, Channel, ChannelState}
use lens_chat_service.Mongo.{Reply, UpdateResult, no_documents, duplicate_key, driver_failed}
use lens_chat_service.Store.{AtMost}
use lens_chat_service.Message.Events.{Fresh}
use lens_chat_service.Message.ReadCursor.{
  has_advanced, after_event, after_bump, after_state, read_back, after_advance, read,
}

module _ (hex : ObjectId → Bytes) (fresh : Fresh) (ch : ObjectId) (user : Bytes) where
  event-AtMost : (n : ℤ) (r : Reply (Unit {0})) → AtMost 0 (after_event hex fresh ch user n r)
  unfolding after_event
  event-AtMost n (ok _) = tt
  event-AtMost n (err e) = tt

  bump-AtMost : (n : ℤ) (r : Reply Channel) → AtMost 1 (after_bump hex fresh ch user n r)
  unfolding after_bump
  bump-AtMost n (ok c) = λ r. event-AtMost n r
  bump-AtMost n (err no_documents) = tt
  bump-AtMost n (err duplicate_key) = tt
  bump-AtMost n (err (driver_failed k)) = tt

  state-AtMost :
      (advanced : Bool) (r : Reply ChannelState)
      → AtMost 2 (after_state hex fresh ch user advanced r)
  unfolding after_state
  state-AtMost true (ok s) = λ r. bump-AtMost s.last_read_seq r
  state-AtMost false (ok s) = tt
  state-AtMost true (err e) = tt
  state-AtMost false (err e) = tt

  read_back-AtMost : (advanced : Bool) → AtMost 3 (read_back hex fresh ch user advanced)
  unfolding read_back
  read_back-AtMost advanced = λ r. state-AtMost advanced r

  advance-AtMost : (r : Reply UpdateResult) → AtMost 3 (after_advance hex fresh ch user r)
  unfolding after_advance
  advance-AtMost (ok r) = read_back-AtMost (has_advanced r)
  advance-AtMost (err no_documents) = tt
  advance-AtMost (err duplicate_key) = read_back-AtMost false
  advance-AtMost (err (driver_failed n)) = tt

  pub read-AtMost : (seq : ℤ) → AtMost 4 (read hex fresh ch user seq)
  unfolding read
  read-AtMost seq = λ r. advance-AtMost r
