-- ===== src/Message/Mutate/Calls.antt =====
-- How many calls of the driver `Edit` and `Recall` make.
use lens_chat_service.Prelude.{ok, err}
use lens_chat_service.GoText.{Bytes}
use lens_chat_service.Schema.{ObjectId, Message, Channel, EventType}
use lens_chat_service.Mongo.{Reply, no_documents, duplicate_key, driver_failed}
use lens_chat_service.Store.{AtMost}
use lens_chat_service.Message.Events.{Fresh}
use lens_chat_service.Message.Mutate.{after_event, after_bump, after_revision, mutate}

module _ (hex : ObjectId → Bytes) (fresh : Fresh) (kind : EventType) where
  event-AtMost : (m : Message) (r : Reply (Unit {0})) → AtMost 0 (after_event hex fresh kind m r)
  unfolding after_event
  event-AtMost m (ok _) = tt
  event-AtMost m (err e) = tt

  bump-AtMost : (m : Message) (r : Reply Channel) → AtMost 1 (after_bump hex fresh kind m r)
  unfolding after_bump
  bump-AtMost m (ok ch) = λ r. event-AtMost m r
  bump-AtMost m (err no_documents) = tt
  bump-AtMost m (err duplicate_key) = tt
  bump-AtMost m (err (driver_failed n)) = tt

  revision-AtMost : (r : Reply Message) → AtMost 2 (after_revision hex fresh kind r)
  unfolding after_revision
  revision-AtMost (ok m) = λ r. bump-AtMost m r
  revision-AtMost (err no_documents) = tt
  revision-AtMost (err duplicate_key) = tt
  revision-AtMost (err (driver_failed n)) = tt

  pub mutate-AtMost :
      (msg : Message) (content : Bytes) → AtMost 3 (mutate hex fresh kind msg content)
  unfolding mutate
  mutate-AtMost msg content = λ r. revision-AtMost r
