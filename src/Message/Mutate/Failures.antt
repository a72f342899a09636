-- ===== src/Message/Mutate/Failures.antt =====
-- `Edit` and `Recall` answer no error of the driver that the driver did not answer.
use lens_chat_service.Prelude.{refl, inl, ok, err, List, ◌++◌}
use lens_chat_service.GoText.{Bytes}
use lens_chat_service.Schema.{ObjectId, Message, Channel, EventType}
use lens_chat_service.Mongo.{Reply, DriverError, no_documents, duplicate_key, driver_failed}
use lens_chat_service.Store.{Action, PassesOn, IsHonest, reply_errors}
use lens_chat_service.Message.Events.{Fresh}
use lens_chat_service.Message.Mutate.{after_event, after_bump, after_revision, mutate}

abbrev Heard : {A : Type 0} → Reply A → Action Message → Type 0
Heard r m = (seen : List DriverError) → PassesOn (reply_errors r ++ seen) m

module _ (hex : ObjectId → Bytes) (fresh : Fresh) (kind : EventType) where
  event-Heard : (m : Message) (r : Reply (Unit {0})) → Heard r (after_event hex fresh kind m r)
  unfolding after_event
  event-Heard m (ok _) seen = tt
  event-Heard m (err e) seen = inl refl

  bump-Heard : (m : Message) (r : Reply Channel) → Heard r (after_bump hex fresh kind m r)
  unfolding after_bump
  bump-Heard m (ok ch) seen = λ r. event-Heard m r seen
  bump-Heard m (err no_documents) seen = tt
  bump-Heard m (err duplicate_key) seen = inl refl
  bump-Heard m (err (driver_failed n)) seen = inl refl

  revision-Heard : (r : Reply Message) → Heard r (after_revision hex fresh kind r)
  unfolding after_revision
  revision-Heard (ok m) seen = λ r. bump-Heard m r seen
  revision-Heard (err no_documents) seen = tt
  revision-Heard (err duplicate_key) seen = inl refl
  revision-Heard (err (driver_failed n)) seen = inl refl

  pub mutate-IsHonest :
      (msg : Message) (content : Bytes) → IsHonest (mutate hex fresh kind msg content)
  unfolding mutate
  mutate-IsHonest msg content seen = λ r. revision-Heard r seen
