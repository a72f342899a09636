-- ===== src/Channel/Service/Failures.antt =====
-- No request of the channel service answers an error of the driver that the driver did not answer.
use lens_chat_service.Prelude.{refl, inl, ok, err, Option, none, some, List, ◌∷◌, ◌++◌}
use lens_chat_service.GoText.{Bytes}
use lens_chat_service.Schema.{ObjectId, Time, Channel}
use lens_chat_service.Mongo.{Reply, DriverError, no_documents, duplicate_key, driver_failed}
use lens_chat_service.Response.{invalid, not_found}
use lens_chat_service.Store.{
  done, return, fail, PassesOn, IsHonest, IsHonest-if, IsHonest-bind, reply_errors,
}
use lens_chat_service.Platform.{Platform}
use lens_chat_service.Channel.Repo
use lens_chat_service.Channel.Service

channel_heard :
    (r : Reply Channel) (seen : List DriverError)
    → PassesOn (reply_errors r ++ seen) (done (Repo.or_not_found r))
channel_heard (ok a) seen = tt
channel_heard (err no_documents) seen = tt
channel_heard (err duplicate_key) seen = inl refl
channel_heard (err (driver_failed n)) seen = inl refl

usable-IsHonest : (actor : Bytes) (ch : Channel) → IsHonest (Service.usable actor ch)
unfolding Service.usable
usable-IsHonest actor ch =
    IsHonest-if (Service.may_use actor ch) (return ch) (fail not_found) (λ seen. tt) λ seen. tt

get_id-IsHonest : (actor : Bytes) (o : Option ObjectId) → IsHonest (Service.get_id actor o)
unfolding Service.get_id Repo.get
get_id-IsHonest actor none seen = tt
get_id-IsHonest actor (some id) seen =
    IsHonest-bind (Repo.get id) (Service.usable actor) (λ seen r. channel_heard r seen)
      (usable-IsHonest actor) seen

driver_heard :
    {A : Type 0} (r : Reply A) (seen : List DriverError)
    → PassesOn (reply_errors r ++ seen) (done (Repo.or_driver r))
driver_heard (ok a) seen = tt
driver_heard (err e) seen = inl refl

pub list-IsHonest : (actor : Bytes) → IsHonest (Service.list actor)
unfolding Service.list Repo.list
list-IsHonest actor seen = λ r. driver_heard r seen

upsert_heard :
    (key : Bytes) (r : Reply Channel) (seen : List DriverError)
    → PassesOn (reply_errors r ++ seen) (Repo.after_upsert key r)
unfolding Repo.after_upsert
upsert_heard key (ok ch) seen = tt
upsert_heard key (err no_documents) seen = inl refl
upsert_heard key (err duplicate_key) seen = λ r. driver_heard r (duplicate_key ∷ seen)
upsert_heard key (err (driver_failed n)) seen = inl refl

module _ (platform : Platform) where
  pub create-IsHonest :
      (id : ObjectId) (now : Time) (actor peer : Bytes)
      → IsHonest (Service.create platform id now actor peer)
  unfolding Service.create Repo.get_or_create
  create-IsHonest id now actor peer =
      IsHonest-if (Service.is_bad_peer actor peer) (fail invalid) _ (λ seen. tt)
        λ seen r. upsert_heard _ r seen

  pub get-IsHonest : (actor id : Bytes) → IsHonest (Service.get platform actor id)
  unfolding Service.get
  get-IsHonest actor id = get_id-IsHonest actor (platform.from_hex id)
