-- ===== src/Channel/Service/Calls.antt =====
-- How many calls of the driver the requests of the channel service make.
use lens_chat_service.Prelude.{Option, none, some, ok, err, arith}
use lens_chat_service.GoText.{Bytes}
use lens_chat_service.Schema.{ObjectId, Time, Channel}
use lens_chat_service.Mongo.{Reply, no_documents, duplicate_key, driver_failed}
use lens_chat_service.Response.{invalid, not_found}
use lens_chat_service.Store.{return, fail, AtMost, AtMost-if, AtMost-bind}
use lens_chat_service.Platform.{Platform}
use lens_chat_service.Channel.Repo
use lens_chat_service.Channel.Service

pub list-AtMost : (actor : Bytes) → AtMost 1 (Service.list actor)
unfolding Service.list Repo.list
list-AtMost actor = λ r. tt

usable-AtMost : (actor : Bytes) (ch : Channel) → AtMost 0 (Service.usable actor ch)
unfolding Service.usable
usable-AtMost actor ch = AtMost-if (Service.may_use actor ch) (return ch) (fail not_found) 0 tt tt

get_id-AtMost : (actor : Bytes) (o : Option ObjectId) → AtMost 1 (Service.get_id actor o)
unfolding Service.get_id Repo.get
get_id-AtMost actor none = tt
get_id-AtMost actor (some id) =
    AtMost-bind (Repo.get id) (Service.usable actor) 1 0 1 (omega arith) (λ r. tt)
      (usable-AtMost actor)

upsert-AtMost : (key : Bytes) (r : Reply Channel) → AtMost 1 (Repo.after_upsert key r)
unfolding Repo.after_upsert
upsert-AtMost key (ok ch) = tt
upsert-AtMost key (err no_documents) = tt
upsert-AtMost key (err duplicate_key) = λ r. tt
upsert-AtMost key (err (driver_failed n)) = tt

module _ (platform : Platform) where
  pub create-AtMost :
      (id : ObjectId) (now : Time) (actor peer : Bytes)
      → AtMost 2 (Service.create platform id now actor peer)
  unfolding Service.create Repo.get_or_create
  create-AtMost id now actor peer =
      AtMost-if (Service.is_bad_peer actor peer) (fail invalid) _ 2 tt λ r. upsert-AtMost _ r

  pub get-AtMost : (actor id : Bytes) → AtMost 1 (Service.get platform actor id)
  unfolding Service.get
  get-AtMost actor id = get_id-AtMost actor (platform.from_hex id)
