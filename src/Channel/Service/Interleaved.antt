-- ===== src/Channel/Service/Interleaved.antt =====
-- The requests of the channel service next to other requests.
use lens_chat_service.Prelude.{Option, none, some, ok, err, pos}
use lens_chat_service.GoText.{Bytes}
use lens_chat_service.Schema.{ObjectId, Time, Channel}
use lens_chat_service.Mongo.{Reply, any_order, no_documents, duplicate_key, driver_failed}
use lens_chat_service.Response.{invalid, not_found}
use lens_chat_service.Store.{View, done, return, fail}
use lens_chat_service.History.{
  ChannelNext-refl, Abides, Abides-if, Abides-bind, Abides-find_channel, Abides-list_channels,
  Abides-upsert_channel,
}
use lens_chat_service.Platform.{Platform}
use lens_chat_service.Channel.Repo
use lens_chat_service.Channel.Service

module _ (hex : ObjectId → Bytes) where
  upsert-Abides :
      (key : Bytes) (r : Reply Channel) (v : View) → Abides hex v (Repo.after_upsert key r)
  unfolding Repo.after_upsert
  upsert-Abides key (ok ch) v = tt
  upsert-Abides key (err no_documents) v = tt
  upsert-Abides key (err duplicate_key) v =
      Abides-find_channel hex v (Repo.has_key key) any_order (λ r. done (Repo.or_driver r))
        λ r w e. tt
  upsert-Abides key (err (driver_failed n)) v = tt

  get_or_create-Abides :
      (id : ObjectId) (now : Time) (pair : Bytes × Bytes) (key : Bytes) (v : View)
      → Abides hex v (Repo.get_or_create id now pair key)
  unfolding Repo.get_or_create
  get_or_create-Abides id now pair key v =
      Abides-upsert_channel hex v (Repo.has_key key) (λ ch. ch)
        (some (Repo.new_channel id now pair key)) (Repo.after_upsert key)
        (λ c _. ChannelNext-refl c) λ r w e. upsert-Abides key r w

  stored-Abides : (id : ObjectId) (v : View) → Abides hex v (Repo.get id)
  unfolding Repo.get
  stored-Abides id v =
      Abides-find_channel hex v (Repo.has_id id) any_order (λ r. done (Repo.or_not_found r))
        λ r w e. tt

  usable-Abides : (actor : Bytes) (ch : Channel) (v : View) → Abides hex v (Service.usable actor ch)
  unfolding Service.usable
  usable-Abides actor ch v =
      Abides-if hex (Service.may_use actor ch) (return ch) (fail not_found) v tt tt

  get_id-Abides :
      (actor : Bytes) (o : Option ObjectId) (v : View) → Abides hex v (Service.get_id actor o)
  unfolding Service.get_id
  get_id-Abides actor none v = tt
  get_id-Abides actor (some id) v =
      Abides-bind hex (Repo.get id) (Service.usable actor) v (stored-Abides id v)
        λ ch w e. usable-Abides actor ch w

  pub list-Abides : (actor : Bytes) (v : View) → Abides hex v (Service.list actor)
  unfolding Service.list Repo.list
  list-Abides actor v =
      Abides-list_channels hex v (Repo.is_listed actor) Repo.latest_first (pos 100)
        (λ r. done (Repo.or_driver r)) λ r w e. tt

module _ (platform : Platform) where
  pub create-Abides :
      (id : ObjectId) (now : Time) (actor peer : Bytes) (v : View)
      → Abides platform.hex v (Service.create platform id now actor peer)
  unfolding Service.create
  create-Abides id now actor peer v =
      Abides-if platform.hex (Service.is_bad_peer actor peer) (fail invalid) _ v tt
        (get_or_create-Abides platform.hex id now _ _ v)

  pub get-Abides :
      (actor id : Bytes) (v : View) → Abides platform.hex v (Service.get platform actor id)
  unfolding Service.get
  get-Abides actor id v = get_id-Abides platform.hex actor (platform.from_hex id) v
