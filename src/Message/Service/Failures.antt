-- ===== src/Message/Service/Failures.antt =====
-- No request answers an error of the driver that the driver did not answer to it.
use lens_chat_service.Prelude.{
  refl, inl, ok, err, Option, none, some, List, ℤ, pos, ltb_ℤ, ◌||◌, ◌==◌, ◌++◌,
}
use lens_chat_service.GoText.{Bytes, text, str_eq}
use lens_chat_service.Schema.{ObjectId, Channel}
use lens_chat_service.Mongo.{Reply, DriverError, no_documents, duplicate_key, driver_failed}
use lens_chat_service.Response.{invalid, conflict, forbidden}
use lens_chat_service.Store.{
  done, return, fail, PassesOn, IsHonest, IsHonest-if, IsHonest-bind, reply_errors,
}
use lens_chat_service.Platform.{Platform, CreateMessageRequest, CreateAiReplyRequest}
use lens_chat_service.Channel.Service.Failures.{get-IsHonest}
use lens_chat_service.Message.Events.{Fresh}
use lens_chat_service.Message.Queries
use lens_chat_service.Message.Create.Failures.{create-IsHonest}
use lens_chat_service.Message.Mutate
use lens_chat_service.Message.Mutate.{is_none}
use lens_chat_service.Message.Mutate.Failures.{mutate-IsHonest}
use lens_chat_service.Message.ReadCursor.Failures.{read-IsHonest}
use lens_chat_service.Message.Service

not_found_heard :
    {A : Type 0} (r : Reply A) (seen : List DriverError)
    → PassesOn (reply_errors r ++ seen) (done (Queries.or_not_found r))
not_found_heard (ok a) seen = tt
not_found_heard (err no_documents) seen = tt
not_found_heard (err duplicate_key) seen = inl refl
not_found_heard (err (driver_failed n)) seen = inl refl

driver_heard :
    {A : Type 0} (r : Reply A) (seen : List DriverError)
    → PassesOn (reply_errors r ++ seen) (done (Queries.or_driver r))
driver_heard (ok a) seen = tt
driver_heard (err e) seen = inl refl

message-IsHonest : (id : ObjectId) → IsHonest (Queries.get id)
unfolding Queries.get
message-IsHonest id seen = λ r. not_found_heard r seen

list-IsHonest : (id : ObjectId) (limit before : ℤ) → IsHonest (Queries.list id limit before)
unfolding Queries.list
list-IsHonest id limit before seen = λ r. driver_heard r seen

or_invalid-IsHonest : (o : Option ObjectId) → IsHonest (Service.or_invalid o)
unfolding Service.or_invalid
or_invalid-IsHonest none seen = tt
or_invalid-IsHonest (some id) seen = tt

module _ (platform : Platform) where
  authorized-IsHonest : (actor id : Bytes) → IsHonest (Service.authorized platform actor id)
  unfolding Service.authorized Service.owned
  authorized-IsHonest actor id =
      IsHonest-bind _ _ (or_invalid-IsHonest (platform.from_hex id)) λ oid.
        IsHonest-bind _ _ (message-IsHonest oid) λ msg.
          IsHonest-bind _ _ (get-IsHonest platform actor (platform.hex msg.channel_id)) λ ch.
            IsHonest-if (str_eq msg.sender_id actor) (return msg) (fail forbidden) (λ seen. tt)
              λ seen. tt

  pub edit-IsHonest :
      (fresh : Fresh) (actor id content : Bytes)
      → IsHonest (Service.edit platform fresh actor id content)
  unfolding Service.edit Service.edit_read Mutate.edit
  edit-IsHonest fresh actor id content =
      IsHonest-if (Service.is_bad_content content) (fail invalid) _ (λ seen. tt)
        (IsHonest-bind _ _ (authorized-IsHonest actor id) λ msg.
          IsHonest-if (is_none msg.recalled_at) _ (fail conflict)
            (mutate-IsHonest platform.hex fresh _ msg content) λ seen. tt)

  pub recall-IsHonest :
      (fresh : Fresh) (actor id : Bytes) → IsHonest (Service.recall platform fresh actor id)
  unfolding Service.recall Service.recall_read Mutate.recall
  recall-IsHonest fresh actor id = IsHonest-bind _ _ (authorized-IsHonest actor id) λ msg.
      IsHonest-if (is_none msg.recalled_at) _ (return msg)
        (mutate-IsHonest platform.hex fresh _ msg (text "")) λ seen. tt

  pub read-IsHonest_service :
      (fresh : Fresh) (actor id : Bytes) (seq : ℤ)
      → IsHonest (Service.read platform fresh actor id seq)
  unfolding Service.read Service.read_in
  read-IsHonest_service fresh actor id seq =
      IsHonest-bind _ _ (get-IsHonest platform actor id) λ ch.
        IsHonest-if (ltb_ℤ seq (pos 0) || ltb_ℤ ch.last_message_seq seq) (fail invalid) _
          (λ seen. tt) (read-IsHonest platform.hex fresh ch.id actor seq)

  pub page-IsHonest :
      (actor id : Bytes) (limit before : ℤ) → IsHonest (Service.list platform actor id limit before)
  unfolding Service.list
  page-IsHonest actor id limit before =
      IsHonest-if (Service.is_bad_page (pos 100) limit before) (fail invalid) _ (λ seen. tt)
        (IsHonest-bind _ _ (get-IsHonest platform actor id) λ ch. list-IsHonest ch.id limit before)

  pub ai_page-IsHonest :
      (id photographer : Bytes) (limit before : ℤ)
      → IsHonest (Service.list_for_ai platform id photographer limit before)
  unfolding Service.list_for_ai
  ai_page-IsHonest id photographer limit before =
      IsHonest-if (Service.is_bad_page (pos 30) limit before) (fail invalid) _ (λ seen. tt)
        (IsHonest-bind _ _ (get-IsHonest platform photographer id)
          λ ch. IsHonest-bind _ _ (list-IsHonest ch.id limit before) λ ms seen. tt)

  parsed_reply-IsHonest :
      (ch : Channel) (o : Option ObjectId) → IsHonest (Service.parsed_reply ch o)
  unfolding Service.parsed_reply Service.same_channel
  parsed_reply-IsHonest ch none seen = tt
  parsed_reply-IsHonest ch (some id) seen =
      IsHonest-bind _ _ (message-IsHonest id)
        (λ reply.
          IsHonest-if (reply.channel_id == ch.id) (return id) (fail invalid) (λ seen. tt)
            (λ seen. tt))
        seen

  reply_of-IsHonest :
      (ch : Channel) (req : CreateMessageRequest) → IsHonest (Service.reply_of platform ch req)
  unfolding Service.reply_of
  reply_of-IsHonest ch req =
      IsHonest-if (str_eq req.reply_to_message_id (text "")) (return 0) _ (λ seen. tt)
        (parsed_reply-IsHonest ch (platform.from_hex req.reply_to_message_id))

  pub create-IsHonest_service :
      (fresh : Fresh) (actor id : Bytes) (req : CreateMessageRequest)
      → IsHonest (Service.create platform fresh actor id req)
  unfolding Service.create Service.create_in
  create-IsHonest_service fresh actor id req =
      IsHonest-bind _ _ (get-IsHonest platform actor id) λ ch.
        IsHonest-if (Service.is_bad_request req) (fail invalid) _ (λ seen. tt)
          (IsHonest-bind _ _ (reply_of-IsHonest ch req)
            λ reply. create-IsHonest platform.hex fresh _)

  pub create_ai_reply-IsHonest :
      (fresh : Fresh) (id photographer : Bytes) (req : CreateAiReplyRequest)
      → IsHonest (Service.create_ai_reply platform fresh id photographer req)
  unfolding Service.create_ai_reply Service.reply_to_source
  create_ai_reply-IsHonest fresh id photographer req =
      IsHonest-if (Service.is_bad_reply photographer req) (fail invalid) _ (λ seen. tt)
        (IsHonest-bind _ _ (get-IsHonest platform photographer id) λ ch.
          IsHonest-bind _ _ (or_invalid-IsHonest (platform.from_hex req.source_message_id)) λ oid.
            IsHonest-bind _ _ (message-IsHonest oid) λ source.
              IsHonest-if (Service.is_bad_source ch photographer source) (fail conflict) _
                (λ seen. tt) (create-IsHonest platform.hex fresh _))
