-- ===== src/Message/Service/Interleaved.antt =====
-- The requests of the message service next to other requests.
use lens_chat_service.Prelude.{refl, Option, none, some, ℤ, pos, ltb_ℤ, ◌||◌, ◌==◌}
use lens_chat_service.GoText.{Bytes, text, str_eq}
use lens_chat_service.Schema.{ObjectId, Message, Channel}
use lens_chat_service.Mongo.{any_order}
use lens_chat_service.Response.{invalid, conflict, forbidden}
use lens_chat_service.Store.{View, done, return, fail}
use lens_chat_service.History.{
  Abides, Abides-if, Abides-bind, Abides-find_message, Abides-list_messages,
}
use lens_chat_service.Platform.{Platform, CreateMessageRequest, CreateAiReplyRequest}
use lens_chat_service.Channel.Service.Interleaved.{get-Abides}
use lens_chat_service.Message.Events.{Fresh}
use lens_chat_service.Message.Queries
use lens_chat_service.Message.Create.Interleaved.{create-Abides}
use lens_chat_service.Message.Mutate
use lens_chat_service.Message.Mutate.{is_none}
use lens_chat_service.Message.Mutate.Interleaved.{mutate-Abides}
use lens_chat_service.Message.ReadCursor.Interleaved.{read-Abides}
use lens_chat_service.Message.Service

module _ (hex : ObjectId → Bytes) where
  message-Abides : (id : ObjectId) (v : View) → Abides hex v (Queries.get id)
  unfolding Queries.get
  message-Abides id v =
      Abides-find_message hex v (Queries.has_id id) any_order (λ r. done (Queries.or_not_found r))
        λ r w e. tt

  messages-Abides :
      (id : ObjectId) (limit before : ℤ) (v : View) → Abides hex v (Queries.list id limit before)
  unfolding Queries.list
  messages-Abides id limit before v =
      Abides-list_messages hex v (Queries.list_filter id before) Queries.newest_first limit
        (λ r. done (Queries.or_driver r)) λ r w e. tt

  or_invalid-Abides : (o : Option ObjectId) (v : View) → Abides hex v (Service.or_invalid o)
  unfolding Service.or_invalid
  or_invalid-Abides none v = tt
  or_invalid-Abides (some id) v = tt

  owned-Abides : (actor : Bytes) (msg : Message) (v : View) → Abides hex v (Service.owned actor msg)
  unfolding Service.owned
  owned-Abides actor msg v =
      Abides-if hex (str_eq msg.sender_id actor) (return msg) (fail forbidden) v tt tt

  same_channel-Abides :
      (ch : Channel) (id : ObjectId) (reply : Message) (v : View)
      → Abides hex v (Service.same_channel ch id reply)
  unfolding Service.same_channel
  same_channel-Abides ch id reply v =
      Abides-if hex (reply.channel_id == ch.id) (return id) (fail invalid) v tt tt

  parsed_reply-Abides :
      (ch : Channel) (o : Option ObjectId) (v : View) → Abides hex v (Service.parsed_reply ch o)
  unfolding Service.parsed_reply
  parsed_reply-Abides ch none v = tt
  parsed_reply-Abides ch (some id) v =
      Abides-bind hex (Queries.get id) (Service.same_channel ch id) v (message-Abides id v)
        λ reply w e. same_channel-Abides ch id reply w

module _ (platform : Platform) where
  authorized-Abides :
      (actor id : Bytes) (v : View) → Abides platform.hex v (Service.authorized platform actor id)
  unfolding Service.authorized
  authorized-Abides actor id v =
      Abides-bind platform.hex _ _ v (or_invalid-Abides platform.hex (platform.from_hex id) v)
        λ oid w _. Abides-bind platform.hex _ _ w (message-Abides platform.hex oid w) λ msg x _.
          Abides-bind platform.hex _ _ x (get-Abides platform actor (platform.hex msg.channel_id) x)
            λ ch y _. owned-Abides platform.hex actor msg y

  module _ (fresh : Fresh) where
    pub edit-Abides :
        (actor id content : Bytes) (v : View)
        → Abides platform.hex v (Service.edit platform fresh actor id content)
    unfolding Service.edit Service.edit_read Mutate.edit
    edit-Abides actor id content v =
        Abides-if platform.hex (Service.is_bad_content content) (fail invalid) _ v tt (
          Abides-bind platform.hex _ _ v (authorized-Abides actor id v) λ msg w _.
            Abides-if platform.hex (is_none msg.recalled_at) _ (fail conflict) w
              (mutate-Abides platform.hex fresh _ msg content w) tt)

    pub recall-Abides :
        (actor id : Bytes) (v : View)
        → Abides platform.hex v (Service.recall platform fresh actor id)
    unfolding Service.recall Service.recall_read Mutate.recall
    recall-Abides actor id v =
        Abides-bind platform.hex _ _ v (authorized-Abides actor id v) λ msg w _.
          Abides-if platform.hex (is_none msg.recalled_at) _ (return msg) w
            (mutate-Abides platform.hex fresh _ msg (text "") w) tt

    pub read-Abides_service :
        (actor id : Bytes) (seq : ℤ) (v : View)
        → Abides platform.hex v (Service.read platform fresh actor id seq)
    unfolding Service.read Service.read_in
    read-Abides_service actor id seq v =
        Abides-bind platform.hex _ _ v (get-Abides platform actor id v) λ ch w _.
          Abides-if platform.hex (ltb_ℤ seq (pos 0) || ltb_ℤ ch.last_message_seq seq) (fail invalid)
            _ w tt (read-Abides platform.hex fresh ch.id actor seq w)

    reply_of-Abides :
        (ch : Channel) (req : CreateMessageRequest) (v : View)
        → Abides platform.hex v (Service.reply_of platform ch req)
    unfolding Service.reply_of
    reply_of-Abides ch req v =
        Abides-if platform.hex (str_eq req.reply_to_message_id (text "")) (return 0) _ v tt
          (parsed_reply-Abides platform.hex ch (platform.from_hex req.reply_to_message_id) v)

    pub create-Abides_service :
        (actor id : Bytes) (req : CreateMessageRequest) (v : View)
        → Abides platform.hex v (Service.create platform fresh actor id req)
    unfolding Service.create Service.create_in Service.user_message
    create-Abides_service actor id req v =
        Abides-bind platform.hex _ _ v (get-Abides platform actor id v) λ ch w _.
          Abides-if platform.hex (Service.is_bad_request req) (fail invalid) _ w tt (
            Abides-bind platform.hex _ _ w (reply_of-Abides ch req w)
              λ reply x _. create-Abides platform.hex fresh _ x refl)

    pub create_ai_reply-Abides :
        (id photographer : Bytes) (req : CreateAiReplyRequest) (v : View)
        → Abides platform.hex v (Service.create_ai_reply platform fresh id photographer req)
    unfolding Service.create_ai_reply Service.reply_to_source Service.ai_message
    create_ai_reply-Abides id photographer req v =
        Abides-if platform.hex (Service.is_bad_reply photographer req) (fail invalid) _ v tt (
          Abides-bind platform.hex _ _ v (get-Abides platform photographer id v) λ ch w _.
            Abides-bind platform.hex _ _ w
              (or_invalid-Abides platform.hex (platform.from_hex req.source_message_id) w)
              λ oid x _.
                Abides-bind platform.hex _ _ x (message-Abides platform.hex oid x) λ source y _.
                  Abides-if platform.hex (Service.is_bad_source ch photographer source)
                    (fail conflict) _ y tt (create-Abides platform.hex fresh _ y refl))

  pub list-Abides :
      (actor id : Bytes) (limit before : ℤ) (v : View)
      → Abides platform.hex v (Service.list platform actor id limit before)
  unfolding Service.list
  list-Abides actor id limit before v =
      Abides-if platform.hex (Service.is_bad_page (pos 100) limit before) (fail invalid) _ v tt (
        Abides-bind platform.hex _ _ v (get-Abides platform actor id v)
          λ ch w _. messages-Abides platform.hex ch.id limit before w)

  pub list_for_ai-Abides :
      (id photographer : Bytes) (limit before : ℤ) (v : View)
      → Abides platform.hex v (Service.list_for_ai platform id photographer limit before)
  unfolding Service.list_for_ai
  list_for_ai-Abides id photographer limit before v =
      Abides-if platform.hex (Service.is_bad_page (pos 30) limit before) (fail invalid) _ v tt (
        Abides-bind platform.hex _ _ v (get-Abides platform photographer id v) λ ch w _.
          Abides-bind platform.hex _ _ w (messages-Abides platform.hex ch.id limit before w)
            λ ms x _. tt)
