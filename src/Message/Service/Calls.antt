-- ===== src/Message/Service/Calls.antt =====
-- How many calls of the driver the requests of the message service make.
use lens_chat_service.Prelude.{Option, none, some, ℤ, pos, ltb_ℤ, ◌||◌, ◌==◌, arith}
use lens_chat_service.GoText.{Bytes, text, str_eq}
use lens_chat_service.Schema.{ObjectId, Channel}
use lens_chat_service.Response.{invalid, conflict, forbidden}
use lens_chat_service.Store.{return, fail, AtMost, AtMost-if, AtMost-bind}
use lens_chat_service.Platform.{Platform, CreateMessageRequest, CreateAiReplyRequest}
use lens_chat_service.Channel.Service.Calls.{get-AtMost}
use lens_chat_service.Message.Events.{Fresh}
use lens_chat_service.Message.Queries
use lens_chat_service.Message.Create.Calls.{create-AtMost}
use lens_chat_service.Message.Mutate
use lens_chat_service.Message.Mutate.{is_none}
use lens_chat_service.Message.Mutate.Calls.{mutate-AtMost}
use lens_chat_service.Message.ReadCursor.Calls.{read-AtMost}
use lens_chat_service.Message.Service

message-AtMost : (id : ObjectId) → AtMost 1 (Queries.get id)
unfolding Queries.get
message-AtMost id = λ r. tt

messages-AtMost : (id : ObjectId) (limit before : ℤ) → AtMost 1 (Queries.list id limit before)
unfolding Queries.list
messages-AtMost id limit before = λ r. tt

or_invalid-AtMost : (o : Option ObjectId) → AtMost 0 (Service.or_invalid o)
unfolding Service.or_invalid
or_invalid-AtMost none = tt
or_invalid-AtMost (some id) = tt

parsed_reply-AtMost : (ch : Channel) (o : Option ObjectId) → AtMost 1 (Service.parsed_reply ch o)
unfolding Service.parsed_reply Service.same_channel
parsed_reply-AtMost ch none = tt
parsed_reply-AtMost ch (some id) =
    AtMost-bind _ _ 1 0 1 (omega arith) (message-AtMost id)
      λ reply. AtMost-if (reply.channel_id == ch.id) (return id) (fail invalid) 0 tt tt

module _ (platform : Platform) where
  authorized-AtMost : (actor id : Bytes) → AtMost 2 (Service.authorized platform actor id)
  unfolding Service.authorized Service.owned
  authorized-AtMost actor id =
      AtMost-bind _ _ 0 2 2 (omega arith) (or_invalid-AtMost (platform.from_hex id)) λ oid.
        AtMost-bind _ _ 1 1 2 (omega arith) (message-AtMost oid) λ msg.
          AtMost-bind _ _ 1 0 1 (omega arith)
            (get-AtMost platform actor (platform.hex msg.channel_id))
            λ ch. AtMost-if (str_eq msg.sender_id actor) (return msg) (fail forbidden) 0 tt tt

  pub page-AtMost :
      (actor id : Bytes) (limit before : ℤ) → AtMost 2 (Service.list platform actor id limit before)
  unfolding Service.list
  page-AtMost actor id limit before =
      AtMost-if (Service.is_bad_page (pos 100) limit before) (fail invalid) _ 2 tt (
        AtMost-bind _ _ 1 1 2 (omega arith) (get-AtMost platform actor id)
          λ ch. messages-AtMost ch.id limit before)

  pub ai_page-AtMost :
      (id photographer : Bytes) (limit before : ℤ)
      → AtMost 2 (Service.list_for_ai platform id photographer limit before)
  unfolding Service.list_for_ai
  ai_page-AtMost id photographer limit before =
      AtMost-if (Service.is_bad_page (pos 30) limit before) (fail invalid) _ 2 tt (
        AtMost-bind _ _ 1 1 2 (omega arith) (get-AtMost platform photographer id)
          λ ch. AtMost-bind _ _ 1 0 1 (omega arith) (messages-AtMost ch.id limit before) λ ms. tt)

  module _ (fresh : Fresh) where
    pub edit-AtMost :
        (actor id content : Bytes) → AtMost 5 (Service.edit platform fresh actor id content)
    unfolding Service.edit Service.edit_read Mutate.edit
    edit-AtMost actor id content =
        AtMost-if (Service.is_bad_content content) (fail invalid) _ 5 tt (
          AtMost-bind _ _ 2 3 5 (omega arith) (authorized-AtMost actor id) λ msg.
            AtMost-if (is_none msg.recalled_at) _ (fail conflict) 3
              (mutate-AtMost platform.hex fresh _ msg content) tt)

    pub recall-AtMost : (actor id : Bytes) → AtMost 5 (Service.recall platform fresh actor id)
    unfolding Service.recall Service.recall_read Mutate.recall
    recall-AtMost actor id = AtMost-bind _ _ 2 3 5 (omega arith) (authorized-AtMost actor id) λ msg.
        AtMost-if (is_none msg.recalled_at) _ (return msg) 3
          (mutate-AtMost platform.hex fresh _ msg (text "")) tt

    pub read-AtMost_service :
        (actor id : Bytes) (seq : ℤ) → AtMost 5 (Service.read platform fresh actor id seq)
    unfolding Service.read Service.read_in
    read-AtMost_service actor id seq =
        AtMost-bind _ _ 1 4 5 (omega arith) (get-AtMost platform actor id) λ ch.
          AtMost-if (ltb_ℤ seq (pos 0) || ltb_ℤ ch.last_message_seq seq) (fail invalid) _ 4 tt
            (read-AtMost platform.hex fresh ch.id actor seq)

    reply_of-AtMost :
        (ch : Channel) (req : CreateMessageRequest) → AtMost 1 (Service.reply_of platform ch req)
    unfolding Service.reply_of
    reply_of-AtMost ch req =
        AtMost-if (str_eq req.reply_to_message_id (text "")) (return 0) _ 1 tt
          (parsed_reply-AtMost ch (platform.from_hex req.reply_to_message_id))

    pub create-AtMost_service :
        (actor id : Bytes) (req : CreateMessageRequest)
        → AtMost 261 (Service.create platform fresh actor id req)
    unfolding Service.create Service.create_in
    create-AtMost_service actor id req =
        AtMost-bind _ _ 1 260 261 (omega arith) (get-AtMost platform actor id) λ ch.
          AtMost-if (Service.is_bad_request req) (fail invalid) _ 260 tt (
            AtMost-bind _ _ 1 259 260 (omega arith) (reply_of-AtMost ch req)
              λ reply. create-AtMost platform.hex fresh _)

    pub create_ai_reply-AtMost :
        (id photographer : Bytes) (req : CreateAiReplyRequest)
        → AtMost 261 (Service.create_ai_reply platform fresh id photographer req)
    unfolding Service.create_ai_reply Service.reply_to_source
    create_ai_reply-AtMost id photographer req =
        AtMost-if (Service.is_bad_reply photographer req) (fail invalid) _ 261 tt (
          AtMost-bind _ _ 1 260 261 (omega arith) (get-AtMost platform photographer id) λ ch.
            AtMost-bind _ _ 0 260 260 (omega arith)
              (or_invalid-AtMost (platform.from_hex req.source_message_id))
              λ oid. AtMost-bind _ _ 1 259 260 (omega arith) (message-AtMost oid) λ source.
                AtMost-if (Service.is_bad_source ch photographer source) (fail conflict) _ 259 tt
                  (create-AtMost platform.hex fresh _))
