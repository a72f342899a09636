-- ===== src/Message/Controller.antt =====
-- internal/message/message.controller.go
pub mod Decimals
use lens_chat_service.Prelude.{Option, List, map, if◌then◌else◌}
use lens_chat_service.GoText.{Bytes, text}
use lens_chat_service.Schema.{ObjectId, Message}
use lens_chat_service.Store.{Program}
use lens_chat_service.Platform.{Platform}
use lens_chat_service.Mapper.{message_response}
use lens_chat_service.Http.{
  HttpAnswer, ok_answer, one_message, all_messages, read_position, Json, responding, needing,
  page_query, max_body_bytes,
}
use lens_chat_service.Message.Events.{Fresh}
use lens_chat_service.Message.Create.{Saved}
use lens_chat_service.Message.Service

-- 201 for a message that the request created, 200 for one that was there.
unfoldable pub saved_answer : (ObjectId → Bytes) → Saved → HttpAnswer
saved_answer hex (m, created) =
    ok_answer (if created then 201 else 200) (one_message (message_response hex m))

unfoldable pub message_answer : (ObjectId → Bytes) → Message → HttpAnswer
message_answer hex m = ok_answer 200 (one_message (message_response hex m))

unfoldable pub page_answer : (ObjectId → Bytes) → List Message → HttpAnswer
page_answer hex ms = ok_answer 200 (all_messages (map (message_response hex) ms))

module _ (platform : Platform) (json : Json) (fresh : Fresh) where
  unfoldable pub create : Bytes → Bytes → Bytes → Program HttpAnswer
  create actor channel body = needing (json.create_message max_body_bytes body) λ req.
      responding (Service.create platform fresh actor channel req) (saved_answer platform.hex)

  -- The photographer comes from the body.
  unfoldable pub create_ai_reply : Bytes → Bytes → Program HttpAnswer
  create_ai_reply channel body = needing (json.create_ai_reply max_body_bytes body) λ req.
      responding (Service.create_ai_reply platform fresh channel req.photographer_id req)
        (saved_answer platform.hex)

  unfoldable pub edit : Bytes → Bytes → Bytes → Program HttpAnswer
  edit actor message body = needing (json.update_message max_body_bytes body) λ content.
      responding (Service.edit platform fresh actor message content) (message_answer platform.hex)

  unfoldable pub recall : Bytes → Bytes → Program HttpAnswer
  recall actor message =
      responding (Service.recall platform fresh actor message) (message_answer platform.hex)

  unfoldable pub read : Bytes → Bytes → Bytes → Program HttpAnswer
  read actor channel body = needing (json.advance_read_cursor max_body_bytes body) λ seq.
      responding (Service.read platform fresh actor channel seq)
        λ at. ok_answer 200 (read_position at)

module _ (platform : Platform) where
  unfoldable pub list_for_ai : Bytes → Bytes → Option Bytes → Option Bytes → Program HttpAnswer
  list_for_ai channel photographer limit before = needing (page_query (text "12") limit before) λ q.
      responding (Service.list_for_ai platform channel photographer q.0 q.1)
        (page_answer platform.hex)

  unfoldable pub list : Bytes → Bytes → Option Bytes → Option Bytes → Program HttpAnswer
  list actor channel limit before =
      needing (page_query (text "20") limit before)
        λ q. responding (Service.list platform actor channel q.0 q.1) (page_answer platform.hex)
