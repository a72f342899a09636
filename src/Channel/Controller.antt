-- ===== src/Channel/Controller.antt =====
-- internal/channel/channel.controller.go
use lens_chat_service.Prelude.{map, List}
use lens_chat_service.GoText.{Bytes}
use lens_chat_service.Schema.{ObjectId, Time, Channel}
use lens_chat_service.Store.{Program}
use lens_chat_service.Platform.{Platform}
use lens_chat_service.Mapper.{channel_response}
use lens_chat_service.Http.{
  HttpAnswer, ok_answer, one_channel, all_channels, Json, responding, needing, max_body_bytes,
}
use lens_chat_service.Channel.Service

unfoldable pub channel_answer : (ObjectId → Bytes) → Bytes → Channel → HttpAnswer
channel_answer hex actor ch = ok_answer 200 (one_channel (channel_response hex ch actor))

unfoldable pub channels_answer : (ObjectId → Bytes) → Bytes → List Channel → HttpAnswer
channels_answer hex actor chs =
    ok_answer 200 (all_channels (map (λ ch. channel_response hex ch actor) chs))

module _ (platform : Platform) where
  unfoldable pub create : Json → ObjectId → Time → Bytes → Bytes → Program HttpAnswer
  create json id now actor body = needing (json.create_channel max_body_bytes body) λ peer.
      responding (Service.create platform id now actor peer) (channel_answer platform.hex actor)

  unfoldable pub list : Bytes → Program HttpAnswer
  list actor = responding (Service.list actor) (channels_answer platform.hex actor)

  unfoldable pub get : Bytes → Bytes → Program HttpAnswer
  get actor channel =
      responding (Service.get platform actor channel) (channel_answer platform.hex actor)
