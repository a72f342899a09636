-- ===== src/Mapper.antt =====
-- pkg/mapper/chat.mapper.go and the answers of internal/dto: what a client sees of a channel and of a
-- message.
use lens_chat_service.Prelude.{ℕ, ℤ, Option, none, some, ◌==◌, if◌then◌else◌}
use lens_chat_service.GoText.{Bytes, text, str_eq}
use lens_chat_service.Schema.{ObjectId, Time, Message, Channel}

-- For `LastMessageAt`, `none` is the zero `time.Time`.
pub record ChannelResponse : Type 0 where
  pub id : Bytes
  pub participant_ids : Bytes × Bytes
  pub peer_id : Bytes
  pub last_message_id : Bytes
  pub last_message_seq : ℤ
  pub last_message_at : Option Time
  pub created_at : Time
  pub updated_at : Time

pub record MessageResponse : Type 0 where
  pub id : Bytes
  pub channel_id : Bytes
  pub sender_id : Bytes
  pub sender_kind : Bytes
  pub client_message_id : Bytes
  pub kind : Bytes
  pub content : Bytes
  pub sequence : ℤ
  pub reply_to_message_id : Bytes
  pub revision : ℕ
  pub recalled_at : Option Time
  pub created_at : Time
  pub updated_at : Time

-- The content of a message that is recalled is not shown.
abbrev shown : Option Time → Bytes → Bytes
shown none content = content
shown (some _) content = text ""

-- `hex` is `primitive.ObjectID.Hex`.
module _ (hex : ObjectId → Bytes) where
  unfoldable pub channel_response : Channel → Bytes → ChannelResponse
  channel_response ch actor = record {
    id = hex ch.id;
    participant_ids = ch.participant_ids;
    peer_id =
        if str_eq ch.participant_ids.0 actor then ch.participant_ids.1 else ch.participant_ids.0;
    last_message_id = if ch.last_message_id == 0 then text "" else hex ch.last_message_id;
    last_message_seq = ch.last_message_seq;
    last_message_at = ch.last_message_at;
    created_at = ch.created_at;
    updated_at = ch.updated_at;
  }

  unfoldable pub message_response : Message → MessageResponse
  message_response m = record {
    id = hex m.id;
    channel_id = hex m.channel_id;
    sender_id = m.sender_id;
    sender_kind = if str_eq m.sender_kind (text "") then text "user" else m.sender_kind;
    client_message_id = m.client_message_id;
    kind = m.kind;
    content = shown m.recalled_at m.content;
    sequence = m.sequence;
    reply_to_message_id = if m.reply_to_message_id == 0 then text "" else hex m.reply_to_message_id;
    revision = m.revision;
    recalled_at = m.recalled_at;
    created_at = m.created_at;
    updated_at = m.updated_at;
  }
