-- ===== src/Message/Events.antt =====
-- internal/message/repo/message.repo.go: the outbox events that the repository writes.
pub mod Covered
use lens_chat_service.Prelude.{ℤ, none, some, ◌==◌, if◌then◌else◌}
use lens_chat_service.GoText.{Bytes, text, str_eq}
use lens_chat_service.Schema.{
  ObjectId, Time, Message, Channel, EventType, OutboxEvent, ChatEventData, ChatMessageEventPayload,
  pending,
}

-- What one request takes from `primitive.NewObjectID`, `uuid.NewString` and `time.Now`.
pub record Fresh : Type 0 where
  pub id : ObjectId
  pub outbox_id : ObjectId
  pub event_id : Bytes
  pub now : Time
  pub occurred_at : Time

unfoldable pub sender_kind : Bytes → Bytes
sender_kind value = if str_eq value (text "ai") then text "ai" else text "user"

-- `hex` is `primitive.ObjectID.Hex`.
module _ (hex : ObjectId → Bytes) where
  unfoldable pub hex_if_set : ObjectId → Bytes
  hex_if_set id = if id == 0 then text "" else hex id

  unfoldable pub message_event_payload : Message → ChatMessageEventPayload
  unfolding hex_if_set sender_kind
  message_event_payload msg = record {
    id = hex msg.id;
    channel_id = hex msg.channel_id;
    sender_id = msg.sender_id;
    sender_kind = sender_kind msg.sender_kind;
    client_message_id = msg.client_message_id;
    kind = msg.kind;
    content = msg.content;
    sequence = msg.sequence;
    reply_to_message_id = hex_if_set msg.reply_to_message_id;
    revision = msg.revision;
    recalled_at = msg.recalled_at;
    created_at = msg.created_at;
    updated_at = msg.updated_at;
  }

  -- The outbox row of an event, as the three writers fill it in.
  unfoldable pub outbox_event : Fresh → Time → EventType → Channel → ChatEventData → OutboxEvent
  outbox_event fresh occurred kind ch payload = record {
    id = fresh.outbox_id;
    event_id = fresh.event_id;
    event = record {
      event_id = fresh.event_id;
      event_type = kind;
      schema_version = 1;
      occurred_at = occurred;
      producer = text "chat-service";
      aggregate_type = text "channel";
      aggregate_id = hex ch.id;
      aggregate_version = ch.last_event_version;
      payload = payload;
    };
    partition_key = hex ch.id;
    aggregate_version = ch.last_event_version;
    status = pending;
    attempt_count = 0;
    next_attempt_at = occurred;
    published_at = none;
    failed_at = none;
    last_error = text "";
    created_at = occurred;
  }

  unfoldable pub message_data : Channel → Message → ChatEventData
  unfolding message_event_payload
  message_data ch msg = record {
    channel_id = hex ch.id;
    participant_ids = ch.participant_ids;
    message = some (message_event_payload msg);
    user_id = text "";
    last_read_seq = none;
  }

  unfoldable pub cursor_data : Channel → Bytes → ℤ → ChatEventData
  cursor_data ch user seq = record {
    channel_id = hex ch.id;
    participant_ids = ch.participant_ids;
    message = none;
    user_id = user;
    last_read_seq = some seq;
  }
