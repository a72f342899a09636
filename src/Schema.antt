-- ===== src/Schema.antt =====
-- internal/schema: the documents of the five collections. An ObjectID is a number, 0 being
-- `primitive.NilObjectID`; times are numbers of nanoseconds; `*T` is `Option T`.
use lens_chat_service.Prelude.{ℕ, ℤ, Option, Bool}
use lens_chat_service.GoText.{Bytes}

abbrev pub ObjectId : Type 0
ObjectId = ℕ

abbrev pub Time : Type 0
Time = ℕ

pub record Channel : Type 0 where
  pub id : ObjectId
  pub direct_key : Bytes
  pub participant_ids : Bytes × Bytes
  pub last_message_id : ObjectId
  pub last_message_seq : ℤ
  pub last_event_version : ℕ
  pub last_message_at : Option Time
  pub active : Bool
  pub created_at : Time
  pub updated_at : Time

pub record Message : Type 0 where
  pub id : ObjectId
  pub channel_id : ObjectId
  pub sender_id : Bytes
  pub sender_kind : Bytes
  pub client_message_id : Bytes
  pub request_hash : Bytes
  pub kind : Bytes
  pub content : Bytes
  pub sequence : ℤ
  pub reply_to_message_id : ObjectId
  pub revision : ℕ
  pub recalled_at : Option Time
  pub created_at : Time
  pub updated_at : Time

pub record ChannelState : Type 0 where
  pub id : ObjectId
  pub channel_id : ObjectId
  pub user_id : Bytes
  pub last_read_seq : ℤ
  pub updated_at : Time

pub data OutboxStatus : Type 0 where
  pending published failed : OutboxStatus

pub data EventType : Type 0 where
  message_created message_updated message_recalled read_cursor_advanced : EventType

pub record ChatMessageEventPayload : Type 0 where
  pub id : Bytes
  pub channel_id : Bytes
  pub sender_id : Bytes
  pub sender_kind : Bytes
  pub client_message_id : Bytes
  pub kind : Bytes
  pub content : Bytes
  pub sequence : ℤ
  pub reply_to_message_id : Bytes
  pub revision : ℕ
  pub recalled_at : Option Time
  pub created_at : Time
  pub updated_at : Time

pub record ChatEventData : Type 0 where
  pub channel_id : Bytes
  pub participant_ids : Bytes × Bytes
  pub message : Option ChatMessageEventPayload
  pub user_id : Bytes
  pub last_read_seq : Option ℤ

-- `data` of the source is `payload` here.
pub record ChatEventEnvelope : Type 0 where
  pub event_id : Bytes
  pub event_type : EventType
  pub schema_version : ℕ
  pub occurred_at : Time
  pub producer : Bytes
  pub aggregate_type : Bytes
  pub aggregate_id : Bytes
  pub aggregate_version : ℕ
  pub payload : ChatEventData

pub record OutboxEvent : Type 0 where
  pub id : ObjectId
  pub event_id : Bytes
  pub event : ChatEventEnvelope
  pub partition_key : Bytes
  pub aggregate_version : ℕ
  pub status : OutboxStatus
  pub attempt_count : ℕ
  pub next_attempt_at : Time
  pub published_at : Option Time
  pub failed_at : Option Time
  pub last_error : Bytes
  pub created_at : Time

pub record OutboxRelayLease : Type 0 where
  pub id : Bytes
  pub owner : Bytes
  pub lease_until : Time
  pub updated_at : Time
