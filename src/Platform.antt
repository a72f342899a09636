-- ===== src/Platform.antt =====
-- internal/dto, and what the services use of packages that are not part of the repository.
use lens_chat_service.Prelude.{ℤ, Option}
use lens_chat_service.GoText.{Bytes}
use lens_chat_service.Schema.{ObjectId}

pub record CreateMessageRequest : Type 0 where
  pub client_message_id : Bytes
  pub kind : Bytes
  pub content : Bytes
  pub reply_to_message_id : Bytes

pub record CreateAiReplyRequest : Type 0 where
  pub photographer_id : Bytes
  pub client_message_id : Bytes
  pub source_message_id : Bytes
  pub expected_last_sequence : ℤ
  pub content : Bytes

-- `hex` and `from_hex` are `primitive.ObjectID.Hex` and `primitive.ObjectIDFromHex`; a digest is
-- `fmt.Sprintf("%x", sha256.Sum256(encoded))` of the JSON encoding of its argument.
pub record Platform : Type 0 where
  pub hex : ObjectId → Bytes
  pub from_hex : Bytes → Option ObjectId
  pub pair_digest : Bytes × Bytes → Bytes
  pub request_digest : CreateMessageRequest → Bytes
  pub ai_digest : CreateAiReplyRequest → Bytes
