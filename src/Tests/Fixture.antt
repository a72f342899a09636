-- ===== src/Tests/Fixture.antt =====
-- Ada and Bob have a channel with one message of Ada's, a read cursor of Bob's and the pending
-- event of the message.
use lens_chat_service.Prelude.{pos, true, Option, none, some, [], ◌∷◌, ◌++◌}
use lens_chat_service.GoText.{Bytes, text}
use lens_chat_service.Schema.{
  ObjectId, Message, Channel, ChannelState, OutboxEvent, message_created, pending,
}
use lens_chat_service.Store.{View, IsIndexed}
use lens_chat_service.Platform.{Platform}
use lens_chat_service.Message.Events.{Fresh}

abbrev pub hex : ObjectId → Bytes
hex id = id ∷ []

abbrev pub from_hex : Bytes → Option ObjectId
from_hex [] = none
from_hex (id ∷ []) = some id
from_hex (id ∷ _ ∷ _) = none

abbrev pub platform : Platform
platform = record {
  hex = hex;
  from_hex = from_hex;
  pair_digest = λ p. p.0 ++ 0 ∷ p.1;
  request_digest = λ r. r.content;
  ai_digest = λ r. r.content;
}

abbrev pub ada : Bytes
ada = text "ada"

abbrev pub bob : Bytes
bob = text "bob"

abbrev pub channel : Channel
channel = record {
  id = 7;
  direct_key = ada ++ 0 ∷ bob;
  participant_ids = (ada, bob);
  last_message_id = 1;
  last_message_seq = pos 1;
  last_event_version = 1;
  last_message_at = some 100;
  active = true;
  created_at = 50;
  updated_at = 100;
}

abbrev pub hello : Message
hello = record {
  id = 1;
  channel_id = 7;
  sender_id = ada;
  sender_kind = text "user";
  client_message_id = text "c1";
  request_hash = text "h1";
  kind = text "text";
  content = text "hello";
  sequence = pos 1;
  reply_to_message_id = 0;
  revision = 1;
  recalled_at = none;
  created_at = 100;
  updated_at = 100;
}

abbrev pub cursor : ChannelState
cursor = record { id = 20; channel_id = 7; user_id = bob; last_read_seq = pos 1; updated_at = 110 }

abbrev pub fresh : Fresh
fresh = record { id = 2; outbox_id = 31; event_id = text "e2"; now = 200; occurred_at = 201 }

abbrev pub first_event : OutboxEvent
first_event = record {
  id = 30;
  event_id = text "e1";
  event = record {
    event_id = text "e1";
    event_type = message_created;
    schema_version = 1;
    occurred_at = 101;
    producer = text "chat-service";
    aggregate_type = text "channel";
    aggregate_id = hex 7;
    aggregate_version = 1;
    payload = record {
      channel_id = hex 7;
      participant_ids = (ada, bob);
      message = none;
      user_id = text "";
      last_read_seq = none;
    };
  };
  partition_key = hex 7;
  aggregate_version = 1;
  status = pending;
  attempt_count = 0;
  next_attempt_at = 101;
  published_at = none;
  failed_at = none;
  last_error = text "";
  created_at = 101;
}

abbrev pub chat : View
chat = record {
  messages = hello ∷ [];
  channels = channel ∷ [];
  states = cursor ∷ [];
  outbox = first_event ∷ [];
  leases = [];
}

pub chat-IsIndexed : IsIndexed chat
chat-IsIndexed = record {
  messages = ((λ y i. absurd i), tt);
  channels = ((λ y i. absurd i), tt);
  states = ((λ y i. absurd i), tt);
  outbox = ((λ y i. absurd i), tt);
  leases = tt;
}

-- Ada's next message.
abbrev pub next : Message
next = record hello {
  client_message_id = text "c2";
  request_hash = text "h2";
  content = text "hi";
  id = 0;
  sequence = pos 0;
  revision = 0;
  created_at = 0;
  updated_at = 0;
}
