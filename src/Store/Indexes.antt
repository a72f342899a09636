-- ===== src/Store/Indexes.antt =====
-- The unique indexes that the three `EnsureIndexes` create, besides that on `_id`: two documents
-- clash if they agree on all keys of one of them.
use lens_chat_service.Prelude.{Bool, ◌&&◌, ◌||◌, ◌==◌, eqb_ℤ}
use lens_chat_service.GoText.{str_eq}
use lens_chat_service.Schema.{Message, Channel, ChannelState, OutboxEvent, OutboxRelayLease}

unfoldable pub same_sequence : Message → Message → Bool
same_sequence m n = m.channel_id == n.channel_id && eqb_ℤ m.sequence n.sequence

unfoldable pub same_request : Message → Message → Bool
same_request m n =
    m.channel_id == n.channel_id
    && (str_eq m.sender_id n.sender_id && str_eq m.client_message_id n.client_message_id)

unfoldable pub message_clash : Message → Message → Bool
unfolding same_sequence same_request
message_clash m n = m.id == n.id || (same_sequence m n || same_request m n)

unfoldable pub channel_clash : Channel → Channel → Bool
channel_clash c d = c.id == d.id || str_eq c.direct_key d.direct_key

unfoldable pub state_clash : ChannelState → ChannelState → Bool
state_clash s t = s.id == t.id || (s.channel_id == t.channel_id && str_eq s.user_id t.user_id)

unfoldable pub event_clash : OutboxEvent → OutboxEvent → Bool
event_clash e f = e.id == f.id || str_eq e.event_id f.event_id

unfoldable pub lease_clash : OutboxRelayLease → OutboxRelayLease → Bool
lease_clash a b = str_eq a.id b.id
