-- ===== src/Message/Create/Spec.antt =====
-- What `Create` promises for a request that is not stored yet.
use lens_chat_service.Prelude.{
  ◌≡◌, ◌≢◌, ◌⊎◌, true, [], ◌∷◌, ◌++◌, Result, ok, some, ◌+◌, IsIn, ℤ, pos, ◌≤ℤ◌, ◌<ℤ◌, inc64,
  max_int64,
}
use lens_chat_service.GoText.{Bytes}
use lens_chat_service.Schema.{ObjectId, Message, Channel, message_created}
use lens_chat_service.Mongo.{Updated, NoneMatch}
use lens_chat_service.Response.{Error}
use lens_chat_service.Store.{View, IsDriverFailure, same_request}
use lens_chat_service.Message.Events.{Fresh, outbox_event, message_data}
use lens_chat_service.Message.Queries.{in_channel}
use lens_chat_service.Message.Create.{Saved, accepts}

-- The request is new, its sender may write, and no sequence is at an end of its range.
pub record IsReady (fresh : Fresh) (msg : Message) (v : View) : Type 0 where
  pub unseen : NoneMatch (same_request msg) v.messages
  pub new_id : (x : Message) → IsIn x v.messages → x.id ≢ fresh.id
  pub channel : Channel
  pub listed : IsIn channel v.channels
  pub accepted : accepts msg channel ≡ true
  pub below : (x : Message) → IsIn x v.messages → x.sequence <ℤ max_int64
  pub summaries : (c : Channel) → IsIn c v.channels → pos 0 ≤ℤ c.last_message_seq
  pub summaries_below : (c : Channel) → IsIn c v.channels → c.last_message_seq <ℤ max_int64

abbrev pub stamped : Fresh → Message → ℤ → Message
stamped fresh msg s = record msg {
  id = fresh.id;
  created_at = fresh.now;
  updated_at = fresh.now;
  revision = 1;
  sequence = s;
}

-- The channel `ch` with `m` as its last message, one version on.
abbrev pub pointed_at : Message → Channel → Channel
pointed_at m ch = record ch {
  last_message_seq = m.sequence;
  last_message_id = m.id;
  last_message_at = some m.created_at;
  last_event_version = ch.last_event_version + 1;
  updated_at = m.updated_at;
}

-- `m` is the message that the request created between `v` and `w`.
pub record IsCreated (hex : ObjectId → Bytes) (fresh : Fresh) (msg m : Message) (v w : View)
    : Type 0 where
  pub request : m ≡ stamped fresh msg m.sequence
  pub stored : w.messages ≡ v.messages ++ m ∷ []
  pub newest :
      (x : Message)
      → IsIn x v.messages
      → in_channel msg.channel_id x ≡ true
      → x.sequence <ℤ m.sequence
  pub summary : Updated (accepts msg) (pointed_at m) v.channels w.channels
  pub following :
      ((x : Message) × IsIn x v.messages
        × (in_channel msg.channel_id x ≡ true)
        × (m.sequence ≡ inc64 x.sequence))
      ⊎ (m.sequence ≡ inc64 summary.old.last_message_seq)
  pub advanced : summary.old.last_message_seq <ℤ m.sequence
  pub announced :
      w.outbox
      ≡ v.outbox
        ++ outbox_event hex fresh fresh.occurred_at message_created
            (pointed_at m summary.old)
            (message_data hex (pointed_at m summary.old) m)
          ∷ []
  pub states : w.states ≡ v.states
  pub leases : w.leases ≡ v.leases

abbrev pub Creates :
    (hex : ObjectId → Bytes) → Fresh → Message → View → Result Error Saved → View → Type 0
Creates hex fresh msg v r w =
    IsDriverFailure r ⊎ ((m : Message) × (r ≡ ok (m, true)) × IsCreated hex fresh msg m v w)
