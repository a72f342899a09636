-- ===== src/Message/Mutate/Spec.antt =====
-- What an edit or a recall may leave behind.
use lens_chat_service.Prelude.{◌≡◌, ◌⊎◌, [], ◌∷◌, ◌++◌, none, some, Result, ok, err, IsIn, ◌+◌}
use lens_chat_service.GoText.{Bytes}
use lens_chat_service.Schema.{ObjectId, Time, Message, EventType, message_recalled}
use lens_chat_service.Mongo.{Updated, NoneMatch}
use lens_chat_service.Response.{Error, not_found, conflict, driver}
use lens_chat_service.Store.{View}
use lens_chat_service.Message.Events.{Fresh, outbox_event, message_data}
use lens_chat_service.Message.Mutate.{unchanged_since, revise, is_open, bump_version}

-- `m` is the stored message that was read as `msg`: same sender, same revision, not recalled.
pub record IsAsRead (msg m : Message) : Type 0 where
  pub id : m.id ≡ msg.id
  pub sender : m.sender_id ≡ msg.sender_id
  pub revision : m.revision ≡ msg.revision
  pub not_recalled : m.recalled_at ≡ none

-- The message that replaces `old`.
abbrev pub revised : Bytes → EventType → Time → Message → Message
revised content message_recalled now old = record old {
  content = content;
  updated_at = now;
  recalled_at = some now;
  revision = old.revision + 1;
}
revised content _ now old = record old {
  content = content;
  updated_at = now;
  revision = old.revision + 1;
}

module _ (hex : ObjectId → Bytes) (fresh : Fresh) (kind : EventType) (msg : Message)
    (content : Bytes) where
  -- The message was revised and announced under the next version of its channel.
  pub record IsRevised (v w : View) (m : Message) : Type 0 where
    pub change : Updated (unchanged_since msg) (revise content kind fresh.now) v.messages w.messages
    pub as_read : IsAsRead msg change.old
    pub result : m ≡ revised content kind fresh.now change.old
    pub versioned : Updated (is_open m.channel_id) bump_version v.channels w.channels
    pub announced :
        w.outbox
        ≡ v.outbox
          ++ outbox_event hex fresh fresh.now kind
              (bump_version versioned.old)
              (message_data hex (bump_version versioned.old) m)
            ∷ []
    pub states : w.states ≡ v.states
    pub leases : w.leases ≡ v.leases

  -- The channel of `m` was brought to its next version; the event was written or not.
  pub record IsVersioned (v w : View) (m : Message) : Type 0 where
    pub versioned : Updated (is_open m.channel_id) bump_version v.channels w.channels
    pub announced_or_not :
        (w.outbox ≡ v.outbox)
        ⊎ (w.outbox
            ≡ v.outbox
              ++ outbox_event hex fresh fresh.now kind
                  (bump_version versioned.old)
                  (message_data hex (bump_version versioned.old) m)
                ∷ [])

  -- The message was revised, and the driver failed at that or later.
  pub record IsCutShort (v w : View) : Type 0 where
    pub change : Updated (unchanged_since msg) (revise content kind fresh.now) v.messages w.messages
    pub as_read : IsAsRead msg change.old
    pub result : Message
    pub is_revised : result ≡ revised content kind fresh.now change.old
    pub rest : ((w.channels ≡ v.channels) × (w.outbox ≡ v.outbox)) ⊎ IsVersioned v w result
    pub states : w.states ≡ v.states
    pub leases : w.leases ≡ v.leases

  abbrev pub Mutates : View → Result Error Message → View → Type 0
  Mutates v (ok m) w = IsRevised v w m
  Mutates v (err conflict) w = (w ≡ v) × ((x : Message) → IsIn x v.messages → ¬ IsAsRead msg x)
  Mutates v (err not_found) w =
      (u : Updated (unchanged_since msg) (revise content kind fresh.now) v.messages w.messages)
      × IsAsRead msg u.old
      × NoneMatch (is_open (revise content kind fresh.now u.old).channel_id) v.channels
      × (w.channels ≡ v.channels)
      × (w.outbox ≡ v.outbox)
      × (w.states ≡ v.states)
      × (w.leases ≡ v.leases)
  Mutates v (err (driver e)) w = (w ≡ v) ⊎ IsCutShort v w
  Mutates v (err _) w = ⊥
