-- ===== src/Message/Mutate.antt =====
-- internal/message/repo/message.repo.go: `mutate`, `Edit` and `Recall`.
pub mod Spec
pub mod Outcomes
pub mod Failures
pub mod Interleaved
pub mod Calls
use lens_chat_service.Prelude.{
  ℕ, ◌+◌, Bool, true, false, ◌&&◌, Option, none, some, Result, ok, err, ◌==◌, if◌then◌else◌,
}
use lens_chat_service.GoText.{Bytes, text, str_eq}
use lens_chat_service.Schema.{
  ObjectId, Time, Message, Channel, EventType, message_updated, message_recalled,
}
use lens_chat_service.Mongo.{Reply, insert_one, find_one_and_update, no_documents}
use lens_chat_service.Response.{Error, not_found, conflict, driver}
use lens_chat_service.Store.{Action, done, call, return, fail, messages, channels, outbox}
use lens_chat_service.Message.Events.{Fresh, outbox_event, message_data}

abbrev pub is_none {ℓ} : {A : Type ℓ} → Option A → Bool
is_none none = true
is_none (some _) = false

-- The filter of the update: the revision that was read, not recalled since.
unfoldable pub unchanged_since : Message → Message → Bool
unchanged_since msg m =
    m.id == msg.id
    && (str_eq m.sender_id msg.sender_id && (m.revision == msg.revision && is_none m.recalled_at))

abbrev pub is_recall : EventType → Bool
is_recall message_recalled = true
is_recall _ = false

-- `$set` and `$inc`; the only field that the callers set is the content.
unfoldable pub revise : Bytes → EventType → Time → Message → Message
revise content kind now m = record m {
  content = content;
  updated_at = now;
  recalled_at = if is_recall kind then some now else m.recalled_at;
  revision = m.revision + 1;
}

unfoldable pub is_open : ObjectId → Channel → Bool
is_open id ch = ch.id == id && ch.active

-- `{"$inc": {"last_event_version": 1}}`
unfoldable pub bump_version : Channel → Channel
bump_version ch = record ch { last_event_version = ch.last_event_version + 1 }

module _ (hex : ObjectId → Bytes) (fresh : Fresh) (kind : EventType) where
  after_event : Message → Reply (Unit {0}) → Action Message
  after_event updated (ok _) = return updated
  after_event updated (err e) = fail (driver e)

  after_bump : Message → Reply Channel → Action Message
  unfolding after_event
  after_bump updated (ok ch) =
      call
        (outbox
          (insert_one (outbox_event hex fresh fresh.now kind ch (message_data hex ch updated))))
        (after_event updated)
  after_bump updated (err no_documents) = fail not_found
  after_bump updated (err e) = fail (driver e)

  after_revision : Reply Message → Action Message
  unfolding after_bump
  after_revision (ok updated) =
      call (channels (find_one_and_update (is_open updated.channel_id) bump_version none))
        (after_bump updated)
  after_revision (err no_documents) = fail conflict
  after_revision (err e) = fail (driver e)

  unfoldable pub mutate : Message → Bytes → Action Message
  unfolding after_revision
  mutate msg content =
      call
        (messages (find_one_and_update (unchanged_since msg) (revise content kind fresh.now) none))
        after_revision

unfoldable pub edit : (ObjectId → Bytes) → Fresh → Message → Bytes → Action Message
edit hex fresh msg content = mutate hex fresh message_updated msg content

unfoldable pub recall : (ObjectId → Bytes) → Fresh → Message → Action Message
recall hex fresh msg = mutate hex fresh message_recalled msg (text "")
