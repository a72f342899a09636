-- ===== src/Message/ReadCursor.antt =====
-- internal/message/repo/message.repo.go: `Repository.Read`.
mod Cursors
pub mod Spec
mod Update
pub mod Monotone
pub mod Failures
pub mod Interleaved
pub mod Calls
use lens_chat_service.Prelude.{
  ℕ, ℤ, ltb, ltb_ℤ, Bool, true, false, ◌&&◌, ◌||◌, none, some, Result, ok, err, ◌==◌, if◌then◌else◌,
}
use lens_chat_service.GoText.{Bytes, str_eq}
use lens_chat_service.Schema.{ObjectId, Time, Channel, ChannelState, read_cursor_advanced}
use lens_chat_service.Mongo.{
  Reply, UpdateResult, find_one, insert_one, find_one_and_update, update_one, any_order,
  no_documents, duplicate_key,
}
use lens_chat_service.Response.{Error, not_found, driver}
use lens_chat_service.Store.{Action, done, call, return, fail, states, channels, outbox}
use lens_chat_service.Message.Events.{Fresh, outbox_event, cursor_data}
use lens_chat_service.Message.Queries.{is_participant}
use lens_chat_service.Message.Mutate.{bump_version}

unfoldable pub cursor_of : ObjectId → Bytes → ChannelState → Bool
cursor_of ch user s = s.channel_id == ch && str_eq s.user_id user

-- Every stored cursor has its `last_read_seq`, so the `$exists` branch of the filter never holds.
unfoldable pub behind : ObjectId → Bytes → ℤ → ChannelState → Bool
unfolding cursor_of
behind ch user seq s = cursor_of ch user s && ltb_ℤ s.last_read_seq seq

unfoldable pub advance : ℤ → Time → ChannelState → ChannelState
advance seq now s = record s { last_read_seq = seq; updated_at = now }

-- The document that the upsert inserts; its `_id` is made by the server.
unfoldable pub new_cursor : Fresh → ObjectId → Bytes → ℤ → ChannelState
new_cursor fresh ch user seq = record {
  id = fresh.id;
  channel_id = ch;
  user_id = user;
  last_read_seq = seq;
  updated_at = fresh.now;
}

unfoldable pub has_advanced : UpdateResult → Bool
has_advanced r = ltb 0 r.matched_count || ltb 0 r.upserted_count

unfoldable pub is_member : ObjectId → Bytes → Channel → Bool
unfolding is_participant
is_member id user ch = ch.id == id && (ch.active && is_participant ch user)

module _ (hex : ObjectId → Bytes) (fresh : Fresh) (ch : ObjectId) (user : Bytes) where
  unfoldable pub after_event : ℤ → Reply (Unit {0}) → Action ℤ
  after_event seq (ok _) = return seq
  after_event seq (err e) = fail (driver e)

  unfoldable pub after_bump : ℤ → Reply Channel → Action ℤ
  unfolding after_event
  after_bump seq (ok channel) =
      call
        (outbox (
          insert_one (
            outbox_event hex fresh fresh.now read_cursor_advanced channel
              (cursor_data hex channel user seq))))
        (after_event seq)
  after_bump seq (err no_documents) = fail not_found
  after_bump seq (err e) = fail (driver e)

  unfoldable pub after_state : Bool → Reply ChannelState → Action ℤ
  unfolding after_bump
  after_state advanced (ok state) =
      if advanced
      then call (channels (find_one_and_update (is_member ch user) bump_version none))
          (after_bump state.last_read_seq)
      else return state.last_read_seq
  after_state advanced (err e) = fail (driver e)

  unfoldable pub read_back : Bool → Action ℤ
  unfolding after_state
  read_back advanced = call (states (find_one (cursor_of ch user) any_order)) (after_state advanced)

  -- A concurrent upsert that came first shows as a duplicate key, and this request emits no event.
  unfoldable pub after_advance : Reply UpdateResult → Action ℤ
  unfolding read_back
  after_advance (ok r) = read_back (has_advanced r)
  after_advance (err duplicate_key) = read_back false
  after_advance (err e) = fail (driver e)

  unfoldable pub read : ℤ → Action ℤ
  unfolding after_advance
  read seq =
      call
        (states (
          update_one (behind ch user seq) (advance seq fresh.now)
            (some (new_cursor fresh ch user seq))))
        after_advance
