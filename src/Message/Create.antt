-- ===== src/Message/Create.antt =====
-- internal/message/repo/message.repo.go: `Repository.Create`. Each step of the function after a
-- driver call is a function of the answer.
mod Steps
pub mod Spec
mod Candidate
pub mod NewMessage
pub mod Retry
pub mod Failures
pub mod Interleaved
pub mod Calls
pub mod Success
pub mod Origin
use lens_chat_service.Prelude.{
  ℕ, zero, suc, ◌+◌, ℤ, pos, ltb_ℤ, eqb_ℤ, inc64, Bool, true, false, ◌&&◌, Option, none, some,
  Result, ok, err, ◌==◌, if◌then◌else◌,
}
use lens_chat_service.GoText.{Bytes, str_eq}
use lens_chat_service.Schema.{ObjectId, Message, Channel, message_created}
use lens_chat_service.Mongo.{
  Reply, find_one, insert_one, find_one_and_update, delete_one, any_order, no_documents,
  duplicate_key, driver_failed,
}
use lens_chat_service.Response.{Error, not_found, conflict, driver}
use lens_chat_service.Store.{
  Action, done, call, return, fail, messages, channels, outbox, same_request,
}
use lens_chat_service.Message.Events.{Fresh, outbox_event, message_data}
use lens_chat_service.Message.Queries.{is_participant, in_channel, newest_first, has_id}

-- `&schema.Message` and whether the request created it.
abbrev pub Saved : Type 0
Saved = Message × Bool

-- The closure `existing`, on the answer of its `FindOne`.
unfoldable pub existing_of : Message → Reply Message → Result Error Message
existing_of msg (ok m) = if str_eq m.request_hash msg.request_hash then ok m else err conflict
existing_of msg (err e) = err (driver e)

-- What both callers of `existing` do: a message or another error is returned, and where there is
-- none the rest goes on.
unfoldable pub settle : Result Error Message → Action Saved → Action Saved
settle (ok m) rest = return (m, false)
settle (err (driver no_documents)) rest = rest
settle (err e) rest = fail e

unfoldable pub existing_or : Message → Action Saved → Action Saved
unfolding existing_of settle
existing_or msg rest =
    call (messages (find_one (same_request msg) any_order)) λ r. settle (existing_of msg r) rest

unfoldable pub accepts : Message → Channel → Bool
unfolding is_participant
accepts msg ch = ch.id == msg.channel_id && (ch.active && is_participant ch msg.sender_id)

-- The `$set` stage of the summary update; its expressions read the document before it.
unfoldable pub summarise : Message → Channel → Channel
summarise msg ch =
    let newer = ltb_ℤ ch.last_message_seq msg.sequence in
    record ch {
      last_message_seq = if newer then msg.sequence else ch.last_message_seq;
      last_message_id = if newer then msg.id else ch.last_message_id;
      last_message_at = if newer then some msg.created_at else ch.last_message_at;
      last_event_version = ch.last_event_version + 1;
      updated_at = msg.updated_at;
    }

abbrev pub max_attempts : ℕ
max_attempts = 64

module _ (hex : ObjectId → Bytes) (fresh : Fresh) where
  unfoldable pub after_event : Message → Reply (Unit {0}) → Action Saved
  after_event msg (ok _) = return (msg, true)
  after_event msg (err e) = fail (driver e)

  -- A message whose channel has gone is taken back; the error of the deletion is dropped.
  unfoldable pub after_summary : Message → Reply Channel → Action Saved
  unfolding after_event
  after_summary msg (ok ch) =
      call
        (outbox (
          insert_one (
            outbox_event hex fresh fresh.occurred_at message_created ch (message_data hex ch msg))))
        (after_event msg)
  after_summary msg (err no_documents) =
      call (messages (delete_one (has_id msg.id))) λ _. fail not_found
  after_summary msg (err e) = fail (driver e)

  -- The code after the loop.
  unfoldable pub finish : Message → Action Saved
  unfolding after_summary
  finish msg =
      if eqb_ℤ msg.sequence (pos 0)
      then fail conflict
      else call (channels (find_one_and_update (accepts msg) (summarise msg) none))
          (after_summary msg)

  -- `rest` is the next round of the loop.
  unfoldable pub after_insert : Message → Message → Action Saved → Reply (Unit {0}) → Action Saved
  unfolding finish existing_or
  after_insert msg candidate rest (ok _) = finish candidate
  after_insert msg candidate rest (err duplicate_key) = existing_or msg rest
  after_insert msg candidate rest (err e) = fail (driver e)

  unfoldable pub insert_after : Message → ℤ → Action Saved → Action Saved
  unfolding after_insert
  insert_after msg sequence rest =
      let candidate = record msg { sequence = inc64 sequence } in
      call (messages (insert_one candidate)) (after_insert msg candidate rest)

  unfoldable pub after_latest : Message → Channel → Action Saved → Reply Message → Action Saved
  unfolding insert_after
  after_latest msg ch rest (ok latest) =
      insert_after msg
        (if ltb_ℤ ch.last_message_seq latest.sequence then latest.sequence else ch.last_message_seq)
        rest
  after_latest msg ch rest (err no_documents) = insert_after msg ch.last_message_seq rest
  after_latest msg ch rest (err e) = fail (driver e)

  unfoldable pub after_channel : Message → Action Saved → Reply Channel → Action Saved
  unfolding after_latest
  after_channel msg rest (ok ch) =
      call (messages (find_one (in_channel msg.channel_id) newest_first)) (after_latest msg ch rest)
  after_channel msg rest (err no_documents) = fail not_found
  after_channel msg rest (err e) = fail (driver e)

  -- The loop, with the rounds that are left.
  unfoldable pub attempts : ℕ → Message → Action Saved
  unfolding finish after_channel
  attempts zero msg = finish msg
  attempts (suc n) msg =
      call (channels (find_one (accepts msg) any_order)) (after_channel msg (attempts n msg))

  unfoldable pub create : Message → Action Saved
  unfolding existing_or attempts
  create msg = existing_or msg (
      attempts max_attempts (record msg {
        id = fresh.id;
        created_at = fresh.now;
        updated_at = fresh.now;
        revision = 1;
      }))
