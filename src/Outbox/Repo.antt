-- ===== src/Outbox/Repo.antt =====
-- internal/outbox/repository.go
pub mod Lease
pub mod Heads
pub mod Lock
use lens_chat_service.Prelude.{
  ℕ, ℤ, pos, suc, ◌+◌, ltb, leb, Bool, true, false, ◌&&◌, ◌||◌, ◌≡◌, ◌⊎◌, arith, Option, none, some,
  List, Result, ok, err, ◌==◌, if◌then◌else◌, length, take,
}
use lens_chat_service.GoText.{Bytes, text, str_eq, str_lt, trim_space}
use lens_chat_service.Schema.{
  ObjectId, Time, OutboxEvent, OutboxRelayLease, OutboxStatus, pending, published, failed,
}
use lens_chat_service.Mongo.{
  Reply, Sort, UpdateResult, find_one_and_update, update_one, delete_one, aggregate_heads,
  no_documents, duplicate_key,
}
use lens_chat_service.Response.{Error, driver, other}
use lens_chat_service.Store.{Action, done, call, return, fail, outbox, leases}

abbrev pub relay_lease_id : Bytes
relay_lease_id = text "chat-outbox-relay"

-- Every stored lease has its `lease_until`, so the `$exists` branch of the filter never holds.
unfoldable pub may_take : Bytes → Time → OutboxRelayLease → Bool
may_take owner now l = str_eq l.id relay_lease_id && (leb l.lease_until now || str_eq l.owner owner)

unfoldable pub taken : Bytes → Time → Time → OutboxRelayLease → OutboxRelayLease
taken owner now duration l = record l {
  owner = owner;
  lease_until = now + duration;
  updated_at = now;
}

unfoldable pub new_lease : Bytes → Time → Time → OutboxRelayLease
new_lease owner now duration = record {
  id = relay_lease_id;
  owner = owner;
  lease_until = now + duration;
  updated_at = now;
}

unfoldable pub after_lease : Bytes → Reply OutboxRelayLease → Action Bool
after_lease owner (ok lease) = return (str_eq lease.owner owner)
after_lease owner (err duplicate_key) = return false
after_lease owner (err e) = fail (driver e)

unfoldable pub acquire_relay_lease : Bytes → Time → Time → Action Bool
unfolding after_lease
acquire_relay_lease owner now duration =
    call
      (leases (
        find_one_and_update (may_take owner now) (taken owner now duration)
          (some (new_lease owner now duration))))
      (after_lease owner)

abbrev pub or_driver : {A : Type 0} → Reply A → Result Error A
or_driver (ok a) = ok a
or_driver (err e) = err (driver e)

unfoldable pub is_held_by : Bytes → OutboxRelayLease → Bool
is_held_by owner l = str_eq l.id relay_lease_id && str_eq l.owner owner

unfoldable pub release_relay_lease : Bytes → Action (Unit {0})
release_relay_lease owner = call (leases (delete_one (is_held_by owner))) λ r. done (or_driver r)

abbrev pub is_pending : OutboxStatus → Bool
is_pending pending = true
is_pending published = false
is_pending failed = false

unfoldable pub pending_event : OutboxEvent → Bool
pending_event e = is_pending e.status

unfoldable pub same_partition : OutboxEvent → OutboxEvent → Bool
same_partition e f = str_eq e.partition_key f.partition_key

-- Marking and scheduling go by the id, and only while the event is pending.
unfoldable pub pending_id : ObjectId → OutboxEvent → Bool
unfolding pending_event
pending_id id e = e.id == id && pending_event e

-- The text that is stored of a publish error.
unfoldable pub stored_error : Option Bytes → Bytes
stored_error publish_error =
    let message : Bytes = elim publish_error [
      | none ↦ text "unknown Kafka publish error"
      | some e ↦ trim_space e
    ] in
    if ltb 512 (length message) then take 512 message else message

unfoldable pub mark_as_published : Time → OutboxEvent → OutboxEvent
mark_as_published now e = record e {
  status = published;
  published_at = some now;
  last_error = text "";
}

unfoldable pub mark_for_retry : Time → Option Bytes → OutboxEvent → OutboxEvent
mark_for_retry retry_at publish_error e = record e {
  next_attempt_at = retry_at;
  last_error = stored_error publish_error;
  attempt_count = e.attempt_count + 1;
}

unfoldable pub mark_as_failed : Time → ℕ → Option Bytes → OutboxEvent → OutboxEvent
mark_as_failed now attempts publish_error e = record e {
  status = failed;
  failed_at = some now;
  attempt_count = attempts;
  last_error = stored_error publish_error;
}

-- An update that has to have found its event.
unfoldable pub must_match : Bytes → Reply UpdateResult → Result Error (Unit {0})
must_match message (ok r) = if r.matched_count == 0 then err (other message) else ok tt
must_match message (err e) = err (driver e)

unfoldable pub ignore_count : Reply UpdateResult → Result Error (Unit {0})
ignore_count (ok r) = ok tt
ignore_count (err e) = err (driver e)

unfoldable pub mark_published : ObjectId → Time → Action (Unit {0})
mark_published id now =
    call (outbox (update_one (pending_id id) (mark_as_published now) none))
      λ r. done (must_match (text "outbox event was not pending when marking published") r)

unfoldable pub schedule_retry : ObjectId → Time → Option Bytes → Action (Unit {0})
schedule_retry id retry_at publish_error =
    call (outbox (update_one (pending_id id) (mark_for_retry retry_at publish_error) none))
      λ r. done (ignore_count r)

unfoldable pub mark_failed : ObjectId → Time → ℕ → Option Bytes → Action (Unit {0})
mark_failed id now attempts publish_error =
    call (outbox (update_one (pending_id id) (mark_as_failed now attempts publish_error) none))
      λ r. done (must_match (text "outbox event was not pending when marking failed") r)
