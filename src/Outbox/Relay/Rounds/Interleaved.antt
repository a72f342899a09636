-- ===== src/Outbox/Relay/Rounds/Interleaved.antt =====
-- The relay next to requests and other relays.
use lens_chat_service.Prelude.{
  ◌≡◌, refl, inr, ℕ, pos, ◌+◌, leb, ok, err, Bool, true, false, Option, none, some, List, [], ◌∷◌,
  ◌==◌, length, Result, arith,
}
use lens_chat_service.GoText.{Bytes, text}
use lens_chat_service.Schema.{
  ObjectId, Time, OutboxEvent, OutboxRelayLease, OutboxStatus, pending, published, failed,
}
use lens_chat_service.Mongo.{
  Reply, find_one_and_update, delete_one, duplicate_key, no_documents, driver_failed,
}
use lens_chat_service.Response.{Error}
use lens_chat_service.Store.{View, Action, done, call, After-mono}
use lens_chat_service.History.{
  EventNext, Abides, Abides-if, Abides-and_then, Abides-update_event, Abides-heads, Abides-lease,
}
use lens_chat_service.Outbox.Repo
use lens_chat_service.Outbox.Repo.Heads.{pending_channel_heads, by_channel, oldest_first}
use lens_chat_service.Outbox.Telemetry.{Telemetry}
use lens_chat_service.Outbox.Relay.{
  Attempt, Due, counted, retry_delay, max_publish_attempts, publish_head, due_events,
}
use lens_chat_service.Outbox.Relay.Rounds.{
  Moment, at_once, publish_all, after_due, after_heads, after_leader, round, relay_run,
  max_pending_channel_heads,
}

is_pending_lem : (s : OutboxStatus) → Repo.is_pending s ≡ true → s ≡ pending
is_pending_lem pending h = refl
is_pending_lem published h = cc h
is_pending_lem failed h = cc h

pending_id-pending :
    (id : ObjectId) (e : OutboxEvent) → Repo.pending_id id e ≡ true → e.status ≡ pending
unfolding Repo.pending_id Repo.pending_event
pending_id-pending id e h = is_pending_lem e.status (ground arith)

module _ (id : ObjectId) (e : OutboxEvent) (h : Repo.pending_id id e ≡ true) where
  published-EventNext : (now : Time) → EventNext e (Repo.mark_as_published now e)
  unfolding Repo.mark_as_published
  published-EventNext now = record { same = refl; settled = inr (pending_id-pending id e h) }

  retry-EventNext : (at : Time) (x : Option Bytes) → EventNext e (Repo.mark_for_retry at x e)
  unfolding Repo.mark_for_retry
  retry-EventNext at x = record { same = refl; settled = inr (pending_id-pending id e h) }

  failed-EventNext :
      (now : Time) (n : ℕ) (x : Option Bytes) → EventNext e (Repo.mark_as_failed now n x e)
  unfolding Repo.mark_as_failed
  failed-EventNext now n x = record { same = refl; settled = inr (pending_id-pending id e h) }

module _ (hex : ObjectId → Bytes) where
  counted-Abides :
      (m : Action (Unit {0})) (good bad : Option Telemetry) (v : View)
      → Abides hex v m
      → Abides hex v (counted m good bad)
  unfolding counted
  counted-Abides (done (ok _)) good bad v h = tt
  counted-Abides (done (err _)) good bad v h = tt
  counted-Abides (call c k) good bad v h =
      λ u e. After-mono c u (λ r w q. (q.0, counted-Abides (k r) good bad w q.1)) (h u e)

  mark_published-Abides :
      (id : ObjectId) (now : Time) (v : View) → Abides hex v (Repo.mark_published id now)
  unfolding Repo.mark_published
  mark_published-Abides id now v =
      Abides-update_event hex v (Repo.pending_id id) (Repo.mark_as_published now)
        (λ r. done (Repo.must_match (text "outbox event was not pending when marking published") r))
        (λ x h. published-EventNext id x h now) λ r w e. tt

  schedule_retry-Abides :
      (id : ObjectId) (at : Time) (x : Option Bytes) (v : View)
      → Abides hex v (Repo.schedule_retry id at x)
  unfolding Repo.schedule_retry
  schedule_retry-Abides id at x v =
      Abides-update_event hex v (Repo.pending_id id) (Repo.mark_for_retry at x)
        (λ r. done (Repo.ignore_count r)) (λ y h. retry-EventNext id y h at x) λ r w e. tt

  mark_failed-Abides :
      (id : ObjectId) (now : Time) (n : ℕ) (x : Option Bytes) (v : View)
      → Abides hex v (Repo.mark_failed id now n x)
  unfolding Repo.mark_failed
  mark_failed-Abides id now n x v =
      Abides-update_event hex v (Repo.pending_id id) (Repo.mark_as_failed now n x)
        (λ r. done (Repo.must_match (text "outbox event was not pending when marking failed") r))
        (λ y h. failed-EventNext id y h now n x) λ r w e. tt

  by_fate :
      (a : Attempt) (e : OutboxEvent) (t : Option Telemetry) (v : View) (x : Option Bytes)
      → a.publish_error ≡ x
      → Abides hex v (publish_head a e t)
  unfolding publish_head
  by_fate a e t v none q =
      rw q
        (counted-Abides (Repo.mark_published e.id a.now) _ _ v (mark_published-Abides e.id a.now v))
  by_fate a e t v (some x) q = rw q (
      Abides-if hex (leb max_publish_attempts (e.attempt_count + 1)) _ _ v
        (counted-Abides _ _ _ v (mark_failed-Abides e.id a.now (e.attempt_count + 1) (some x) v))
        (counted-Abides _ _ _ v
          (schedule_retry-Abides e.id (a.now + retry_delay (e.attempt_count + 1)) (some x) v)))

  publish_head-Abides :
      (a : Attempt) (e : OutboxEvent) (t : Option Telemetry) (v : View)
      → Abides hex v (publish_head a e t)
  publish_head-Abides a e t v = by_fate a e t v a.publish_error refl

  publish_all-Abides :
      (attempt : OutboxEvent → Attempt) (es : List OutboxEvent) (t : Option Telemetry) (v : View)
      → Abides hex v (publish_all attempt es t)
  unfolding publish_all
  publish_all-Abides attempt [] t v = tt
  publish_all-Abides attempt (e ∷ es) t v =
      Abides-and_then hex (publish_head (attempt e) e t) (publish_all attempt es) v
        (publish_head-Abides (attempt e) e t v) λ u w _. publish_all-Abides attempt es u w

  module _ (poll : ℕ) (m : Moment) (t : Option Telemetry) where
    due-Abides : (due : Due) (v : View) → Abides hex v (after_due poll m t due)
    unfolding after_due
    due-Abides due v = Abides-if hex (length due.events == 0) _ _ v tt (
        Abides-and_then hex (publish_all m.attempt (m.turns due.events) t) (λ u. done (at_once, u))
          v (publish_all-Abides m.attempt (m.turns due.events) t v) λ u w _. tt)

    heads-Abides :
        (r : Result Error (List OutboxEvent)) (v : View) → Abides hex v (after_heads poll m t r)
    unfolding after_heads
    heads-Abides (err e) v = tt
    heads-Abides (ok []) v = tt
    heads-Abides (ok (e ∷ es)) v = due-Abides (due_events m.selected (e ∷ es)) v

    leader-Abides : (r : Result Error Bool) (v : View) → Abides hex v (after_leader poll m t r)
    unfolding after_leader pending_channel_heads
    leader-Abides (err e) v = tt
    leader-Abides (ok false) v = tt
    leader-Abides (ok true) v =
        Abides-and_then hex (pending_channel_heads (pos max_pending_channel_heads))
          (after_heads poll m t) v
          (Abides-heads hex v Repo.pending_event by_channel Repo.same_partition oldest_first
            (pos max_pending_channel_heads) (λ r. done (Repo.or_driver r)) λ r w _. tt)
          λ r w _. heads-Abides r w

  lease-Abides :
      (owner : Bytes) (r : Reply OutboxRelayLease) (v : View)
      → Abides hex v (Repo.after_lease owner r)
  unfolding Repo.after_lease
  lease-Abides owner (ok l) v = tt
  lease-Abides owner (err no_documents) v = tt
  lease-Abides owner (err duplicate_key) v = tt
  lease-Abides owner (err (driver_failed n)) v = tt

  module _ (owner : Bytes) (lease_duration poll : ℕ) where
    round-Abides :
        (m : Moment) (t : Option Telemetry) (v : View)
        → Abides hex v (round owner lease_duration poll m t)
    unfolding round Repo.acquire_relay_lease
    round-Abides m t v =
        Abides-and_then hex (Repo.acquire_relay_lease owner m.started lease_duration)
          (after_leader poll m t) v
          (Abides-lease hex v
            (find_one_and_update (Repo.may_take owner m.started)
              (Repo.taken owner m.started lease_duration)
              (some (Repo.new_lease owner m.started lease_duration)))
            (Repo.after_lease owner) λ r w _. lease-Abides owner r w)
          λ r w _. leader-Abides poll m t r w

    pub relay_run-Abides :
        (ms : List Moment) (t : Option Telemetry) (v : View)
        → Abides hex v (relay_run owner lease_duration poll ms t)
    unfolding relay_run Repo.release_relay_lease
    relay_run-Abides [] t v =
        Abides-and_then hex (Repo.release_relay_lease owner) (λ _. done t) v
          (Abides-lease hex v (delete_one (Repo.is_held_by owner)) (λ r. done (Repo.or_driver r))
            λ r w _. tt)
          λ r w _. tt
    relay_run-Abides (m ∷ ms) t v =
        Abides-and_then hex (round owner lease_duration poll m t)
          (λ e. relay_run owner lease_duration poll ms e.1) v (round-Abides m t v)
          λ e w _. relay_run-Abides ms e.1 w
