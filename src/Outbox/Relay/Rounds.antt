-- ===== src/Outbox/Relay/Rounds.antt =====
-- internal/outbox/relay.go: `Run` and the loop of `publishChannelHeads`.
mod Spares
pub mod Order
pub mod Interleaved
use lens_chat_service.Prelude.{
  ℕ, pos, ◌+◌, Bool, true, false, Option, List, [], ◌∷◌, Result, ok, err, ◌==◌, if◌then◌else◌,
  length,
}
use lens_chat_service.GoText.{Bytes}
use lens_chat_service.Schema.{Time, OutboxEvent}
use lens_chat_service.Response.{Error}
use lens_chat_service.Store.{Program, done, call, and_then}
use lens_chat_service.Outbox.Repo.{acquire_relay_lease, release_relay_lease}
use lens_chat_service.Outbox.Repo.Heads.{pending_channel_heads}
use lens_chat_service.Outbox.Telemetry.{Telemetry}
use lens_chat_service.Outbox.Relay.{Attempt, Due, due_events, idle_delay, publish_head}

abbrev pub max_pending_channel_heads : ℕ
max_pending_channel_heads = 1000

-- What a round meets outside the service: the times of its three looks at the clock, what each
-- worker meets, and the order in which the workers, which run side by side, make their one call of
-- the database. The counters only add up, so their order does not matter.
pub record Moment : Type 0 where
  pub started : Time
  pub selected : Time
  pub looked : Time
  pub attempt : OutboxEvent → Attempt
  pub turns : List OutboxEvent → List OutboxEvent

-- How a round ends: it waits that long, or the next one starts at once.
pub data Next : Type 0 where
  wait : ℕ → Next
  at_once : Next

abbrev pub Ended : Type 0
Ended = Next × Option Telemetry

publish_all :
    (OutboxEvent → Attempt) → List OutboxEvent → Option Telemetry → Program (Option Telemetry)
publish_all attempt [] t = done t
publish_all attempt (e ∷ es) t = and_then (publish_head (attempt e) e t) (publish_all attempt es)

after_due : ℕ → Moment → Option Telemetry → Due → Program Ended
unfolding publish_all
after_due poll m t due =
    if length due.events == 0
    then done (wait (idle_delay poll m.looked due.next_attempt), t)
    else and_then (publish_all m.attempt (m.turns due.events) t) (λ u. done (at_once, u))

after_heads : ℕ → Moment → Option Telemetry → Result Error (List OutboxEvent) → Program Ended
unfolding after_due
after_heads poll m t (err e) = done (wait poll, t)
after_heads poll m t (ok []) = done (wait poll, t)
after_heads poll m t (ok (e ∷ es)) = after_due poll m t (due_events m.selected (e ∷ es))

after_leader : ℕ → Moment → Option Telemetry → Result Error Bool → Program Ended
unfolding after_heads
after_leader poll m t (err e) = done (wait poll, t)
after_leader poll m t (ok false) = done (wait poll, t)
after_leader poll m t (ok true) =
    and_then (pending_channel_heads (pos max_pending_channel_heads)) (after_heads poll m t)

-- One turn of the loop of `Run`.
unfoldable pub round : Bytes → ℕ → ℕ → Moment → Option Telemetry → Program Ended
unfolding after_leader
round owner lease_duration poll m t =
    and_then (acquire_relay_lease owner m.started lease_duration) (after_leader poll m t)

-- The rounds until the context is done, and the release of the lease, whose error is only logged.
unfoldable pub relay_run :
    Bytes → ℕ → ℕ → List Moment → Option Telemetry → Program (Option Telemetry)
relay_run owner lease_duration poll [] t = and_then (release_relay_lease owner) (λ _. done t)
relay_run owner lease_duration poll (m ∷ ms) t =
    and_then (round owner lease_duration poll m t) λ e. relay_run owner lease_duration poll ms e.1
