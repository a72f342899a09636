-- ===== src/Outbox/Relay.antt =====
-- internal/outbox/relay.go
pub mod Retry
pub mod Delivery
pub mod States
pub mod Selection
pub mod Rounds
use lens_chat_service.Prelude.{
  ℕ, zero, suc, ◌+◌, ◌-◌, ◌*◌, ltb, leb, Bool, true, false, Option, none, some, List, [], ◌∷◌,
  Result, ok, err, ◌==◌, if◌then◌else◌, ◌++◌, length,
}
use lens_chat_service.GoText.{Bytes}
use lens_chat_service.Schema.{Time, OutboxEvent}
use lens_chat_service.Response.{Error}
use lens_chat_service.Store.{Action, Program, done, call}
use lens_chat_service.Outbox.Repo.{mark_published, mark_failed, schedule_retry}
use lens_chat_service.Outbox.Telemetry.{
  Telemetry, record_attempt, record_published, record_failure, record_retry, record_parked,
  record_processing,
}

abbrev pub max_publish_attempts : ℕ
max_publish_attempts = 3

abbrev pub max_parallel_publishes : ℕ
max_parallel_publishes = 16

-- Durations are nanoseconds.
abbrev pub second : ℕ
second = 1_000_000_000

abbrev pub five_minutes : ℕ
five_minutes = 300_000_000_000

-- The loop of `retryDelay`, with the rounds that `i < attempt` leaves.
delay_from : ℕ → ℕ → ℕ
delay_from zero delay = delay
delay_from (suc n) delay =
    let doubled = delay_from n (delay * 2) in if ltb delay five_minutes then doubled else delay

unfoldable pub retry_delay : ℕ → ℕ
unfolding delay_from
retry_delay attempt =
    let delay = delay_from (attempt - 1) second in
    if ltb five_minutes delay then five_minutes else delay

-- The events that are due now, at most `max_parallel_publishes`, and the time of the first that is
-- not: the loop over the channel heads, with its two variables.
pub record Due : Type 0 where
  pub events : List OutboxEvent
  pub next_attempt : Option Time

abbrev pub earlier : Option Time → Time → Option Time
earlier none t = some t
earlier (some s) t = if ltb t s then some t else some s

pub due_step : Time → OutboxEvent → Due → Due
due_step now e d =
    if leb e.next_attempt_at now
    then (if ltb (length d.events) max_parallel_publishes
        then record d { events = d.events ++ e ∷ [] }
        else d)
    else record d { next_attempt = earlier d.next_attempt e.next_attempt_at }

pub due_from : Time → Due → List OutboxEvent → Due
unfolding due_step
due_from now d [] = d
due_from now d (e ∷ es) = due_from now (due_step now e d) es

unfoldable pub due_events : Time → List OutboxEvent → Due
unfolding due_from
due_events now heads = due_from now (record { events = []; next_attempt = none }) heads

-- How long an idle round waits: to the next attempt, at most one poll interval. A time that has
-- passed gives no wait.
unfoldable pub idle_delay : ℕ → Time → Option Time → ℕ
idle_delay poll now none = poll
idle_delay poll now (some t) = if ltb (t - now) poll then t - now else poll

-- `f` on the counters, if there are any.
abbrev pub counting : (Telemetry → Telemetry) → Option Telemetry → Option Telemetry
counting f none = none
counting f (some t) = some (f t)

-- What one worker meets outside the service: Kafka's answer to `Publish`, the time after it and how
-- long it took.
pub record Attempt : Type 0 where
  pub publish_error : Option Bytes
  pub now : Time
  pub nanos : ℕ

-- The result of an action is dropped but for the counters.
pub counted : Action (Unit {0}) → Option Telemetry → Option Telemetry → Program (Option Telemetry)
counted (done (ok _)) good bad = done good
counted (done (err _)) good bad = done bad
counted (call c k) good bad = call c λ r. counted (k r) good bad

-- The goroutine of `publishChannelHeads` for one event.
unfoldable pub publish_head : Attempt → OutboxEvent → Option Telemetry → Program (Option Telemetry)
unfolding counted
publish_head a event t = elim a.publish_error [
  | none ↦
      let started = counting record_attempt t in
      counted (mark_published event.id a.now)
        (counting (record_processing a.nanos) (counting record_published started))
        (counting (record_processing a.nanos) started)
  | some e ↦
      let failed =
        counting (record_processing a.nanos)
          (counting record_failure (counting record_attempt t)) in
      let attempt = event.attempt_count + 1 in
      if leb max_publish_attempts attempt
      then counted (mark_failed event.id a.now attempt (some e)) (counting record_parked failed)
          failed
      else counted (schedule_retry event.id (a.now + retry_delay attempt) (some e))
          (counting record_retry failed) (counting record_retry failed)
]
