-- ===== src/Outbox/Relay/States.antt =====
-- The life of an outbox event: pending with fewer than three attempts, then published or failed.
use lens_chat_service.Prelude.{◌≤◌, ◌<◌, ◌≡◌, true, arith, IsIn}
use lens_chat_service.Schema.{OutboxEvent, pending, failed}
use lens_chat_service.Store.{View}
use lens_chat_service.Outbox.Repo.{pending_event}
use lens_chat_service.Outbox.Telemetry.{Telemetry}
use lens_chat_service.Outbox.Relay.{max_publish_attempts}

pub record IsSound (e : OutboxEvent) : Type 0 where
  pub capped : e.attempt_count ≤ max_publish_attempts
  pub waiting : e.status ≡ pending → e.attempt_count < max_publish_attempts
  pub exhausted : e.status ≡ failed → e.attempt_count ≡ max_publish_attempts

abbrev pub AllSound : View → Type 0
AllSound v = (e : OutboxEvent) → IsIn e v.outbox → IsSound e

status_of_pending : (e : OutboxEvent) → pending_event e ≡ true → e.status ≡ pending
unfolding pending_event
status_of_pending e h = ground arith
