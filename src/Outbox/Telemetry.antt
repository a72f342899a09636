-- ===== src/Outbox/Telemetry.antt =====
-- internal/outbox/telemetry.go. The counters are `atomic.Int64`; they count up from 0 and are taken
-- not to reach 2^63.
use lens_chat_service.Prelude.{ℕ, ◌+◌}

pub record Telemetry : Type 0 where
  pub attempts : ℕ
  pub published : ℕ
  pub publish_failures : ℕ
  pub retries : ℕ
  pub parked : ℕ
  pub processing_count : ℕ
  pub processing_nanos : ℕ

unfoldable pub record_attempt : Telemetry → Telemetry
record_attempt t = record t { attempts = t.attempts + 1 }

unfoldable pub record_published : Telemetry → Telemetry
record_published t = record t { published = t.published + 1 }

unfoldable pub record_failure : Telemetry → Telemetry
record_failure t = record t { publish_failures = t.publish_failures + 1 }

unfoldable pub record_retry : Telemetry → Telemetry
record_retry t = record t { retries = t.retries + 1 }

unfoldable pub record_parked : Telemetry → Telemetry
record_parked t = record t { parked = t.parked + 1 }

unfoldable pub record_processing : ℕ → Telemetry → Telemetry
record_processing nanos t = record t {
  processing_count = t.processing_count + 1;
  processing_nanos = t.processing_nanos + nanos;
}
