-- ===== src/Outbox/Relay/Delivery.antt =====
-- What a worker of the relay makes of its event.
use lens_chat_service.Prelude.{◌+◌, ◌≡◌, ◌⊎◌, List, ◌∷◌, ◌++◌, none, some, leb, if◌then◌else◌}
use lens_chat_service.Schema.{OutboxEvent}
use lens_chat_service.Store.{View}
use lens_chat_service.Outbox.Repo.{mark_as_published, mark_for_retry, mark_as_failed}
use lens_chat_service.Outbox.Telemetry.{Telemetry}
use lens_chat_service.Outbox.Relay.{Attempt, max_publish_attempts, retry_delay}

-- What becomes of an event: Kafka took it, it is tried again later, or it is parked.
unfoldable pub fate : Attempt → OutboxEvent → OutboxEvent
fate a e = elim a.publish_error [
  | none ↦ mark_as_published a.now e
  | some x ↦
      if leb max_publish_attempts (e.attempt_count + 1)
      then mark_as_failed a.now (e.attempt_count + 1) (some x) e
      else mark_for_retry (a.now + retry_delay (e.attempt_count + 1)) (some x) e
]

module _ (event : OutboxEvent) (v : View) where
  -- Only the event changes, and it becomes `new`; or `note` holds and nothing changes.
  abbrev pub Becomes : OutboxEvent → Type 0 → View → Type 0
  Becomes new note w =
      (note × (w ≡ v))
      ⊎ ((pre : List OutboxEvent) × (post : List OutboxEvent) × (v.outbox ≡ pre ++ (event ∷ post))
          × (w ≡ record v { outbox = pre ++ (new ∷ post) }))
