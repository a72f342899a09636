-- ===== src/Outbox/Relay/Rounds/Spares.antt =====
-- What a worker of the relay leaves as it is.
use lens_chat_service.Prelude.{
  ℕ, ◌+◌, ◌≡◌, subst, sym, ◌⊎◌, inl, inr, true, List, Option, none, some, ok, err, IsIn, leb,
  Bool-cases,
}
use lens_chat_service.GoText.{Bytes}
use lens_chat_service.Schema.{ObjectId, OutboxEvent}
use lens_chat_service.Mongo.{
  Reply, UpdateResult, Updated, UpdatedOne, Updated-keeps, no_documents, duplicate_key,
  driver_failed,
}
use lens_chat_service.Store.{Action, done, call, View, Ensures, After-mono, event_clash}
use lens_chat_service.Outbox.Repo.{
  pending_id, mark_as_published, mark_for_retry, mark_as_failed, mark_published, schedule_retry,
  mark_failed,
}
use lens_chat_service.Outbox.Telemetry.{Telemetry}
use lens_chat_service.Outbox.Relay.{
  Attempt, max_publish_attempts, retry_delay, counted, publish_head,
}

counted-Ensures :
    (m : Action (Unit {0})) (good bad : Option Telemetry) (Q : View → Type 0) (v : View)
    → Ensures m (λ _ w. Q w) v
    → Ensures (counted m good bad) (λ _ w. Q w) v
unfolding counted
counted-Ensures (done (ok _)) good bad Q v h = h
counted-Ensures (done (err _)) good bad Q v h = h
counted-Ensures (call c k) good bad Q v h =
    After-mono c v (λ r w. counted-Ensures (k r) good bad Q w) h

-- Every event of the outbox is as it was, or it was pending under the id `id`.
abbrev pub Spares : ObjectId → View → View → Type 0
Spares id v w = (e : OutboxEvent) → IsIn e v.outbox → IsIn e w.outbox ⊎ (pending_id id e ≡ true)

module _ (id : ObjectId) (v : View) where
  Updated-Spares :
      (f : OutboxEvent → OutboxEvent) (ds : List OutboxEvent)
      → Updated (pending_id id) f v.outbox ds
      → Spares id v (record v { outbox = ds })
  Updated-Spares f ds u e i = elim (Bool-cases (pending_id id e)) [
    | inl h ↦ inr h
    | inr h ↦ inl (Updated-keeps u e h i)
  ]

  update-Spares :
      (f : OutboxEvent → OutboxEvent) (r : Reply UpdateResult) (ds : List OutboxEvent)
      → UpdatedOne event_clash (pending_id id) f none v.outbox r ds
      → Spares id v (record v { outbox = ds })
  update-Spares f (ok r) ds (inl (_, u)) = Updated-Spares f ds u
  update-Spares f (ok r) ds (inr (inl (_, _, h))) = absurd h
  update-Spares f (ok r) ds (inr (inr (_, _, same, _))) = λ e i. inl (subst (IsIn e) (sym same) i)
  update-Spares f (err no_documents) ds same = λ e i. inl (subst (IsIn e) (sym same) i)
  update-Spares f (err duplicate_key) ds (same, _) = λ e i. inl (subst (IsIn e) (sym same) i)
  update-Spares f (err (driver_failed n)) ds (inl same) = λ e i. inl (subst (IsIn e) (sym same) i)
  update-Spares f (err (driver_failed n)) ds (inr (inl u)) = Updated-Spares f ds u
  update-Spares f (err (driver_failed n)) ds (inr (inr h)) = absurd h

module _ (event : OutboxEvent) (v : View) where
  published-Spares :
      (now : ℕ) → Ensures (mark_published event.id now) (λ _ w. Spares event.id v w) v
  unfolding mark_published
  published-Spares now = λ r ds d _. update-Spares event.id v (mark_as_published now) r ds d

  retry-Spares :
      (at : ℕ) (e : Option Bytes)
      → Ensures (schedule_retry event.id at e) (λ _ w. Spares event.id v w) v
  unfolding schedule_retry
  retry-Spares at e = λ r ds d _. update-Spares event.id v (mark_for_retry at e) r ds d

  failed-Spares :
      (now n : ℕ) (e : Option Bytes)
      → Ensures (mark_failed event.id now n e) (λ _ w. Spares event.id v w) v
  unfolding mark_failed
  failed-Spares now n e = λ r ds d _. update-Spares event.id v (mark_as_failed now n e) r ds d

  pub answer-Spares :
      (a : Attempt) (x : Option Bytes) (t : Option Telemetry)
      → a.publish_error ≡ x
      → Ensures (publish_head a event t) (λ _ w. Spares event.id v w) v
  unfolding publish_head
  answer-Spares a none t e = rw e (
      counted-Ensures (mark_published event.id a.now) _ _ (Spares event.id v) v
        (published-Spares a.now))
  answer-Spares a (some m) t e =
      elim (Bool-cases (leb max_publish_attempts (event.attempt_count + 1))) [
        | inl h ↦
            rw (e, h)
              (counted-Ensures _ _ _ (Spares event.id v) v
                (failed-Spares a.now (event.attempt_count + 1) (some m)))
        | inr h ↦
            rw (e, h)
              (counted-Ensures _ _ _ (Spares event.id v) v
                (retry-Spares (a.now + retry_delay (event.attempt_count + 1)) (some m)))
      ]
