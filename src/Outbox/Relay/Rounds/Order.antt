-- ===== src/Outbox/Relay/Rounds/Order.antt =====
-- A round of the relay keeps the order of each channel.
use lens_chat_service.Prelude.{
  ℕ, ◌≡◌, refl, subst, sym, ◌⊎◌, inl, inr, true, false, List, [], ◌∷◌, Option, ok, err, arith, IsIn,
  ◌≤◌, Bool-cases, length, ◌==◌, pos, Bool,
}
use lens_chat_service.GoText.{Bytes, str_eq_iff, str_eq}
use lens_chat_service.Schema.{Time, OutboxEvent, OutboxRelayLease}
use lens_chat_service.Mongo.{
  Reply, Heads, no_documents, duplicate_key, driver_failed, eq_of_clash, FoundHeads,
}
use lens_chat_service.Store.{View, Ensures, Ensures-mono, Ensures-and_then, IsIndexed, event_clash}
use lens_chat_service.Outbox.Repo.{
  pending_event, pending_id, same_partition, or_driver, acquire_relay_lease, after_lease,
}
use lens_chat_service.Outbox.Repo.Heads.{
  pending_channel_heads, by_channel, oldest_first, order_version,
}
use lens_chat_service.Outbox.Telemetry.{Telemetry}
use lens_chat_service.Outbox.Relay.{Due, publish_head, due_events}
use lens_chat_service.Outbox.Relay.Selection.{due_events-IsSelection}
use lens_chat_service.Outbox.Relay.Rounds.{
  Moment, max_pending_channel_heads, publish_all, after_due, after_heads, after_leader, round,
}
use lens_chat_service.Outbox.Relay.Rounds.Spares.{Spares, answer-Spares}

-- The event is pending and due, and no pending event of its channel has an earlier version.
pub record IsNext (now : Time) (v : View) (e : OutboxEvent) : Type 0 where
  pub stored : IsIn e v.outbox
  pub waiting : pending_event e ≡ true
  pub due : e.next_attempt_at ≤ now
  pub first :
      (f : OutboxEvent)
      → IsIn f v.outbox
      → pending_event f ≡ true
      → e.partition_key ≡ f.partition_key
      → e.event.aggregate_version ≤ f.event.aggregate_version

-- Between `v` and `w` only events were touched that were next in their channel.
abbrev pub KeepsOrder : Time → View → View → Type 0
KeepsOrder now v w = (e : OutboxEvent) → IsIn e v.outbox → IsIn e w.outbox ⊎ IsNext now v e

same_event :
    (v : View) (e f : OutboxEvent)
    → IsIndexed v
    → IsIn e v.outbox
    → IsIn f v.outbox
    → pending_id e.id f ≡ true
    → e ≡ f
unfolding event_clash pending_id
same_event v e f unique i j h =
    eq_of_clash event_clash v.outbox e f unique.outbox i j (ground arith) (ground arith)

module _ (poll : ℕ) (m : Moment) (v : View) (unique : IsIndexed v)
    (turns : (xs : List OutboxEvent) (e : OutboxEvent) → IsIn e (m.turns xs) → IsIn e xs) where
  step_lem :
      (e : OutboxEvent) (u w : View)
      → IsNext m.selected v e
      → KeepsOrder m.selected v u
      → Spares e.id u w
      → KeepsOrder m.selected v w
  step_lem e u w next kept spared f i = elim (kept f i) [
    | inr n ↦ inr n
    | inl j ↦ elim (spared f j) [
      | inl k ↦ inl k
      | inr h ↦ inr (subst (IsNext m.selected v) (same_event v e f unique next.stored i h) next)
    ]
  ]

  publish_lem :
      (es : List OutboxEvent) (t : Option Telemetry) (u : View)
      → ((e : OutboxEvent) → IsIn e es → IsNext m.selected v e)
      → KeepsOrder m.selected v u
      → Ensures (publish_all m.attempt es t) (λ _ w. KeepsOrder m.selected v w) u
  unfolding publish_all
  publish_lem [] t u next kept = kept
  publish_lem (e ∷ es) t u next kept =
      Ensures-and_then (publish_head (m.attempt e) e t) (publish_all m.attempt es) _ u (
        Ensures-mono (publish_head (m.attempt e) e t) u
          (λ t' w spared.
            publish_lem es t' w (λ f i. next f (inr i))
              (step_lem e u w (next e (inl refl)) kept spared))
          (answer-Spares e u (m.attempt e) (m.attempt e).publish_error t refl))

  due_lem :
      (t : Option Telemetry) (d : Due) (u : View)
      → ((e : OutboxEvent) → IsIn e d.events → IsNext m.selected v e)
      → KeepsOrder m.selected v u
      → Ensures (after_due poll m t d) (λ _ w. KeepsOrder m.selected v w) u
  unfolding after_due
  due_lem t d u next kept = elim (Bool-cases (length d.events == 0)) [
    | inl h ↦ rw h kept
    | inr h ↦ rw h (
        Ensures-and_then (publish_all m.attempt (m.turns d.events) t) _ _ u
          (publish_lem (m.turns d.events) t u (λ e i. next e (turns d.events e i)) kept))
  ]

  head_lem :
      (found : List OutboxEvent) (n : ℕ) (e : OutboxEvent)
      → Heads pending_event by_channel same_partition oldest_first n v.outbox found
      → IsIn e (due_events m.selected found).events
      → IsNext m.selected v e
  unfolding same_partition by_channel
  head_lem found n e heads i =
      let sel = (due_events-IsSelection m.selected found).sound e i in
      record {
        stored = (heads.sound e sel.0).0;
        waiting = (heads.sound e sel.0).1;
        due = sel.1;
        first = λ f j w same. order_version e f same (
            heads.first_of_group e f sel.0 j w
              ((str_eq_iff e.partition_key f.partition_key).1 same));
      }

  heads_lem :
      (t : Option Telemetry) (r : Reply (List OutboxEvent)) (u : View)
      → u.outbox ≡ v.outbox
      → FoundHeads pending_event by_channel same_partition oldest_first
          (pos max_pending_channel_heads)
          v.outbox
          r
      → Ensures (after_heads poll m t (or_driver r)) (λ _ w. KeepsOrder m.selected v w) u
  unfolding after_heads
  heads_lem t (err e) u same h = λ f i. inl (subst (IsIn f) (sym same) i)
  heads_lem t (ok []) u same h = λ f i. inl (subst (IsIn f) (sym same) i)
  heads_lem t (ok (e ∷ es)) u same h =
      due_lem t (due_events m.selected (e ∷ es)) u (λ f i. head_lem (e ∷ es) _ f h i)
        (λ f i. inl (subst (IsIn f) (sym same) i))

  leads_lem :
      (t : Option Telemetry) (b : Bool) (ls : List OutboxRelayLease)
      → Ensures
          (after_leader poll m t (ok b))
          (λ _ w. KeepsOrder m.selected v w)
          (record v { leases = ls })
  unfolding after_leader pending_channel_heads
  leads_lem t false ls = λ f i. inl i
  leads_lem t true ls = λ r ds d _. heads_lem t r (record v { leases = ls; outbox = ds }) d.0 d.1

  leader_lem :
      (t : Option Telemetry) (r : Reply OutboxRelayLease) (owner : Bytes)
      (ls : List OutboxRelayLease)
      → Ensures
          (after_lease owner r)
          (λ b w. Ensures (after_leader poll m t b) (λ _ x. KeepsOrder m.selected v x) w)
          (record v { leases = ls })
  unfolding after_lease
  leader_lem t (ok lease) owner ls = leads_lem t (str_eq lease.owner owner) ls
  leader_lem t (err no_documents) owner ls = unfold after_leader in λ f i. inl i
  leader_lem t (err duplicate_key) owner ls = leads_lem t false ls
  leader_lem t (err (driver_failed n)) owner ls = unfold after_leader in λ f i. inl i

  -- A round of the relay touches an event only if it was pending and due and no pending event of
  -- its channel had an earlier version, in whatever order the workers come.
  pub round-KeepsOrder :
      (owner : Bytes) (lease_duration : ℕ) (t : Option Telemetry)
      → Ensures (round owner lease_duration poll m t) (λ _ w. KeepsOrder m.selected v w) v
  unfolding round acquire_relay_lease
  round-KeepsOrder owner lease_duration t =
      Ensures-and_then (acquire_relay_lease owner m.started lease_duration) (after_leader poll m t)
        (λ _ w. KeepsOrder m.selected v w) v λ r ls d _. leader_lem t r owner ls
