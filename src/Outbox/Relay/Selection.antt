-- ===== src/Outbox/Relay/Selection.antt =====
-- Which channel heads a round of the relay publishes.
use mathlib.Core.List.{append-nil, append_assoc}
use lens_chat_service.Prelude.{
  ◌≤◌, ◌<◌, ◌≡◌, ◌⊎◌, inl, inr, List, [], ◌∷◌, ◌++◌, none, some, Option, arith, IsIn, IsIn-concat,
  length, length-append, leb, ltb, Bool-cases, Option-cases, subst, sym, IsIn-append_left,
  IsIn-append_self,
}
use lens_chat_service.Schema.{Time, OutboxEvent}
use lens_chat_service.Outbox.Relay.{
  Due, earlier, due_step, due_from, due_events, max_parallel_publishes,
}

-- What holds of the two variables of the loop after the heads in `seen`.
pub record IsSelection (now : Time) (d : Due) (seen : List OutboxEvent) : Type 0 where
  pub few : length d.events ≤ max_parallel_publishes
  pub sound : (e : OutboxEvent) → IsIn e d.events → IsIn e seen × (e.next_attempt_at ≤ now)
  pub complete :
      (e : OutboxEvent)
      → IsIn e seen
      → e.next_attempt_at ≤ now
      → IsIn e d.events ⊎ (length d.events ≡ max_parallel_publishes)
  pub not_before :
      (e : OutboxEvent) (t : Time)
      → IsIn e seen
      → now < e.next_attempt_at
      → d.next_attempt ≡ some t
      → t ≤ e.next_attempt_at
  pub attained :
      (t : Time)
      → d.next_attempt ≡ some t
      → (e : OutboxEvent) × IsIn e seen × (now < e.next_attempt_at) × (e.next_attempt_at ≡ t)
  pub reported :
      (e : OutboxEvent) → IsIn e seen → now < e.next_attempt_at → ¬ (d.next_attempt ≡ none)

earlier-cases : (o : Option Time) (a t : Time) → earlier o a ≡ some t → (a ≡ t) ⊎ (o ≡ some t)
earlier-cases none a t e = inl (ground (arith, e))
earlier-cases (some s) a t e = elim (Bool-cases (ltb a s)) [
  | inl h ↦ inl (ground (arith, e, h))
  | inr h ↦ inr (ground (arith, e, h))
]

module _ (now : Time) (d : Due) (seen : List OutboxEvent) (x : OutboxEvent)
    (h : IsSelection now d seen) where
  still_attained :
      (t : Time)
      → d.next_attempt ≡ some t
      → (e : OutboxEvent) × IsIn e (seen ++ x ∷ [])
        × (now < e.next_attempt_at)
        × (e.next_attempt_at ≡ t)
  still_attained t n =
      let (e, i, l, q) = h.attained t n in (e, IsIn-append_left e seen (x ∷ []) i, l, q)

  take_due :
      x.next_attempt_at ≤ now
      → length d.events < max_parallel_publishes
      → IsSelection now (record d { events = d.events ++ x ∷ [] }) (seen ++ x ∷ [])
  take_due due room = record {
    few = omega (arith, length-append d.events (x ∷ []));
    sound = λ e i. elim (IsIn-concat e x d.events i) [
      | inl k ↦ let s = h.sound e k in (IsIn-append_left e seen (x ∷ []) s.0, s.1)
      | inr q ↦
          (subst (λ y. IsIn y (seen ++ x ∷ [])) (sym q) (IsIn-append_self x seen), ground arith)
    ];
    complete = λ e i t. elim (IsIn-concat e x seen i) [
      | inl k ↦ elim (h.complete e k t) [
        | inl j ↦ inl (IsIn-append_left e d.events (x ∷ []) j)
        | inr j ↦ absurd (omega arith)
      ]
      | inr q ↦ inl (subst (λ y. IsIn y (d.events ++ x ∷ [])) (sym q) (IsIn-append_self x d.events))
    ];
    not_before = λ e t i l n. elim (IsIn-concat e x seen i) [
      | inl k ↦ h.not_before e t k l n
      | inr q ↦ absurd (ground arith)
    ];
    attained = still_attained;
    reported = λ e i l. elim (IsIn-concat e x seen i) [
      | inl k ↦ h.reported e k l
      | inr q ↦ absurd (ground arith)
    ];
  }

  skip_due :
      x.next_attempt_at ≤ now
      → max_parallel_publishes ≤ length d.events
      → IsSelection now d (seen ++ x ∷ [])
  skip_due due full = record {
    few = h.few;
    sound = λ e i. let s = h.sound e i in (IsIn-append_left e seen (x ∷ []) s.0, s.1);
    complete = λ e i t. inr (omega (arith, h.few));
    not_before = λ e t i l n. elim (IsIn-concat e x seen i) [
      | inl k ↦ h.not_before e t k l n
      | inr q ↦ absurd (ground arith)
    ];
    attained = still_attained;
    reported = λ e i l. elim (IsIn-concat e x seen i) [
      | inl k ↦ h.reported e k l
      | inr q ↦ absurd (ground arith)
    ];
  }

  wait_for :
      now < x.next_attempt_at
      → IsSelection now
          (record d { next_attempt = earlier d.next_attempt x.next_attempt_at })
          (seen ++ x ∷ [])
  wait_for later = record {
    few = h.few;
    sound = λ e i. let s = h.sound e i in (IsIn-append_left e seen (x ∷ []) s.0, s.1);
    complete = λ e i t. elim (IsIn-concat e x seen i) [
      | inl k ↦ h.complete e k t
      | inr q ↦ absurd (ground arith)
    ];
    not_before = λ e t i l n. elim (IsIn-concat e x seen i) [
      | inl k ↦ earlier_left e t k l n
      | inr q ↦ earlier_right e t q n
    ];
    attained = λ t n. elim (earlier-cases d.next_attempt x.next_attempt_at t n) [
      | inl q ↦ (x, IsIn-append_self x seen, later, q)
      | inr q ↦ still_attained t q
    ];
    reported = λ e i l n. ground arith;
  }
    where
      earlier_left :
          (e : OutboxEvent) (t : Time)
          → IsIn e seen
          → now < e.next_attempt_at
          → earlier d.next_attempt x.next_attempt_at ≡ some t
          → t ≤ e.next_attempt_at
      earlier_left e t k l n = elim (Option-cases d.next_attempt) [
        | inl z ↦ absurd (h.reported e k l z)
        | inr (s, z) ↦ ground (arith, h.not_before e s k l z)
      ]

      earlier_right :
          (e : OutboxEvent) (t : Time)
          → e ≡ x
          → earlier d.next_attempt x.next_attempt_at ≡ some t
          → t ≤ e.next_attempt_at
      earlier_right e t q n = ground arith

  due_step-IsSelection : IsSelection now (due_step now x d) (seen ++ x ∷ [])
  unfolding due_step
  due_step-IsSelection = elim (Bool-cases (leb x.next_attempt_at now)) [
    | inl due ↦ elim (Bool-cases (ltb (length d.events) max_parallel_publishes)) [
      | inl room ↦ rw (due, room) (take_due (ground arith) (ground arith))
      | inr full ↦ rw (due, full) (skip_due (ground arith) (ground arith))
    ]
    | inr later ↦ rw later (wait_for (ground arith))
  ]

due_from-IsSelection :
    (now : Time) (d : Due) (seen heads : List OutboxEvent)
    → IsSelection now d seen
    → IsSelection now (due_from now d heads) (seen ++ heads)
unfolding due_from
due_from-IsSelection now d seen [] h = rw append-nil h
due_from-IsSelection now d seen (x ∷ heads) h =
    subst (IsSelection now (due_from now (due_step now x d) heads))
      (append_assoc seen (x ∷ []) heads)
      (due_from-IsSelection now (due_step now x d) (seen ++ x ∷ []) heads
        (due_step-IsSelection now d seen x h))

-- A round publishes only heads whose next attempt is due, at most 16 of them, and all of them if
-- they are fewer. The time that it reports is that of the earliest next attempt among the heads that
-- are not due yet, and there is none only where there is no such head.
pub due_events-IsSelection :
    (now : Time) (heads : List OutboxEvent) → IsSelection now (due_events now heads) heads
unfolding due_events
due_events-IsSelection now heads =
    due_from-IsSelection now (record { events = []; next_attempt = none }) [] heads
      (record {
        few = omega arith;
        sound = λ e i. absurd i;
        complete = λ e i t. absurd i;
        not_before = λ e t i l n. absurd i;
        attained = λ t n. cc n;
        reported = λ e i l n. absurd i;
      })
