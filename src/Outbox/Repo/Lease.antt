-- ===== src/Outbox/Repo/Lease.antt =====
-- The relay's lease.
use lens_chat_service.Prelude.{
  ◌+◌, ◌≤◌, ◌<◌, ◌≡◌, ◌∙◌, refl, sym, subst, ap, ◌⊎◌, inl, inr, Bool, true, false, List, [], ◌∷◌,
  ◌++◌, some, Result, ok, err, arith, IsIn, IsIn-append_self,
}
use lens_chat_service.GoText.{Bytes, str_eq, str_eq_iff}
use lens_chat_service.Schema.{Time, OutboxRelayLease}
use lens_chat_service.Mongo.{
  Reply, Modified, Updated, IsUnique, IsUnique-concat, IsUnique-replace, eq_of_clash, no_documents,
  duplicate_key, driver_failed, Updated-old, Updated-new,
}
use lens_chat_service.Response.{Error}
use lens_chat_service.Store.{View, Ensures, IsIndexed, lease_clash}
use lens_chat_service.Outbox.Repo.{
  relay_lease_id, may_take, taken, new_lease, after_lease, acquire_relay_lease,
}

-- The stored lease of the relay.
abbrev pub IsLease : OutboxRelayLease → List OutboxRelayLease → Type 0
IsLease l docs = IsIn l docs × (l.id ≡ relay_lease_id)

pub clash_of_lease :
    (a b : OutboxRelayLease)
    → a.id ≡ relay_lease_id
    → b.id ≡ relay_lease_id
    → lease_clash a b ≡ true
unfolding lease_clash
clash_of_lease a b h k = (str_eq_iff a.id b.id).1 (h ∙ sym k)

may_take_parts :
    (owner : Bytes) (now : Time) (l : OutboxRelayLease)
    → may_take owner now l ≡ true
    → (l.id ≡ relay_lease_id) × ((l.lease_until ≤ now) ⊎ (l.owner ≡ owner))
unfolding may_take
may_take_parts owner now l h =
    ground (arith, str_eq_iff l.id relay_lease_id, str_eq_iff l.owner owner)

may_not_take :
    (owner : Bytes) (now : Time) (l : OutboxRelayLease)
    → may_take owner now l ≡ false
    → l.id ≡ relay_lease_id
    → (now < l.lease_until) × ¬ (l.owner ≡ owner)
unfolding may_take
may_not_take owner now l h k = (
  ground (arith, str_eq_iff l.id relay_lease_id, str_eq_iff l.owner owner),
  λ e. ground (arith, str_eq_iff l.id relay_lease_id, str_eq_iff l.owner owner),
)

taken-IsUnique :
    (owner : Bytes) (now d : Time) (l : OutboxRelayLease) (pre post : List OutboxRelayLease)
    → IsUnique lease_clash (pre ++ (l ∷ post))
    → IsUnique lease_clash (pre ++ (taken owner now d l ∷ post))
unfolding taken lease_clash
taken-IsUnique owner now d l pre post u =
    IsUnique-replace lease_clash l (taken owner now d l) (λ _. refl) (λ _. refl) pre post u

module _ (owner : Bytes) (now duration : Time) (v : View) where
  -- The lease is the owner's until `now + duration`, and no other relay held it.
  pub record IsAcquired (w : View) : Type 0 where
    pub lease : OutboxRelayLease
    pub stored : IsLease lease w.leases
    pub owned : lease.owner ≡ owner
    pub until : lease.lease_until ≡ now + duration
    pub free :
        (l : OutboxRelayLease) → IsLease l v.leases → (l.lease_until ≤ now) ⊎ (l.owner ≡ owner)

  abbrev pub Acquires : Result Error Bool → View → Type 0
  Acquires (ok true) w = IsAcquired w
  Acquires (ok false) w =
      (w ≡ v)
      × ((l : OutboxRelayLease) × IsLease l v.leases × (now < l.lease_until) × ¬ (l.owner ≡ owner))
  Acquires (err e) w = (w.outbox ≡ v.outbox) × ((w ≡ v) ⊎ IsAcquired w)

module _ (owner : Bytes) (now duration : Time) (v : View) (unique : IsIndexed v) where
  pub taken_lem :
      (ls : List OutboxRelayLease)
      → Updated (may_take owner now) (taken owner now duration) v.leases ls
      → IsAcquired owner now duration v (record v { leases = ls })
  unfolding taken
  taken_lem ls u =
      let h = may_take_parts owner now u.old u.matched in
      record {
        lease = taken owner now duration u.old;
        stored = (Updated-new u, h.0);
        owned = refl;
        until = refl;
        free = λ l i.
            subst (λ (x : OutboxRelayLease). (x.lease_until ≤ now) ⊎ (x.owner ≡ owner))
              (eq_of_clash lease_clash v.leases u.old l unique.leases (Updated-old u) i.0
                (clash_of_lease u.old l h.0 i.1) (clash_of_lease l u.old i.1 h.0))
              h.1;
      }

  pub inserted_lem :
      (ls : List OutboxRelayLease)
      → IsUnique lease_clash ls
      → ls ≡ v.leases ++ new_lease owner now duration ∷ []
      → IsAcquired owner now duration v (record v { leases = ls })
  unfolding new_lease
  inserted_lem ls u e = record {
    lease = new_lease owner now duration;
    stored =
        (subst (IsIn (new_lease owner now duration)) (sym e) (IsIn-append_self _ v.leases), refl);
    owned = refl;
    until = refl;
    free = λ l i. cc (
      IsUnique-concat lease_clash v.leases (new_lease owner now duration) l
          (subst (IsUnique lease_clash) e u) i.0,
      clash_of_lease l (new_lease owner now duration) i.1 refl,
    );
  }

  lease_lem :
      (r : Reply OutboxRelayLease) (ls : List OutboxRelayLease)
      → IsUnique lease_clash ls
      → Modified lease_clash
          (may_take owner now)
          (taken owner now duration)
          (some (new_lease owner now duration))
          v.leases
          r
          ls
      → Ensures (after_lease owner r) (Acquires owner now duration v) (record v { leases = ls })
  unfolding after_lease
  lease_lem (ok l) ls u (inl (t, e)) =
      let mine : str_eq l.owner owner ≡ true =
        (str_eq_iff l.owner owner).1
          (ap (λ (x : OutboxRelayLease). x.owner) e ∙ (unfold taken in refl)) in
      rw mine (taken_lem ls t)
  lease_lem (ok l) ls u (inr ((_, grown), e)) =
      let mine : str_eq l.owner owner ≡ true =
        (str_eq_iff l.owner owner).1 (unfold new_lease in ground arith) in
      rw mine (inserted_lem ls u grown)
  lease_lem (err no_documents) ls u (same, none_here) = absurd none_here
  lease_lem (err duplicate_key) ls u (same, inl (d, e, h, (x, i, clash))) =
      (ap (λ k. record v { leases = k }) same, held)
    where
      named : x.id ≡ relay_lease_id
      named = unfold new_lease lease_clash in ground (arith, str_eq_iff x.id d.id)

      held :
          (l : OutboxRelayLease) × IsLease l v.leases × (now < l.lease_until) × ¬ (l.owner ≡ owner)
      held = let k = may_not_take owner now x (h x i) named in (x, (i, named), k.0, k.1)
  lease_lem (err duplicate_key) ls u (same, inr (old, pre, post, e, _, broken)) = absurd (
      broken (
        taken-IsUnique owner now duration old pre post
          (subst (IsUnique lease_clash) e unique.leases)))
  lease_lem (err (driver_failed n)) ls u (inl same) =
      (refl, inl (ap (λ k. record v { leases = k }) same))
  lease_lem (err (driver_failed n)) ls u (inr (inl t)) = (refl, inr (taken_lem ls t))
  lease_lem (err (driver_failed n)) ls u (inr (inr (_, grown))) =
      (refl, inr (inserted_lem ls u grown))

  -- A relay gets the lease only where it is free, has run out, or is its own; it then holds it until
  -- `now + duration`. Where the answer is no, the lease of another relay has not run out, and
  -- nothing is written. After an error either nothing is written or the relay holds the lease so.
  pub acquire-Acquires :
      Ensures (acquire_relay_lease owner now duration) (Acquires owner now duration v) v
  unfolding acquire_relay_lease
  acquire-Acquires = λ r ls d u. lease_lem r ls u d
