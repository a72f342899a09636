-- ===== src/Outbox/Repo/Lock/Exclusive.antt =====
-- One relay at a time has the lease.
use lens_chat_service.Prelude.{◌<◌, ◌≡◌, sym, subst, ◌∙◌, inl, inr, List, [], ◌∷◌, arith, refl}
use lens_chat_service.GoText.{Bytes}
use lens_chat_service.Schema.{Time}
use lens_chat_service.Store.{View, Ensures, Ensures-mono, IsIndexed}
use lens_chat_service.Outbox.Repo.Lock.{
  Lock, held, Represents, Request, take, drop, Reaction, yes, no, fault, MayTake, Reacts, ReactsAll,
  ask_all,
}
use lens_chat_service.Outbox.Repo.Lock.Refines.{ask_all-Refines}

-- No request to take the lock was granted.
abbrev pub NoneTaken : List Request → List Reaction → Type 0
NoneTaken [] acts = Unit
NoneTaken (r ∷ rs) [] = ⊥
NoneTaken (take o now duration ∷ rs) (a ∷ acts) = ¬ (a ≡ yes) × NoneTaken rs acts
NoneTaken (drop o ∷ rs) (a ∷ acts) = NoneTaken rs acts

module _ (owner : Bytes) (until : Time) where
  -- Requests of other relays, while the owner's time has not run out.
  abbrev pub AllOthers : List Request → Type 0
  AllOthers [] = Unit
  AllOthers (take o now duration ∷ rs) = (now < until) × ¬ (o ≡ owner) × AllOthers rs
  AllOthers (drop o ∷ rs) = ¬ (o ≡ owner) × AllOthers rs

  may_not_take :
      (o : Bytes) (now : Time) → now < until → ¬ (o ≡ owner) → ¬ MayTake (held owner until) o now
  may_not_take o now early other (inl past) = omega (arith, early, past)
  may_not_take o now early other (inr own) = other (sym own)

  stays :
      (r : Request) (a : Reaction) (k : Lock)
      → AllOthers (r ∷ [])
      → Reacts (held owner until) r a k
      → k ≡ held owner until
  stays (take o now duration) yes k (early, other, _) (may, _) =
      absurd (may_not_take o now early other may)
  stays (take o now duration) no k (early, other, _) (_, e) = e
  stays (take o now duration) fault k (early, other, _) (inl e) = e
  stays (take o now duration) fault k (early, other, _) (inr (may, _)) =
      absurd (may_not_take o now early other may)
  stays (drop o) yes k (other, _) (inl (own, _)) = absurd (other (sym own))
  stays (drop o) yes k (other, _) (inr (_, e)) = e
  stays (drop o) no k (other, _) h = absurd h
  stays (drop o) fault k (other, _) (inl e) = e
  stays (drop o) fault k (other, _) (inr (inl (own, _))) = absurd (other (sym own))
  stays (drop o) fault k (other, _) (inr (inr (_, e))) = e

  not_granted :
      (o : Bytes) (now duration : Time) (a : Reaction) (k : Lock)
      → now < until
      → ¬ (o ≡ owner)
      → Reacts (held owner until) (take o now duration) a k
      → ¬ (a ≡ yes)
  not_granted o now duration yes k early other h e = may_not_take o now early other h.0
  not_granted o now duration no k early other h e = cc e
  not_granted o now duration fault k early other h e = cc e

  all_stay :
      (rs : List Request) (acts : List Reaction) (k l : Lock)
      → k ≡ held owner until
      → AllOthers rs
      → ReactsAll k rs acts l
      → (l ≡ held owner until) × NoneTaken rs acts
  all_stay [] [] k l e h r = (r ∙ e, tt)
  all_stay [] (a ∷ acts) k l e h r = absurd r
  all_stay (q ∷ rs) [] k l e h r = absurd r
  all_stay (take o now duration ∷ rs) (a ∷ acts) k l e (early, other, h) (m, r, rest) =
      let first = subst (λ x. Reacts x (take o now duration) a m) e r in
      let (same, none_taken) =
        all_stay rs acts m l (stays (take o now duration) a m (early, other, tt) first) h rest in
      (same, (not_granted o now duration a m early other first, none_taken))
  all_stay (drop o ∷ rs) (a ∷ acts) k l e (other, h) (m, r, rest) =
      let first = subst (λ x. Reacts x (drop o) a m) e r in
      all_stay rs acts m l (stays (drop o) a m (other, tt) first) h rest

  -- While a relay's lease has not run out, no other relay gets it, whatever the others ask for, in
  -- whatever order and whatever fails: in a database that keeps its unique indexes and has the
  -- relay's lease, none of their requests is granted, and the lease is still the relay's, until the
  -- same time.
  pub ask_all-Excludes :
      (v : View) (rs : List Request)
      → IsIndexed v
      → Represents v.leases (held owner until)
      → AllOthers rs
      → Ensures
          (ask_all rs)
          (λ acts w. Represents w.leases (held owner until) × NoneTaken rs acts)
          v
  ask_all-Excludes v rs unique h others =
      Ensures-mono (ask_all rs) v
        (λ acts w s.
          let (same, none_taken) =
            all_stay rs acts (held owner until) s.lock refl others s.reacts in
          (subst (Represents w.leases) same s.represents, none_taken))
        (ask_all-Refines rs (held owner until) v unique h)
