-- ===== src/History/Collections.antt =====
-- What one call of the driver does to the documents of a collection, by what it does to a document.
use lens_chat_service.Prelude.{
  ◌≡◌, sym, subst, ◌⊎◌, inl, inr, Bool, true, Option, none, some, List, [], ◌∷◌, ◌++◌, ok, err,
  IsIn, IsIn-append_left, IsIn-concat,
}
use lens_chat_service.Mongo.{
  Reply, UpdateResult, Updated, Removed, Modified, UpdatedOne, Inserted, Deleted, Upserted,
  no_documents, duplicate_key, driver_failed, Updated-old, Updated-new, Updated-cases,
  IsIn-replaced,
}

module _ {A : Type 0} (Next : A → A → Type 0) where
  -- Every document goes on.
  abbrev pub Kept : List A → List A → Type 0
  Kept docs docs' = (x : A) → IsIn x docs → (y : A) × IsIn y docs' × Next x y

  -- Every document was there before, or began as one of `First`.
  abbrev pub Traced : (A → Type 0) → List A → List A → Type 0
  Traced First docs docs' = (y : A) → IsIn y docs' → (x : A) × (IsIn x docs ⊎ First x) × Next x y

module _ {A : Type 0} (Next : A → A → Type 0) (next_refl : (x : A) → Next x x) where
  pub Kept-refl : (docs : List A) → Kept Next docs docs
  Kept-refl docs x i = (x, i, next_refl x)

  pub Kept-eq : (docs docs' : List A) → docs' ≡ docs → Kept Next docs docs'
  Kept-eq docs docs' e x i = (x, subst (IsIn x) (sym e) i, next_refl x)

  Kept-concat : (docs docs' : List A) (d : A) → docs' ≡ docs ++ d ∷ [] → Kept Next docs docs'
  Kept-concat docs docs' d e x i =
      (x, subst (IsIn x) (sym e) (IsIn-append_left x docs (d ∷ []) i), next_refl x)

  Kept-Updated :
      (p : A → Bool) (f : A → A) (docs docs' : List A)
      → ((x : A) → p x ≡ true → Next x (f x))
      → Updated p f docs docs'
      → Kept Next docs docs'
  Kept-Updated p f docs docs' step u x i =
      elim (IsIn-replaced x (f u.old) u.old u.pre u.post (subst (IsIn x) u.before i)) [
        | inl e ↦
            (f u.old, Updated-new u, subst (λ z. Next z (f u.old)) (sym e) (step u.old u.matched))
        | inr k ↦ (x, subst (IsIn x) (sym u.after) k, next_refl x)
      ]

  Kept-Upserted :
      (p : A → Bool) (up : Option A) (docs docs' : List A)
      → Upserted p up docs docs'
      → Kept Next docs docs'
  Kept-Upserted p none docs docs' h = absurd h
  Kept-Upserted p (some d) docs docs' (_, e) = Kept-concat docs docs' d e

  pub Kept-Inserted :
      (clash : A → A → Bool) (d : A) (docs docs' : List A) (r : Reply (Unit {0}))
      → Inserted clash d docs r docs'
      → Kept Next docs docs'
  Kept-Inserted clash d docs docs' (ok _) e = Kept-concat docs docs' d e
  Kept-Inserted clash d docs docs' (err no_documents) e = Kept-eq docs docs' e
  Kept-Inserted clash d docs docs' (err duplicate_key) (e, _) = Kept-eq docs docs' e
  Kept-Inserted clash d docs docs' (err (driver_failed n)) (inl e) = Kept-eq docs docs' e
  Kept-Inserted clash d docs docs' (err (driver_failed n)) (inr e) = Kept-concat docs docs' d e

  module _ (clash : A → A → Bool) (p : A → Bool) (f : A → A) (up : Option A)
      (step : (x : A) → p x ≡ true → Next x (f x)) (docs docs' : List A) where
    pub Kept-Modified : (r : Reply A) → Modified clash p f up docs r docs' → Kept Next docs docs'
    Kept-Modified (ok new) (inl (u, _)) = Kept-Updated p f docs docs' step u
    Kept-Modified (ok new) (inr (h, _)) = Kept-Upserted p up docs docs' h
    Kept-Modified (err no_documents) (e, _) = Kept-eq docs docs' e
    Kept-Modified (err duplicate_key) (e, _) = Kept-eq docs docs' e
    Kept-Modified (err (driver_failed n)) (inl e) = Kept-eq docs docs' e
    Kept-Modified (err (driver_failed n)) (inr (inl u)) = Kept-Updated p f docs docs' step u
    Kept-Modified (err (driver_failed n)) (inr (inr h)) = Kept-Upserted p up docs docs' h

    pub Kept-UpdatedOne :
        (r : Reply UpdateResult) → UpdatedOne clash p f up docs r docs' → Kept Next docs docs'
    Kept-UpdatedOne (ok r) (inl (_, u)) = Kept-Updated p f docs docs' step u
    Kept-UpdatedOne (ok r) (inr (inl (_, _, h))) = Kept-Upserted p up docs docs' h
    Kept-UpdatedOne (ok r) (inr (inr (_, _, e, _))) = Kept-eq docs docs' e
    Kept-UpdatedOne (err no_documents) e = Kept-eq docs docs' e
    Kept-UpdatedOne (err duplicate_key) (e, _) = Kept-eq docs docs' e
    Kept-UpdatedOne (err (driver_failed n)) (inl e) = Kept-eq docs docs' e
    Kept-UpdatedOne (err (driver_failed n)) (inr (inl u)) = Kept-Updated p f docs docs' step u
    Kept-UpdatedOne (err (driver_failed n)) (inr (inr h)) = Kept-Upserted p up docs docs' h

  module _ (First : A → Type 0) where
    pub Traced-eq : (docs docs' : List A) → docs' ≡ docs → Traced Next First docs docs'
    Traced-eq docs docs' e y i = (y, inl (subst (IsIn y) e i), next_refl y)

    Traced-concat :
        (docs docs' : List A) (d : A)
        → First d
        → docs' ≡ docs ++ d ∷ []
        → Traced Next First docs docs'
    Traced-concat docs docs' d h e y i = elim (IsIn-concat y d docs (subst (IsIn y) e i)) [
      | inl k ↦ (y, inl k, next_refl y)
      | inr q ↦ (y, inr (subst First (sym q) h), next_refl y)
    ]

    pub Traced-Inserted :
        (clash : A → A → Bool) (d : A) (docs docs' : List A) (r : Reply (Unit {0}))
        → First d
        → Inserted clash d docs r docs'
        → Traced Next First docs docs'
    Traced-Inserted clash d docs docs' (ok _) h e = Traced-concat docs docs' d h e
    Traced-Inserted clash d docs docs' (err no_documents) h e = Traced-eq docs docs' e
    Traced-Inserted clash d docs docs' (err duplicate_key) h (e, _) = Traced-eq docs docs' e
    Traced-Inserted clash d docs docs' (err (driver_failed n)) h (inl e) = Traced-eq docs docs' e
    Traced-Inserted clash d docs docs' (err (driver_failed n)) h (inr e) =
        Traced-concat docs docs' d h e

    Traced-Removed :
        (p : A → Bool) (docs docs' : List A) → Removed p docs docs' → Traced Next First docs docs'
    Traced-Removed p docs docs' u y i = (
      y,
      inl (subst (IsIn y) (sym u.before) (back u.pre (subst (IsIn y) u.after i))),
      next_refl y,
    )
      where
        back : (pre : List A) → IsIn y (pre ++ u.post) → IsIn y (pre ++ (u.old ∷ u.post))
        back [] k = inr k
        back (z ∷ pre) (inl q) = inl q
        back (z ∷ pre) (inr k) = inr (back pre k)

    pub Traced-Deleted :
        (p : A → Bool) (docs docs' : List A) (r : Reply (Unit {0}))
        → Deleted p docs r docs'
        → Traced Next First docs docs'
    Traced-Deleted p docs docs' (ok _) (inl u) = Traced-Removed p docs docs' u
    Traced-Deleted p docs docs' (ok _) (inr (e, _)) = Traced-eq docs docs' e
    Traced-Deleted p docs docs' (err x) (inl e) = Traced-eq docs docs' e
    Traced-Deleted p docs docs' (err x) (inr u) = Traced-Removed p docs docs' u

    Traced-Updated :
        (p : A → Bool) (f : A → A) (docs docs' : List A)
        → ((x : A) → p x ≡ true → Next x (f x))
        → Updated p f docs docs'
        → Traced Next First docs docs'
    Traced-Updated p f docs docs' step u y i = elim (Updated-cases u y i) [
      | inl e ↦ (u.old, inl (Updated-old u), subst (Next u.old) (sym e) (step u.old u.matched))
      | inr k ↦ (y, inl k, next_refl y)
    ]

    -- Without an upsert.
    module _ (clash : A → A → Bool) (p : A → Bool) (f : A → A)
        (step : (x : A) → p x ≡ true → Next x (f x)) (docs docs' : List A) where
      pub Traced-Modified :
          (r : Reply A) → Modified clash p f none docs r docs' → Traced Next First docs docs'
      Traced-Modified (ok new) (inl (u, _)) = Traced-Updated p f docs docs' step u
      Traced-Modified (ok new) (inr (h, _)) = absurd h
      Traced-Modified (err no_documents) (e, _) = Traced-eq docs docs' e
      Traced-Modified (err duplicate_key) (e, _) = Traced-eq docs docs' e
      Traced-Modified (err (driver_failed n)) (inl e) = Traced-eq docs docs' e
      Traced-Modified (err (driver_failed n)) (inr (inl u)) = Traced-Updated p f docs docs' step u
      Traced-Modified (err (driver_failed n)) (inr (inr h)) = absurd h

      pub Traced-UpdatedOne :
          (r : Reply UpdateResult)
          → UpdatedOne clash p f none docs r docs'
          → Traced Next First docs docs'
      Traced-UpdatedOne (ok r) (inl (_, u)) = Traced-Updated p f docs docs' step u
      Traced-UpdatedOne (ok r) (inr (inl (_, _, h))) = absurd h
      Traced-UpdatedOne (ok r) (inr (inr (_, _, e, _))) = Traced-eq docs docs' e
      Traced-UpdatedOne (err no_documents) e = Traced-eq docs docs' e
      Traced-UpdatedOne (err duplicate_key) (e, _) = Traced-eq docs docs' e
      Traced-UpdatedOne (err (driver_failed n)) (inl e) = Traced-eq docs docs' e
      Traced-UpdatedOne (err (driver_failed n)) (inr (inl u)) = Traced-Updated p f docs docs' step u
      Traced-UpdatedOne (err (driver_failed n)) (inr (inr h)) = absurd h

module _ {A : Type 0} {Next : A → A → Type 0}
    (next_trans : (x y z : A) → Next x y → Next y z → Next x z) where
  pub Kept-trans : (a b c : List A) → Kept Next a b → Kept Next b c → Kept Next a c
  Kept-trans a b c h k x i =
      let (y, j, n) = h x i in let (z, l, o) = k y j in (z, l, next_trans x y z n o)
