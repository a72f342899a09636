-- ===== src/Mongo/Laws.antt =====
-- Facts about documents and unique indexes.
use lens_chat_service.Prelude.{
  ◌≡◌, refl, sym, subst, ap, ◌∙◌, Bool, true, false, List, [], ◌∷◌, ◌++◌, ◌⊎◌, inl, inr, IsIn,
  IsIn-append_self,
}
use mathlib.Core.Bool.{false≢true}
use lens_chat_service.Mongo.Docs.{Updated, IsUnique}

module _ {A : Type 0} where
  -- Two documents of one collection that clash are one.
  pub eq_of_clash :
      (clash : A → A → Bool) (docs : List A) (x y : A)
      → IsUnique clash docs
      → IsIn x docs
      → IsIn y docs
      → clash x y ≡ true
      → clash y x ≡ true
      → x ≡ y
  eq_of_clash clash [] x y u hx hy c d = absurd hx
  eq_of_clash clash (z ∷ docs) x y u (inl e) (inl f) c d = cc
  eq_of_clash clash (z ∷ docs) x y u (inl e) (inr hy) c d = cc (u.0 y hy)
  eq_of_clash clash (z ∷ docs) x y u (inr hx) (inl f) c d = cc (u.0 x hx)
  eq_of_clash clash (z ∷ docs) x y u (inr hx) (inr hy) c d =
      eq_of_clash clash docs x y u.1 hx hy c d

  -- The last document of a collection clashes with none before it.
  pub IsUnique-concat :
      (clash : A → A → Bool) (docs : List A) (d x : A)
      → IsUnique clash (docs ++ d ∷ [])
      → IsIn x docs
      → clash x d ≡ false
  IsUnique-concat clash [] d x u h = absurd h
  IsUnique-concat clash (z ∷ docs) d x u (inl e) = rw e (u.0 d (IsIn-append_self d docs))
  IsUnique-concat clash (z ∷ docs) d x u (inr h) = IsUnique-concat clash docs d x u.1 h

  pub IsIn-middle : (x : A) (xs ys : List A) → IsIn x (xs ++ (x ∷ ys))
  IsIn-middle x [] ys = inl refl
  IsIn-middle x (z ∷ xs) ys = inr (IsIn-middle x xs ys)

  -- What stands in a list after its middle entry has been replaced.
  pub IsIn-replaced :
      (x a b : A) (xs ys : List A) → IsIn x (xs ++ (b ∷ ys)) → (x ≡ b) ⊎ IsIn x (xs ++ (a ∷ ys))
  IsIn-replaced x a b [] ys (inl e) = inl e
  IsIn-replaced x a b [] ys (inr h) = inr (inr h)
  IsIn-replaced x a b (z ∷ xs) ys (inl e) = inr (inl e)
  IsIn-replaced x a b (z ∷ xs) ys (inr h) = elim (IsIn-replaced x a b xs ys h) [
    | inl e ↦ inl e
    | inr k ↦ inr (inr k)
  ]

module _ {A : Type 0} (clash : A → A → Bool) (old new : A)
    (left : (x : A) → clash new x ≡ clash old x) (right : (x : A) → clash x new ≡ clash x old) where
  clear_replaced :
      (x : A) (pre post : List A)
      → ((y : A) → IsIn y (pre ++ (old ∷ post)) → clash x y ≡ false)
      → (y : A) → IsIn y (pre ++ (new ∷ post))
      → clash x y ≡ false
  clear_replaced x [] post h y (inl e) = rw e (right x ∙ h old (inl refl))
  clear_replaced x [] post h y (inr i) = h y (inr i)
  clear_replaced x (z ∷ pre) post h y (inl e) = h y (inl e)
  clear_replaced x (z ∷ pre) post h y (inr i) = clear_replaced x pre post (λ k j. h k (inr j)) y i

  -- A document whose keys do not change keeps the unique indexes.
  pub IsUnique-replace :
      (pre post : List A)
      → IsUnique clash (pre ++ (old ∷ post))
      → IsUnique clash (pre ++ (new ∷ post))
  IsUnique-replace [] post u = (λ y i. left y ∙ u.0 y i, u.1)
  IsUnique-replace (x ∷ pre) post u = (clear_replaced x pre post u.0, IsUnique-replace pre post u.1)

module _ {A : Type 0} {p : A → Bool} {f : A → A} {docs docs' : List A} where
  pub Updated-old : (u : Updated p f docs docs') → IsIn u.old docs
  Updated-old u = subst (IsIn u.old) (sym u.before) (IsIn-middle u.old u.pre u.post)

  pub Updated-new : (u : Updated p f docs docs') → IsIn (f u.old) docs'
  Updated-new u = subst (IsIn (f u.old)) (sym u.after) (IsIn-middle (f u.old) u.pre u.post)

  -- A document that does not match is not touched.
  pub Updated-keeps :
      (u : Updated p f docs docs') (x : A) → p x ≡ false → IsIn x docs → IsIn x docs'
  Updated-keeps u x n h =
      let found = IsIn-replaced x (f u.old) u.old u.pre u.post (subst (IsIn x) u.before h) in
      elim found [
        | inl e ↦ absurd (false≢true (sym n ∙ ap p e ∙ u.matched))
        | inr k ↦ subst (IsIn x) (sym u.after) k
      ]

  -- After an update every document is the new one or an old one.
  pub Updated-cases :
      (u : Updated p f docs docs') (x : A) → IsIn x docs' → (x ≡ f u.old) ⊎ IsIn x docs
  Updated-cases u x h =
      let found = IsIn-replaced x u.old (f u.old) u.pre u.post (subst (IsIn x) u.after h) in
      elim found [ inl e ↦ inl e | inr k ↦ inr (subst (IsIn x) (sym u.before) k) ]
