-- ===== src/Tests/Memory/Search.antt =====
-- Documents that match, and lists without clashes.
use lens_chat_service.Prelude.{
  ◌≡◌, refl, sym, ap, subst, ◌⊎◌, inl, inr, Bool, true, false, List, [], ◌∷◌, ◌++◌, IsIn,
  IsIn-concat,
}
use lens_chat_service.Mongo.{Sort, NoneMatch, IsUnique, IsIn-middle}

abbrev pub decide : (b : Bool) → (b ≡ true) ⊎ (b ≡ false)
decide true = inl refl
decide false = inr refl

module _ {A : Type 0} where
  pub apart : (p : A → Bool) (x : A) → p x ≡ true → p x ≡ false → ⊥
  apart p x h k = cc (h, k)

  -- The first match, with what stands before and after it.
  pub record Match (p : A → Bool) (docs : List A) : Type 0 where
    pub old : A
    pub pre : List A
    pub post : List A
    pub matched : p old ≡ true
    pub before : docs ≡ pre ++ (old ∷ post)

  pub none_of :
      (p : A → Bool) (x : A) (xs : List A) → p x ≡ false → NoneMatch p xs → NoneMatch p (x ∷ xs)
  none_of p x xs h k y (inl e) = subst (λ z. p z ≡ false) (sym e) h
  none_of p x xs h k y (inr i) = k y i

  abbrev pub match : (p : A → Bool) (docs : List A) → Match p docs ⊎ NoneMatch p docs
  match p [] = inr (λ x i. absurd i)
  match p (x ∷ xs) = elim (decide (p x)) [
    | inl h ↦ inl (record { old = x; pre = []; post = xs; matched = h; before = refl })
    | inr h ↦ elim (match p xs) [
      | inl m ↦ inl (record {
        old = m.old;
        pre = x ∷ m.pre;
        post = m.post;
        matched = m.matched;
        before = ap (λ l. x ∷ l) m.before;
      })
      | inr k ↦ inr (none_of p x xs h k)
    ]
  ]

  -- A match that no match comes before.
  pub record Best (p : A → Bool) (order : Sort A) (docs : List A) : Type 0 where
    pub first : A
    pub listed : IsIn first docs
    pub matched : p first ≡ true
    pub least : (x : A) → IsIn x docs → p x ≡ true → order.le first x ≡ true

  module _ (p : A → Bool) (order : Sort A) where
    pub le_refl : (x : A) → order.le x x ≡ true
    le_refl x = elim (order.total x x) [ inl e ↦ e | inr e ↦ e ]

    abbrev pub best : (docs : List A) → Best p order docs ⊎ NoneMatch p docs
    best [] = inr (λ x i. absurd i)
    best (x ∷ xs) = elim (decide (p x)) [
      | inr h ↦ elim (best xs) [
        | inl b ↦ inl (record {
          first = b.first;
          listed = inr b.listed;
          matched = b.matched;
          least = λ y i m. elim i [
            | inl e ↦ absurd (apart p y m (subst (λ z. p z ≡ false) (sym e) h))
            | inr j ↦ b.least y j m
          ];
        })
        | inr k ↦ inr (none_of p x xs h k)
      ]
      | inl h ↦ elim (best xs) [
        | inr k ↦ inl (record {
          first = x;
          listed = inl refl;
          matched = h;
          least =
              λ y i m. elim i [ inl e ↦ rw e (le_refl x) | inr j ↦ absurd (apart p y m (k y j)) ];
        })
        | inl b ↦ elim (order.total x b.first) [
          | inl l ↦ inl (record {
            first = x;
            listed = inl refl;
            matched = h;
            least = λ y i m. elim i [
              | inl e ↦ rw e (le_refl x)
              | inr j ↦ order.trans x b.first y l (b.least y j m)
            ];
          })
          | inr l ↦ inl (record {
            first = b.first;
            listed = inr b.listed;
            matched = b.matched;
            least = λ y i m. elim i [ inl e ↦ rw e l | inr j ↦ b.least y j m ];
          })
        ]
      ]
    ]

  module _ (clash : A → A → Bool) where
    pub unique_snoc :
        (docs : List A) (d : A)
        → IsUnique clash docs
        → NoneMatch (λ x. clash x d) docs
        → IsUnique clash (docs ++ d ∷ [])
    unique_snoc [] d u h = ((λ y i. absurd i), tt)
    unique_snoc (x ∷ docs) d u h = (
      (λ y i. elim (IsIn-concat y d docs i) [ inl j ↦ u.0 y j | inr e ↦ rw e (h x (inl refl)) ]),
      unique_snoc docs d u.1 (λ z j. h z (inr j)),
    )

    pub match_In : (p : A → Bool) (docs : List A) (m : Match p docs) → IsIn m.old docs
    match_In p docs m = subst (IsIn m.old) (sym m.before) (IsIn-middle m.old m.pre m.post)

    abbrev pub is_unique : (docs : List A) → IsUnique clash docs ⊎ ¬ IsUnique clash docs
    is_unique [] = inl tt
    is_unique (x ∷ xs) = elim (match (clash x) xs) [
      | inl m ↦ inr (λ u. apart (clash x) m.old m.matched (u.0 m.old (match_In (clash x) xs m)))
      | inr k ↦ elim (is_unique xs) [ inl u ↦ inl (k, u) | inr n ↦ inr (λ u. n u.1) ]
    ]
