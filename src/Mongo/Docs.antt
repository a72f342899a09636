-- ===== src/Mongo/Docs.antt =====
-- One collection, seen as the list of its documents.
use lens_chat_service.Prelude.{
  ℕ, suc, ◌≤◌, ◌≡◌, refl, Bool, true, false, Option, none, some, List, [], ◌∷◌, ◌++◌, ◌⊎◌, inl,
  length, IsIn, ℤ, pos, negsuc, Result, ok, err,
}

-- The errors that the source tells apart: `mongo.ErrNoDocuments`, those for which
-- `mongo.IsDuplicateKeyError` holds, and all others.
pub data DriverError : Type 0 where
  no_documents duplicate_key : DriverError
  driver_failed : ℕ → DriverError

abbrev pub Reply : Type 0 → Type 0
Reply A = Result DriverError A

pub record UpdateResult : Type 0 where
  pub matched_count : ℕ
  pub upserted_count : ℕ

-- A sort order: `le x y` says that `x` may stand before `y`.
pub record Sort (A : Type 0) : Type 0 where
  pub le : A → A → Bool
  pub total : (x y : A) → (le x y ≡ true) ⊎ (le y x ≡ true)
  pub trans : (x y z : A) → le x y ≡ true → le y z ≡ true → le x z ≡ true

-- No sort is asked for.
abbrev pub any_order : {A : Type 0} → Sort A
any_order = record { le = λ _ _. true; total = λ _ _. inl refl; trans = λ _ _ _ _ _. refl }

-- `aggregate_heads p first same last limit` is the pipeline that matches `p`, sorts by `first`, keeps
-- the first document of each group (`same` tells whether two documents have one key), sorts these
-- by `last` and takes `limit`.
-- A filter is a test, an update a function. The last argument of the updates is the document that
-- an upsert inserts.
pub data Op (A : Type 0) : Type 0 where
  find_one : (A → Bool) → Sort A → Op A
  find : (A → Bool) → Sort A → ℤ → Op A
  insert_one : A → Op A
  find_one_and_update : (A → Bool) → (A → A) → Option A → Op A
  update_one : (A → Bool) → (A → A) → Option A → Op A
  delete_one : (A → Bool) → Op A
  aggregate_heads : (A → Bool) → Sort A → (A → A → Bool) → Sort A → ℤ → Op A

abbrev pub AnswerOf : {A : Type 0} → Op A → Type 0
AnswerOf {A} (find_one p order) = Reply A
AnswerOf {A} (find p order limit) = Reply (List A)
AnswerOf {A} (insert_one d) = Reply (Unit {0})
AnswerOf {A} (find_one_and_update p f up) = Reply A
AnswerOf {A} (update_one p f up) = Reply UpdateResult
AnswerOf {A} (delete_one p) = Reply (Unit {0})
AnswerOf {A} (aggregate_heads p first same last limit) = Reply (List A)

module _ {A : Type 0} where
  abbrev pub NoneMatch : (A → Bool) → List A → Type 0
  NoneMatch p docs = (x : A) → IsIn x docs → p x ≡ false

  -- The unique indexes of a collection: no two documents clash.
  abbrev pub IsUnique : (A → A → Bool) → List A → Type 0
  IsUnique clash [] = Unit
  IsUnique clash (x ∷ xs) = ((y : A) → IsIn y xs → clash x y ≡ false) × IsUnique clash xs

  -- Exactly one document that matches is replaced by its image.
  pub record Updated (p : A → Bool) (f : A → A) (docs docs' : List A) : Type 0 where
    pub old : A
    pub pre : List A
    pub post : List A
    pub matched : p old ≡ true
    pub before : docs ≡ pre ++ (old ∷ post)
    pub after : docs' ≡ pre ++ (f old ∷ post)

  -- Exactly one document that matches is taken out.
  pub record Removed (p : A → Bool) (docs docs' : List A) : Type 0 where
    pub old : A
    pub pre : List A
    pub post : List A
    pub matched : p old ≡ true
    pub before : docs ≡ pre ++ (old ∷ post)
    pub after : docs' ≡ pre ++ post

  -- The order of a sorted result.
  abbrev pub InOrder : Sort A → List A → Type 0
  InOrder order [] = Unit
  InOrder order (x ∷ xs) = ((y : A) → IsIn y xs → order.le x y ≡ true) × InOrder order xs

  pub record Listed (p : A → Bool) (order : Sort A) (n : ℕ) (docs found : List A) : Type 0 where
    pub sound : (x : A) → IsIn x found → IsIn x docs × (p x ≡ true)
    pub ordered : InOrder order found
    pub few : length found ≤ n
    pub complete :
        (x : A)
        → IsIn x docs
        → p x ≡ true
        → IsIn x found ⊎ ((length found ≡ n) × ((y : A) → IsIn y found → order.le y x ≡ true))

  -- The first documents of the groups.
  pub record Heads (p : A → Bool) (first : Sort A) (same : A → A → Bool) (last : Sort A) (n : ℕ)
      (docs found : List A) : Type 0 where
    pub sound : (x : A) → IsIn x found → IsIn x docs × (p x ≡ true)
    pub first_of_group :
        (x y : A) → IsIn x found → IsIn y docs → p y ≡ true → same x y ≡ true → first.le x y ≡ true
    pub one_each : IsUnique same found
    pub ordered : InOrder last found
    pub few : length found ≤ n
    pub complete :
        (y : A)
        → IsIn y docs
        → p y ≡ true
        → ((x : A) × IsIn x found × (same x y ≡ true)) ⊎ (length found ≡ n)

  abbrev pub FoundHeads :
      (A → Bool) → Sort A → (A → A → Bool) → Sort A → ℤ → List A → Reply (List A) → Type 0
  FoundHeads p first same last (pos (suc n)) docs (ok found) =
      Heads p first same last (suc n) docs found
  FoundHeads p first same last (pos _) docs _ = Unit
  FoundHeads p first same last (negsuc _) docs _ = Unit

  abbrev pub Upserted : (A → Bool) → Option A → List A → List A → Type 0
  Upserted p none docs docs' = ⊥
  Upserted p (some d) docs docs' = NoneMatch p docs × (docs' ≡ docs ++ d ∷ [])

  abbrev pub Found : (A → Bool) → Sort A → List A → Reply A → Type 0
  Found p order docs (ok d) =
      IsIn d docs × (p d ≡ true) × ((x : A) → IsIn x docs → p x ≡ true → order.le d x ≡ true)
  Found p order docs (err no_documents) = NoneMatch p docs
  Found p order docs (err duplicate_key) = Unit
  Found p order docs (err (driver_failed _)) = Unit

  abbrev pub FoundAll : (A → Bool) → Sort A → ℤ → List A → Reply (List A) → Type 0
  FoundAll p order (pos (suc n)) docs (ok found) = Listed p order (suc n) docs found
  FoundAll p order (pos _) docs _ = Unit
  FoundAll p order (negsuc _) docs _ = Unit

  -- A call that fails for another reason than those the source knows may have been carried out.
  abbrev pub Inserted : (A → A → Bool) → A → List A → Reply (Unit {0}) → List A → Type 0
  Inserted clash d docs (ok _) docs' = docs' ≡ docs ++ d ∷ []
  Inserted clash d docs (err no_documents) docs' = docs' ≡ docs
  Inserted clash d docs (err duplicate_key) docs' =
      (docs' ≡ docs) × ((x : A) × IsIn x docs × (clash x d ≡ true))
  Inserted clash d docs (err (driver_failed _)) docs' = (docs' ≡ docs) ⊎ (docs' ≡ docs ++ d ∷ [])

  abbrev pub MatchesNothing : (A → Bool) → Option A → List A → Type 0
  MatchesNothing p none docs = NoneMatch p docs
  MatchesNothing p (some _) docs = ⊥

  -- A unique index stands against the write: the matching document after the update, or the
  -- document to insert, clashes with another.
  abbrev pub IsBlocked : (A → A → Bool) → (A → Bool) → (A → A) → Option A → List A → Type 0
  IsBlocked clash p f up docs =
      ((d : A) × (up ≡ some d) × NoneMatch p docs × ((x : A) × IsIn x docs × (clash x d ≡ true)))
      ⊎ ((old : A) × (pre : List A) × (post : List A) × (docs ≡ pre ++ (old ∷ post))
          × (p old ≡ true)
          × ¬ IsUnique clash (pre ++ (f old ∷ post)))

  -- The document after the update is returned.
  abbrev pub Modified :
      (A → A → Bool) → (A → Bool) → (A → A) → Option A → List A → Reply A → List A → Type 0
  Modified clash p f up docs (ok new) docs' =
      ((u : Updated p f docs docs') × (new ≡ f u.old))
      ⊎ (Upserted p up docs docs' × (up ≡ some new))
  Modified clash p f up docs (err no_documents) docs' = (docs' ≡ docs) × MatchesNothing p up docs
  Modified clash p f up docs (err duplicate_key) docs' =
      (docs' ≡ docs) × IsBlocked clash p f up docs
  Modified clash p f up docs (err (driver_failed _)) docs' =
      (docs' ≡ docs) ⊎ (Updated p f docs docs' ⊎ Upserted p up docs docs')

  abbrev pub Counted : (A → Bool) → (A → A) → Option A → List A → UpdateResult → List A → Type 0
  Counted p f up docs r docs' =
      ((r.matched_count ≡ 1) × Updated p f docs docs')
      ⊎ (((r.matched_count ≡ 0) × (r.upserted_count ≡ 1) × Upserted p up docs docs')
          ⊎ ((r.matched_count ≡ 0)
              × (r.upserted_count ≡ 0)
              × (docs' ≡ docs)
              × MatchesNothing p up docs))

  abbrev pub UpdatedOne :
      (A → A → Bool)
      → (A → Bool)
      → (A → A)
      → Option A
      → List A
      → Reply UpdateResult
      → List A
      → Type 0
  UpdatedOne clash p f up docs (ok r) docs' = Counted p f up docs r docs'
  UpdatedOne clash p f up docs (err no_documents) docs' = docs' ≡ docs
  UpdatedOne clash p f up docs (err duplicate_key) docs' =
      (docs' ≡ docs) × IsBlocked clash p f up docs
  UpdatedOne clash p f up docs (err (driver_failed _)) docs' =
      (docs' ≡ docs) ⊎ (Updated p f docs docs' ⊎ Upserted p up docs docs')

  abbrev pub Deleted : (A → Bool) → List A → Reply (Unit {0}) → List A → Type 0
  Deleted p docs (ok _) docs' = Removed p docs docs' ⊎ ((docs' ≡ docs) × NoneMatch p docs)
  Deleted p docs (err _) docs' = (docs' ≡ docs) ⊎ Removed p docs docs'

  -- What the documentation promises of a call: the answer and the documents after it.
  abbrev pub Does : (A → A → Bool) → (o : Op A) → List A → AnswerOf o → List A → Type 0
  Does clash (find_one p order) docs r docs' = (docs' ≡ docs) × Found p order docs r
  Does clash (find p order limit) docs r docs' = (docs' ≡ docs) × FoundAll p order limit docs r
  Does clash (insert_one d) docs r docs' = Inserted clash d docs r docs'
  Does clash (find_one_and_update p f up) docs r docs' = Modified clash p f up docs r docs'
  Does clash (update_one p f up) docs r docs' = UpdatedOne clash p f up docs r docs'
  Does clash (delete_one p) docs r docs' = Deleted p docs r docs'
  Does clash (aggregate_heads p first same last limit) docs r docs' =
      (docs' ≡ docs) × FoundHeads p first same last limit docs r

-- A collection of a server that behaves as documented.
pub record Collection (A : Type 0) (clash : A → A → Bool) : Type 1 where
  pub State : Type 0
  pub docs : State → List A
  pub perform : (o : Op A) → State → AnswerOf o × State
  pub performs :
      (o : Op A) (s : State) → Does clash o (docs s) (perform o s).0 (docs (perform o s).1)
  pub unique : (s : State) → IsUnique clash (docs s)
