-- ===== src/Tests/Memory.antt =====
-- A server that behaves as documented: it keeps each collection as a list, takes the first document
-- that matches, and refuses to list.
mod Search
use lens_chat_service.Prelude.{
  ◌≡◌, refl, sym, ap, subst, ◌⊎◌, inl, inr, Bool, true, false, Bool-cases, Option, none, some, List,
  [], ◌∷◌, ◌++◌, IsIn, IsIn-concat, ℤ, pos, negsuc, zero, suc, ok, err,
}
use lens_chat_service.Mongo.{
  Op, AnswerOf, find_one, find, insert_one, find_one_and_update, update_one, delete_one,
  aggregate_heads, Sort, NoneMatch, FoundAll, FoundHeads, IsUnique, IsIn-middle, Does, Collection,
  no_documents, duplicate_key, driver_failed,
}
use lens_chat_service.Tests.Memory.Search.{
  Match, Best, match, best, is_unique, unique_snoc, match_In,
}

module _ {A : Type 0} (clash : A → A → Bool) where
  -- What a call answers, and what it leaves.
  pub record Done (o : Op A) (docs : List A) : Type 0 where
    pub answer : AnswerOf o
    pub left : List A
    pub unique : IsUnique clash left
    pub does : Does clash o docs answer left

  module _ (docs : List A) (unique : IsUnique clash docs) where
    module _ (p : A → Bool) (f : A → A) where
      abbrev pub insert_up :
          (up : Option A) → NoneMatch p docs → Done (find_one_and_update p f up) docs
      insert_up none k = record {
        answer = err no_documents;
        left = docs;
        unique = unique;
        does = (refl, k);
      }
      insert_up (some d) k = elim (match (λ x. clash x d) docs) [
        | inl c ↦ record {
          answer = err duplicate_key;
          left = docs;
          unique = unique;
          does = (refl, inl (d, refl, k, (c.old, match_In clash _ docs c, c.matched)));
        }
        | inr free ↦ record {
          answer = ok d;
          left = docs ++ d ∷ [];
          unique = unique_snoc clash docs d unique free;
          does = inr ((k, refl), refl);
        }
      ]

      abbrev pub modify : (up : Option A) → Done (find_one_and_update p f up) docs
      modify up = elim (match p docs) [
        | inr k ↦ insert_up up k
        | inl m ↦ elim (is_unique clash (m.pre ++ (f m.old ∷ m.post))) [
          | inl u ↦ record {
            answer = ok (f m.old);
            left = m.pre ++ (f m.old ∷ m.post);
            unique = u;
            does = inl (
              record {
                old = m.old;
                pre = m.pre;
                post = m.post;
                matched = m.matched;
                before = m.before;
                after = refl;
              },
              refl,
            );
          }
          | inr n ↦ record {
            answer = err duplicate_key;
            left = docs;
            unique = unique;
            does = (refl, inr (m.old, m.pre, m.post, m.before, m.matched, n));
          }
        ]
      ]

      abbrev pub upsert : (up : Option A) → NoneMatch p docs → Done (update_one p f up) docs
      upsert none k = record {
        answer = ok (record { matched_count = 0; upserted_count = 0 });
        left = docs;
        unique = unique;
        does = inr (inr (refl, refl, refl, k));
      }
      upsert (some d) k = elim (match (λ x. clash x d) docs) [
        | inl c ↦ record {
          answer = err duplicate_key;
          left = docs;
          unique = unique;
          does = (refl, inl (d, refl, k, (c.old, match_In clash _ docs c, c.matched)));
        }
        | inr free ↦ record {
          answer = ok (record { matched_count = 0; upserted_count = 1 });
          left = docs ++ d ∷ [];
          unique = unique_snoc clash docs d unique free;
          does = inr (inl (refl, refl, (k, refl)));
        }
      ]

      abbrev pub update : (up : Option A) → Done (update_one p f up) docs
      update up = elim (match p docs) [
        | inr k ↦ upsert up k
        | inl m ↦ elim (is_unique clash (m.pre ++ (f m.old ∷ m.post))) [
          | inl u ↦ record {
            answer = ok (record { matched_count = 1; upserted_count = 0 });
            left = m.pre ++ (f m.old ∷ m.post);
            unique = u;
            does = inl (
              refl,
              record {
                old = m.old;
                pre = m.pre;
                post = m.post;
                matched = m.matched;
                before = m.before;
                after = refl;
              },
            );
          }
          | inr n ↦ record {
            answer = err duplicate_key;
            left = docs;
            unique = unique;
            does = (refl, inr (m.old, m.pre, m.post, m.before, m.matched, n));
          }
        ]
      ]

    pub refused :
        (p : A → Bool) (order : Sort A) (limit : ℤ)
        → FoundAll p order limit docs (err (driver_failed 0))
    refused p order (pos zero) = tt
    refused p order (pos (suc n)) = tt
    refused p order (negsuc n) = tt

    pub refused_heads :
        (p : A → Bool) (first : Sort A) (same : A → A → Bool) (last : Sort A) (limit : ℤ)
        → FoundHeads p first same last limit docs (err (driver_failed 0))
    refused_heads p first same last (pos zero) = tt
    refused_heads p first same last (pos (suc n)) = tt
    refused_heads p first same last (negsuc n) = tt

    abbrev pub obey : (o : Op A) → Done o docs
    obey (find_one p order) = elim (best p order docs) [
      | inl b ↦ record {
        answer = ok b.first;
        left = docs;
        unique = unique;
        does = (refl, (b.listed, b.matched, b.least));
      }
      | inr k ↦ record { answer = err no_documents; left = docs; unique = unique; does = (refl, k) }
    ]
    obey (find p order limit) = record {
      answer = err (driver_failed 0);
      left = docs;
      unique = unique;
      does = (refl, refused p order limit);
    }
    obey (insert_one d) = elim (match (λ x. clash x d) docs) [
      | inl m ↦ record {
        answer = err duplicate_key;
        left = docs;
        unique = unique;
        does = (refl, (m.old, match_In clash _ docs m, m.matched));
      }
      | inr k ↦ record {
        answer = ok tt;
        left = docs ++ d ∷ [];
        unique = unique_snoc clash docs d unique k;
        does = refl;
      }
    ]
    obey (find_one_and_update p f up) = modify p f up
    obey (update_one p f up) = update p f up
    obey (delete_one p) = elim (match p docs) [
      | inl m ↦ elim (is_unique clash (m.pre ++ m.post)) [
        | inl u ↦ record {
          answer = ok tt;
          left = m.pre ++ m.post;
          unique = u;
          does = inl (record {
            old = m.old;
            pre = m.pre;
            post = m.post;
            matched = m.matched;
            before = m.before;
            after = refl;
          });
        }
        | inr n ↦ record {
          answer = err (driver_failed 0);
          left = docs;
          unique = unique;
          does = inl refl;
        }
      ]
      | inr k ↦ record { answer = ok tt; left = docs; unique = unique; does = inr (refl, k) }
    ]
    obey (aggregate_heads p first same last limit) = record {
      answer = err (driver_failed 0);
      left = docs;
      unique = unique;
      does = (refl, refused_heads p first same last limit);
    }

  pub record Stored : Type 0 where
    pub docs : List A
    pub unique : IsUnique clash docs

  abbrev pub memory : Collection A clash
  memory = record {
    State = Stored;
    docs = λ s. s.docs;
    perform = λ o s.
        let d = obey s.docs s.unique o in (d.answer, record { docs = d.left; unique = d.unique });
    performs = λ o s. (obey s.docs s.unique o).does;
    unique = λ s. s.unique;
  }
