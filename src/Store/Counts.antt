-- ===== src/Store/Counts.antt =====
-- How many calls of the driver a program makes.
use lens_chat_service.Prelude.{
  ℕ, zero, suc, ◌+◌, ◌≤◌, arith, Bool, true, false, ok, err, if◌then◌else◌,
}
use lens_chat_service.Store.Actions.{Answer, Program, done, call, Action, ◌>>=◌, and_then}

-- Whatever the driver answers, the program ends after at most `n` calls.
abbrev pub AtMost : {A : Type 0} → ℕ → Program A → Type 0
AtMost n (done a) = Unit {0}
AtMost zero (call c k) = ⊥
AtMost (suc n) (call c k) = (r : Answer c) → AtMost n (k r)

pub AtMost-more : {A : Type 0} (m : Program A) (n k : ℕ) → n ≤ k → AtMost n m → AtMost k m
AtMost-more (done a) n k le h = tt
AtMost-more (call c q) zero k le h = absurd h
AtMost-more (call c q) (suc n) zero le h = absurd (omega (arith, le))
AtMost-more (call c q) (suc n) (suc k) le h = λ r. AtMost-more (q r) n k (omega (arith, le)) (h r)

pub AtMost-bind :
    {A B : Type 0} (m : Action A) (f : A → Action B) (n k l : ℕ)
    → n + k ≤ l
    → AtMost n m
    → ((a : A) → AtMost k (f a))
    → AtMost l (m >>= f)
AtMost-bind (done (ok a)) f n k l le h g = AtMost-more (f a) k l (omega (arith, le)) (g a)
AtMost-bind (done (err e)) f n k l le h g = tt
AtMost-bind (call c q) f zero k l le h g = absurd h
AtMost-bind (call c q) f (suc n) k zero le h g = absurd (omega (arith, le))
AtMost-bind (call c q) f (suc n) k (suc l) le h g =
    λ r. AtMost-bind (q r) f n k l (omega (arith, le)) (h r) g

-- A last step without calls.
pub AtMost-map :
    {A B : Type 0} (m : Program A) (f : A → B) (n : ℕ)
    → AtMost n m
    → AtMost n (and_then m λ a. done (f a))
AtMost-map (done a) f n h = tt
AtMost-map (call c q) f zero h = absurd h
AtMost-map (call c q) f (suc n) h = λ r. AtMost-map (q r) f n (h r)

pub AtMost-if :
    {A : Type 0} (b : Bool) (m k : Program A) (n : ℕ)
    → AtMost n m
    → AtMost n k
    → AtMost n (if b then m else k)
AtMost-if true m k n h g = h
AtMost-if false m k n h g = g
