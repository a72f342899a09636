-- ===== src/History/Rely.antt =====
-- A program whose every call is a lawful step, whatever others do to the database between its calls.
use lens_chat_service.Prelude.{Bool, true, false, ok, err, if◌then◌else◌}
use lens_chat_service.GoText.{Bytes}
use lens_chat_service.Schema.{ObjectId}
use lens_chat_service.Store.{View, Program, done, call, Action, ◌>>=◌, and_then, After, After-mono}
use lens_chat_service.History.Evolution.{Evolves, Evolves-refl, Evolves-trans, Steps}

module _ (hex : ObjectId → Bytes) where
  -- `v` is the database after the last call of the program: before the next one, others have made it
  -- evolve to `u`.
  abbrev pub Abides : {A : Type 0} → View → Program A → Type 0
  Abides v (done a) = Unit {0}
  Abides v (call c k) = (u : View) → Evolves v u → After c (λ r w. Steps hex u w × Abides w (k r)) u

  pub Abides-later :
      {A : Type 0} (m : Program A) (v u : View) → Evolves v u → Abides v m → Abides u m
  Abides-later (done a) v u e h = tt
  Abides-later (call c k) v u e h = λ w f. h w (Evolves-trans v u w e f)

  pub Abides-and_then :
      {A B : Type 0} (m : Program A) (f : A → Program B) (v : View)
      → Abides v m
      → ((a : A) (u : View) → Evolves v u → Abides u (f a))
      → Abides v (and_then m f)
  Abides-and_then (done a) f v h k = k a v (Evolves-refl v)
  Abides-and_then (call c m) f v h k = λ u e.
      After-mono c u
        (λ r w q. (
          q.0,
          Abides-and_then (m r) f w q.1
              (λ a x g. k a x (Evolves-trans v w x (Evolves-trans v u w e q.0.evolves) g)),
        ))
        (h u e)

  pub Abides-bind :
      {A B : Type 0} (m : Action A) (f : A → Action B) (v : View)
      → Abides v m
      → ((a : A) (u : View) → Evolves v u → Abides u (f a))
      → Abides v (m >>= f)
  Abides-bind (done (ok a)) f v h k = k a v (Evolves-refl v)
  Abides-bind (done (err e)) f v h k = tt
  Abides-bind (call c m) f v h k = λ u e.
      After-mono c u
        (λ r w q. (
          q.0,
          Abides-bind (m r) f w q.1
              (λ a x g. k a x (Evolves-trans v w x (Evolves-trans v u w e q.0.evolves) g)),
        ))
        (h u e)

  pub Abides-if :
      {A : Type 0} (b : Bool) (m n : Program A) (v : View)
      → Abides v m
      → Abides v n
      → Abides v (if b then m else n)
  Abides-if true m n v h k = h
  Abides-if false m n v h k = k
