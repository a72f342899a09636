-- ===== src/Store/Noting.antt =====
-- What a program guarantees, with a note of whether the driver failed one of its calls.
use lens_chat_service.Prelude.{◌⊎◌}
use lens_chat_service.Store.Actions.{View, Program, done, call}
use lens_chat_service.Store.Rules.{After, After-mono, Ensures}
use lens_chat_service.Store.Healthy.{IsWellCall}

-- `Q` holds of every result of the program with every database that it may leave; its first argument
-- says that the driver failed one of the calls before, or that `note` holds.
abbrev pub Notes : {A : Type 0} → Program A → Type 0 → (Type 0 → A → View → Type 0) → View → Type 0
Notes (done a) note Q v = Q note a v
Notes (call c k) note Q v = After c (λ r w. Notes (k r) (note ⊎ (¬ IsWellCall c r)) Q w) v

pub Notes-mono :
    {A : Type 0} (m : Program A) (note : Type 0) {Q R : Type 0 → A → View → Type 0} (v : View)
    → ((f : Type 0) (a : A) (w : View) → Q f a w → R f a w)
    → Notes m note Q v
    → Notes m note R v
Notes-mono (done a) note v qr h = qr note a v h
Notes-mono (call c k) note v qr h =
    After-mono c v (λ r w. Notes-mono (k r) (note ⊎ (¬ IsWellCall c r)) w qr) h

-- The note can be dropped.
pub Ensures-Notes :
    {A : Type 0} (m : Program A) (note : Type 0) (Q : A → View → Type 0) (v : View)
    → Notes m note (λ _ a w. Q a w) v
    → Ensures m Q v
Ensures-Notes (done a) note Q v h = h
Ensures-Notes (call c k) note Q v h =
    After-mono c v (λ r w. Ensures-Notes (k r) (note ⊎ (¬ IsWellCall c r)) Q w) h
