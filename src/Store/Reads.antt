-- ===== src/Store/Reads.antt =====
-- A read leaves the database as it is.
use lens_chat_service.Prelude.{◌≡◌, sym, subst, Bool, Result, ok, err}
use lens_chat_service.Mongo.{Reply, Sort, find_one, Found}
use lens_chat_service.Schema.{Message, Channel, ChannelState}
use lens_chat_service.Response.{Error, driver}
use lens_chat_service.Store.Actions.{View, Action, ◌>>=◌, messages, channels, states}
use lens_chat_service.Store.Rules.{After, Ensures, Then, Ensures-bind, Ensures-mono}

-- The call failed in the driver, and the error is passed on.
abbrev pub IsDriverFailure : {A : Type 0} → Result Error A → Type 0
IsDriverFailure (err (driver _)) = Unit {0}
IsDriverFailure _ = ⊥

module _ (p : Message → Bool) (order : Sort Message) where
  pub After-find_message :
      (K : Reply Message → View → Type 0) (v : View)
      → ((r : Reply Message) → Found p order v.messages r → K r v)
      → After (messages (find_one p order)) K v
  After-find_message K v k =
      λ r ds d u. subst (λ l. K r (record v { messages = l })) (sym d.0) (k r d.1)

module _ (p : Channel → Bool) (order : Sort Channel) where
  pub After-find_channel :
      (K : Reply Channel → View → Type 0) (v : View)
      → ((r : Reply Channel) → Found p order v.channels r → K r v)
      → After (channels (find_one p order)) K v
  After-find_channel K v k =
      λ r ds d u. subst (λ l. K r (record v { channels = l })) (sym d.0) (k r d.1)

module _ (p : ChannelState → Bool) (order : Sort ChannelState) where
  pub After-find_state :
      (K : Reply ChannelState → View → Type 0) (v : View)
      → ((r : Reply ChannelState) → Found p order v.states r → K r v)
      → After (states (find_one p order)) K v
  After-find_state K v k =
      λ r ds d u. subst (λ l. K r (record v { states = l })) (sym d.0) (k r d.1)

-- An action that writes nothing, and whose result has the property `P`.
abbrev pub Reading :
    {A : Type 0} → (Result Error A → Type 0) → View → Result Error A → View → Type 0
Reading P v r w = (w ≡ v) × P r

module _ {A B : Type 0} (P : Result Error A → Type 0) (f : A → Action B)
    (Q : Result Error B → View → Type 0) (v : View)
    (succeeds : (a : A) → P (ok a) → Ensures (f a) Q v)
    (fails : (e : Error) → P (err e) → Q (err e) v) where
  Then-of_Reading : (r : Result Error A) (w : View) → Reading P v r w → Then f Q r w
  Then-of_Reading (ok a) w (e, p) = subst (λ x. Ensures (f a) Q x) (sym e) (succeeds a p)
  Then-of_Reading (err x) w (e, p) = subst (λ y. Q (err x) y) (sym e) (fails x p)

  -- The rest of a block after an action that only reads.
  pub Ensures-Reading : (m : Action A) → Ensures m (Reading P v) v → Ensures (m >>= f) Q v
  Ensures-Reading m h = Ensures-bind m f Q v (Ensures-mono m v Then-of_Reading h)
