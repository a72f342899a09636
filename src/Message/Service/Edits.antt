-- ===== src/Message/Service/Edits.antt =====
-- `Edit` and `Recall` of the service: every outcome.
use lens_chat_service.Prelude.{
  ◌≡◌, refl, ◌⊎◌, inl, inr, true, false, Option, none, some, Result, ok, err, Bool-cases,
}
use lens_chat_service.GoText.{Bytes, text}
use lens_chat_service.Schema.{Message, message_updated, message_recalled}
use lens_chat_service.Response.{Error, invalid, not_found, forbidden, conflict, driver, other}
use lens_chat_service.Store.{View, Ensures, Ensures-mono, Ensures-Reading, IsIndexed}
use lens_chat_service.Platform.{Platform}
use lens_chat_service.Message.Events.{Fresh}
use lens_chat_service.Message.Mutate
use lens_chat_service.Message.Mutate.{is_none}
use lens_chat_service.Message.Mutate.Spec.{Mutates}
use lens_chat_service.Message.Mutate.Outcomes.{mutate-Mutates}
use lens_chat_service.Message.Service.{
  authorized, is_bad_content, edit_read, edit, recall_read, recall,
}
use lens_chat_service.Message.Service.Authority.{IsAuthor, IsDenied, Authorized, authorized_lem}

is_none_cases :
    {A : Type 0} (o : Option A) → ((is_none o ≡ true) × (o ≡ none)) ⊎ (is_none o ≡ false)
is_none_cases none = inl (refl, refl)
is_none_cases (some a) = inr refl

module _ (platform : Platform) (actor id : Bytes) (v : View) where
  -- Why an edit is refused.
  abbrev pub IsNoEdit : Bytes → Result Error Message → Type 0
  IsNoEdit content (ok _) = ⊥
  IsNoEdit content (err invalid) =
      (is_bad_content content ≡ true) ⊎ IsDenied platform actor id v invalid
  IsNoEdit content (err conflict) =
      (msg : Message) × IsAuthor platform actor id v msg × (is_none msg.recalled_at ≡ false)
  IsNoEdit content (err e) = IsDenied platform actor id v e

  -- Why a recall is refused.
  abbrev pub IsNoRecall : Result Error Message → Type 0
  IsNoRecall (ok _) = ⊥
  IsNoRecall (err e) = IsDenied platform actor id v e

  pub no_edit :
      (content : Bytes) (e : Error) → IsDenied platform actor id v e → IsNoEdit content (err e)
  no_edit content invalid h = inr h
  no_edit content not_found h = h
  no_edit content forbidden h = h
  no_edit content conflict h = absurd h
  no_edit content (driver e) h = tt
  no_edit content (other m) h = absurd h

  abbrev pub Edits : Fresh → Bytes → Result Error Message → View → Type 0
  Edits fresh content r w =
      ((w ≡ v) × IsNoEdit content r)
      ⊎ ((msg : Message) × IsAuthor platform actor id v msg
          × (msg.recalled_at ≡ none)
          × (is_bad_content content ≡ false)
          × Mutates platform.hex fresh message_updated msg content v r w)

  abbrev pub Recalls : Fresh → Result Error Message → View → Type 0
  Recalls fresh r w =
      ((w ≡ v) × IsNoRecall r)
      ⊎ ((msg : Message) × IsAuthor platform actor id v msg
          × (((is_none msg.recalled_at ≡ false) × (r ≡ ok msg) × (w ≡ v))
              ⊎ ((msg.recalled_at ≡ none)
                  × Mutates platform.hex fresh message_recalled msg (text "") v r w)))

module _ (platform : Platform) (actor id : Bytes) (v : View) (unique : IsIndexed v) where
  edit_read_lem :
      (fresh : Fresh) (content : Bytes) (msg : Message)
      → is_bad_content content ≡ false
      → IsAuthor platform actor id v msg
      → Ensures (edit_read platform fresh content msg) (Edits platform actor id v fresh content) v
  unfolding edit_read Mutate.edit
  edit_read_lem fresh content msg good author = elim (is_none_cases msg.recalled_at) [
    | inl (t, e) ↦ rw t (
        Ensures-mono (Mutate.mutate platform.hex fresh message_updated msg content) v
          (λ r w h. inr (msg, author, e, good, h))
          (mutate-Mutates platform.hex fresh message_updated msg content v))
    | inr e ↦ rw e (inl (refl, (msg, author, e)))
  ]

  -- An edit writes only for the author of the message: the caller sent it, its channel is active
  -- and has the caller as participant, it has not been recalled, and the content is valid. Then
  -- the outcome is one of those of the guarded update of the repository, on that message with the
  -- new content. In every other case nothing is written and an error is answered that tells why:
  -- the content is bad or no message of the id is the caller's to change, with `forbidden` only if
  -- another user sent it, `conflict` only if it is recalled; or the driver failed.
  pub edit-Edits :
      (fresh : Fresh) (content : Bytes)
      → Ensures (edit platform fresh actor id content) (Edits platform actor id v fresh content) v
  unfolding edit
  edit-Edits fresh content = elim (Bool-cases (is_bad_content content)) [
    | inl e ↦ rw e (inl (refl, inl e))
    | inr e ↦ rw e (
        Ensures-Reading (Authorized platform actor id v) (edit_read platform fresh content)
          (Edits platform actor id v fresh content) v
          (λ msg author. edit_read_lem fresh content msg e author)
          (λ x h. inl (refl, no_edit platform actor id v content x h))
          (authorized platform actor id) (authorized_lem platform actor id v unique))
  ]

  recall_read_lem :
      (fresh : Fresh) (msg : Message)
      → IsAuthor platform actor id v msg
      → Ensures (recall_read platform fresh msg) (Recalls platform actor id v fresh) v
  unfolding recall_read Mutate.recall
  recall_read_lem fresh msg author = elim (is_none_cases msg.recalled_at) [
    | inl (t, e) ↦ rw t (
        Ensures-mono (Mutate.mutate platform.hex fresh message_recalled msg (text "")) v
          (λ r w h. inr (msg, author, inr (e, h)))
          (mutate-Mutates platform.hex fresh message_recalled msg (text "") v))
    | inr e ↦ rw e (inr (msg, author, inl (e, refl, refl)))
  ]

  -- A recall writes only for the author of the message, in a channel that is open to the author.
  -- Where the message has been recalled before, it is answered and nothing is written; where not,
  -- the outcome is one of those of the guarded update of the repository, which empties the content.
  -- In every other case nothing is written and an error is answered: no message of the id is the
  -- caller's to change, with `forbidden` only if another user sent it; or the driver failed.
  pub recall-Recalls :
      (fresh : Fresh)
      → Ensures (recall platform fresh actor id) (Recalls platform actor id v fresh) v
  unfolding recall
  recall-Recalls fresh =
      Ensures-Reading (Authorized platform actor id v) (recall_read platform fresh)
        (Recalls platform actor id v fresh) v (λ msg author. recall_read_lem fresh msg author)
        (λ x h. inl (refl, h)) (authorized platform actor id)
        (authorized_lem platform actor id v unique)
