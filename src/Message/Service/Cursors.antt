-- ===== src/Message/Service/Cursors.antt =====
-- `Read` of the service: every outcome.
use lens_chat_service.Prelude.{
  ◌≡◌, refl, ◌⊎◌, inl, inr, Result, ok, err, Bool-cases, ℤ, pos, ltb_ℤ, ◌≤ℤ◌, ◌<ℤ◌, ◌||◌, arith,
}
use lens_chat_service.GoText.{Bytes}
use lens_chat_service.Schema.{Channel}
use lens_chat_service.Response.{Error, invalid}
use lens_chat_service.Store.{View, Ensures, Ensures-mono, Ensures-Reading, IsIndexed}
use lens_chat_service.Platform.{Platform}
use lens_chat_service.Channel.Service as ChannelService
use lens_chat_service.Channel.Service.Access.{IsOpenTo, IsRefused, Got, get-Gets}
use lens_chat_service.Message.Events.{Fresh}
use lens_chat_service.Message.ReadCursor
use lens_chat_service.Message.ReadCursor.Spec.{Reads}
use lens_chat_service.Message.ReadCursor.Monotone.{read-Reads}
use lens_chat_service.Message.Service.{read_in, read}

module _ (platform : Platform) (actor id : Bytes) (v : View) (fresh : Fresh) (seq : ℤ) where
  -- Why nothing is read: the channel is refused, or it has no such sequence.
  abbrev pub IsNoRead : Result Error ℤ → Type 0
  IsNoRead (ok n) = ⊥
  IsNoRead (err e) =
      IsRefused platform actor id v e
      ⊎ ((e ≡ invalid)
          × ((ch : Channel) × IsOpenTo platform actor id v ch
              × ((seq <ℤ pos 0) ⊎ (ch.last_message_seq <ℤ seq))))

  abbrev pub ReadsOwn : Result Error ℤ → View → Type 0
  ReadsOwn r w =
      ((w ≡ v) × IsNoRead r)
      ⊎ ((ch : Channel) × IsOpenTo platform actor id v ch
          × (pos 0 ≤ℤ seq)
          × (seq ≤ℤ ch.last_message_seq)
          × Reads platform.hex fresh ch.id actor seq v r w)

  module _ (unique : IsIndexed v) where
    read_in_lem :
        (ch : Channel)
        → IsOpenTo platform actor id v ch
        → Ensures (read_in platform fresh actor seq ch) ReadsOwn v
    unfolding read_in
    read_in_lem ch o = elim (Bool-cases (ltb_ℤ seq (pos 0) || ltb_ℤ ch.last_message_seq seq)) [
      | inl h ↦ rw h (inl (refl, inr (refl, (ch, o, ground arith))))
      | inr h ↦ rw h (
          Ensures-mono (ReadCursor.read platform.hex fresh ch.id actor seq) {R = ReadsOwn} v
            (λ r w q. inr (ch, o, ground arith, ground arith, q))
            (read-Reads platform.hex fresh ch.id actor seq v unique))
    ]

    -- A caller moves no cursor but the caller's own, in a channel that is open to the caller, to a
    -- sequence from 0 to the last that the channel's summary knows; all other cursors stay as they
    -- are, also where the driver fails, and the outcome is one of those of the repository's `Read`.
    -- In every other case nothing is written and an error is answered:
    -- the channel is refused, or the sequence is out of that range.
    pub read-ReadsOwn : Ensures (read platform fresh actor id seq) ReadsOwn v
    unfolding read
    read-ReadsOwn =
        Ensures-Reading (Got platform actor id v) (read_in platform fresh actor seq) ReadsOwn v
          (λ ch o. read_in_lem ch o) (λ e h. inl (refl, inl h))
          (ChannelService.get platform actor id) (get-Gets platform actor id v unique)
