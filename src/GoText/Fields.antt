-- ===== src/GoText/Fields.antt =====
-- `strings.Fields`, and `strings.EqualFold` with an ASCII word.
pub mod Lines
use lens_chat_service.Prelude.{
  ℕ, zero, suc, ◌+◌, Bool, ◌&&◌, List, [], ◌∷◌, ◌++◌, leb, ◌==◌, if◌then◌else◌, length, drop,
}
use lens_chat_service.GoText.Equality.{Bytes, str_eq}
use lens_chat_service.GoText.Trim.{byte_at, space_len}

-- The field that has been read so far is put in front of the rest, if it is one.
abbrev push_field : Bytes → List Bytes → List Bytes
push_field [] rest = rest
push_field (a ∷ s) rest = (a ∷ s) ∷ rest

-- Each round reads a byte at least, so the length is enough fuel.
fields_from : ℕ → Bytes → Bytes → List Bytes
unfolding space_len
fields_from zero field s = push_field field []
fields_from (suc n) field [] = push_field field []
fields_from (suc n) field (a ∷ s) =
    let k = space_len a (byte_at s 0) (byte_at s 1) in
    let same = fields_from n (field ++ a ∷ []) s in
    let next = fields_from n [] (drop k (a ∷ s)) in if k == 0 then same else push_field field next

unfoldable pub fields : Bytes → List Bytes
unfolding fields_from
fields s = fields_from (suc (length s)) [] s

to_lower : ℕ → ℕ
to_lower a = if leb 65 a && leb a 90 then a + 32 else a

lower : Bytes → Bytes
unfolding to_lower
lower [] = []
lower (a ∷ s) = to_lower a ∷ lower s

-- No letter of `word` has a fold outside ASCII, as only `k` and `s` have.
unfoldable pub equal_fold : Bytes → Bytes → Bool
unfolding lower
equal_fold s word = str_eq (lower s) (lower word)
