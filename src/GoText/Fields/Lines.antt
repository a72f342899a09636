-- ===== src/GoText/Fields/Lines.antt =====
-- `strings.Fields` takes the line feeds away.
use lens_chat_service.Prelude.{
  ℕ, zero, suc, ◌≡◌, ◌≢◌, inl, inr, Bool-cases, List, [], ◌∷◌, ◌++◌, ◌==◌, concat, length, drop,
  arith,
}
use lens_chat_service.GoText.Equality.{Bytes}
use lens_chat_service.GoText.Trim.{byte_at, space_len}
use lens_chat_service.GoText.Fields.{push_field, fields_from, fields}

-- No byte is a line feed.
abbrev pub OneLine : Bytes → Type 0
OneLine [] = Unit
OneLine (a ∷ s) = (a ≢ 0x0A) × OneLine s

pub OneLine-append : (s t : Bytes) → OneLine s → OneLine t → OneLine (s ++ t)
OneLine-append [] t h k = k
OneLine-append (a ∷ s) t h k = (h.0, OneLine-append s t h.1 k)

push_field-OneLine :
    (field : Bytes) (rest : List Bytes)
    → OneLine field
    → OneLine (concat rest)
    → OneLine (concat (push_field field rest))
push_field-OneLine [] rest h k = k
push_field-OneLine (a ∷ s) rest h k = OneLine-append (a ∷ s) (concat rest) h k

not_space : (a b c : ℕ) → space_len a b c ≡ 0 → a ≢ 0x0A
unfolding space_len
not_space a b c h e = ground (arith, e)

fields_from-OneLine :
    (n : ℕ) (field s : Bytes) → OneLine field → OneLine (concat (fields_from n field s))
unfolding fields_from
fields_from-OneLine zero field s h = push_field-OneLine field [] h tt
fields_from-OneLine (suc n) field [] h = push_field-OneLine field [] h tt
fields_from-OneLine (suc n) field (a ∷ s) h =
    let k = space_len a (byte_at s 0) (byte_at s 1) in
    elim (Bool-cases (k == 0)) [
      | inl e ↦ rw e (
          fields_from-OneLine n (field ++ a ∷ []) s (
            OneLine-append field (a ∷ []) h
              (not_space a (byte_at s 0) (byte_at s 1) (ground (arith, e)), tt)))
      | inr e ↦ rw e (push_field-OneLine field _ h (fields_from-OneLine n [] (drop k (a ∷ s)) tt))
    ]

-- No line feed is left in the fields of a text.
pub fields-OneLine : (s : Bytes) → OneLine (concat (fields s))
unfolding fields
fields-OneLine s = fields_from-OneLine (suc (length s)) [] s tt
