-- ===== src/GoText/Utf8.antt =====
-- `utf8.ValidString`
use lens_chat_service.Prelude.{
  ℕ, zero, suc, Bool, true, false, ◌&&◌, [], ◌∷◌, ltb, leb, ◌==◌, if◌then◌else◌,
}
use lens_chat_service.GoText.Equality.{Bytes}

-- What a leading byte asks for: how many bytes follow, and the range of the first of them.
record Lead : Type 0 where
  valid : Bool
  follow : ℕ
  low : ℕ
  high : ℕ

lead : Bool → ℕ → ℕ → ℕ → Lead
lead v n l h = record { valid = v; follow = n; low = l; high = h }

lead_of : ℕ → Lead
unfolding lead
lead_of a =
    if ltb a 0x80
    then lead true 0 0 0
    else if ltb a 0xC2
    then lead false 0 0 0
    else if ltb a 0xE0
    then lead true 1 0x80 0xBF
    else if a == 0xE0
    then lead true 2 0xA0 0xBF
    else if a == 0xED
    then lead true 2 0x80 0x9F
    else if ltb a 0xF0
    then lead true 2 0x80 0xBF
    else if a == 0xF0
    then lead true 3 0x90 0xBF
    else if ltb a 0xF4
    then lead true 3 0x80 0xBF
    else if a == 0xF4
    then lead true 3 0x80 0x8F
    else lead false 0 0 0

-- `n` bytes are to follow, the next in the range.
valid_from : ℕ → ℕ → ℕ → Bytes → Bool
unfolding lead_of
valid_from n low high [] = n == 0
valid_from zero low high (a ∷ s) =
    let l = lead_of a in l.valid && valid_from l.follow l.low l.high s
valid_from (suc n) low high (a ∷ s) = (leb low a && leb a high) && valid_from n 0x80 0xBF s

unfoldable pub valid_utf8 : Bytes → Bool
unfolding valid_from
valid_utf8 s = valid_from 0 0 0 s
