-- ===== src/GoText/ParseInt.antt =====
-- `strconv.ParseInt(s, 10, 64)`; what is wrong with a text that is none is not told.
pub mod Decimals
use lens_chat_service.Prelude.{
  ℕ, ◌+◌, ◌*◌, ◌-◌, ◌^◌, ltb, leb, ◌==◌, ◌&&◌, Bool, true, false, Option, none, some, [], ◌∷◌, ℤ,
  pos, negsuc, if◌then◌else◌,
}
use lens_chat_service.GoText.Equality.{Bytes}

unfoldable pub digits_from : ℕ → Bytes → Option ℕ
digits_from n [] = some n
digits_from n (c ∷ s) =
    let rest = digits_from (n * 10 + (c - 48)) s in if leb 48 c && leb c 57 then rest else none

unfoldable pub unsigned : Bytes → Option ℕ
unfolding digits_from
unsigned [] = none
unsigned (c ∷ s) = digits_from 0 (c ∷ s)

-- The minus sign and the magnitude; the bounds are those of `int64`.
unfoldable pub signed : Bool → Option ℕ → Option ℤ
signed minus none = none
signed false (some n) = if ltb n (2 ^ 63) then some (pos n) else none
signed true (some n) =
    if leb n (2 ^ 63) then some (if n == 0 then pos 0 else negsuc (n - 1)) else none

unfoldable pub parse_int : Bytes → Option ℤ
unfolding unsigned signed
parse_int [] = none
parse_int (c ∷ s) =
    if c == 0x2B
    then signed false (unsigned s)
    else if c == 0x2D
    then signed true (unsigned s)
    else signed false (unsigned (c ∷ s))
