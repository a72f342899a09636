-- ===== src/GoText/ParseInt/Decimals.antt =====
-- Decimals are parsed as what they say.
use lens_chat_service.Prelude.{
  ℕ, zero, suc, ◌+◌, ◌*◌, ◌-◌, ◌/◌, ◌%◌, ◌^◌, ◌<◌, ◌≤◌, ◌≡◌, ◌∙◌, refl, sym, ap, ltb, Bool, true,
  false, some, [], ◌∷◌, ◌++◌, ℤ, pos, negsuc, if◌then◌else◌, arith,
}
use lens_chat_service.GoText.Equality.{Bytes}
use lens_chat_service.GoText.ParseInt.{digits_from, unsigned, signed, parse_int}

-- The digits of a number of at most as many digits as the fuel.
unfoldable pub digits : ℕ → ℕ → Bytes
digits zero n = []
digits (suc fuel) n =
    let before = digits fuel (n / 10) in
    if ltb n 10 then (48 + n) ∷ [] else before ++ (48 + n % 10) ∷ []

-- A number below `2 ^ 64` has at most 20 digits.
unfoldable pub decimal : ℤ → Bytes
decimal (pos n) = digits 20 n
decimal (negsuc n) = 0x2D ∷ digits 20 (n + 1)

digits_from-snoc :
    (s : Bytes) (a b d : ℕ)
    → digits_from a s ≡ some b
    → d < 10
    → digits_from a (s ++ (48 + d) ∷ []) ≡ some (b * 10 + d)
unfolding digits_from
digits_from-snoc [] a b d h small = grind (arith, h, small)
digits_from-snoc (c ∷ s) a b d h small =
    grind (arith, h, digits_from-snoc s (a * 10 + (c - 48)) b d)

one_or_more :
    (n : ℕ) (s : Bytes)
    → digits_from 0 s ≡ some n
    → digits_from 0 (if ltb n 10 then (48 + n) ∷ [] else s) ≡ some n
unfolding digits_from
one_or_more n s h = ground (arith, h)

digits_from-digits : (fuel n : ℕ) → n < 10 ^ fuel → digits_from 0 (digits fuel n) ≡ some n
unfolding digits digits_from
digits_from-digits zero n h = ap some (omega (arith, h))
digits_from-digits (suc fuel) n h =
    let before = digits_from-digits fuel (n / 10) (omega (arith, h)) in
    let all : n / 10 * 10 + n % 10 ≡ n = omega arith in
    one_or_more n (digits fuel (n / 10) ++ (48 + n % 10) ∷ []) (
      digits_from-snoc (digits fuel (n / 10)) 0 (n / 10) (n % 10) before (omega arith)
      ∙ ap some all)

-- A text that begins with a digit.
record Starts (s : Bytes) : Type 0 where
  first : ℕ
  rest : Bytes
  is : s ≡ first ∷ rest
  digit : 48 ≤ first

Starts-append : (s t : Bytes) → Starts s → Starts (s ++ t)
Starts-append s t h = record {
  first = h.first;
  rest = h.rest ++ t;
  is = ap (λ x. x ++ t) h.is;
  digit = h.digit;
}

Starts-if : (b : Bool) (s t : Bytes) → Starts s → Starts t → Starts (if b then s else t)
Starts-if true s t h k = h
Starts-if false s t h k = k

Starts-digits : (fuel n : ℕ) → Starts (digits (suc fuel) n)
unfolding digits
Starts-digits zero n =
    Starts-if (ltb n 10) _ _ (record { first = 48 + n; rest = []; is = refl; digit = omega arith })
      (record { first = 48 + n % 10; rest = []; is = refl; digit = omega arith })
Starts-digits (suc fuel) n =
    Starts-if (ltb n 10) _ _ (record { first = 48 + n; rest = []; is = refl; digit = omega arith })
      (Starts-append _ _ (Starts-digits fuel (n / 10)))

parse_unsigned : (c : ℕ) (s : Bytes) → 48 ≤ c → parse_int (c ∷ s) ≡ signed false (unsigned (c ∷ s))
unfolding parse_int
parse_unsigned c s h = ground (arith, h)

unsigned-Starts : (s : Bytes) → Starts s → unsigned s ≡ digits_from 0 s
unfolding unsigned
unsigned-Starts s h = ap unsigned h.is ∙ sym (ap (digits_from 0) h.is)

parse_int-Starts : (s : Bytes) → Starts s → parse_int s ≡ signed false (digits_from 0 s)
parse_int-Starts s h =
    ap parse_int h.is
    ∙ parse_unsigned h.first h.rest h.digit
    ∙ ap (λ x. signed false (unsigned x)) (sym h.is)
    ∙ ap (signed false) (unsigned-Starts s h)

parse_negative : (s : Bytes) → parse_int (0x2D ∷ s) ≡ signed true (unsigned s)
unfolding parse_int
parse_negative s = refl

in_range : (n : ℕ) → n < 2 ^ 63 → signed false (some n) ≡ some (pos n)
unfolding signed
in_range n h = ground (arith, h)

in_negative_range : (n : ℕ) → n < 2 ^ 63 → signed true (some (n + 1)) ≡ some (negsuc n)
unfolding signed
in_negative_range n h = ground (arith, h)

-- The numbers of `int64`.
abbrev pub IsInt64 : ℤ → Type 0
IsInt64 (pos n) = n < 2 ^ 63
IsInt64 (negsuc n) = n < 2 ^ 63

pub parse_int-decimal : (z : ℤ) → IsInt64 z → parse_int (decimal z) ≡ some z
unfolding decimal
parse_int-decimal (pos n) h =
    parse_int-Starts (digits 20 n) (Starts-digits 19 n)
    ∙ ap (signed false) (digits_from-digits 20 n (omega (arith, h)))
    ∙ in_range n h
parse_int-decimal (negsuc n) h =
    parse_negative (digits 20 (n + 1))
    ∙ ap (signed true) (unsigned-Starts (digits 20 (n + 1)) (Starts-digits 19 (n + 1)))
    ∙ ap (signed true) (digits_from-digits 20 (n + 1) (omega (arith, h)))
    ∙ in_negative_range n h
