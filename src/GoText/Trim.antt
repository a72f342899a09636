-- ===== src/GoText/Trim.antt =====
-- `strings.TrimSpace` over the UTF-8 bytes of the white space of Unicode.
use lens_chat_service.Prelude.{
  ℕ, zero, suc, Bool, ◌&&◌, ◌||◌, [], ◌∷◌, reverse, leb, ◌==◌, if◌then◌else◌, length, drop,
}
use lens_chat_service.GoText.Equality.{Bytes}

abbrev pub byte_at : Bytes → ℕ → ℕ
byte_at [] i = 0
byte_at (a ∷ s) zero = a
byte_at (a ∷ s) (suc i) = byte_at s i

is_space_byte : ℕ → Bool
is_space_byte a = (leb 9 a && leb a 13) || a == 32

-- U+0085, U+00A0
is_space_pair : ℕ → ℕ → Bool
is_space_pair a b = a == 0xC2 && (b == 0x85 || b == 0xA0)

-- U+1680; U+2000 to U+200A, U+2028, U+2029, U+202F; U+205F; U+3000
is_space_triple : ℕ → ℕ → ℕ → Bool
is_space_triple a b c =
    (a == 0xE1 && (b == 0x9A && c == 0x80))
    || ((a == 0xE2
          && ((b == 0x80 && ((leb 0x80 c && leb c 0x8A) || (c == 0xA8 || (c == 0xA9 || c == 0xAF))))
              || (b == 0x81 && c == 0x9F)))
        || (a == 0xE3 && (b == 0x80 && c == 0x80)))

-- The bytes of the white space that begins with `a b c`, 0 if there is none.
unfoldable pub space_len : ℕ → ℕ → ℕ → ℕ
unfolding is_space_byte is_space_pair is_space_triple
space_len a b c =
    if is_space_byte a
    then 1
    else if is_space_pair a b
    then 2
    else if is_space_triple a b c
    then 3
    else 0

-- Each round drops a byte at least, so the length is enough fuel.
trim_left_from : ℕ → Bytes → Bytes
unfolding space_len
trim_left_from zero s = s
trim_left_from (suc n) s =
    let k = space_len (byte_at s 0) (byte_at s 1) (byte_at s 2) in
    let rest = trim_left_from n (drop k s) in if k == 0 then s else rest

-- The same from the end, over the reversed bytes.
space_len_back : ℕ → ℕ → ℕ → ℕ
unfolding is_space_byte is_space_pair is_space_triple
space_len_back a b c =
    if is_space_byte a
    then 1
    else if is_space_pair b a
    then 2
    else if is_space_triple c b a
    then 3
    else 0

trim_back_from : ℕ → Bytes → Bytes
unfolding space_len_back
trim_back_from zero s = s
trim_back_from (suc n) s =
    let k = space_len_back (byte_at s 0) (byte_at s 1) (byte_at s 2) in
    let rest = trim_back_from n (drop k s) in if k == 0 then s else rest

unfoldable pub trim_space : Bytes → Bytes
unfolding trim_left_from trim_back_from
trim_space s =
    let left = trim_left_from (length s) s in reverse (trim_back_from (length left) (reverse left))

-- `strings.TrimSpace(s) == ""`
unfoldable pub is_blank : Bytes → Bool
unfolding trim_space
is_blank s = length (trim_space s) == 0
