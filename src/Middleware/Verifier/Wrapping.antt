-- ===== src/Middleware/Verifier/Wrapping.antt =====
-- `wrapBase64` changes nothing but the line breaks.
use lens_chat_service.Prelude.{
  ℕ, zero, suc, ◌≡◌, refl, sym, ap, ◌∙◌, subst, inl, inr, Bool-cases, ltb, ◌≤◌, ◌==◌, List, [], ◌∷◌,
  ◌++◌, IsIn, concat, take, drop, length, if◌then◌else◌, take-drop, length-take, length-drop, arith,
}
use lens_chat_service.GoText.{Bytes, fields}
use lens_chat_service.GoText.Fields.Lines.{OneLine, fields-OneLine}
use lens_chat_service.Middleware.Verifier.{last_line, lines_from, join_lines, wrap_base64}

-- The text without its line feeds.
abbrev pub unwrap : Bytes → Bytes
unwrap [] = []
unwrap (a ∷ s) = let rest = unwrap s in if a == 0x0A then rest else a ∷ rest

unwrap-OneLine : (s t : Bytes) → OneLine s → unwrap (s ++ t) ≡ s ++ unwrap t
unwrap-OneLine [] t h = refl
unwrap-OneLine (a ∷ s) t h = elim (Bool-cases (a == 0x0A)) [
  | inl e ↦ absurd (ground (arith, e, h.0))
  | inr e ↦ rw e (ap (λ u. a ∷ u) (unwrap-OneLine s t h.1))
]

OneLine-parts : (s t : Bytes) → OneLine (s ++ t) → OneLine s × OneLine t
OneLine-parts [] t h = (tt, h)
OneLine-parts (a ∷ s) t h = let (k, l) = OneLine-parts s t h.1 in ((h.0, k), l)

append_nil : (s : Bytes) → s ++ [] ≡ s
append_nil [] = refl
append_nil (a ∷ s) = ap (λ t. a ∷ t) (append_nil s)

unwrap-join_lines : (ls : List Bytes) → OneLine (concat ls) → unwrap (join_lines ls) ≡ concat ls
unwrap-join_lines [] h = refl
unwrap-join_lines (l ∷ []) h =
    ap unwrap (sym (append_nil l)) ∙ unwrap-OneLine l [] (OneLine-parts l [] h).0
unwrap-join_lines (l ∷ m ∷ ls) h =
    let (k, rest) = OneLine-parts l (concat (m ∷ ls)) h in
    unwrap-OneLine l (0x0A ∷ join_lines (m ∷ ls)) k
    ∙ ap (λ s. l ++ s) (unwrap-join_lines (m ∷ ls) rest)

concat-last_line : (s : Bytes) → concat (last_line s) ≡ s
concat-last_line [] = refl
concat-last_line (a ∷ s) = append_nil (a ∷ s)

concat-lines_from : (n : ℕ) (s : Bytes) → concat (lines_from n s) ≡ s
unfolding lines_from
concat-lines_from zero s = concat-last_line s
concat-lines_from (suc n) s = elim (Bool-cases (ltb 64 (length s))) [
  | inl h ↦ rw h (ap (λ t. take 64 s ++ t) (concat-lines_from n (drop 64 s)) ∙ take-drop 64 s)
  | inr h ↦ rw h (concat-last_line s)
]

abbrev pub IsLine : Bytes → Type 0
IsLine l = (1 ≤ length l) × (length l ≤ 64)

last_line-IsLine : (s l : Bytes) → length s ≤ 64 → IsIn l (last_line s) → IsLine l
last_line-IsLine [] l h i = absurd i
last_line-IsLine (a ∷ s) l h (inl e) = subst IsLine (sym e) (omega arith, h)
last_line-IsLine (a ∷ s) l h (inr i) = absurd i

lines_from-IsLine :
    (n : ℕ) (s : Bytes) → length s ≤ n → (l : Bytes) → IsIn l (lines_from n s) → IsLine l
unfolding lines_from
lines_from-IsLine zero s h l = last_line-IsLine s l (omega (arith, h))
lines_from-IsLine (suc n) s h l = elim (Bool-cases (ltb 64 (length s))) [
  | inl g ↦
      let long : 64 ≤ length s = ground (arith, g) in
      let rest = lines_from-IsLine n (drop 64 s) (omega (arith, h, length-drop 64 s long)) l in
      rw g (λ i. elim i [
        | inl e ↦
            subst IsLine (sym e)
              (omega (arith, length-take 64 s long), omega (arith, length-take 64 s long))
        | inr j ↦ rest j
      ])
  | inr g ↦ rw g (last_line-IsLine s l (ground (arith, g)))
]

-- What `wrapBase64` makes of a text: lines of at most 64 bytes, none empty, and without the line
-- breaks it is the text without its white space.
pub record Wraps (value wrapped : Bytes) : Type 0 where
  pub lines : List Bytes
  pub joined : wrapped ≡ join_lines lines
  pub sizes : (l : Bytes) → IsIn l lines → IsLine l
  pub content : unwrap wrapped ≡ concat (fields value)

-- Wrapping a text breaks it into lines of one to 64 bytes, and taking the line breaks out again
-- gives the text without its white space back.
pub wrap_base64-Wraps : (value : Bytes) → Wraps value (wrap_base64 value)
unfolding wrap_base64
wrap_base64-Wraps value =
    let s = concat (fields value) in
    let same = concat-lines_from (length s) s in
    record {
      lines = lines_from (length s) s;
      joined = refl;
      sizes = λ l i. lines_from-IsLine (length s) s (omega arith) l i;
      content =
          unwrap-join_lines (lines_from (length s) s)
            (subst OneLine (sym same) (fields-OneLine value))
          ∙ same;
    }
