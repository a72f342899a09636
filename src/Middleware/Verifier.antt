-- ===== src/Middleware/Verifier.antt =====
-- internal/middleware/keycloak.middleware.go: `NewKeycloakVerifier`. Reading the file of the key and
-- parsing its PEM text are parameters.
pub mod Wrapping
use lens_chat_service.Prelude.{
  ℕ, zero, suc, Bool, true, false, not, ◌&&◌, ◌||◌, ltb, ◌==◌, List, [], ◌∷◌, ◌++◌, Option, none,
  some, Result, ok, err, concat, take, drop, length, if◌then◌else◌,
}
use lens_chat_service.GoText.{Bytes, text, fields}
use lens_chat_service.Setting.{KeycloakConfig, is_empty}

-- `strings.ReplaceAll(s, "\\n", "\n")`: a backslash and an `n` become a line feed.
unfoldable pub unescape : Bytes → Bytes
unescape [] = []
unescape (a ∷ []) = a ∷ []
unescape (a ∷ b ∷ s) =
    let skipped = unescape s in
    let next = unescape (b ∷ s) in if a == 0x5C && b == 0x6E then 0x0A ∷ skipped else a ∷ next

has_prefix : Bytes → Bytes → Bool
has_prefix [] s = true
has_prefix (a ∷ p) [] = false
has_prefix (a ∷ p) (b ∷ s) = a == b && has_prefix p s

-- `strings.Contains`
unfoldable pub contains : Bytes → Bytes → Bool
unfolding has_prefix
contains [] p = has_prefix p []
contains (a ∷ s) p = has_prefix p (a ∷ s) || contains s p

abbrev last_line : Bytes → List Bytes
last_line [] = []
last_line (a ∷ s) = (a ∷ s) ∷ []

-- The loop of `wrapBase64`; a round takes 64 bytes, so the length is enough fuel.
pub lines_from : ℕ → Bytes → List Bytes
lines_from zero s = last_line s
lines_from (suc n) s =
    let rest = lines_from n (drop 64 s) in
    if ltb 64 (length s) then take 64 s ∷ rest else last_line s

-- `strings.Join(lines, "\n")`
abbrev pub join_lines : List Bytes → Bytes
join_lines [] = []
join_lines (l ∷ []) = l
join_lines (l ∷ m ∷ ls) = l ++ (0x0A ∷ join_lines (m ∷ ls))

unfoldable pub wrap_base64 : Bytes → Bytes
unfolding lines_from
wrap_base64 value = let s = concat (fields value) in join_lines (lines_from (length s) s)

-- The bytes of the key as the configuration has them; `read_file` is `os.ReadFile`.
unfoldable pub key_data : (Bytes → Result Bytes Bytes) → KeycloakConfig → Result Bytes Bytes
unfolding unescape
key_data read_file cfg =
    let inline = unescape cfg.public_key in
    if is_empty inline && not (is_empty cfg.public_key_file)
    then read_file cfg.public_key_file
    else ok inline

-- A key without its PEM lines gets them.
unfoldable pub pem_of : Bytes → Bytes
unfolding contains wrap_base64
pem_of raw =
    if contains raw (text "BEGIN")
    then raw
    else (text "-----BEGIN PUBLIC KEY-----" ++ (0x0A ∷ wrap_base64 raw))
      ++ (0x0A ∷ text "-----END PUBLIC KEY-----")

pub record KeycloakVerifier (Key : Type 0) : Type 0 where
  pub public_key : Key
  pub issuer : Bytes
  pub audience : Bytes

module _ {Key : Type 0} (read_file : Bytes → Result Bytes Bytes)
    (parse_pem : Bytes → Result Bytes Key) where
  with_key : KeycloakConfig → Result Bytes Key → Result Bytes (KeycloakVerifier Key)
  with_key cfg (err e) = err (text "parse Keycloak RSA public key: " ++ e)
  with_key cfg (ok key) =
      ok (record { public_key = key; issuer = cfg.issuer; audience = cfg.audience })

  with_data : KeycloakConfig → Result Bytes Bytes → Result Bytes (KeycloakVerifier Key)
  unfolding with_key pem_of
  with_data cfg (err e) = err (text "read Keycloak public key: " ++ e)
  with_data cfg (ok raw) =
      if is_empty raw
      then err (text "Keycloak public key is empty")
      else with_key cfg (parse_pem (pem_of raw))

  unfoldable pub new_verifier : KeycloakConfig → Result Bytes (KeycloakVerifier Key)
  unfolding with_data key_data
  new_verifier cfg =
      if is_empty cfg.issuer || is_empty cfg.audience
      then err (text "Keycloak issuer and audience are required")
      else with_data cfg (key_data read_file cfg)
