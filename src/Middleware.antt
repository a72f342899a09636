-- ===== src/Middleware.antt =====
-- internal/middleware/keycloak.middleware.go: who a request comes from. Reading a token, which checks
-- its signature, issuer, audience and expiry, is that of the package `jwt` and is a parameter.
pub mod Admission
pub mod Verifier
use lens_chat_service.Prelude.{
  Bool, true, false, not, ◌&&◌, ◌||◌, Option, none, some, List, [], ◌∷◌, Result, ok, err, ◌==◌,
  if◌then◌else◌, length,
}
use lens_chat_service.GoText.{Bytes, text, str_eq, is_blank, fields, equal_fold}
use lens_chat_service.Schema.{Time}
use lens_chat_service.Response.{Failure, failure}

-- What the middleware reads of a request; a header or a cookie that is not there is empty.
pub record HttpRequest : Type 0 where
  pub method : Bytes
  pub authorization : Bytes
  pub token_cookie : Bytes
  pub csrf_cookie : Bytes
  pub csrf_header : Bytes

pub record KeycloakClaims : Type 0 where
  pub token_type : Bytes
  pub subject : Bytes
  pub expires_at : Time

unfoldable pub is_safe_method : Bytes → Bool
is_safe_method method =
    str_eq method (text "GET") || (str_eq method (text "HEAD") || str_eq method (text "OPTIONS"))

unfoldable pub matches_csrf_token : Bytes → Bytes → Bool
matches_csrf_token cookie header =
    if str_eq cookie (text "") || (str_eq header (text "") || not (length cookie == length header))
    then false
    else str_eq cookie header

bearer_of : List Bytes → Bytes
bearer_of (scheme ∷ token ∷ []) = if equal_fold scheme (text "Bearer") then token else text ""
bearer_of [] = text ""
bearer_of (_ ∷ []) = text ""
bearer_of (_ ∷ _ ∷ _ ∷ _) = text ""

unfoldable pub bearer_token : Bytes → Bytes
unfolding bearer_of
bearer_token header = bearer_of (fields header)

unfoldable pub accepted_claims : Option KeycloakClaims → Option KeycloakClaims
accepted_claims none = none
accepted_claims (some c) =
    if is_blank c.subject || not (str_eq c.token_type (text "Bearer")) then none else some c

admit_claims : Option KeycloakClaims → Result Failure KeycloakClaims
admit_claims none =
    err (failure 401 (text "UNAUTHORIZED") (text "access token is missing or invalid"))
admit_claims (some c) = ok c

-- The token comes from the header, else from the cookie.
unfoldable pub raw_token : HttpRequest → Bytes
raw_token req =
    let bearer = bearer_token req.authorization in
    if str_eq bearer (text "") then req.token_cookie else bearer

unfoldable pub is_by_cookie : HttpRequest → Bool
is_by_cookie req =
    str_eq (bearer_token req.authorization) (text "") && not (str_eq req.token_cookie (text ""))

-- `jwt.ParseWithClaims` with the options of the verifier: the claims of a valid token.
module _ (parse : Bytes → Option KeycloakClaims) where
  unfoldable pub verify : Bytes → Option KeycloakClaims
  unfolding accepted_claims
  verify raw = accepted_claims (parse raw)

  -- The claims that the handlers see, or the answer that ends the request.
  unfoldable pub authenticate : HttpRequest → Result Failure KeycloakClaims
  unfolding admit_claims
  authenticate req =
      if is_by_cookie req
        && (not (is_safe_method req.method)
            && not (matches_csrf_token req.csrf_cookie req.csrf_header))
      then err (failure 403 (text "FORBIDDEN") (text "CSRF token required"))
      else admit_claims (verify (raw_token req))
