-- ===== src/Tests/Requests.antt =====
-- Requests that are let in, and that are not.
use lens_chat_service.Prelude.{◌≡◌, refl, Option, none, some, if◌then◌else◌}
use lens_chat_service.GoText.{Bytes, text, str_eq, fields, equal_fold}
use lens_chat_service.Middleware.{HttpRequest, KeycloakClaims, bearer_token, authenticate}
use lens_chat_service.Middleware.Admission.{Admits, authenticate-Admits}

abbrev pub claims : KeycloakClaims
claims = record { token_type = text "Bearer"; subject = text "ada"; expires_at = 900 }

-- One token is valid.
abbrev pub parse : Bytes → Option KeycloakClaims
parse token = if str_eq token (text "t1") then some claims else none

abbrev pub by_header : HttpRequest
by_header = record {
  method = text "POST";
  authorization = text " bearer  t1";
  token_cookie = text "";
  csrf_cookie = text "";
  csrf_header = text "";
}

token_of_header : bearer_token by_header.authorization ≡ text "t1"
unfolding bearer_token fields equal_fold str_eq
token_of_header = refl

authenticate-Admits_example : Admits parse by_header (authenticate parse by_header)
authenticate-Admits_example = authenticate-Admits parse by_header
