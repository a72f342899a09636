-- ===== src/Middleware/Admission.antt =====
-- Which requests are let in.
use lens_chat_service.Prelude.{
  ◌≡◌, ◌≢◌, refl, ap, ◌∙◌, ◌⊎◌, inl, inr, true, false, not, ◌&&◌, ◌||◌, Option, none, some, Result,
  ok, err, Bool-cases, arith, length, [],
}
use lens_chat_service.GoText.{Bytes, text, str_eq, str_eq_iff, is_blank}
use lens_chat_service.Response.{Failure}
use lens_chat_service.Middleware.{
  HttpRequest, KeycloakClaims, is_safe_method, matches_csrf_token, bearer_token, accepted_claims,
  verify, admit_claims, raw_token, is_by_cookie, authenticate,
}

matches_parts :
    (cookie header : Bytes)
    → matches_csrf_token cookie header ≡ true
    → (cookie ≡ header) × (cookie ≢ [])
unfolding matches_csrf_token
matches_parts cookie header h =
    (ground (arith, str_eq_iff cookie header), λ e. ground (arith, str_eq_iff cookie [], e))

module _ (parse : Bytes → Option KeycloakClaims) (req : HttpRequest) where
  -- The request cannot have been made by another site in the user's name.
  abbrev pub IsFromUser : Type 0
  IsFromUser =
      (bearer_token req.authorization ≢ [])
      ⊎ ((req.token_cookie ≡ [])
          ⊎ ((is_safe_method req.method ≡ true)
              ⊎ ((req.csrf_cookie ≡ req.csrf_header) × (req.csrf_cookie ≢ []))))

  abbrev pub IsVouched : KeycloakClaims → Type 0
  IsVouched c =
      (parse (raw_token req) ≡ some c)
      × (is_blank c.subject ≡ false)
      × (c.token_type ≡ text "Bearer")

  abbrev pub Admits : Result Failure KeycloakClaims → Type 0
  Admits (ok c) = IsFromUser × IsVouched c
  Admits (err f) =
      ((f.status ≡ 403) × ¬ IsFromUser)
      ⊎ ((f.status ≡ 401) × ((c : KeycloakClaims) → ¬ IsVouched c))

  from_user :
      is_by_cookie req
          && (not (is_safe_method req.method)
              && not (matches_csrf_token req.csrf_cookie req.csrf_header))
        ≡ false
      → IsFromUser
  unfolding is_by_cookie
  from_user h = elim (Bool-cases (str_eq (bearer_token req.authorization) [])) [
    | inr e ↦ inl (λ q. cc ((str_eq_iff (bearer_token req.authorization) []).1 q, e))
    | inl e ↦ elim (Bool-cases (matches_csrf_token req.csrf_cookie req.csrf_header)) [
      | inl m ↦ inr (inr (inr (matches_parts req.csrf_cookie req.csrf_header m)))
      | inr m ↦ inr (ground (arith, str_eq_iff req.token_cookie []))
    ]
  ]

  matches_of :
      req.csrf_cookie ≡ req.csrf_header
      → req.csrf_cookie ≢ []
      → matches_csrf_token req.csrf_cookie req.csrf_header ≡ true
  unfolding matches_csrf_token
  matches_of e n =
      let size : length req.csrf_cookie ≡ length req.csrf_header = ap length e in
      ground (
        arith,
        str_eq_iff req.csrf_cookie [],
        str_eq_iff req.csrf_header [],
        str_eq_iff req.csrf_cookie req.csrf_header,
      )

  not_from_user :
      is_by_cookie req
          && (not (is_safe_method req.method)
              && not (matches_csrf_token req.csrf_cookie req.csrf_header))
        ≡ true
      → ¬ IsFromUser
  unfolding is_by_cookie
  not_from_user h u = elim u [
    | inl b ↦ ground (arith, str_eq_iff (bearer_token req.authorization) [], b)
    | inr (inl t) ↦ ground (arith, str_eq_iff req.token_cookie [], t)
    | inr (inr (inl s)) ↦ ground (arith, s)
    | inr (inr (inr (e, n))) ↦ let m = matches_of e n in ground (arith, m)
  ]

  claims_lem :
      (o : Option KeycloakClaims)
      → parse (raw_token req) ≡ o
      → IsFromUser
      → Admits (admit_claims (accepted_claims o))
  unfolding admit_claims accepted_claims
  claims_lem none e u = inr (refl, λ c v. cc (v.0, e))
  claims_lem (some c) e u =
      elim (Bool-cases (is_blank c.subject || not (str_eq c.token_type (text "Bearer")))) [
        | inl h ↦ rw h (inr (refl, λ d v. refused d v h))
        | inr h ↦
            rw h (u, (e, ground arith, (str_eq_iff c.token_type (text "Bearer")).0 (ground arith)))
      ]
    where
      refused :
          (d : KeycloakClaims)
          → IsVouched d
          → (is_blank c.subject || not (str_eq c.token_type (text "Bearer"))) ≡ true
          → ⊥
      refused d v h =
          let same : c ≡ d = ground (arith, e, v.0) in
          let blank : is_blank c.subject ≡ false =
            ap (λ (x : KeycloakClaims). is_blank x.subject) same ∙ v.1 in
          let kind : str_eq c.token_type (text "Bearer") ≡ true =
            (str_eq_iff c.token_type (text "Bearer")).1
              (ap (λ (x : KeycloakClaims). x.token_type) same ∙ v.2) in
          ground (arith, blank, kind)

  -- A request is let in only with a bearer token that the verifier vouches for and that has a
  -- subject, and then under the claims of that token; and if the token came in a cookie, only if
  -- the method is safe or the CSRF header repeats the CSRF cookie, which is not empty. It is
  -- answered 403 only where that last condition fails, and 401 only where no such token is there.
  pub authenticate-Admits : Admits (authenticate parse req)
  unfolding authenticate verify
  authenticate-Admits =
      elim (Bool-cases (
        is_by_cookie req
        && (not (is_safe_method req.method)
            && not (matches_csrf_token req.csrf_cookie req.csrf_header)))) [
              | inl h ↦ rw h (inl (refl, not_from_user h))
              | inr h ↦ rw h (claims_lem (parse (raw_token req)) refl (from_user h))
            ]
