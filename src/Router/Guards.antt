-- ===== src/Router/Guards.antt =====
-- Who reaches a handler.
use lens_chat_service.Prelude.{
  ◌≡◌, ◌≢◌, refl, ap, ◌⊎◌, inl, inr, Bool, if◌then◌else◌, true, false, not, ◌||◌, ◌==◌, length,
  Result, ok, err, Bool-cases, arith,
}
use lens_chat_service.GoText.{Bytes, str_eq, str_eq_iff, is_blank}
use lens_chat_service.Response.{Failure}
use lens_chat_service.Store.{Program, done}
use lens_chat_service.Platform.{Platform}
use lens_chat_service.Middleware.{HttpRequest, KeycloakClaims, authenticate}
use lens_chat_service.Middleware.Admission.{Admits, IsVouched, IsFromUser, authenticate-Admits}
use lens_chat_service.Http.{HttpAnswer, fail_answer, Json}
use lens_chat_service.Message.Events.{Fresh}
use lens_chat_service.Router.{
  Route, public_route, worker_route, HttpCall, method_of, Access, ai_worker_auth, subject_of,
  principal, passing, public_handler, worker_handler, serve_route, serve,
}

-- A text that is not one of the worker's credentials.
worker_parts :
    (token provided : Bytes)
    → is_blank token ≡ false
    → (not (length provided == length token) || not (str_eq provided token)) ≡ true
    → provided ≢ token
worker_parts token provided b h e =
    let size : length provided ≡ length token = ap length e in
    ground (arith, str_eq_iff provided token, e)

-- The worker's handlers run for the token alone, and for nobody where it is blank.
abbrev pub WorkerGuard : Bytes → Bytes → Result Failure (Unit {0}) → Type 0
WorkerGuard token provided (ok _) = (is_blank token ≡ false) × (provided ≡ token)
WorkerGuard token provided (err f) =
    ((f.status ≡ 503) × (is_blank token ≡ true))
    ⊎ ((f.status ≡ 401) × (is_blank token ≡ false) × (provided ≢ token))

pub ai_worker_auth-WorkerGuard :
    (token provided : Bytes) → WorkerGuard token provided (ai_worker_auth token provided)
unfolding ai_worker_auth
ai_worker_auth-WorkerGuard token provided = elim (Bool-cases (is_blank token)) [
  | inl b ↦ rw b (inl (refl, b))
  | inr b ↦
      elim (Bool-cases (not (length provided == length token) || not (str_eq provided token))) [
        | inl h ↦ rw (b, h) (inr (refl, b, worker_parts token provided b h))
        | inr h ↦ rw (b, h) (b, (str_eq_iff provided token).0 (ground arith))
      ]
]

-- The user's handlers run for the subject of a token that is vouched for; where authentication is
-- off, for the default user.
abbrev pub PublicGuard : Access → HttpRequest → Result Failure Bytes → Type 0
PublicGuard access req (ok user) =
    ((access.auth_disabled ≡ true) × (user ≡ access.default_user_id))
    ⊎ ((access.auth_disabled ≡ false)
        × ((d : KeycloakClaims) × IsFromUser access.parse req
            × IsVouched access.parse req d
            × (user ≡ d.subject)))
PublicGuard access req (err f) =
    (access.auth_disabled ≡ false)
    × (((f.status ≡ 403) × ¬ IsFromUser access.parse req)
        ⊎ ((f.status ≡ 401) × ((d : KeycloakClaims) → ¬ IsVouched access.parse req d)))

subject_of-PublicGuard :
    (access : Access) (req : HttpRequest) (r : Result Failure KeycloakClaims)
    → access.auth_disabled ≡ false
    → Admits access.parse req r
    → PublicGuard access req (subject_of r)
unfolding subject_of
subject_of-PublicGuard access req (ok d) off a = inr (off, (d, a.0, a.1, refl))
subject_of-PublicGuard access req (err f) off a = (off, a)

by_switch :
    (access : Access) (req : HttpRequest) (b : Bool)
    → access.auth_disabled ≡ b
    → PublicGuard access req
        (if b then ok access.default_user_id else subject_of (authenticate access.parse req))
by_switch access req true on = inl (on, refl)
by_switch access req false off =
    subject_of-PublicGuard access req (authenticate access.parse req) off
      (authenticate-Admits access.parse req)

pub principal-PublicGuard :
    (access : Access) (req : HttpRequest) → PublicGuard access req (principal access req)
unfolding principal
principal-PublicGuard access req = by_switch access req access.auth_disabled refl

-- The handler with what the guard let through, or at once the guard's failure.
abbrev pub Guarded :
    {A : Type 0}
    → (Result Failure A → Type 0)
    → (A → Program HttpAnswer)
    → Program HttpAnswer
    → Type 0
Guarded {A} G k m =
    ((a : A) × G (ok a) × (m ≡ k a)) ⊎ ((f : Failure) × G (err f) × (m ≡ done (fail_answer f)))

passing-Guarded :
    {A : Type 0} (G : Result Failure A → Type 0) (k : A → Program HttpAnswer) (r : Result Failure A)
    → G r
    → Guarded G k (passing r k)
passing-Guarded G k (ok a) g = inl (a, g, refl)
passing-Guarded G k (err f) g = inr (f, g, refl)

module _ (platform : Platform) (json : Json) (fresh : Fresh) (access : Access) (c : HttpCall) where
  abbrev pub Guards : Route → Program HttpAnswer → Type 0
  Guards (public_route r) m =
      Guarded (PublicGuard access (record c.credentials { method = method_of r }))
        (public_handler platform json fresh r c) m
  Guards (worker_route r) m =
      Guarded (WorkerGuard access.ai_worker_token c.worker_token)
        (λ _. worker_handler platform json fresh r c) m

  route-Guards : (r : Route) → Guards r (serve_route platform json fresh access c r)
  unfolding serve_route
  route-Guards (public_route r) =
      passing-Guarded (PublicGuard access (record c.credentials { method = method_of r })) _ _
        (principal-PublicGuard access (record c.credentials { method = method_of r }))
  route-Guards (worker_route r) =
      passing-Guarded (WorkerGuard access.ai_worker_token c.worker_token) _ _
        (ai_worker_auth-WorkerGuard access.ai_worker_token c.worker_token)

  -- Every request either reaches the handler of its route or is failed before the database is
  -- called at all. On a public route the handler runs under the subject of a token that the
  -- verifier vouches for, of a request that no other site can have made, or, where authentication
  -- is disabled, under the default user; it is failed with 403 or 401 only where there is no such
  -- token or request. On a worker route the handler runs only where the header repeats the
  -- configured token, which is not blank; the failure is 503 where that token is blank, and 401
  -- where the header differs from it.
  pub serve-Guards : Guards c.route (serve platform json fresh access c)
  unfolding serve
  serve-Guards = route-Guards c.route
