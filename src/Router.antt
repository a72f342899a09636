-- ===== src/Router.antt =====
-- internal/router: the routes and what stands before them.
pub mod Guards
pub mod Shown
pub mod Faults
pub mod Interleaved
pub mod Calls
use lens_chat_service.Prelude.{
  Bool, true, false, not, ◌||◌, Option, Result, ok, err, if◌then◌else◌, length, ◌==◌,
}
use lens_chat_service.GoText.{Bytes, text, str_eq, is_blank}
use lens_chat_service.Response.{Failure, failure}
use lens_chat_service.Store.{Program, done}
use lens_chat_service.Platform.{Platform}
use lens_chat_service.Middleware.{HttpRequest, KeycloakClaims, authenticate}
use lens_chat_service.Http.{HttpAnswer, fail_answer, Json}
use lens_chat_service.Message.Events.{Fresh}
use lens_chat_service.Message.Controller as Messages
use lens_chat_service.Channel.Controller as Channels

-- The routes under /api/v1/chat.
pub data PublicRoute : Type 0 where
  post_channel get_channels : PublicRoute
  get_channel post_message get_messages put_read_cursor : Bytes → PublicRoute
  patch_message post_recall : Bytes → PublicRoute

-- The routes under /internal/v1/chat.
pub data WorkerRoute : Type 0 where
  get_ai_messages post_ai_reply : Bytes → WorkerRoute

pub data Route : Type 0 where
  public_route : PublicRoute → Route
  worker_route : WorkerRoute → Route

-- A request for one of the routes: the query parameters, what the middleware reads, the header
-- `X-AI-Worker-Token`, and the body.
pub record HttpCall : Type 0 where
  pub route : Route
  pub credentials : HttpRequest
  pub worker_token : Bytes
  pub limit : Option Bytes
  pub before_seq : Option Bytes
  pub photographer_id : Bytes
  pub body : Bytes

unfoldable pub method_of : PublicRoute → Bytes
method_of post_channel = text "POST"
method_of get_channels = text "GET"
method_of (get_channel _) = text "GET"
method_of (post_message _) = text "POST"
method_of (get_messages _) = text "GET"
method_of (put_read_cursor _) = text "PUT"
method_of (patch_message _) = text "PATCH"
method_of (post_recall _) = text "POST"

-- What the router is made with, but for the controllers.
pub record Access : Type 0 where
  pub auth_disabled : Bool
  pub default_user_id : Bytes
  pub ai_worker_token : Bytes
  pub parse : Bytes → Option KeycloakClaims

-- `aiWorkerAuth`
unfoldable pub ai_worker_auth : Bytes → Bytes → Result Failure (Unit {0})
ai_worker_auth token provided =
    if is_blank token
    then err
        (failure 503 (text "AI_WORKER_DISABLED") (text "AI worker integration is not configured"))
    else if not (length provided == length token) || not (str_eq provided token)
    then err (failure 401 (text "UNAUTHORIZED") (text "service credential is missing or invalid"))
    else ok tt

subject_of : Result Failure KeycloakClaims → Result Failure Bytes
subject_of (ok c) = ok c.subject
subject_of (err f) = err f

-- Who a request to a public route comes from.
unfoldable pub principal : Access → HttpRequest → Result Failure Bytes
unfolding subject_of
principal access req =
    if access.auth_disabled
    then ok access.default_user_id
    else subject_of (authenticate access.parse req)

abbrev pub passing : {A : Type 0} → Result Failure A → (A → Program HttpAnswer) → Program HttpAnswer
passing (ok a) k = k a
passing (err f) k = done (fail_answer f)

module _ (platform : Platform) (json : Json) (fresh : Fresh) where
  -- The routes of the group and their handlers.
  unfoldable pub public_handler : PublicRoute → HttpCall → Bytes → Program HttpAnswer
  public_handler post_channel c user = Channels.create platform json fresh.id fresh.now user c.body
  public_handler get_channels c user = Channels.list platform user
  public_handler (get_channel id) c user = Channels.get platform user id
  public_handler (post_message id) c user = Messages.create platform json fresh user id c.body
  public_handler (get_messages id) c user = Messages.list platform user id c.limit c.before_seq
  public_handler (put_read_cursor id) c user = Messages.read platform json fresh user id c.body
  public_handler (patch_message id) c user = Messages.edit platform json fresh user id c.body
  public_handler (post_recall id) c user = Messages.recall platform json fresh user id

  unfoldable pub worker_handler : WorkerRoute → HttpCall → Program HttpAnswer
  worker_handler (get_ai_messages id) c =
      Messages.list_for_ai platform id c.photographer_id c.limit c.before_seq
  worker_handler (post_ai_reply id) c = Messages.create_ai_reply platform json fresh id c.body

  unfoldable pub serve_route : Access → HttpCall → Route → Program HttpAnswer
  unfolding public_handler worker_handler
  serve_route access c (public_route r) =
      passing (principal access (record c.credentials { method = method_of r }))
        (public_handler r c)
  serve_route access c (worker_route r) =
      passing (ai_worker_auth access.ai_worker_token c.worker_token) λ _. worker_handler r c

  unfoldable pub serve : Access → HttpCall → Program HttpAnswer
  unfolding serve_route
  serve access c = serve_route access c c.route
