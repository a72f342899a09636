-- ===== src/Router/Faults.antt =====
-- Where an answer 500 comes from.
use lens_chat_service.Prelude.{
  ℕ, ◌≡◌, ◌≢◌, ◌++◌, List, [], Option, none, some, Result, ok, err, IsIn, true, false, arith, inl,
  inr,
}
use lens_chat_service.GoText.{Bytes, text}
use lens_chat_service.Mongo.{DriverError}
use lens_chat_service.Schema.{ObjectId}
use lens_chat_service.Middleware.{HttpRequest}
use lens_chat_service.Response.{
  Error, Failure, invalid, not_found, forbidden, conflict, driver, other, from_error,
}
use lens_chat_service.Store.{Program, done, call, Answer, Action, PassesOn, call_errors}
use lens_chat_service.Platform.{Platform}
use lens_chat_service.Http.{
  HttpAnswer, ok_answer, fail_answer, Json, respond, responding, needing, page_query,
  max_body_bytes,
}
use lens_chat_service.Message.Events.{Fresh}
use lens_chat_service.Message.Create.{Saved}
use lens_chat_service.Message.Service
use lens_chat_service.Message.Service.Failures as MessageRequests
use lens_chat_service.Channel.Service as ChannelService
use lens_chat_service.Channel.Service.Failures as ChannelRequests
use lens_chat_service.Channel.Controller as Channels
use lens_chat_service.Message.Controller as Messages
use lens_chat_service.Router.{
  PublicRoute, post_channel, get_channels, get_channel, post_message, get_messages, put_read_cursor,
  patch_message, post_recall, WorkerRoute, get_ai_messages, post_ai_reply, Route, public_route,
  worker_route, HttpCall, method_of, Access, ai_worker_auth, principal, passing, public_handler,
  worker_handler, serve_route, serve,
}
use lens_chat_service.Router.Guards.{
  PublicGuard, WorkerGuard, principal-PublicGuard, ai_worker_auth-WorkerGuard,
}

abbrev pub status_of : HttpAnswer → ℕ
status_of (ok_answer status _) = status
status_of (fail_answer f) = f.status

-- An answer 500 is given only if one of `seen` is an error or the driver failed a call.
abbrev pub Explains : List DriverError → Program HttpAnswer → Type 0
Explains seen (done a) = status_of a ≡ 500 → (e : DriverError) × IsIn e seen
Explains seen (call c k) = (r : Answer c) → Explains (call_errors c r ++ seen) (k r)

error-Explains :
    {A : Type 0} (e : Error) (f : A → HttpAnswer) (seen : List DriverError)
    → PassesOn {A = A} seen (done (err e))
    → Explains seen (done (respond f (err e)))
unfolding respond from_error
error-Explains invalid f seen h = λ q. absurd (omega arith)
error-Explains not_found f seen h = λ q. absurd (omega arith)
error-Explains forbidden f seen h = λ q. absurd (omega arith)
error-Explains conflict f seen h = λ q. absurd (omega arith)
error-Explains (driver e) f seen h = λ q. (e, h)
error-Explains (other m) f seen h = absurd h

responding-Explains :
    {A : Type 0} (m : Action A) (f : A → HttpAnswer) (seen : List DriverError)
    → ((a : A) → status_of (f a) ≢ 500)
    → PassesOn seen m
    → Explains seen (responding m f)
unfolding respond
responding-Explains (done (ok a)) f seen fine h = λ q. absurd (fine a q)
responding-Explains (done (err e)) f seen fine h = error-Explains e f seen h
responding-Explains (call c k) f seen fine h =
    λ r. responding-Explains (k r) f (call_errors c r ++ seen) fine (h r)

needing-Explains :
    {A : Type 0} (o : Option A) (k : A → Program HttpAnswer)
    → ((a : A) → Explains [] (k a))
    → Explains [] (needing o k)
unfolding from_error
needing-Explains none k h = λ q. absurd (omega arith)
needing-Explains (some a) k h = h a

abbrev IsFine : {A : Type 0} → Result Failure A → Type 0
IsFine (ok _) = Unit
IsFine (err f) = f.status ≢ 500

passing-Explains :
    {A : Type 0} (r : Result Failure A) (k : A → Program HttpAnswer)
    → IsFine r
    → ((a : A) → Explains [] (k a))
    → Explains [] (passing r k)
passing-Explains (ok a) k fine h = h a
passing-Explains (err f) k fine h = λ q. absurd (fine q)

public-IsFine :
    (access : Access) (req : HttpRequest) (r : Result Failure Bytes)
    → PublicGuard access req r
    → IsFine r
public-IsFine access req (ok user) g = tt
public-IsFine access req (err f) (_, inl (s, _)) = λ q. omega (arith, s, q)
public-IsFine access req (err f) (_, inr (s, _)) = λ q. omega (arith, s, q)

worker-IsFine :
    (token provided : Bytes) (r : Result Failure (Unit {0}))
    → WorkerGuard token provided r
    → IsFine r
worker-IsFine token provided (ok _) g = tt
worker-IsFine token provided (err f) (inl (s, _)) = λ q. omega (arith, s, q)
worker-IsFine token provided (err f) (inr (s, _, _)) = λ q. omega (arith, s, q)

saved_status : (hex : ObjectId → Bytes) (s : Saved) → status_of (Messages.saved_answer hex s) ≢ 500
unfolding Messages.saved_answer
saved_status hex (m, true) = λ q. omega arith
saved_status hex (m, false) = λ q. omega arith

module _ (platform : Platform) (json : Json) (fresh : Fresh) where
  public-Explains :
      (r : PublicRoute) (c : HttpCall) (user : Bytes)
      → Explains [] (public_handler platform json fresh r c user)
  unfolding public_handler Channels.create Channels.list Channels.get Channels.channel_answer
      Channels.channels_answer Messages.create Messages.list Messages.read Messages.edit
      Messages.recall Messages.message_answer Messages.page_answer
  public-Explains post_channel c user =
      needing-Explains (json.create_channel max_body_bytes c.body) _ λ peer.
        responding-Explains (ChannelService.create platform fresh.id fresh.now user peer) _ []
          (λ _ q. omega arith)
          (ChannelRequests.create-IsHonest platform fresh.id fresh.now user peer [])
  public-Explains get_channels c user =
      responding-Explains (ChannelService.list user) _ [] (λ _ q. omega arith)
        (ChannelRequests.list-IsHonest user [])
  public-Explains (get_channel id) c user =
      responding-Explains (ChannelService.get platform user id) _ [] (λ _ q. omega arith)
        (ChannelRequests.get-IsHonest platform user id [])
  public-Explains (post_message id) c user =
      needing-Explains (json.create_message max_body_bytes c.body) _ λ req.
        responding-Explains (Service.create platform fresh user id req) _ []
          (saved_status platform.hex)
          (MessageRequests.create-IsHonest_service platform fresh user id req [])
  public-Explains (get_messages id) c user =
      needing-Explains (page_query (text "20") c.limit c.before_seq) _ λ q.
        responding-Explains (Service.list platform user id q.0 q.1) _ [] (λ _ q. omega arith)
          (MessageRequests.page-IsHonest platform user id q.0 q.1 [])
  public-Explains (put_read_cursor id) c user =
      needing-Explains (json.advance_read_cursor max_body_bytes c.body) _ λ seq.
        responding-Explains (Service.read platform fresh user id seq) _ [] (λ _ q. omega arith)
          (MessageRequests.read-IsHonest_service platform fresh user id seq [])
  public-Explains (patch_message id) c user =
      needing-Explains (json.update_message max_body_bytes c.body) _ λ content.
        responding-Explains (Service.edit platform fresh user id content) _ [] (λ _ q. omega arith)
          (MessageRequests.edit-IsHonest platform fresh user id content [])
  public-Explains (post_recall id) c user =
      responding-Explains (Service.recall platform fresh user id) _ [] (λ _ q. omega arith)
        (MessageRequests.recall-IsHonest platform fresh user id [])

  worker-Explains :
      (r : WorkerRoute) (c : HttpCall) → Explains [] (worker_handler platform json fresh r c)
  unfolding worker_handler Messages.list_for_ai Messages.create_ai_reply Messages.page_answer
  worker-Explains (get_ai_messages id) c =
      needing-Explains (page_query (text "12") c.limit c.before_seq) _ λ q.
        responding-Explains (Service.list_for_ai platform id c.photographer_id q.0 q.1) _ []
          (λ _ q. omega arith)
          (MessageRequests.ai_page-IsHonest platform id c.photographer_id q.0 q.1 [])
  worker-Explains (post_ai_reply id) c =
      needing-Explains (json.create_ai_reply max_body_bytes c.body) _ λ req.
        responding-Explains (Service.create_ai_reply platform fresh id req.photographer_id req) _ []
          (saved_status platform.hex)
          (MessageRequests.create_ai_reply-IsHonest platform fresh id req.photographer_id req [])

  module _ (access : Access) (c : HttpCall) where
    route-Explains : (r : Route) → Explains [] (serve_route platform json fresh access c r)
    unfolding serve_route
    route-Explains (public_route r) =
        passing-Explains (principal access (record c.credentials { method = method_of r })) _
          (public-IsFine access (record c.credentials { method = method_of r }) _
            (principal-PublicGuard access (record c.credentials { method = method_of r })))
          (public-Explains r c)
    route-Explains (worker_route r) =
        passing-Explains (ai_worker_auth access.ai_worker_token c.worker_token) _
          (worker-IsFine access.ai_worker_token c.worker_token _
            (ai_worker_auth-WorkerGuard access.ai_worker_token c.worker_token))
          λ _. worker-Explains r c

    -- Whatever is requested, an answer 500 is given only if the driver answered an error to one of
    -- the calls that the request made.
    pub serve-Explains : Explains [] (serve platform json fresh access c)
    unfolding serve
    serve-Explains = route-Explains c.route
