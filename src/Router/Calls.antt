-- ===== src/Router/Calls.antt =====
-- How many calls of the driver a request makes.
use lens_chat_service.Prelude.{ℕ, Option, none, some, Result, ok, err}
use lens_chat_service.GoText.{Bytes, text}
use lens_chat_service.Response.{Failure}
use lens_chat_service.Store.{Program, AtMost, AtMost-map}
use lens_chat_service.Platform.{Platform}
use lens_chat_service.Http.{HttpAnswer, Json, respond, needing, page_query, max_body_bytes}
use lens_chat_service.Message.Events.{Fresh}
use lens_chat_service.Message.Service
use lens_chat_service.Message.Service.Calls as MessageCalls
use lens_chat_service.Channel.Service as ChannelService
use lens_chat_service.Channel.Service.Calls as ChannelCalls
use lens_chat_service.Channel.Controller as Channels
use lens_chat_service.Message.Controller as Messages
use lens_chat_service.Router.{
  PublicRoute, post_channel, get_channels, get_channel, post_message, get_messages, put_read_cursor,
  patch_message, post_recall, WorkerRoute, get_ai_messages, post_ai_reply, Route, public_route,
  worker_route, HttpCall, method_of, Access, ai_worker_auth, principal, passing, public_handler,
  worker_handler, serve_route, serve,
}

-- The most calls that a request on the route makes. A message is tried 64 times at most.
abbrev pub calls_of : Route → ℕ
calls_of (public_route post_channel) = 2
calls_of (public_route get_channels) = 1
calls_of (public_route (get_channel _)) = 1
calls_of (public_route (post_message _)) = 261
calls_of (public_route (get_messages _)) = 2
calls_of (public_route (put_read_cursor _)) = 5
calls_of (public_route (patch_message _)) = 5
calls_of (public_route (post_recall _)) = 5
calls_of (worker_route (get_ai_messages _)) = 2
calls_of (worker_route (post_ai_reply _)) = 261

needing-AtMost :
    {A : Type 0} (o : Option A) (k : A → Program HttpAnswer) (n : ℕ)
    → ((a : A) → AtMost n (k a))
    → AtMost n (needing o k)
needing-AtMost none k n h = tt
needing-AtMost (some a) k n h = h a

passing-AtMost :
    {A : Type 0} (r : Result Failure A) (k : A → Program HttpAnswer) (n : ℕ)
    → ((a : A) → AtMost n (k a))
    → AtMost n (passing r k)
passing-AtMost (ok a) k n h = h a
passing-AtMost (err f) k n h = tt

module _ (platform : Platform) (json : Json) (fresh : Fresh) (c : HttpCall) where
  public-AtMost :
      (r : PublicRoute) (user : Bytes)
      → AtMost (calls_of (public_route r)) (public_handler platform json fresh r c user)
  unfolding public_handler Channels.create Channels.list Channels.get Messages.create Messages.list
      Messages.read Messages.edit Messages.recall
  public-AtMost post_channel user =
      needing-AtMost (json.create_channel max_body_bytes c.body) _ _ λ a.
        AtMost-map (ChannelService.create platform fresh.id fresh.now user a) (respond _) _
          (ChannelCalls.create-AtMost platform fresh.id fresh.now user a)
  public-AtMost get_channels user =
      AtMost-map (ChannelService.list user) (respond _) _ (ChannelCalls.list-AtMost user)
  public-AtMost (get_channel id) user =
      AtMost-map (ChannelService.get platform user id) (respond _) _
        (ChannelCalls.get-AtMost platform user id)
  public-AtMost (post_message id) user =
      needing-AtMost (json.create_message max_body_bytes c.body) _ _ λ a.
        AtMost-map (Service.create platform fresh user id a) (respond _) _
          (MessageCalls.create-AtMost_service platform fresh user id a)
  public-AtMost (get_messages id) user =
      needing-AtMost (page_query (text "20") c.limit c.before_seq) _ _ λ a.
        AtMost-map (Service.list platform user id a.0 a.1) (respond _) _
          (MessageCalls.page-AtMost platform user id a.0 a.1)
  public-AtMost (put_read_cursor id) user =
      needing-AtMost (json.advance_read_cursor max_body_bytes c.body) _ _ λ a.
        AtMost-map (Service.read platform fresh user id a) (respond _) _
          (MessageCalls.read-AtMost_service platform fresh user id a)
  public-AtMost (patch_message id) user =
      needing-AtMost (json.update_message max_body_bytes c.body) _ _ λ a.
        AtMost-map (Service.edit platform fresh user id a) (respond _) _
          (MessageCalls.edit-AtMost platform fresh user id a)
  public-AtMost (post_recall id) user =
      AtMost-map (Service.recall platform fresh user id) (respond _) _
        (MessageCalls.recall-AtMost platform fresh user id)

  worker-AtMost :
      (r : WorkerRoute)
      → AtMost (calls_of (worker_route r)) (worker_handler platform json fresh r c)
  unfolding worker_handler Messages.list_for_ai Messages.create_ai_reply
  worker-AtMost (get_ai_messages id) =
      needing-AtMost (page_query (text "12") c.limit c.before_seq) _ _ λ a.
        AtMost-map (Service.list_for_ai platform id c.photographer_id a.0 a.1) (respond _) _
          (MessageCalls.ai_page-AtMost platform id c.photographer_id a.0 a.1)
  worker-AtMost (post_ai_reply id) =
      needing-AtMost (json.create_ai_reply max_body_bytes c.body) _ _ λ a.
        AtMost-map (Service.create_ai_reply platform fresh id a.photographer_id a) (respond _) _
          (MessageCalls.create_ai_reply-AtMost platform fresh id a.photographer_id a)

  module _ (access : Access) where
    route-AtMost : (r : Route) → AtMost (calls_of r) (serve_route platform json fresh access c r)
    unfolding serve_route
    route-AtMost (public_route r) =
        passing-AtMost (principal access (record c.credentials { method = method_of r })) _
          (calls_of (public_route r)) (public-AtMost r)
    route-AtMost (worker_route r) =
        passing-AtMost (ai_worker_auth access.ai_worker_token c.worker_token) _
          (calls_of (worker_route r)) λ _. worker-AtMost r

    -- Every request ends, whatever the driver answers and whatever others write meanwhile: after at
    -- most 261 calls of the driver where it creates a message, 5 where it edits or recalls one or
    -- moves a read cursor, and 2 otherwise.
    pub serve-AtMost : AtMost (calls_of c.route) (serve platform json fresh access c)
    unfolding serve
    serve-AtMost = route-AtMost c.route
