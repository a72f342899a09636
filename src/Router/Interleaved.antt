-- ===== src/Router/Interleaved.antt =====
-- Requests next to each other and to relays, from the routes on.
use lens_chat_service.Prelude.{Option, none, some, Result, ok, err}
use lens_chat_service.GoText.{Bytes}
use lens_chat_service.Response.{Failure}
use lens_chat_service.Store.{View, Program, Action, done}
use lens_chat_service.History.{Abides, Abides-and_then}
use lens_chat_service.Platform.{Platform}
use lens_chat_service.Http.{HttpAnswer, Json, respond, responding, needing}
use lens_chat_service.Message.Events.{Fresh}
use lens_chat_service.Channel.Service.Interleaved as ChannelRequests
use lens_chat_service.Message.Service.Interleaved as MessageRequests
use lens_chat_service.Channel.Controller as Channels
use lens_chat_service.Message.Controller as Messages
use lens_chat_service.Router.{
  PublicRoute, post_channel, get_channels, get_channel, post_message, get_messages, put_read_cursor,
  patch_message, post_recall, WorkerRoute, get_ai_messages, post_ai_reply, Route, public_route,
  worker_route, HttpCall, Access, passing, public_handler, worker_handler, serve_route, serve,
}

module _ (platform : Platform) (v : View) where
  responding-Abides :
      {A : Type 0} (m : Action A) (f : A → HttpAnswer)
      → Abides platform.hex v m
      → Abides platform.hex v (responding m f)
  responding-Abides m f h = Abides-and_then platform.hex m (λ r. done (respond f r)) v h λ r w e. tt

  needing-Abides :
      {A : Type 0} (o : Option A) (k : A → Program HttpAnswer)
      → ((a : A) → Abides platform.hex v (k a))
      → Abides platform.hex v (needing o k)
  needing-Abides none k h = tt
  needing-Abides (some a) k h = h a

  passing-Abides :
      {A : Type 0} (r : Result Failure A) (k : A → Program HttpAnswer)
      → ((a : A) → Abides platform.hex v (k a))
      → Abides platform.hex v (passing r k)
  passing-Abides (ok a) k h = h a
  passing-Abides (err f) k h = tt

  module _ (json : Json) (fresh : Fresh) where
    public-Abides :
        (r : PublicRoute) (c : HttpCall) (user : Bytes)
        → Abides platform.hex v (public_handler platform json fresh r c user)
    unfolding public_handler Channels.create Channels.list Channels.get Messages.create
        Messages.list Messages.read Messages.edit Messages.recall
    public-Abides post_channel c user = needing-Abides _ _ λ peer.
        responding-Abides _ _
          (ChannelRequests.create-Abides platform fresh.id fresh.now user peer v)
    public-Abides get_channels c user =
        responding-Abides _ _ (ChannelRequests.list-Abides platform.hex user v)
    public-Abides (get_channel id) c user =
        responding-Abides _ _ (ChannelRequests.get-Abides platform user id v)
    public-Abides (post_message id) c user = needing-Abides _ _ λ req.
        responding-Abides _ _ (MessageRequests.create-Abides_service platform fresh user id req v)
    public-Abides (get_messages id) c user =
        needing-Abides _ _
          λ q. responding-Abides _ _ (MessageRequests.list-Abides platform user id q.0 q.1 v)
    public-Abides (put_read_cursor id) c user = needing-Abides _ _ λ seq.
        responding-Abides _ _ (MessageRequests.read-Abides_service platform fresh user id seq v)
    public-Abides (patch_message id) c user = needing-Abides _ _ λ content.
        responding-Abides _ _ (MessageRequests.edit-Abides platform fresh user id content v)
    public-Abides (post_recall id) c user =
        responding-Abides _ _ (MessageRequests.recall-Abides platform fresh user id v)

    worker-Abides :
        (r : WorkerRoute) (c : HttpCall)
        → Abides platform.hex v (worker_handler platform json fresh r c)
    unfolding worker_handler Messages.list_for_ai Messages.create_ai_reply
    worker-Abides (get_ai_messages id) c = needing-Abides _ _ λ q.
        responding-Abides _ _
          (MessageRequests.list_for_ai-Abides platform id c.photographer_id q.0 q.1 v)
    worker-Abides (post_ai_reply id) c = needing-Abides _ _ λ req.
        responding-Abides _ _
          (MessageRequests.create_ai_reply-Abides platform fresh id req.photographer_id req v)

    route-Abides :
        (access : Access) (c : HttpCall) (r : Route)
        → Abides platform.hex v (serve_route platform json fresh access c r)
    unfolding serve_route
    route-Abides access c (public_route r) = passing-Abides _ _ (public-Abides r c)
    route-Abides access c (worker_route r) = passing-Abides _ _ λ _. worker-Abides r c

    pub serve-Abides :
        (access : Access) (c : HttpCall)
        → Abides platform.hex v (serve platform json fresh access c)
    unfolding serve
    serve-Abides access c = route-Abides access c c.route
