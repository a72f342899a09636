-- ===== src/Router/Shown.antt =====
-- What the answers show of messages that are recalled.
use lens_chat_service.Prelude.{
  ◌≡◌, refl, ◌⊎◌, inl, inr, Option, none, some, List, [], ◌∷◌, map, Result, ok, err, IsIn, subst,
  sym,
}
use lens_chat_service.GoText.{Bytes, text}
use lens_chat_service.Schema.{ObjectId, Time, Message}
use lens_chat_service.Response.{Error, Failure}
use lens_chat_service.Store.{Program, done, call, Call, Answer, Action}
use lens_chat_service.Platform.{Platform}
use lens_chat_service.Mapper.{MessageResponse, message_response}
use lens_chat_service.Http.{
  HttpAnswer, ok_answer, fail_answer, one_message, all_messages, one_channel, all_channels,
  read_position, Json, respond, responding, needing, page_query, max_body_bytes,
}
use lens_chat_service.Message.Events.{Fresh}
use lens_chat_service.Message.Create.{Saved}
use lens_chat_service.Message.Service
use lens_chat_service.Channel.Service as ChannelService
use lens_chat_service.Channel.Controller as Channels
use lens_chat_service.Message.Controller as Messages
use lens_chat_service.Router.{
  PublicRoute, post_channel, get_channels, get_channel, post_message, get_messages, put_read_cursor,
  patch_message, post_recall, WorkerRoute, get_ai_messages, post_ai_reply, Route, public_route,
  worker_route, HttpCall, method_of, Access, ai_worker_auth, principal, passing, public_handler,
  worker_handler, serve_route, serve,
}

abbrev pub IsHidden : MessageResponse → Type 0
IsHidden m = (m.recalled_at ≡ none) ⊎ (m.content ≡ [])

abbrev pub Hides : HttpAnswer → Type 0
Hides (ok_answer status (one_message m)) = IsHidden m
Hides (ok_answer status (all_messages ms)) = (m : MessageResponse) → IsIn m ms → IsHidden m
Hides (ok_answer status (one_channel _)) = Unit
Hides (ok_answer status (all_channels _)) = Unit
Hides (ok_answer status (read_position _)) = Unit
Hides (fail_answer _) = Unit

-- `P` holds of the answer, whatever the driver answers.
pub data Concludes (P : HttpAnswer → Type 0) : Program HttpAnswer → Type 0 where
  at_end : (a : HttpAnswer) → P a → Concludes P (done a)
  for_all :
      (c : Call) (k : Answer c → Program HttpAnswer)
      → ((r : Answer c) → Concludes P (k r))
      → Concludes P (call c k)

module _ (P : HttpAnswer → Type 0) (failing : (f : Failure) → P (fail_answer f)) where
  respond-Concludes :
      {A : Type 0} (f : A → HttpAnswer) (r : Result Error A) → ((a : A) → P (f a)) → P (respond f r)
  unfolding respond
  respond-Concludes f (ok a) h = h a
  respond-Concludes f (err e) h = failing _

  responding-Concludes :
      {A : Type 0} (m : Action A) (f : A → HttpAnswer)
      → ((a : A) → P (f a))
      → Concludes P (responding m f)
  responding-Concludes (done r) f h = at_end (respond f r) (respond-Concludes f r h)
  responding-Concludes (call c k) f h = for_all c _ λ r. responding-Concludes (k r) f h

  needing-Concludes :
      {A : Type 0} (o : Option A) (k : A → Program HttpAnswer)
      → ((a : A) → Concludes P (k a))
      → Concludes P (needing o k)
  needing-Concludes none k h = at_end _ (failing _)
  needing-Concludes (some a) k h = h a

  passing-Concludes :
      {A : Type 0} (r : Result Failure A) (k : A → Program HttpAnswer)
      → ((a : A) → Concludes P (k a))
      → Concludes P (passing r k)
  passing-Concludes (ok a) k h = h a
  passing-Concludes (err f) k h = at_end _ (failing f)

module _ (hex : ObjectId → Bytes) where
  by_recall :
      (m : Message) (o : Option Time) → m.recalled_at ≡ o → IsHidden (message_response hex m)
  unfolding message_response
  by_recall m none e = inl e
  by_recall m (some t) e = inr (rw e refl)

  message_response-IsHidden : (m : Message) → IsHidden (message_response hex m)
  message_response-IsHidden m = by_recall m m.recalled_at refl

  map-IsHidden :
      (ms : List Message) (r : MessageResponse)
      → IsIn r (map (message_response hex) ms)
      → IsHidden r
  map-IsHidden [] r i = absurd i
  map-IsHidden (m ∷ ms) r (inl e) = subst IsHidden (sym e) (message_response-IsHidden m)
  map-IsHidden (m ∷ ms) r (inr i) = map-IsHidden ms r i

  saved-Hides : (s : Saved) → Hides (Messages.saved_answer hex s)
  unfolding Messages.saved_answer
  saved-Hides s = message_response-IsHidden s.0

  message-Hides : (m : Message) → Hides (Messages.message_answer hex m)
  unfolding Messages.message_answer
  message-Hides m = message_response-IsHidden m

  page-Hides : (ms : List Message) → Hides (Messages.page_answer hex ms)
  unfolding Messages.page_answer
  page-Hides ms = map-IsHidden ms

module _ (platform : Platform) (json : Json) (fresh : Fresh) where
  plain : (f : Failure) → Hides (fail_answer f)
  plain f = tt

  public-Hides :
      (r : PublicRoute) (c : HttpCall) (user : Bytes)
      → Concludes Hides (public_handler platform json fresh r c user)
  unfolding public_handler Channels.create Channels.list Channels.get Channels.channel_answer
      Channels.channels_answer Messages.create Messages.list Messages.read Messages.edit
      Messages.recall
  public-Hides post_channel c user =
      needing-Concludes Hides plain (json.create_channel max_body_bytes c.body) _ λ peer.
        responding-Concludes Hides plain
          (ChannelService.create platform fresh.id fresh.now user peer) _ λ ch. tt
  public-Hides get_channels c user =
      responding-Concludes Hides plain (ChannelService.list user) _ λ chs. tt
  public-Hides (get_channel id) c user =
      responding-Concludes Hides plain (ChannelService.get platform user id) _ λ ch. tt
  public-Hides (post_message id) c user =
      needing-Concludes Hides plain (json.create_message max_body_bytes c.body) _ λ req.
        responding-Concludes Hides plain (Service.create platform fresh user id req) _
          (saved-Hides platform.hex)
  public-Hides (get_messages id) c user =
      needing-Concludes Hides plain (page_query (text "20") c.limit c.before_seq) _ λ q.
        responding-Concludes Hides plain (Service.list platform user id q.0 q.1) _
          (page-Hides platform.hex)
  public-Hides (put_read_cursor id) c user =
      needing-Concludes Hides plain (json.advance_read_cursor max_body_bytes c.body) _
        λ seq. responding-Concludes Hides plain (Service.read platform fresh user id seq) _ λ at. tt
  public-Hides (patch_message id) c user =
      needing-Concludes Hides plain (json.update_message max_body_bytes c.body) _ λ content.
        responding-Concludes Hides plain (Service.edit platform fresh user id content) _
          (message-Hides platform.hex)
  public-Hides (post_recall id) c user =
      responding-Concludes Hides plain (Service.recall platform fresh user id) _
        (message-Hides platform.hex)

  worker-Hides :
      (r : WorkerRoute) (c : HttpCall) → Concludes Hides (worker_handler platform json fresh r c)
  unfolding worker_handler Messages.list_for_ai Messages.create_ai_reply
  worker-Hides (get_ai_messages id) c =
      needing-Concludes Hides plain (page_query (text "12") c.limit c.before_seq) _ λ q.
        responding-Concludes Hides plain (Service.list_for_ai platform id c.photographer_id q.0 q.1)
          _ (page-Hides platform.hex)
  worker-Hides (post_ai_reply id) c =
      needing-Concludes Hides plain (json.create_ai_reply max_body_bytes c.body) _ λ req.
        responding-Concludes Hides plain
          (Service.create_ai_reply platform fresh id req.photographer_id req) _
          (saved-Hides platform.hex)

  route-Hides :
      (access : Access) (c : HttpCall) (r : Route)
      → Concludes Hides (serve_route platform json fresh access c r)
  unfolding serve_route
  route-Hides access c (public_route r) =
      passing-Concludes Hides plain
        (principal access (record c.credentials { method = method_of r })) _ (public-Hides r c)
  route-Hides access c (worker_route r) =
      passing-Concludes Hides plain (ai_worker_auth access.ai_worker_token c.worker_token) _
        λ _. worker-Hides r c

  -- Whatever is requested, by whomever, and whatever the driver answers, no answer shows the content
  -- of a message that it shows as recalled: not in a page, nor of a message that was created, edited
  -- or recalled.
  pub serve-Hides :
      (access : Access) (c : HttpCall) → Concludes Hides (serve platform json fresh access c)
  unfolding serve
  serve-Hides access c = route-Hides access c c.route
