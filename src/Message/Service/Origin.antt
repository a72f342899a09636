-- ===== src/Message/Service/Origin.antt =====
-- Which messages a request to create one may leave behind.
use lens_chat_service.Prelude.{
  ◌≡◌, refl, ap, subst, sym, ◌⊎◌, inl, inr, false, Option, none, some, Result, ok, err, IsIn,
  Bool-cases, ◌==◌, ==_iff,
}
use lens_chat_service.GoText.{Bytes, text, str_eq}
use lens_chat_service.Schema.{ObjectId, Message, Channel}
use lens_chat_service.Response.{Error}
use lens_chat_service.Store.{View, Ensures, Ensures-mono, Ensures-Reading, Reading, IsIndexed}
use lens_chat_service.Platform.{Platform, CreateMessageRequest}
use lens_chat_service.Channel.Service as ChannelService
use lens_chat_service.Channel.Service.Access.{IsOpenTo, Got, get-Gets}
use lens_chat_service.Message.Events.{Fresh}
use lens_chat_service.Message.Queries
use lens_chat_service.Message.Create
use lens_chat_service.Message.Create.{Saved}
use lens_chat_service.Message.Create.Spec.{stamped}
use lens_chat_service.Message.Create.Origin.{OnlyAdds, create-OnlyAdds}
use lens_chat_service.Message.Service.{
  is_bad_request, user_message, same_channel, parsed_reply, reply_of, create_in, create,
}
use lens_chat_service.Message.Service.Authority.{GotMessage, get_message}

module _ (platform : Platform) (actor id : Bytes) (v : View) where
  -- The reply that the message has is a stored message of its channel.
  abbrev pub IsReplyIn : ObjectId → ObjectId → Type 0
  IsReplyIn ch reply =
      (reply ≡ 0) ⊎ ((m : Message) × IsIn m v.messages × (m.id ≡ reply) × (m.channel_id ≡ ch))

  -- The message is one that the actor may send by this request.
  pub record IsOwn (req : CreateMessageRequest) (x : Message) : Type 0 where
    pub channel : Channel
    pub access : IsOpenTo platform actor id v channel
    pub addressed : x.channel_id ≡ channel.id
    pub sent : x.sender_id ≡ actor
    pub by_user : x.sender_kind ≡ text "user"
    pub content : x.content ≡ req.content
    pub valid : is_bad_request req ≡ false
    pub digest : x.request_hash ≡ platform.request_digest req
    pub reply : IsReplyIn channel.id x.reply_to_message_id
    pub first_revision : x.revision ≡ 1
    pub open_message : x.recalled_at ≡ none

  abbrev pub OnlyOwn : CreateMessageRequest → View → Type 0
  OnlyOwn req w = (x : Message) → IsIn x w.messages → IsIn x v.messages ⊎ IsOwn req x

module _ (platform : Platform) (actor id : Bytes) (v : View) (unique : IsIndexed v) where
  abbrev Replied : ObjectId → Result Error ObjectId → Type 0
  Replied ch (ok reply) = IsReplyIn platform actor id v ch reply
  Replied ch (err e) = Unit {0}

  same_channel_lem :
      (ch : Channel) (oid : ObjectId) (m : Message)
      → IsIn m v.messages
      → m.id ≡ oid
      → Ensures (same_channel ch oid m) (Reading (Replied ch.id) v) v
  unfolding same_channel
  same_channel_lem ch oid m i e = elim (Bool-cases (m.channel_id == ch.id)) [
    | inl h ↦ rw h (refl, inr (m, i, e, (==_iff m.channel_id ch.id).0 h))
    | inr h ↦ rw h (refl, tt)
  ]

  parsed_lem :
      (ch : Channel) (o : Option ObjectId)
      → Ensures (parsed_reply ch o) (Reading (Replied ch.id) v) v
  unfolding parsed_reply
  parsed_lem ch none = (refl, tt)
  parsed_lem ch (some oid) =
      Ensures-Reading (GotMessage oid v) (same_channel ch oid) (Reading (Replied ch.id) v) v
        (λ m got. same_channel_lem ch oid m got.0 got.1) (λ e _. (refl, tt)) (Queries.get oid)
        (get_message oid v)

  reply_lem :
      (ch : Channel) (req : CreateMessageRequest)
      → Ensures (reply_of platform ch req) (Reading (Replied ch.id) v) v
  unfolding reply_of
  reply_lem ch req = elim (Bool-cases (str_eq req.reply_to_message_id (text ""))) [
    | inl h ↦ rw h (refl, inl refl)
    | inr h ↦ rw h (parsed_lem ch (platform.from_hex req.reply_to_message_id))
  ]

  own :
      (fresh : Fresh) (req : CreateMessageRequest) (ch : Channel) (reply : ObjectId) (x : Message)
      → IsOpenTo platform actor id v ch
      → is_bad_request req ≡ false
      → IsReplyIn platform actor id v ch.id reply
      → x
        ≡ stamped fresh
            (user_message ch.id actor req (platform.request_digest req) reply)
            x.sequence
      → IsOwn platform actor id v req x
  unfolding user_message
  own fresh req ch reply x o good replied e = record {
    channel = ch;
    access = o;
    addressed = ap (λ (m : Message). m.channel_id) e;
    sent = ap (λ (m : Message). m.sender_id) e;
    by_user = ap (λ (m : Message). m.sender_kind) e;
    content = ap (λ (m : Message). m.content) e;
    valid = good;
    digest = ap (λ (m : Message). m.request_hash) e;
    reply =
        subst (IsReplyIn platform actor id v ch.id)
          (sym (ap (λ (m : Message). m.reply_to_message_id) e)) replied;
    first_revision = ap (λ (m : Message). m.revision) e;
    open_message = ap (λ (m : Message). m.recalled_at) e;
  }

  saved_lem :
      (fresh : Fresh) (req : CreateMessageRequest) (ch : Channel) (reply : ObjectId)
      → IsOpenTo platform actor id v ch
      → is_bad_request req ≡ false
      → IsReplyIn platform actor id v ch.id reply
      → Ensures
          (Create.create platform.hex fresh
            (user_message ch.id actor req (platform.request_digest req) reply))
          (λ _ w. OnlyOwn platform actor id v req w)
          v
  unfolding user_message
  saved_lem fresh req ch reply o good replied =
      let msg : Message = user_message ch.id actor req (platform.request_digest req) reply in
      Ensures-mono (Create.create platform.hex fresh msg)
        {Q = λ _ w. OnlyAdds platform.hex fresh msg v.messages w.messages}
        {R = λ _ w. OnlyOwn platform actor id v req w} v
        (λ r w h x i. elim (h x i) [
          | inl j ↦ inl j
          | inr e ↦ inr (own fresh req ch reply x o good replied e)
        ])
        (create-OnlyAdds platform.hex fresh msg v.messages v λ x i. inl i)

  create_in_lem :
      (fresh : Fresh) (req : CreateMessageRequest) (ch : Channel)
      → IsOpenTo platform actor id v ch
      → Ensures (create_in platform fresh actor req ch) (λ _ w. OnlyOwn platform actor id v req w) v
  unfolding create_in
  create_in_lem fresh req ch o = elim (Bool-cases (is_bad_request req)) [
    | inl h ↦ rw h λ x i. inl i
    | inr h ↦ rw h (
        Ensures-Reading (Replied ch.id) _ (λ _ w. OnlyOwn platform actor id v req w) v
          (λ reply replied. saved_lem fresh req ch reply o h replied) (λ e _ x i. inl i)
          (reply_of platform ch req) (reply_lem ch req))
  ]

  -- Whatever the driver answers, a request to create a message leaves no message that was not there
  -- before, but for one of its own: in the channel that it names, which is open to the caller, sent
  -- by the caller as a user, with the content and the digest of the request, which is valid, and in
  -- reply to nothing or to a stored message of the same channel.
  pub create-OnlyOwn :
      (fresh : Fresh) (req : CreateMessageRequest)
      → Ensures (create platform fresh actor id req) (λ _ w. OnlyOwn platform actor id v req w) v
  unfolding create
  create-OnlyOwn fresh req =
      Ensures-Reading (Got platform actor id v) (create_in platform fresh actor req)
        (λ _ w. OnlyOwn platform actor id v req w) v (λ ch o. create_in_lem fresh req ch o)
        (λ e _ x i. inl i) (ChannelService.get platform actor id)
        (get-Gets platform actor id v unique)
