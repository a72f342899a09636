-- ===== src/Message/Service/AiReplies.antt =====
-- Which messages a request for an AI reply may leave behind.
use lens_chat_service.Prelude.{
  ◌≡◌, refl, ap, ◌⊎◌, inl, inr, true, false, Option, none, some, IsIn, Bool-cases, arith,
}
use lens_chat_service.GoText.{Bytes, text, str_eq_iff, trim_space}
use lens_chat_service.Schema.{ObjectId, Message, Channel}
use lens_chat_service.Store.{View, Ensures, Ensures-mono, Ensures-Reading, IsIndexed, ◌>>=◌}
use lens_chat_service.Platform.{Platform, CreateAiReplyRequest}
use lens_chat_service.Channel.Service as ChannelService
use lens_chat_service.Channel.Service.Access.{IsOpenTo, Got, get-Gets}
use lens_chat_service.Message.Events.{Fresh}
use lens_chat_service.Message.Queries
use lens_chat_service.Message.Create
use lens_chat_service.Message.Create.Spec.{stamped}
use lens_chat_service.Message.Create.Origin.{OnlyAdds, create-OnlyAdds}
use lens_chat_service.Message.Mutate.{is_none}
use lens_chat_service.Message.Service.{
  is_bad_reply, is_bad_source, ai_message, or_invalid, reply_to_source, create_ai_reply,
}
use lens_chat_service.Message.Service.Authority.{GotMessage, get_message}

-- A message of the other participant that may be answered.
pub record IsSource (photographer : Bytes) (ch : Channel) (s : Message) : Type 0 where
  pub same_channel : s.channel_id ≡ ch.id
  pub from_other : ¬ (s.sender_id ≡ photographer)
  pub not_ai : ¬ (s.sender_kind ≡ text "ai")
  pub not_recalled : s.recalled_at ≡ none

is_none_open : {A : Type 0} (o : Option A) → is_none o ≡ true → o ≡ none
is_none_open none h = refl
is_none_open (some a) h = cc h

IsSource-of_test :
    (photographer : Bytes) (ch : Channel) (s : Message)
    → is_bad_source ch photographer s ≡ false
    → IsSource photographer ch s
unfolding is_bad_source
IsSource-of_test photographer ch s h = record {
  same_channel = ground arith;
  from_other = λ e. ground (arith, str_eq_iff s.sender_id photographer, e);
  not_ai = λ e. ground (arith, str_eq_iff s.sender_kind (text "ai"), e);
  not_recalled = is_none_open s.recalled_at (ground arith);
}

module _ (platform : Platform) (photographer id : Bytes) (v : View) where
  -- The message is the AI reply that was asked for.
  pub record IsAiReply (req : CreateAiReplyRequest) (x : Message) : Type 0 where
    pub channel : Channel
    pub access : IsOpenTo platform photographer id v channel
    pub addressed : x.channel_id ≡ channel.id
    pub sent : x.sender_id ≡ photographer
    pub by_ai : x.sender_kind ≡ text "ai"
    pub content : x.content ≡ trim_space req.content
    pub valid : is_bad_reply photographer req ≡ false
    pub source : Message
    pub stored : IsIn source v.messages
    pub answerable : IsSource photographer channel source
    pub reply : x.reply_to_message_id ≡ source.id

  abbrev pub OnlyAiReply : CreateAiReplyRequest → View → Type 0
  OnlyAiReply req w = (x : Message) → IsIn x w.messages → IsIn x v.messages ⊎ IsAiReply req x

module _ (platform : Platform) (photographer id : Bytes) (v : View) (fresh : Fresh)
    (req : CreateAiReplyRequest) (good : is_bad_reply photographer req ≡ false) (ch : Channel)
    (o : IsOpenTo platform photographer id v ch) where
  ai_reply :
      (s x : Message)
      → IsIn s v.messages
      → IsSource photographer ch s
      → x
        ≡ stamped fresh (ai_message ch.id photographer req (platform.ai_digest req) s.id) x.sequence
      → IsAiReply platform photographer id v req x
  unfolding ai_message
  ai_reply s x i answerable e = record {
    channel = ch;
    access = o;
    addressed = ap (λ (m : Message). m.channel_id) e;
    sent = ap (λ (m : Message). m.sender_id) e;
    by_ai = ap (λ (m : Message). m.sender_kind) e;
    content = ap (λ (m : Message). m.content) e;
    valid = good;
    source = s;
    stored = i;
    answerable = answerable;
    reply = ap (λ (m : Message). m.reply_to_message_id) e;
  }

  source_lem :
      (s : Message)
      → IsIn s v.messages
      → Ensures
          (reply_to_source platform fresh photographer req ch s)
          (λ _ w. OnlyAiReply platform photographer id v req w)
          v
  unfolding reply_to_source
  source_lem s i = elim (Bool-cases (is_bad_source ch photographer s)) [
    | inl h ↦ rw h λ x j. inl j
    | inr h ↦ rw h (
        let msg : Message = ai_message ch.id photographer req (platform.ai_digest req) s.id in
        Ensures-mono (Create.create platform.hex fresh msg)
          {Q = λ _ w. OnlyAdds platform.hex fresh msg v.messages w.messages}
          {R = λ _ w. OnlyAiReply platform photographer id v req w} v
          (λ r w added x j. elim (added x j) [
            | inl k ↦ inl k
            | inr e ↦ inr (ai_reply s x i (IsSource-of_test photographer ch s h) e)
          ])
          (create-OnlyAdds platform.hex fresh msg v.messages v λ x j. inl j))
  ]

  pub sources_lem :
      (o : Option ObjectId)
      → Ensures
          (do
            source_id ← or_invalid o
            source ← Queries.get source_id
            reply_to_source platform fresh photographer req ch source)
          (λ _ w. OnlyAiReply platform photographer id v req w)
          v
  unfolding or_invalid
  sources_lem none = λ x i. inl i
  sources_lem (some oid) =
      Ensures-Reading (GotMessage oid v) (reply_to_source platform fresh photographer req ch)
        (λ _ w. OnlyAiReply platform photographer id v req w) v (λ s got. source_lem s got.0)
        (λ e _ x i. inl i) (Queries.get oid) (get_message oid v)

-- Whatever the driver answers, a request for an AI reply leaves no message that was not there
-- before, but for the reply itself: marked as the AI's, in the channel that it names, which is open
-- to the photographer, with the trimmed content of the request, which is valid, and in reply to a
-- stored message of that channel that the other participant sent, not the AI, and that is not
-- recalled.
pub create_ai_reply-OnlyAiReply :
    (platform : Platform) (photographer id : Bytes) (v : View) (fresh : Fresh)
    (req : CreateAiReplyRequest)
    → IsIndexed v
    → Ensures
        (create_ai_reply platform fresh id photographer req)
        (λ _ w. OnlyAiReply platform photographer id v req w)
        v
unfolding create_ai_reply
create_ai_reply-OnlyAiReply platform photographer id v fresh req unique =
    elim (Bool-cases (is_bad_reply photographer req)) [
      | inl h ↦ rw h λ x i. inl i
      | inr h ↦ rw h (
          Ensures-Reading (Got platform photographer id v) _
            (λ _ w. OnlyAiReply platform photographer id v req w) v
            (λ ch o.
              sources_lem platform photographer id v fresh req h ch o
                (platform.from_hex req.source_message_id))
            (λ e _ x i. inl i) (ChannelService.get platform photographer id)
            (get-Gets platform photographer id v unique))
    ]
