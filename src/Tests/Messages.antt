-- ===== src/Tests/Messages.antt =====
-- The message repository and service at the sample database.
use lens_chat_service.Prelude.{pos, reverse, ◌≡◌, refl, inl, inr, true, [], ◌∷◌, arith}
use lens_chat_service.GoText.{text, str_eq}
use lens_chat_service.Schema.{message_updated}
use lens_chat_service.Store.{return, ◌>>=◌, Reading, Ensures, same_request}
use lens_chat_service.Message.Create.{create, accepts}
use lens_chat_service.Message.Create.Spec.{IsReady, Creates}
use lens_chat_service.Message.Create.NewMessage.{create-Creates}
use lens_chat_service.Message.Create.Retry.{Retried, create-stored}
use lens_chat_service.Message.Mutate.{mutate}
use lens_chat_service.Message.Mutate.Spec.{Mutates}
use lens_chat_service.Message.Mutate.Outcomes.{mutate-Mutates}
use lens_chat_service.Message.ReadCursor.{read}
use lens_chat_service.Message.ReadCursor.Spec.{Reads}
use lens_chat_service.Message.ReadCursor.Monotone.{read-Reads}
use lens_chat_service.Message.Service as Service
use lens_chat_service.Platform.{CreateMessageRequest, CreateAiReplyRequest}
use lens_chat_service.Message.Service.AiReplies.{OnlyAiReply, create_ai_reply-OnlyAiReply}
use lens_chat_service.Message.Service.AiPages.{list_for_ai-list}
use lens_chat_service.Message.Service.Pages.{Pages, list-Pages}
use lens_chat_service.Message.Service.Cursors.{ReadsOwn, read-ReadsOwn}
use lens_chat_service.Message.Service.Origin.{OnlyOwn, create-OnlyOwn}
use lens_chat_service.Message.Service.Requests.{HonestAnswer, editing, request-HonestAnswer}
use lens_chat_service.Message.Service.Edits.{Edits, Recalls, edit-Edits, recall-Recalls}
use lens_chat_service.Tests.Fixture.{
  hex, platform, ada, bob, channel, hello, fresh, chat, chat-IsIndexed, next,
}

next-IsReady : IsReady fresh next chat
unfolding same_request accepts str_eq
next-IsReady = record {
  unseen = λ x i. elim i [ inl e ↦ rw e refl | inr k ↦ absurd k ];
  new_id = λ x i e. elim i [ inl q ↦ ground (arith, q) | inr k ↦ absurd k ];
  channel = channel;
  listed = inl refl;
  accepted = refl;
  below = λ x i. elim i [ inl e ↦ rw e (omega arith) | inr k ↦ absurd k ];
  summaries = λ c i. elim i [ inl e ↦ rw e (omega arith) | inr k ↦ absurd k ];
  summaries_below = λ c i. elim i [ inl e ↦ rw e (omega arith) | inr k ↦ absurd k ];
}

create-Creates_example : Ensures (create hex fresh next) (Creates hex fresh next chat) chat
create-Creates_example = create-Creates hex fresh next chat chat-IsIndexed next-IsReady

hello-same_request : same_request hello hello ≡ true
unfolding same_request str_eq
hello-same_request = refl

create-stored_example : Ensures (create hex fresh hello) (Retried hello hello chat) chat
create-stored_example =
    create-stored hex fresh hello hello chat chat-IsIndexed (inl refl) hello-same_request

mutate-Mutates_example :
    Ensures
      (mutate hex fresh message_updated hello (text "bye"))
      (Mutates hex fresh message_updated hello (text "bye") chat)
      chat
mutate-Mutates_example = mutate-Mutates hex fresh message_updated hello (text "bye") chat

read-Reads_example :
    Ensures (read hex fresh 7 bob (pos 1)) (Reads hex fresh 7 bob (pos 1) chat) chat
read-Reads_example = read-Reads hex fresh 7 bob (pos 1) chat chat-IsIndexed

edit-Edits_example :
    Ensures
      (Service.edit platform fresh ada (1 ∷ []) (text "bye"))
      (Edits platform ada (1 ∷ []) chat fresh (text "bye"))
      chat
edit-Edits_example = edit-Edits platform ada (1 ∷ []) chat chat-IsIndexed fresh (text "bye")

recall-Recalls_example :
    Ensures
      (Service.recall platform fresh ada (1 ∷ []))
      (Recalls platform ada (1 ∷ []) chat fresh)
      chat
recall-Recalls_example = recall-Recalls platform ada (1 ∷ []) chat chat-IsIndexed fresh

request-HonestAnswer_example : HonestAnswer platform fresh (editing ada (1 ∷ []) (text "bye"))
request-HonestAnswer_example =
    request-HonestAnswer platform fresh (editing ada (1 ∷ []) (text "bye"))

abbrev request : CreateMessageRequest
request = record {
  client_message_id = text "c2";
  kind = text "text";
  content = text "hi";
  reply_to_message_id = 1 ∷ [];
}

create-OnlyOwn_example :
    Ensures
      (Service.create platform fresh ada (7 ∷ []) request)
      (λ _ w. OnlyOwn platform ada (7 ∷ []) chat request w)
      chat
create-OnlyOwn_example = create-OnlyOwn platform ada (7 ∷ []) chat chat-IsIndexed fresh request

read-ReadsOwn_example :
    Ensures
      (Service.read platform fresh bob (7 ∷ []) (pos 1))
      (ReadsOwn platform bob (7 ∷ []) chat fresh (pos 1))
      chat
read-ReadsOwn_example = read-ReadsOwn platform bob (7 ∷ []) chat fresh (pos 1) chat-IsIndexed

-- Bob's answer, which the AI writes.
abbrev ai_request : CreateAiReplyRequest
ai_request = record {
  photographer_id = bob;
  client_message_id = text "c9";
  source_message_id = 1 ∷ [];
  expected_last_sequence = pos 1;
  content = text " hello ada ";
}

create_ai_reply-OnlyAiReply_example :
    Ensures
      (Service.create_ai_reply platform fresh (7 ∷ []) bob ai_request)
      (λ _ w. OnlyAiReply platform bob (7 ∷ []) chat ai_request w)
      chat
create_ai_reply-OnlyAiReply_example =
    create_ai_reply-OnlyAiReply platform bob (7 ∷ []) chat fresh ai_request chat-IsIndexed

list-Pages_example :
    Ensures
      (Service.list platform bob (7 ∷ []) (pos 20) (pos 0))
      (Reading (Pages platform bob (7 ∷ []) chat (pos 20) (pos 0)) chat)
      chat
list-Pages_example = list-Pages platform bob (7 ∷ []) chat (pos 20) (pos 0) chat-IsIndexed

list_for_ai-list_example :
    Service.list_for_ai platform (7 ∷ []) bob (pos 12) (pos 0)
    ≡ (Service.list platform bob (7 ∷ []) (pos 12) (pos 0) >>= λ ms. return (reverse ms))
list_for_ai-list_example =
    list_for_ai-list platform (7 ∷ []) bob (pos 12) (pos 0) (omega arith) (omega arith)
