-- ===== src/Message/Service/Requests.antt =====
-- The requests of the message service and what they answer.
use lens_chat_service.Prelude.{ℤ, []}
use lens_chat_service.GoText.{Bytes}
use lens_chat_service.Store.{PassesOn}
use lens_chat_service.Platform.{Platform, CreateMessageRequest, CreateAiReplyRequest}
use lens_chat_service.Message.Events.{Fresh}
use lens_chat_service.Message.Service
use lens_chat_service.Message.Service.Failures.{
  create-IsHonest_service, create_ai_reply-IsHonest, edit-IsHonest, recall-IsHonest,
  read-IsHonest_service, page-IsHonest, ai_page-IsHonest,
}

-- The requests that a client can make of the messages of a channel.
pub data Request : Type 0 where
  creating : (actor id : Bytes) → CreateMessageRequest → Request
  replying : (id photographer : Bytes) → CreateAiReplyRequest → Request
  editing : (actor id content : Bytes) → Request
  recalling : (actor id : Bytes) → Request
  reading : (actor id : Bytes) → ℤ → Request
  listing : (actor id : Bytes) → ℤ → ℤ → Request
  listing_for_ai : (id photographer : Bytes) → ℤ → ℤ → Request

abbrev pub HonestAnswer : Platform → Fresh → Request → Type 0
HonestAnswer platform fresh (creating actor id req) =
    PassesOn [] (Service.create platform fresh actor id req)
HonestAnswer platform fresh (replying id photographer req) =
    PassesOn [] (Service.create_ai_reply platform fresh id photographer req)
HonestAnswer platform fresh (editing actor id content) =
    PassesOn [] (Service.edit platform fresh actor id content)
HonestAnswer platform fresh (recalling actor id) =
    PassesOn [] (Service.recall platform fresh actor id)
HonestAnswer platform fresh (reading actor id seq) =
    PassesOn [] (Service.read platform fresh actor id seq)
HonestAnswer platform fresh (listing actor id limit before) =
    PassesOn [] (Service.list platform actor id limit before)
HonestAnswer platform fresh (listing_for_ai id photographer limit before) =
    PassesOn [] (Service.list_for_ai platform id photographer limit before)

-- Whatever a client asks of the message service, whatever the driver answers to its calls, an error
-- of the driver is answered only if the driver answered that error to one of the calls of this
-- request.
pub request-HonestAnswer :
    (platform : Platform) (fresh : Fresh) (q : Request) → HonestAnswer platform fresh q
request-HonestAnswer platform fresh (creating actor id req) =
    create-IsHonest_service platform fresh actor id req []
request-HonestAnswer platform fresh (replying id photographer req) =
    create_ai_reply-IsHonest platform fresh id photographer req []
request-HonestAnswer platform fresh (editing actor id content) =
    edit-IsHonest platform fresh actor id content []
request-HonestAnswer platform fresh (recalling actor id) =
    recall-IsHonest platform fresh actor id []
request-HonestAnswer platform fresh (reading actor id seq) =
    read-IsHonest_service platform fresh actor id seq []
request-HonestAnswer platform fresh (listing actor id limit before) =
    page-IsHonest platform actor id limit before []
request-HonestAnswer platform fresh (listing_for_ai id photographer limit before) =
    ai_page-IsHonest platform id photographer limit before []
