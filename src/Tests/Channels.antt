-- ===== src/Tests/Channels.antt =====
-- The channel repository and service at the sample database.
use lens_chat_service.Prelude.{◌≡◌, refl, inl, false, [], ◌∷◌, ◌++◌}
use lens_chat_service.GoText.{str_eq, str_lt, trim_space, is_blank}
use lens_chat_service.Store.{Ensures}
use lens_chat_service.Channel.Repo.{get_or_create}
use lens_chat_service.Channel.Repo.GetOrCreate.{GetsOrCreates, get_or_create-GetsOrCreates}
use lens_chat_service.Channel.Service as Service
use lens_chat_service.Channel.Service.Access.{Gets, get-Gets}
use lens_chat_service.Channel.Service.Pairs.{Answers, create-existing}
use lens_chat_service.Tests.Fixture.{platform, ada, bob, channel, chat, chat-IsIndexed}

get-Gets_example :
    Ensures (Service.get platform bob (7 ∷ [])) (Gets platform bob (7 ∷ []) chat) chat
get-Gets_example = get-Gets platform bob (7 ∷ []) chat chat-IsIndexed

get_or_create-GetsOrCreates_example :
    Ensures
      (get_or_create 8 300 (ada, bob) (ada ++ 0 ∷ bob))
      (GetsOrCreates 8 300 (ada, bob) (ada ++ 0 ∷ bob) chat)
      chat
get_or_create-GetsOrCreates_example =
    get_or_create-GetsOrCreates 8 300 (ada, bob) (ada ++ 0 ∷ bob) chat

good_request : Service.is_bad_peer bob ada ≡ false
unfolding Service.is_bad_peer is_blank trim_space str_eq
good_request = refl

create-existing_example :
    Ensures (Service.create platform 8 300 bob ada) (Answers channel chat) chat
create-existing_example =
    create-existing platform 8 300 bob ada chat channel chat-IsIndexed good_request (inl refl)
      (unfold Service.sorted_pair str_lt in refl)
