-- ===== src/Message/Service/AiPages.antt =====
-- `ListForAI` next to `List`.
use lens_chat_service.Prelude.{
  ℤ, pos, ltb_ℤ, ◌≡◌, refl, sym, Bool, true, false, ok, err, reverse, ◌≤ℤ◌, arith,
}
use lens_chat_service.GoText.{Bytes}
use lens_chat_service.Store.{Action, done, call, return, ◌>>=◌}
use lens_chat_service.Platform.{Platform}
use lens_chat_service.Channel.Service as ChannelService
use lens_chat_service.Message.Queries
use lens_chat_service.Message.Service.{is_bad_page, list, list_for_ai}

bind_assoc :
    {A B C : Type 0} (m : Action A) (f : A → Action B) (g : B → Action C)
    → ((m >>= f) >>= g) ≡ (m >>= λ a. f a >>= g)
bind_assoc (done (ok a)) f g = refl
bind_assoc (done (err e)) f g = refl
bind_assoc (call c k) f g = λ i. call c λ r. bind_assoc (k r) f g i

module _ (platform : Platform) (id photographer : Bytes) (limit before : ℤ) where
  bad_page_lem :
      (most : ℤ)
      → pos 1 ≤ℤ limit
      → limit ≤ℤ most
      → is_bad_page most limit before ≡ ltb_ℤ before (pos 0)
  unfolding is_bad_page
  bad_page_lem most low high = ground arith

  by_page :
      (b : Bool)
      → is_bad_page (pos 30) limit before ≡ b
      → is_bad_page (pos 100) limit before ≡ b
      → list_for_ai platform id photographer limit before
        ≡ (list platform photographer id limit before >>= λ ms. return (reverse ms))
  unfolding list list_for_ai
  by_page true h k = rw (h, k) refl
  by_page false h k =
      rw (h, k)
        (sym (
          bind_assoc (ChannelService.get platform photographer id)
            (λ ch. Queries.list ch.id limit before) (λ ms. return (reverse ms))))

  -- A page that the AI asks for, of at most thirty messages, is what the photographer gets of the
  -- same channel, turned round: the same calls, the same refusals, and the messages oldest first.
  pub list_for_ai-list :
      pos 1 ≤ℤ limit
      → limit ≤ℤ pos 30
      → list_for_ai platform id photographer limit before
        ≡ (list platform photographer id limit before >>= λ ms. return (reverse ms))
  list_for_ai-list low high =
      by_page (ltb_ℤ before (pos 0)) (bad_page_lem (pos 30) low high)
        (bad_page_lem (pos 100) low (omega (arith, high)))
