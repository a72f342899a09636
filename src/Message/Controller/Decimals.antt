-- ===== src/Message/Controller/Decimals.antt =====
-- Pages that are asked for in decimals.
use lens_chat_service.Prelude.{◌≡◌, refl, some, ℤ}
use lens_chat_service.GoText.{Bytes, text}
use lens_chat_service.GoText.ParseInt.Decimals.{decimal, IsInt64, parse_int-decimal}
use lens_chat_service.Platform.{Platform}
use lens_chat_service.Http.{page_query, int_query, responding}
use lens_chat_service.Message.Controller.{page_answer, list, list_for_ai}
use lens_chat_service.Message.Service

page_query-decimal :
    (default : Bytes) (limit before : ℤ)
    → IsInt64 limit
    → IsInt64 before
    → page_query default (some (decimal limit)) (some (decimal before)) ≡ some (limit, before)
unfolding page_query int_query
page_query-decimal default limit before h k =
    rw (parse_int-decimal limit h) (rw (parse_int-decimal before k) refl)

module _ (platform : Platform) (limit before : ℤ) where
  -- Where the two numbers of a page are written in decimals, the answer to the caller and to the AI
  -- worker is that of the service for these numbers. The numbers are any of `int64`.
  pub list-decimal :
      (actor photographer channel : Bytes)
      → IsInt64 limit
      → IsInt64 before
      → (list platform actor channel (some (decimal limit)) (some (decimal before))
          ≡ responding
              (Service.list platform actor channel limit before)
              (page_answer platform.hex))
        × (list_for_ai platform channel photographer (some (decimal limit)) (some (decimal before))
            ≡ responding
                (Service.list_for_ai platform channel photographer limit before)
                (page_answer platform.hex))
  unfolding list list_for_ai
  list-decimal actor photographer channel h k = (
    rw (page_query-decimal (text "20") limit before h k) refl,
    rw (page_query-decimal (text "12") limit before h k) refl,
  )
