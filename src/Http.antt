-- ===== src/Http.antt =====
-- What a handler takes from a request and answers: pkg/response, and what the controllers use of
-- `gin.Context`. Reading the JSON body, which checks the `binding` tags of internal/dto, is that of
-- the package `gin` and is a parameter.
use lens_chat_service.Prelude.{ℕ, ℤ, ◌*◌, Option, none, some, List, Result, ok, err}
use lens_chat_service.GoText.{Bytes, text, parse_int}
use lens_chat_service.Response.{Error, invalid, Failure, from_error}
use lens_chat_service.Store.{Program, done, Action, and_then}
use lens_chat_service.Platform.{CreateMessageRequest, CreateAiReplyRequest}
use lens_chat_service.Mapper.{MessageResponse, ChannelResponse}

-- The value under `data`.
pub data Body : Type 0 where
  one_message : MessageResponse → Body
  all_messages : List MessageResponse → Body
  one_channel : ChannelResponse → Body
  all_channels : List ChannelResponse → Body
  read_position : ℤ → Body

-- `OK` and `Fail`.
pub data HttpAnswer : Type 0 where
  ok_answer : ℕ → Body → HttpAnswer
  fail_answer : Failure → HttpAnswer

-- `FromError`
abbrev pub of_error : Error → HttpAnswer
of_error e = fail_answer (from_error e)

-- What a handler does with the value or the error of the service.
unfoldable pub respond : {A : Type 0} → (A → HttpAnswer) → Result Error A → HttpAnswer
respond f (ok a) = f a
respond f (err e) = of_error e

abbrev pub responding : {A : Type 0} → Action A → (A → HttpAnswer) → Program HttpAnswer
responding m f = and_then m λ r. done (respond f r)

-- The rest of a handler that needs a value of the request.
abbrev pub needing : {A : Type 0} → Option A → (A → Program HttpAnswer) → Program HttpAnswer
needing none k = done (of_error invalid)
needing (some a) k = k a

-- `http.MaxBytesReader` cuts a body off there.
abbrev pub max_body_bytes : ℕ
max_body_bytes = 64 * 1024

-- `ShouldBindJSON` on a body that is cut off at so many bytes.
pub record Json : Type 0 where
  pub create_channel : ℕ → Bytes → Option Bytes
  pub create_message : ℕ → Bytes → Option CreateMessageRequest
  pub create_ai_reply : ℕ → Bytes → Option CreateAiReplyRequest
  pub update_message : ℕ → Bytes → Option Bytes
  pub advance_read_cursor : ℕ → Bytes → Option ℤ

-- `strconv.ParseInt(c.DefaultQuery(...), 10, 64)`
unfoldable pub int_query : Bytes → Option Bytes → Option ℤ
int_query default none = parse_int default
int_query default (some value) = parse_int value

both : {A B : Type 0} → Option A → Option B → Option (A × B)
both (some a) (some b) = some (a, b)
both none b = none
both (some a) none = none

-- The two numbers of a page.
unfoldable pub page_query : Bytes → Option Bytes → Option Bytes → Option (ℤ × ℤ)
unfolding int_query both
page_query default limit before = both (int_query default limit) (int_query (text "0") before)
