-- ===== src/Response.antt =====
-- pkg/response: the errors of the service and the HTTP answers that they become.
use lens_chat_service.Prelude.{ℕ}
use lens_chat_service.GoText.{Bytes, text}
use lens_chat_service.Mongo.{DriverError}

-- `errors.New` values that no code compares are kept by their message; `driver e` is an error of
-- the MongoDB driver that is passed on unchanged.
pub data Error : Type 0 where
  invalid not_found forbidden conflict : Error
  driver : DriverError → Error
  other : Bytes → Error

pub record Failure : Type 0 where
  pub status : ℕ
  pub code : Bytes
  pub message : Bytes

abbrev pub failure : ℕ → Bytes → Bytes → Failure
failure status code message = record { status = status; code = code; message = message }

unfoldable pub from_error : Error → Failure
from_error invalid = failure 400 (text "INVALID_REQUEST") (text "invalid request")
from_error not_found = failure 404 (text "NOT_FOUND") (text "resource not found")
from_error forbidden = failure 403 (text "FORBIDDEN") (text "operation not allowed")
from_error conflict = failure 409 (text "CONFLICT") (text "conflicting request")
from_error (driver e) = failure 500 (text "INTERNAL_ERROR") (text "request failed")
from_error (other m) = failure 500 (text "INTERNAL_ERROR") (text "request failed")
