-- ===== src/Api/Errors.antt =====
-- The errors of the management API: backend/src/data/error.rs. The statuses that a request guard
-- answers are among them.
use vaul_tls.Base.{ℕ}
use vaul_tls.Text.{Text}

pub data ApiError : Type 0 where
  unauthorized_error forbidden_error not_found_error : ApiError
  bad_request : Text → ApiError
  conflict : Text → ApiError
  other : Text → ApiError

-- The HTTP status of the response.
unfoldable pub status_of : ApiError → ℕ
status_of unauthorized_error = 401
status_of forbidden_error = 403
status_of not_found_error = 404
status_of (bad_request message) = 400
status_of (conflict message) = 409
status_of (other message) = 500
