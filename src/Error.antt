-- ===== src/Error.antt =====
-- src/api/apierror.rs: the error of the API layer. An `anyhow::Error` is the text of its annotated
-- chain on one line, as `{:#}` formats it. The response body and the messages about upload sizes
-- are not modelled.
use dreamscroll.Base.{ℕ, Bool, Option, none, some}
use dreamscroll.Base.Words.{I32}
use dreamscroll.Base.Text.{Text}

pub record ApiError : Type 0 where
  pub http_status_code : ℕ
  pub error : Text
  pub inner_status_code : I32

unfoldable pub new : ℕ → Text → ApiError
new code error = record { http_status_code = code; error = error; inner_status_code = code }

unfoldable pub with_inner_status_code : Option I32 → ApiError → ApiError
with_inner_status_code none e = e
with_inner_status_code (some code) e = record e { inner_status_code = code }

unfoldable pub bad_request : Text → ApiError
unfolding new
bad_request error = new 400 error

unfoldable pub conflict : Text → ApiError
unfolding new
conflict error = new 409 error

unfoldable pub forbidden : Text → ApiError
unfolding new
forbidden error = new 403 error

unfoldable pub internal : Text → ApiError
unfolding new
internal error = new 500 error

unfoldable pub not_found : Text → ApiError
unfolding new
not_found error = new 404 error

-- The failing layer's message, and the conversion back to `anyhow::Error`.
unfoldable pub message : ApiError → Text
message e = e.error

-- `is_server_error` is the HTTP library's test of a status code.
unfoldable pub is_retryable : (ℕ → Bool) → ApiError → Bool
is_retryable is_server_error e = is_server_error e.http_status_code
