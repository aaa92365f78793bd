-- ===== src/HttpApi/Errors.antt =====
-- The mapping of errors to responses of services/api/internal/httpapi/app_error.go.
use learning_garden_server.Prelude.{
  ℕ, [], Text, codes, some, Error, email_taken, handle_taken, invalid_credentials, refresh_revoked,
  unauthorized, forbidden, invalid_input, not_found, conflict, failure,
}
use learning_garden_server.HttpApi.Answers.{AppError}

-- `err.Error()` of the sentinels
abbrev error_text : Error → Text
error_text email_taken = codes "email already registered"
error_text handle_taken = codes "handle already registered"
error_text invalid_credentials = codes "invalid email or password"
error_text refresh_revoked = codes "refresh token revoked"
error_text unauthorized = codes "unauthorized"
error_text forbidden = codes "forbidden"
error_text invalid_input = codes "invalid input"
error_text not_found = codes "not found"
error_text conflict = codes "conflict"
error_text failure = []

abbrev mapped : ℕ → Text → Error → AppError
mapped http_code code e = record {
  code = code;
  http_code = http_code;
  message = error_text e;
  cause = some e;
}

abbrev internal : Error → AppError
internal e = record {
  code = codes "INTERNAL";
  http_code = 500;
  message = codes "internal server error";
  cause = some e;
}

unfoldable pub auth_app_error : Error → AppError
auth_app_error email_taken = mapped 409 (codes "CONFLICT") email_taken
auth_app_error handle_taken = mapped 409 (codes "CONFLICT") handle_taken
auth_app_error invalid_credentials = mapped 401 (codes "UNAUTHORIZED") invalid_credentials
auth_app_error refresh_revoked = mapped 401 (codes "UNAUTHORIZED") refresh_revoked
auth_app_error unauthorized = mapped 401 (codes "UNAUTHORIZED") unauthorized
auth_app_error e = internal e

unfoldable pub content_app_error : Error → AppError
content_app_error invalid_input = mapped 400 (codes "BAD_REQUEST") invalid_input
content_app_error forbidden = mapped 403 (codes "FORBIDDEN") forbidden
content_app_error not_found = mapped 404 (codes "NOT_FOUND") not_found
content_app_error conflict = mapped 409 (codes "CONFLICT") conflict
content_app_error unauthorized = mapped 401 (codes "UNAUTHORIZED") unauthorized
content_app_error e = internal e
