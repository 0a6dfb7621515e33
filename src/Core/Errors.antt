-- ===== src/Core/Errors.antt =====
-- backend/app/core/errors.py: the expected application errors. A class of the hierarchy is a
-- constructor; the text of `detail` is left out, the HTTP status and the stable code are kept.
use python_fullstack.Base.{ℕ, String}

pub data AppError : Type 0 where
  internal : AppError
  not_found : AppError
  permission_denied : AppError
  authentication : AppError
  validation_failed : AppError
  conflict : AppError
  version_conflict : AppError
  invalid_transition : AppError
  rate_limit : AppError
  service_unavailable : AppError

unfoldable pub status_code : AppError → ℕ
status_code internal = 500
status_code not_found = 404
status_code permission_denied = 403
status_code authentication = 401
status_code validation_failed = 422
status_code conflict = 409
status_code version_conflict = 409
status_code invalid_transition = 409
status_code rate_limit = 429
status_code service_unavailable = 503

unfoldable pub code : AppError → String
code internal = "INTERNAL_ERROR"
code not_found = "RESOURCE_NOT_FOUND"
code permission_denied = "PERMISSION_DENIED"
code authentication = "NOT_AUTHENTICATED"
code validation_failed = "VALIDATION_FAILED"
code conflict = "CONFLICT"
code version_conflict = "TICKET_VERSION_CONFLICT"
code invalid_transition = "INVALID_TRANSITION"
code rate_limit = "RATE_LIMITED"
code service_unavailable = "SERVICE_UNAVAILABLE"
