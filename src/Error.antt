-- ===== src/Error.antt =====
-- `AppError` of src/error.rs with the status and code of its responses.
use Prim.Native.String.{String}
use donkey.Base.{ℕ, Result}

-- The source's `#[from]` payloads (database, I/O and internal errors) are opaque here.
pub data AppError : Type 0 where
  bad_request : String → AppError
  unauthorized forbidden rate_limited : AppError
  not_found : String → AppError
  conflict : String → AppError
  unavailable : String → AppError
  upstream : String → AppError
  integrity database io internal : AppError

abbrev pub ApiResult {ℓ} : Type ℓ → Type ℓ
ApiResult A = Result A AppError

unfoldable pub status : AppError → ℕ
status (bad_request _) = 400
status unauthorized = 401
status forbidden = 403
status rate_limited = 429
status (not_found _) = 404
status (conflict _) = 409
status (unavailable _) = 503
status (upstream _) = 502
status integrity = 502
status database = 500
status io = 500
status internal = 500
