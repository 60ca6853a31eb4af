-- ===== src/Utils/Errors.antt =====
-- internal/common/errors/errors.go: BusinessError and ErrorHandler. `E` is the type of the other
-- errors, and `D` that of the details. Codes are no negative numbers, counters do not overflow, and
-- what is logged is left out. A call is one step, though the map of the counters has no lock.
pub mod Stats
use data_middleware.Prelude.{
  ℕ, ◌+◌, Bool, true, false, ◌&&◌, ◌||◌, List, [], Option, none, some, ltb, leb, ◌==◌,
  if◌then◌else◌, nat_eq,
}
use data_middleware.Prelude.Assoc.{lookup, insert}

abbrev pub err_code_system_internal : ℕ
err_code_system_internal = 1001

abbrev pub err_code_timeout : ℕ
err_code_timeout = 1004

abbrev pub err_code_resource_exhausted : ℕ
err_code_resource_exhausted = 1005

abbrev pub err_code_permission_denied : ℕ
err_code_permission_denied = 1006

abbrev pub err_code_unauthorized : ℕ
err_code_unauthorized = 1007

abbrev pub err_code_user_not_found : ℕ
err_code_user_not_found = 4001

abbrev pub err_code_token_invalid : ℕ
err_code_token_invalid = 4005

abbrev pub err_code_token_expired : ℕ
err_code_token_expired = 4006

-- `code >= first && code < end`
abbrev pub in_range : ℕ → ℕ → ℕ → Bool
in_range first end_ code = leb first code && ltb code end_

unfoldable pub system_status : ℕ → ℕ
system_status code =
    if code == err_code_unauthorized
    then 401
    else if code == err_code_permission_denied
    then 403
    else if code == err_code_timeout
    then 408
    else if code == err_code_resource_exhausted
    then 429
    else 500

unfoldable pub user_status : ℕ → ℕ
user_status code =
    if code == err_code_user_not_found
    then 404
    else if code == err_code_token_invalid || code == err_code_token_expired
    then 401
    else 400

unfoldable pub get_http_status : ℕ → ℕ
get_http_status code =
    if code == 0
    then 200
    else if in_range 1000 1100 code
    then system_status code
    else if in_range 1100 1300 code
    then 400
    else if in_range 2000 3000 code
    then 500
    else if in_range 3000 4000 code
    then 500
    else if in_range 4000 5000 code
    then user_status code
    else if in_range 5000 6000 code
    then 400
    else if in_range 6000 7000 code
    then 400
    else if in_range 7000 8000 code
    then 400
    else if in_range 8000 9000 code
    then 500
    else if in_range 9000 10000 code
    then 400
    else 500

pub record BusinessError (D E : Type 0) : Type 0 where
  pub code : ℕ
  pub message : List ℕ
  pub details : Option D
  pub cause : Option E
  pub http_status : ℕ

-- `err.(*BusinessError)` holds or not.
pub data Error (D E : Type 0) : Type 0 where
  business : BusinessError D E → Error D E
  foreign : E → Error D E

pub record ErrorHandler : Type 0 where
  pub error_stats : List (ℕ × ℕ)
  pub enable_stats : Bool

abbrev pub init : ErrorHandler
init = record { error_stats = []; enable_stats = true }

module _ {D E : Type 0} where
  unfoldable pub new : ℕ → List ℕ → BusinessError D E
  new code message = record {
    code = code;
    message = message;
    details = none;
    cause = none;
    http_status = get_http_status code;
  }

  unfoldable pub new_with_cause : ℕ → List ℕ → E → BusinessError D E
  new_with_cause code message cause = record {
    code = code;
    message = message;
    details = none;
    cause = some cause;
    http_status = get_http_status code;
  }

  unfoldable pub new_with_details : ℕ → List ℕ → D → BusinessError D E
  new_with_details code message details = record {
    code = code;
    message = message;
    details = some details;
    cause = none;
    http_status = get_http_status code;
  }

  -- `Wrap` of an error that is not nil.
  unfoldable pub wrap : Error D E → ℕ → List ℕ → BusinessError D E
  wrap (business e) code message = e
  wrap (foreign e) code message = new_with_cause code message e

-- An absent counter is a new one.
abbrev pub next_count : Option ℕ → ℕ
next_count none = 1
next_count (some n) = n + 1

unfoldable pub record_error : ℕ → ErrorHandler → ErrorHandler
record_error code h =
    if h.enable_stats
    then record h {
      error_stats = insert code (next_count (lookup code h.error_stats)) h.error_stats;
    }
    else h

abbrev pub get_error_stats : ErrorHandler → List (ℕ × ℕ)
get_error_stats h = h.error_stats

unfoldable pub reset_error_stats : ErrorHandler → ErrorHandler
reset_error_stats h = record h { error_stats = [] }

module _ {D E : Type 0} where
  -- With the text of the server for an internal error; `none` is nil.
  unfoldable pub handle :
      List ℕ → Option (Error D E) → ErrorHandler → ErrorHandler × Option (BusinessError D E)
  handle internal none h = (h, none)
  handle internal (some e) h =
      let b = wrap e err_code_system_internal internal in (record_error b.code h, some b)

  unfoldable pub handle_with_code :
      Option (Error D E) → ℕ → List ℕ → ErrorHandler → ErrorHandler × Option (BusinessError D E)
  handle_with_code none code message h = (h, none)
  handle_with_code (some e) code message h =
      let b = wrap e code message in (record_error b.code h, some b)
