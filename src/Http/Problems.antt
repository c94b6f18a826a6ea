-- ===== src/Http/Problems.antt =====
-- packages/server/src/http/app.ts: the errors of requests, `onError`, `problem` and `problemTitle`.
use Prim.Native.String.{◌++◌}
use appbase.Prelude.{
  ℕ, ◌+◌, String, Bool, true, false, ◌&&◌, Option, none, some, List, [], ◌∷◌, ◌==◌, map, nat_eq,
  leb, get_or, if◌then◌else◌,
}
use appbase.Prelude.Text.{codes, from_codes, trim}
use appbase.Action.{
  Failure, authentication, authorization, account_deleted, invalid_cursor, lifecycle, sync_conflict,
  LifecycleCode, account_exists, registration_required, account_deleting, account_session_required,
  account_session_invalid,
}
use appbase.Http.{
  Request, Errors, no_errors, issues, supported, problem_body, Response, Thrown, zod_error,
  payload_too_large, unsupported_version, failure, Options, HttpWorld,
}

unfoldable pub problem_title : ℕ → String
problem_title status =
    if nat_eq status 400
    then "Bad Request"
    else if nat_eq status 401
    then "Unauthorized"
    else if nat_eq status 403
    then "Forbidden"
    else if nat_eq status 409
    then "Conflict"
    else if nat_eq status 413
    then "Content Too Large"
    else if nat_eq status 422
    then "Unprocessable Content"
    else "Internal Server Error"

-- `.toLowerCase()` of an ASCII character
abbrev pub lower : ℕ → ℕ
lower c = if leb b'A' c && leb c b'Z' then c + 32 else c

-- `.replaceAll("_", "-")`
abbrev pub dashed : ℕ → ℕ
dashed c = if nat_eq c b'_' then b'-' else c

-- `.replace(/\/+$/u, "")`
is_empty : List ℕ → Bool
is_empty [] = true
is_empty (c ∷ cs) = false

strip_slashes : List ℕ → List ℕ
unfolding is_empty
strip_slashes [] = []
strip_slashes (c ∷ cs) =
    let rest = strip_slashes cs in if nat_eq c b'/' && is_empty rest then [] else c ∷ rest

unfoldable pub problem_type : Option String → String → String
unfolding codes from_codes strip_slashes
problem_type base code =
    from_codes (strip_slashes (codes (get_or base "https://appbase.dev/problems")))
    ++ "/"
    ++ from_codes (map dashed (map lower (codes code)))

-- `context.req.header("Request-Id")?.trim() || crypto.randomUUID()`
trimmed_or : Option String → String → String
unfolding trim
trimmed_or none other = other
trimmed_or (some text) other = if trim text == "" then other else trim text

unfoldable pub request_id : Request → HttpWorld → String
unfolding trimmed_or
request_id request world = trimmed_or request.request_id world.uuid

abbrev pub lifecycle_code : LifecycleCode → String
lifecycle_code account_exists = "ACCOUNT_EXISTS"
lifecycle_code registration_required = "REGISTRATION_REQUIRED"
lifecycle_code account_deleting = "ACCOUNT_DELETING"
lifecycle_code account_session_required = "ACCOUNT_SESSION_REQUIRED"
lifecycle_code account_session_invalid = "ACCOUNT_SESSION_INVALID"

abbrev pub lifecycle_status : LifecycleCode → ℕ
lifecycle_status account_session_invalid = 401
lifecycle_status account_exists = 409
lifecycle_status registration_required = 409
lifecycle_status account_deleting = 409
lifecycle_status account_session_required = 409

module _ (options : Options) (world : HttpWorld) (request : Request) where
  unfoldable pub problem : ℕ → String → Errors → Response
  unfolding problem_title problem_type request_id
  problem status code errors = record {
    status = status;
    body = problem_body (record {
      problem_type = problem_type options.problem_type_base code;
      title = problem_title status;
      status = status;
      instance_path = request.path;
      code = code;
      request_id = request_id request world;
      errors = errors;
    });
  }

  unfoldable pub validation_problem : Response
  unfolding problem
  validation_problem = problem 422 "VALIDATION_ERROR" issues

  -- The classes that extend `AuthorizationError` are tested before it.
  unfoldable pub failure_problem : Failure → Response
  unfolding problem
  failure_problem (lifecycle code) = problem (lifecycle_status code) (lifecycle_code code) no_errors
  failure_problem account_deleted = problem 403 "ACCOUNT_DELETED" no_errors
  failure_problem invalid_cursor = problem 400 "INVALID_PAGE_TOKEN" no_errors
  failure_problem authentication = problem 401 "UNAUTHENTICATED" no_errors
  failure_problem authorization = problem 403 "FORBIDDEN" no_errors
  failure_problem (sync_conflict collection record_id) = problem 409 "SYNC_CONFLICT" no_errors
  failure_problem _ = problem 500 "INTERNAL_ERROR" no_errors

  -- `onError`
  unfoldable pub on_error : Thrown → Response
  unfolding validation_problem failure_problem
  on_error zod_error = validation_problem
  on_error (unsupported_version versions) =
      problem 400 "UNSUPPORTED_API_VERSION" (supported versions)
  on_error payload_too_large = problem 413 "PAYLOAD_TOO_LARGE" no_errors
  on_error (failure f) = failure_problem f
