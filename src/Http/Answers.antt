-- ===== src/Http/Answers.antt =====
-- Every response has the status that belongs to what it carries.
use appbase.Prelude.{
  ℕ, String, ◌≡◌, ◌≢◌, ◌↔◌, refl, Bool, true, false, Option, none, some, arith, if◌then◌else◌,
}
use appbase.Action.{
  Failure, Result, ok, err, authentication, authorization, account_deleted, invalid_cursor,
  lifecycle, sync_conflict, membership_limit, billing, plain, rejected, LifecycleCode,
  account_exists, registration_required, account_deleting, account_session_required,
  account_session_invalid,
}
use appbase.Database.{Database, Db}
use appbase.Http.{
  Request, Errors, no_errors, Problem, Body, nothing, plain_text, configuration,
  legacy_configuration, account, opened, deletion, batch, legacy_batch, page, legacy_page,
  membership, legacy_membership, problem_body, Response, Step, next, stop, thrown, zod_error,
  payload_too_large, unsupported_version, failure, Thrown, Handler, proceed, ◌>>=◌, continue_with,
  fail, call, step_of, Options, HttpWorld,
}
use appbase.Http.Problems.{
  problem_title, lifecycle_status, problem, validation_problem, failure_problem, on_error,
}
use appbase.Http.Guards.{or_return, unless, step}

-- The problems that the server reports: status, title and code.
pub data IsProblem : ℕ → String → String → Type 0 where
  unsupported_problem : IsProblem 400 "Bad Request" "UNSUPPORTED_API_VERSION"
  token_problem : IsProblem 400 "Bad Request" "INVALID_PAGE_TOKEN"
  unknown_problem : IsProblem 401 "Unauthorized" "UNAUTHENTICATED"
  session_problem : IsProblem 401 "Unauthorized" "ACCOUNT_SESSION_INVALID"
  forbidden_problem : IsProblem 403 "Forbidden" "FORBIDDEN"
  deleted_problem : IsProblem 403 "Forbidden" "ACCOUNT_DELETED"
  conflict_problem : IsProblem 409 "Conflict" "SYNC_CONFLICT"
  exists_problem : IsProblem 409 "Conflict" "ACCOUNT_EXISTS"
  registration_problem : IsProblem 409 "Conflict" "REGISTRATION_REQUIRED"
  deleting_problem : IsProblem 409 "Conflict" "ACCOUNT_DELETING"
  required_problem : IsProblem 409 "Conflict" "ACCOUNT_SESSION_REQUIRED"
  large_problem : IsProblem 413 "Content Too Large" "PAYLOAD_TOO_LARGE"
  invalid_problem : IsProblem 422 "Unprocessable Content" "VALIDATION_ERROR"
  internal_problem : IsProblem 500 "Internal Server Error" "INTERNAL_ERROR"

-- The status and the code that each error is to be reported with.
abbrev pub expected_problem : Thrown → ℕ × String
expected_problem zod_error = (422, "VALIDATION_ERROR")
expected_problem payload_too_large = (413, "PAYLOAD_TOO_LARGE")
expected_problem (unsupported_version versions) = (400, "UNSUPPORTED_API_VERSION")
expected_problem (failure authentication) = (401, "UNAUTHENTICATED")
expected_problem (failure authorization) = (403, "FORBIDDEN")
expected_problem (failure account_deleted) = (403, "ACCOUNT_DELETED")
expected_problem (failure invalid_cursor) = (400, "INVALID_PAGE_TOKEN")
expected_problem (failure (sync_conflict c r)) = (409, "SYNC_CONFLICT")
expected_problem (failure (lifecycle account_exists)) = (409, "ACCOUNT_EXISTS")
expected_problem (failure (lifecycle registration_required)) = (409, "REGISTRATION_REQUIRED")
expected_problem (failure (lifecycle account_deleting)) = (409, "ACCOUNT_DELETING")
expected_problem (failure (lifecycle account_session_required)) = (409, "ACCOUNT_SESSION_REQUIRED")
expected_problem (failure (lifecycle account_session_invalid)) = (401, "ACCOUNT_SESSION_INVALID")
expected_problem (failure (membership_limit c l u k)) = (500, "INTERNAL_ERROR")
expected_problem (failure (billing code)) = (500, "INTERNAL_ERROR")
expected_problem (failure (plain text)) = (500, "INTERNAL_ERROR")
expected_problem (failure (rejected text)) = (500, "INTERNAL_ERROR")

-- The response reports the error.
abbrev pub Reports : Thrown → Response → Type 0
Reports t r = (p : Problem) × (r.body ≡ problem_body p) × ((r.status, p.code) ≡ expected_problem t)

-- The statuses of each kind of body: a problem names its own, and is one of the list.
abbrev pub HasStatus : Body → ℕ → Type 0
HasStatus nothing status = status ≡ 204
HasStatus (plain_text words) status = (status ≡ 404) × (words ≡ "404 Not Found")
HasStatus (configuration c) status = status ≡ 200
HasStatus (legacy_configuration c) status = status ≡ 200
HasStatus (account a) status = status ≡ 200
HasStatus (opened o) status = status ≡ 201
HasStatus (deletion id) status = status ≡ 202
HasStatus (batch id results) status = status ≡ 200
HasStatus (legacy_batch results) status = status ≡ 200
HasStatus (page p) status = status ≡ 200
HasStatus (legacy_page p) status = status ≡ 200
HasStatus (membership m) status = status ≡ 200
HasStatus (legacy_membership m) status = status ≡ 200
HasStatus (problem_body p) status = (p.status ≡ status) × IsProblem status p.title p.code

abbrev pub IsAnswer : Response → Type 0
IsAnswer r = HasStatus r.body r.status

-- A value has the property, and a response that is returned at once is an answer.
abbrev pub Ends : {A : Type 0} → (A → Type 0) → Step A → Type 0
Ends P (next a) = P a
Ends P (stop r) = IsAnswer r
Ends P (thrown t) = Unit

pub record Answers {A : Type 0} (P : A → Type 0) (m : Handler A) : Type 0 where
  pub ends : (db : Database) → Ends P (m db).0

abbrev pub Any : {A : Type 0} → A → Type 0
Any a = Unit

module _ {A B : Type 0} {P : B → Type 0} where
  proceed-Ends :
      (s : Step A) (f : A → Handler B) (db : Database)
      → Ends Any s
      → ((a : A) → Answers P (f a))
      → Ends P (proceed s f db).0
  proceed-Ends (next a) f db h rest = (rest a).ends db
  proceed-Ends (stop r) f db h rest = h
  proceed-Ends (thrown t) f db h rest = tt

  pub Answers-bind :
      (m : Handler A) (f : A → Handler B)
      → Answers Any m
      → ((a : A) → Answers P (f a))
      → Answers P (m >>= f)
  Answers-bind m f first rest = record {
    ends = λ db. proceed-Ends (m db).0 f (m db).1 (first.ends db) rest;
  }

module _ {A : Type 0} where
  pub Answers-value : {P : A → Type 0} (a : A) → P a → Answers P (continue_with a)
  Answers-value a h = record { ends = λ db. h }

  pub Answers-fail : {P : A → Type 0} (t : Thrown) → Answers P (fail t)
  Answers-fail t = record { ends = λ db. tt }

  step_of-Ends : (r : Result A) → Ends Any (step_of r)
  step_of-Ends (ok a) = tt
  step_of-Ends (err e) = tt

  pub Answers-call : (m : Db A) → Answers Any (call m)
  Answers-call m = record { ends = λ db. step_of-Ends (m db).0 }

  pub Answers-step_of : (r : Result A) → Answers Any (step (step_of r))
  Answers-step_of r = record { ends = λ db. step_of-Ends r }

  pub Answers-or_return : (o : Option A) (r : Response) → IsAnswer r → Answers Any (or_return o r)
  Answers-or_return none r h = record { ends = λ db. h }
  Answers-or_return (some a) r h = record { ends = λ db. tt }

pub Answers-branch :
    {A : Type 0} {P : A → Type 0} (test : Bool) {left right : Handler A}
    → Answers P left
    → Answers P right
    → Answers P (if test then left else right)
Answers-branch true l r = l
Answers-branch false l r = r

pub Answers-unless : (b : Bool) (r : Response) → IsAnswer r → Answers Any (unless b r)
Answers-unless true r h = record { ends = λ db. h }
Answers-unless false r h = record { ends = λ db. tt }

module _ (options : Options) (world : HttpWorld) (request : Request) where
  pub problem-IsAnswer :
      (status : ℕ) (code : String) (reported : Errors)
      → IsProblem status (problem_title status) code
      → IsAnswer (problem options world request status code reported)
  unfolding problem
  problem-IsAnswer status code reported h = (refl, h)

  pub validation-IsAnswer : IsAnswer (validation_problem options world request)
  unfolding validation_problem problem_title
  validation-IsAnswer = (refl, invalid_problem)

  pub oversized-IsAnswer :
      IsAnswer (problem options world request 413 "PAYLOAD_TOO_LARGE" no_errors)
  unfolding problem_title
  oversized-IsAnswer = problem-IsAnswer 413 "PAYLOAD_TOO_LARGE" no_errors large_problem

  pub legacy_batch-IsAnswer :
      IsAnswer (problem options world request 422 "VALIDATION_ERROR" no_errors)
  unfolding problem_title
  legacy_batch-IsAnswer = problem-IsAnswer 422 "VALIDATION_ERROR" no_errors invalid_problem

  lifecycle-IsAnswer :
      (code : LifecycleCode) → IsAnswer (failure_problem options world request (lifecycle code))
  unfolding failure_problem problem_title
  lifecycle-IsAnswer account_exists = (refl, exists_problem)
  lifecycle-IsAnswer registration_required = (refl, registration_problem)
  lifecycle-IsAnswer account_deleting = (refl, deleting_problem)
  lifecycle-IsAnswer account_session_required = (refl, required_problem)
  lifecycle-IsAnswer account_session_invalid = (refl, session_problem)

  failure-IsAnswer : (f : Failure) → IsAnswer (failure_problem options world request f)
  unfolding failure_problem problem_title
  failure-IsAnswer (lifecycle code) = lifecycle-IsAnswer code
  failure-IsAnswer account_deleted = (refl, deleted_problem)
  failure-IsAnswer invalid_cursor = (refl, token_problem)
  failure-IsAnswer authentication = (refl, unknown_problem)
  failure-IsAnswer authorization = (refl, forbidden_problem)
  failure-IsAnswer (sync_conflict c r) = (refl, conflict_problem)
  failure-IsAnswer (membership_limit c l u k) = (refl, internal_problem)
  failure-IsAnswer (billing code) = (refl, internal_problem)
  failure-IsAnswer (plain text) = (refl, internal_problem)
  failure-IsAnswer (rejected text) = (refl, internal_problem)

  pub on_error-IsAnswer : (t : Thrown) → IsAnswer (on_error options world request t)
  unfolding on_error problem_title
  on_error-IsAnswer zod_error = validation-IsAnswer
  on_error-IsAnswer (unsupported_version versions) = (refl, unsupported_problem)
  on_error-IsAnswer payload_too_large = (refl, large_problem)
  on_error-IsAnswer (failure f) = failure-IsAnswer f

  pub on_error-Reports : (t : Thrown) → Reports t (on_error options world request t)
  unfolding on_error failure_problem validation_problem problem
  on_error-Reports zod_error = (_, refl, refl)
  on_error-Reports payload_too_large = (_, refl, refl)
  on_error-Reports (unsupported_version versions) = (_, refl, refl)
  on_error-Reports (failure authentication) = (_, refl, refl)
  on_error-Reports (failure authorization) = (_, refl, refl)
  on_error-Reports (failure account_deleted) = (_, refl, refl)
  on_error-Reports (failure invalid_cursor) = (_, refl, refl)
  on_error-Reports (failure (sync_conflict c r)) = (_, refl, refl)
  on_error-Reports (failure (lifecycle account_exists)) = (_, refl, refl)
  on_error-Reports (failure (lifecycle registration_required)) = (_, refl, refl)
  on_error-Reports (failure (lifecycle account_deleting)) = (_, refl, refl)
  on_error-Reports (failure (lifecycle account_session_required)) = (_, refl, refl)
  on_error-Reports (failure (lifecycle account_session_invalid)) = (_, refl, refl)
  on_error-Reports (failure (membership_limit c l u k)) = (_, refl, refl)
  on_error-Reports (failure (billing code)) = (_, refl, refl)
  on_error-Reports (failure (plain text)) = (_, refl, refl)
  on_error-Reports (failure (rejected text)) = (_, refl, refl)

  -- The errors that no class of the server's announces.
  abbrev pub IsUnexpected : Thrown → Type 0
  IsUnexpected (failure (plain text)) = Unit
  IsUnexpected (failure (rejected text)) = Unit
  IsUnexpected (failure (billing code)) = Unit
  IsUnexpected (failure (membership_limit c l u k)) = Unit
  IsUnexpected (failure (lifecycle code)) = ⊥
  IsUnexpected (failure account_deleted) = ⊥
  IsUnexpected (failure invalid_cursor) = ⊥
  IsUnexpected (failure authentication) = ⊥
  IsUnexpected (failure authorization) = ⊥
  IsUnexpected (failure (sync_conflict c r)) = ⊥
  IsUnexpected zod_error = ⊥
  IsUnexpected payload_too_large = ⊥
  IsUnexpected (unsupported_version versions) = ⊥

  lifecycle-ne : (code : LifecycleCode) → lifecycle_status code ≢ 500
  lifecycle-ne account_exists h = omega arith
  lifecycle-ne registration_required h = omega arith
  lifecycle-ne account_deleting h = omega arith
  lifecycle-ne account_session_required h = omega arith
  lifecycle-ne account_session_invalid h = omega arith

  -- A request is answered with 500 exactly for an error of a class that the application does not
  -- map: a bare error, a rejection by the database, and the errors of billing and of the limits of
  -- a membership.
  pub on_error-500_iff :
      (t : Thrown) → ((on_error options world request t).status ≡ 500) ↔ IsUnexpected t
  unfolding on_error failure_problem problem validation_problem
  on_error-500_iff (failure (plain text)) = (λ h. tt, λ h. refl)
  on_error-500_iff (failure (rejected text)) = (λ h. tt, λ h. refl)
  on_error-500_iff (failure (billing code)) = (λ h. tt, λ h. refl)
  on_error-500_iff (failure (membership_limit c l u k)) = (λ h. tt, λ h. refl)
  on_error-500_iff (failure (lifecycle code)) = (lifecycle-ne code, λ h. absurd h)
  on_error-500_iff (failure account_deleted) = (λ h. omega arith, λ h. absurd h)
  on_error-500_iff (failure invalid_cursor) = (λ h. omega arith, λ h. absurd h)
  on_error-500_iff (failure authentication) = (λ h. omega arith, λ h. absurd h)
  on_error-500_iff (failure authorization) = (λ h. omega arith, λ h. absurd h)
  on_error-500_iff (failure (sync_conflict c r)) = (λ h. omega arith, λ h. absurd h)
  on_error-500_iff zod_error = (λ h. omega arith, λ h. absurd h)
  on_error-500_iff payload_too_large = (λ h. omega arith, λ h. absurd h)
  on_error-500_iff (unsupported_version versions) = (λ h. omega arith, λ h. absurd h)
