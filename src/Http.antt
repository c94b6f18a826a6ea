-- ===== src/Http.antt =====
-- packages/server/src/http/app.ts: requests, responses and what a handler does. Left out are the
-- middleware's report of a request, the headers that repeat the request's, and the texts for people
-- in a problem.
pub mod Problems
pub mod Steps
pub mod Batches
pub mod Answers
pub mod Schema
pub mod Pages
pub mod Closed
mod Tests
pub mod Guards
pub mod AccountRoutes
pub mod SyncRoutes
pub mod Endpoints
pub mod Bodies
use appbase.Prelude.{ℕ, String, Bool, Option, List}
use appbase.Action.{Failure, Result, ok, err}
use appbase.Json.{Json}
use appbase.Domain.Sync.{MutationResult, SyncChange, PullResult}
use appbase.Domain.Membership.{MembershipSnapshot}
use appbase.Database.{AccountStatus, Database, Db}
use appbase.Sync.{SyncDeps, World}
use appbase.Deletion.{AccountWorld}
use appbase.Accounts.{Principal, Opened}

-- `AppBasePublicConfig`, without its flags that are always true.
pub record PublicConfig : Type 0 where
  pub protocol_versions : List String
  pub issuer : String
  pub client_id : String
  pub audience : String
  pub uses_resource_indicator : Bool
  pub max_mutations_per_batch : ℕ
  pub max_changes_per_page : ℕ
  pub max_payload_bytes : ℕ

-- `AppBaseCapability`
pub data Capability : Type 0 where
  sync_read sync_write membership_read : Capability

-- What the handlers read of a request. `body` is what `JSON.parse` gives of its text, `none` where
-- that throws, and `body_bytes` the length of the text in UTF-8.
pub record Request : Type 0 where
  pub path : String
  pub request_id : Option String
  pub api_version : Option String
  pub authorization : Option String
  pub content_type : Option String
  pub content_length : Option String
  pub body_bytes : ℕ
  pub body : Option Json
  pub query : List (String × String)

pub data Errors : Type 0 where
  no_errors issues : Errors
  supported : List String → Errors

pub record Problem : Type 0 where
  pub problem_type : String
  pub title : String
  pub status : ℕ
  pub instance_path : String
  pub code : String
  pub request_id : String
  pub errors : Errors

pub record Page : Type 0 where
  pub items : List SyncChange
  pub page_size : ℕ
  pub next_page_token : Option (List ℕ)
  pub checkpoint : List ℕ

-- The JSON that a response carries.
pub data Body : Type 0 where
  nothing : Body
  -- No JSON, but this text.
  plain_text : String → Body
  configuration legacy_configuration : PublicConfig → Body
  account : Option (String × AccountStatus) → Body
  opened : Opened → Body
  deletion : String → Body
  batch : String → List MutationResult → Body
  legacy_batch : List MutationResult → Body
  page : Page → Body
  legacy_page : PullResult → Body
  membership legacy_membership : MembershipSnapshot → Body
  problem_body : Problem → Body

pub record Response : Type 0 where
  pub status : ℕ
  pub body : Body

-- What a handler throws: `z.ZodError`, the two classes of this file, and those of the use cases.
pub data Thrown : Type 0 where
  zod_error payload_too_large : Thrown
  unsupported_version : List String → Thrown
  failure : Failure → Thrown

-- A step of a handler goes on with a value, returns a response at once, or throws.
pub data Step (A : Type 0) : Type 0 where
  next : A → Step A
  stop : Response → Step A
  thrown : Thrown → Step A

abbrev pub Handler : Type 0 → Type 0
Handler A = Database → Step A × Database

module _ {A B : Type 0} where
  abbrev pub proceed : Step A → (A → Handler B) → Handler B
  proceed (next a) f db = f a db
  proceed (stop r) f db = (stop r, db)
  proceed (thrown t) f db = (thrown t, db)

  infixl 5 ◌>>=◌ ◌>>◌
  abbrev pub ◌>>=◌ : Handler A → (A → Handler B) → Handler B
  ◌>>=◌ m f db = proceed (m db).0 f (m db).1

  abbrev pub ◌>>◌ : Handler A → Handler B → Handler B
  m >> n = m >>= λ _. n

module _ {A : Type 0} where
  abbrev pub continue_with : A → Handler A
  continue_with a db = (next a, db)

  abbrev pub return_now : Response → Handler A
  return_now r db = (stop r, db)

  abbrev pub fail : Thrown → Handler A
  fail t db = (thrown t, db)

  abbrev pub step_of : Result A → Step A
  step_of (ok a) = next a
  step_of (err e) = thrown (failure e)

  -- The call of a use case.
  abbrev pub call : Db A → Handler A
  call m db = (step_of (m db).0, (m db).1)

-- `AppBaseHttpOptions`: the functions and services of the host. `principal` is set by its
-- middleware, and the services of accounts are over the database.
pub record Options : Type 0 where
  pub public_config : PublicConfig
  pub principal : Request → Result Principal
  pub authorize : Option (Principal → Capability → Bool)
  pub sync_deps : SyncDeps
  pub membership_snapshot : Option (String → Db MembershipSnapshot)
  pub has_accounts : Bool
  pub has_account_deletion : Bool
  pub hash : String → String
  pub legacy_v1 : Bool
  pub problem_type_base : Option String

-- What surrounds the handling of one request.
pub record HttpWorld : Type 0 where
  -- `crypto.randomUUID()`
  pub uuid : String
  -- for each mutation of a batch
  pub mutations : ℕ → World
  pub accounts : AccountWorld
  -- the background work after the response
  pub background : AccountWorld
