-- ===== src/Accounts.antt =====
-- packages/server/src/usecases/accounts.ts and adapters/account_auth_verifier.ts: registration,
-- device sessions and the requests for deletion.
pub mod Keeping
pub mod Writes
pub mod BillingWrites
pub mod Data
pub mod Erasure
mod Tests
pub mod Cleanup
pub mod Attempts
pub mod Sessions
pub mod Lifecycle
use Prim.Native.String.{◌++◌, slice}
use appbase.Prelude.{
  ℕ, zero, suc, ◌+◌, String, Bool, true, false, not, ◌&&◌, Option, none, some, List, [], ◌∷◌, ◌==◌,
  leb, option_eq, get_or, if◌then◌else◌,
}
use appbase.Action.{
  Failure, Result, ok, err, Action, authentication, account_deleted, lifecycle, account_exists,
  registration_required, account_deleting, account_session_required, account_session_invalid, pure,
  throw, gets, lift, modify, require, or_throw, catch, ◌>>=◌, ◌>>◌,
}
use appbase.Database.{AccountStatus, active, deleting, deleted, Account, Database, Db}
use appbase.Database.Fence.{is_active, guard_device}
use appbase.AccountTable.{
  Others, await, find_account, current, begin_batch, complete, is_deleted,
  pending_billing_identities, complete_billing_identity, register, DeviceSession, save_session,
  session, begin, due, postpone, expire_sessions,
}
use appbase.Deletion.{AccountWorld, require_active, delete}

-- `Principal` of usecases/ports.ts
pub record Principal : Type 0 where
  pub sub : String
  pub scopes : List String
  pub account_id : Option String

-- A text as a condition: an empty one is false.
abbrev pub given : Option String → Option String
given none = none
given (some s) = if s == "" then none else some s

pub record OpenInput : Type 0 where
  pub device_id : String
  pub register : Bool
  pub account_id : Option String

pub record Opened : Type 0 where
  pub account_id : String
  pub access_token : String
  pub expires_at : ℕ

status_of : Option Account → Option (String × AccountStatus)
status_of none = none
status_of (some a) = some (a.id, a.status)

-- `none` is "unregistered".
pub status : Principal → Db (Option (String × AccountStatus))
unfolding status_of
status principal = gets (λ db. status_of (current principal.sub db.accounts))

-- `input.accountId ? find : current`
look_up : Principal → Option String → Database → Option Account
look_up principal none db = current principal.sub db.accounts
look_up principal (some id) db = find_account id db.accounts

-- The guards on the account that was found. `none` goes on to the registration.
admit_found : Principal → Bool → Option String → Account → AccountStatus → Result (Option Account)
admit_found principal wants_new pinned a deleted = err account_deleted
admit_found principal wants_new pinned a deleting = err (lifecycle account_deleting)
admit_found principal wants_new none a active =
    if wants_new then err (lifecycle account_exists) else ok (some a)
admit_found principal wants_new (some id) a active =
    if option_eq a.subject (some principal.sub)
    then if wants_new then err (lifecycle account_exists) else ok (some a)
    else err account_deleted

admit : Principal → Bool → Option String → Option Account → Result (Option Account)
unfolding admit_found
admit principal wants_new pinned (some a) = admit_found principal wants_new pinned a a.status
admit principal wants_new (some id) none = err account_deleted
admit principal wants_new none none =
    if wants_new then ok none else err (lifecycle registration_required)

module _ (hash : String → String) (world : AccountWorld) where
  abbrev pub token : String
  token = "ab1_" ++ (world.random 1 ++ world.random 2)

  register_unless : Principal → Option Account → Db Account
  register_unless principal (some a) = pure a
  register_unless principal none =
      register world.others principal.sub ("a_" ++ world.random 0) (world.now 0)

  abbrev pub new_session : Principal → OpenInput → String → DeviceSession
  new_session principal input id = record {
    account_id = id;
    device_id = input.device_id;
    subject = principal.sub;
    scopes = principal.scopes;
    expires_at = world.now 1 + 1800;
  }

  issue : Principal → OpenInput → Account → Db Opened
  issue principal input a = do
    require (is_active a.status) (lifecycle account_deleting)
    await world.others 3
    save_session (hash token) (new_session principal input a.id) (world.now 2)
    pure (record { account_id = a.id; access_token = token; expires_at = world.now 1 + 1800 })

  pub open_account : Principal → OpenInput → Db Opened
  unfolding look_up admit register_unless issue
  open_account principal input = do
    found ← gets (look_up principal (given input.account_id))
    admitted ← lift (admit principal input.register (given input.account_id) found)
    a ← register_unless principal admitted
    issue principal input a

  -- `!session || session.expiresAt <= this.now()`
  check_session : Option DeviceSession → Result DeviceSession
  check_session none = err (lifecycle account_session_invalid)
  check_session (some s) =
      if leb s.expires_at (world.now 0) then err (lifecycle account_session_invalid) else ok s

  pub authenticate : String → Db Principal
  unfolding check_session
  authenticate text = do
    found ← gets (session (hash text))
    s ← lift (check_session found)
    await world.others 1
    account ← gets (λ db. find_account s.account_id db.accounts)
    or_throw account account_deleted
    pure (record { sub = s.subject; scopes = s.scopes; account_id = some s.account_id })

  -- `AccountAuthVerifier`; `identity` is the verifier of the identity provider's tokens.
  pub verify : (String → Db Principal) → String → Db Principal
  verify identity text = if slice text 0 4 == "ab1_" then authenticate text else identity text

-- `old?.legacy && old.status === "active" && old.subject === principal.sub`
legacy_account : Principal → Option Account → Result Principal
legacy_account principal none = err (lifecycle account_session_required)
legacy_account principal (some a) =
    if a.legacy && (is_active a.status && option_eq a.subject (some principal.sub))
    then ok (record principal { account_id = some a.id })
    else err (lifecycle account_session_required)

require_for : Principal → Option String → Db Principal
unfolding legacy_account
require_for principal (some id) = require_active id >> pure principal
require_for principal none = do
  old ← gets (λ db. find_account principal.sub db.accounts)
  lift (legacy_account principal old)

pub require_account : Principal → Db Principal
unfolding require_for
require_account principal = require_for principal (given principal.account_id)

request_for : AccountWorld → Option String → Db String
request_for world none = throw authentication
request_for world (some id) = do begin world.others id (world.unixepoch 0); pure id

pub request_deletion : AccountWorld → Principal → Db String
unfolding request_for
request_deletion world principal = request_for world (given principal.account_id)

-- `catch (error) { await postpone; throw error; }`
put_off : AccountWorld → String → Failure → Db (Unit {0})
put_off world id error = do await world.others 0; modify (postpone id (world.now 0)); throw error

pub process : AccountWorld → String → Db (Unit {0})
unfolding put_off
process world id db = catch (delete world id db).0 pure (put_off world id) (delete world id db).1

process_all : (ℕ → AccountWorld) → ℕ → List String → Db (Unit {0})
process_all worlds n [] db = pure tt db
process_all worlds n (id ∷ ids) db =
    catch (process (worlds n) id db).0 (λ _. process_all worlds (suc n) ids)
      (λ _. process_all worlds (suc n) ids) (process (worlds n) id db).1

-- `processDue`; the n-th account has the n-th world.
pub process_due : AccountWorld → (ℕ → AccountWorld) → Db (Unit {0})
unfolding process_all
process_due world worlds = do
  modify (expire_sessions (world.now 0))
  await world.others 1
  ids ← gets (due (world.now 1) 20)
  process_all worlds 0 ids

-- `principal.accountId ?? principal.sub`
abbrev pub account_owner : Principal → String
account_owner principal = get_or principal.account_id principal.sub

-- Opens the accounts for a run.
unfoldable pub account_run : Unit {0}
unfolding open_account authenticate require_account request_deletion process process_due register
    save_session session begin delete require_active find_account current begin_batch complete
    postpone expire_sessions due guard_device is_deleted pending_billing_identities
    complete_billing_identity
account_run = tt
