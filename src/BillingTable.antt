-- ===== src/BillingTable.antt =====
-- packages/server/src/adapters/d1_billing_repository.ts: the catalog, the billing accounts and the
-- provider's events in D1. A JSON column holds the value that its text stands for.
pub mod Rising
use appbase.Prelude.{
  ℕ, zero, suc, ◌+◌, String, Bool, true, false, not, ◌&&◌, ◌||◌, Option, none, some, List, [], ◌∷◌,
  ◌++◌, map, ◌==◌, ltb, leb, nat_eq, find?, any, all, select, if◌then◌else◌,
}
use appbase.Action.{
  Failure, billing, plain, rejected, pure, throw, gets, modify, require, or_throw, ◌>>=◌, ◌>>◌,
}
use appbase.Domain.Billing.{
  BillingEnvironment, environment_eq, BillingCatalog, VersionedCatalog, BillingState,
  invalid_catalog,
}
use appbase.Database.{CatalogRow, BillingAccount, EventRow, GrantRow, Database, Db}
use appbase.Database.Fence.{guard_owner}
use appbase.AccountTable.{Others, await}

versioned : Option CatalogRow → Option VersionedCatalog
versioned none = none
versioned (some r) = some (record { revision = r.revision; catalog = r.catalog })

abbrev pub of_environment : BillingEnvironment → CatalogRow → Bool
of_environment environment r = environment_eq r.environment environment

unfoldable pub catalog_in : BillingEnvironment → Database → Option VersionedCatalog
unfolding versioned
catalog_in environment db = versioned (find? (of_environment environment) db.catalogs)

-- The grants of the environment all have a plan of the catalog.
abbrev pub keeps_plans : BillingEnvironment → BillingCatalog → List GrantRow → Bool
keeps_plans environment catalog grants =
    all
      (λ g.
        not (environment_eq g.environment environment)
        || any (λ p. p.id == g.plan_id) (catalog.free_plan ∷ catalog.plans))
      grants

-- INSERT … ON CONFLICT DO NOTHING, and whether it wrote
insert_catalog : BillingEnvironment → BillingCatalog → Db Bool
insert_catalog environment catalog db =
    if any (of_environment environment) db.catalogs
    then pure false db
    else (modify (λ d. record d {
      catalogs =
          d.catalogs ++ record { environment = environment; revision = 1; catalog = catalog } ∷ [];
    })
          >> pure true)
        db

abbrev pub of_revision : BillingEnvironment → ℕ → CatalogRow → Bool
of_revision environment revision r = of_environment environment r && nat_eq r.revision revision

abbrev pub revised : BillingCatalog → CatalogRow → CatalogRow
revised catalog r = record r { revision = suc r.revision; catalog = catalog }

-- The UPDATE, and whether it wrote
update_catalog : BillingEnvironment → BillingCatalog → ℕ → Db Bool
update_catalog environment catalog expected db =
    if any (of_revision environment expected) db.catalogs
      && keeps_plans environment catalog db.grants
    then (modify (λ d. record d {
      catalogs =
          map (λ r. if of_revision environment expected r then revised catalog r else r) d.catalogs;
    })
          >> pure true)
        db
    else pure false db

-- `current?.revision === expectedRevision`
at_revision : ℕ → Option VersionedCatalog → Bool
at_revision expected none = false
at_revision expected (some v) = nat_eq v.revision expected

explain_update : Others → BillingEnvironment → ℕ → Bool → Db Bool
unfolding at_revision
explain_update others environment expected true = pure true
explain_update others environment expected false = do
  await others 1
  current ← gets (catalog_in environment)
  require (not (at_revision expected current)) (billing invalid_catalog)
  pure false

unfoldable pub replace_catalog : Others → BillingEnvironment → BillingCatalog → ℕ → Db Bool
unfolding insert_catalog update_catalog explain_update
replace_catalog others environment catalog zero = insert_catalog environment catalog
replace_catalog others environment catalog (suc n) = do
  changed ← update_catalog environment catalog (suc n)
  explain_update others environment (suc n) changed

abbrev pub of_account : BillingEnvironment → String → BillingAccount → Bool
of_account environment owner b = environment_eq b.environment environment && b.owner_sub == owner

unfoldable pub billing_account :
    BillingEnvironment → String → List BillingAccount → Option BillingAccount
billing_account environment owner rows = find? (of_account environment owner) rows

abbrev pub new_billing_account : BillingEnvironment → String → String → BillingAccount
new_billing_account environment owner id = record {
  environment = environment;
  owner_sub = owner;
  app_user_id = id;
  generation = 0;
  state = none;
}

-- ON CONFLICT(environment, owner_sub) DO NOTHING; `app_user_id` is unique.
unfoldable pub insert_identity : BillingEnvironment → String → String → Db (Unit {0})
insert_identity environment owner id db =
    if any (of_account environment owner) db.billing_accounts
    then pure tt db
    else (require (not (any (λ b. b.app_user_id == id) db.billing_accounts))
            (rejected "appbase_billing_accounts")
          >> modify (λ d. record d {
            billing_accounts = d.billing_accounts ++ new_billing_account environment owner id ∷ [];
          }))
        db

unfoldable pub identity : Others → BillingEnvironment → String → String → Db String
unfolding insert_identity
identity others environment owner random = do
  guard_owner owner
  insert_identity environment owner random
  await others 2
  row ← gets (λ db. billing_account environment owner db.billing_accounts)
  b ← or_throw row (plain "Billing identity was not persisted.")
  pure b.app_user_id

owner_of : Option BillingAccount → Option String
owner_of none = none
owner_of (some b) = some b.owner_sub

unfoldable pub billing_owner : BillingEnvironment → String → Database → Option String
unfolding owner_of
billing_owner environment id db = owner_of (
    find? (λ b. environment_eq b.environment environment && b.app_user_id == id)
      db.billing_accounts)

abbrev pub update_billing :
    (BillingAccount → Bool) → (BillingAccount → BillingAccount) → Database → Database
update_billing test f db = record db {
  billing_accounts = map (λ b. if test b then f b else b) db.billing_accounts;
}

abbrev pub advanced : BillingAccount → BillingAccount
advanced b = record b { generation = suc b.generation }

unfoldable pub begin_found : BillingEnvironment → String → Option BillingAccount → Db ℕ
begin_found environment owner none = throw (plain "Billing account is missing.")
begin_found environment owner (some b) = do
  guard_owner owner
  modify (update_billing (of_account environment owner) advanced)
  pure (suc b.generation)

unfoldable pub begin_sync : BillingEnvironment → String → Db ℕ
unfolding begin_found billing_account
begin_sync environment owner = do
  row ← gets (λ db. billing_account environment owner db.billing_accounts)
  begin_found environment owner row

-- `state_json IS NULL OR observedAt <= ?`
abbrev pub not_newer : Option BillingState → BillingState → Bool
not_newer none next = true
not_newer (some s) next = leb s.observed_at next.observed_at

abbrev pub accepts : BillingEnvironment → String → ℕ → BillingState → BillingAccount → Bool
accepts environment owner generation next b =
    of_account environment owner b && (nat_eq b.generation generation && not_newer b.state next)

abbrev pub observed : BillingState → BillingAccount → BillingAccount
observed next b = record b { state = some next }

unfoldable pub commit_sync : BillingEnvironment → String → ℕ → BillingState → Db Bool
commit_sync environment owner generation next db =
    if any (accepts environment owner generation next) db.billing_accounts
    then (guard_owner owner
          >> modify (update_billing (accepts environment owner generation next) (observed next))
          >> pure true)
        db
    else pure false db

state_of : Option BillingAccount → Option BillingState
state_of none = none
state_of (some b) = b.state

unfoldable pub billing_state : BillingEnvironment → String → Database → Option BillingState
unfolding state_of billing_account
billing_state environment owner db =
    state_of (billing_account environment owner db.billing_accounts)

abbrev of_event : BillingEnvironment → String → EventRow → Bool
of_event environment id e = environment_eq e.environment environment && e.id == id

unfoldable pub event_processed : BillingEnvironment → String → Database → Bool
event_processed environment id db = any (of_event environment id) db.events

unfoldable pub mark_event_processed : BillingEnvironment → String → ℕ → Database → Database
mark_event_processed environment id now db =
    if any (of_event environment id) db.events then db else record db {
      events = db.events ++ record { environment = environment; id = id; processed_at = now } ∷ [];
    }
