-- ===== src/Purchases.antt =====
-- packages/server/src/usecases/billing.ts: `BillingService`, and
-- packages/server/src/usecases/billing_membership_repository.ts.
pub mod Synchronizing
mod Tests
use appbase.Prelude.{
  ℕ, zero, suc, ◌+◌, String, Bool, true, false, not, ◌&&◌, Option, none, some, List, [], ◌∷◌, ◌==◌,
  nat_eq, any, if◌then◌else◌,
}
use appbase.Action.{
  Result, billing, pure, throw, gets, lift, modify, require, or_throw, ◌>>=◌, ◌>>◌,
}
use appbase.Domain.Billing.{
  BillingEnvironment, BillingCatalog, VersionedCatalog, BillingState, configuration_missing,
  sync_superseded,
}
use appbase.Domain.Membership.{MembershipGrant}
use appbase.Database.{Database, Db}
use appbase.Database.Fence.{guard_owner}
use appbase.AccountTable.{Others, await}
use appbase.Billing.{billing_grant}
use appbase.BillingTable.{
  catalog_in, billing_account, identity, billing_owner, begin_sync, commit_sync, billing_state,
  event_processed, mark_event_processed,
}
use appbase.Membership.{MembershipRepository}

-- What surrounds one synchronization: the other requests, the random identity, and the answers of
-- the payment provider.
pub record BillingWorld : Type 0 where
  pub others : Others
  pub random : String
  pub subscriber : String → Result BillingState

-- `BillingService`, with the catalog that a host has from before the schema.
pub record BillingService : Type 0 where
  pub environment : BillingEnvironment
  pub legacy_catalog : Option BillingCatalog

or_legacy : Option VersionedCatalog → Option BillingCatalog → Option VersionedCatalog
or_legacy (some stored) legacy = some stored
or_legacy none none = none
or_legacy none (some catalog) = some (record { revision = 0; catalog = catalog })

unfoldable pub administration_catalog : BillingService → Database → Option VersionedCatalog
unfolding or_legacy
administration_catalog service db =
    or_legacy (catalog_in service.environment db) service.legacy_catalog

unfoldable pub catalog_for : BillingService → Db VersionedCatalog
catalog_for service = do
  result ← gets (administration_catalog service)
  or_throw result (billing configuration_missing)

unfoldable pub synchronize : BillingService → BillingWorld → String → Db BillingState
synchronize service world owner = do
  catalog_for service
  await world.others 1
  id ← identity world.others service.environment owner world.random
  await world.others 3
  generation ← begin_sync service.environment owner
  state ← lift (world.subscriber id)
  await world.others 4
  committed ← commit_sync service.environment owner generation state
  require committed (billing sync_superseded)
  pure state

-- `new Set(event.userIds)`: each id once, in the order of its first place.
unfoldable pub distinct : List String → List String → List String
distinct seen [] = []
distinct seen (id ∷ ids) =
    let rest = distinct (id ∷ seen) ids in
    let others = distinct seen ids in if any (λ s. s == id) seen then others else id ∷ rest

synchronize_owner : BillingService → BillingWorld → Option String → Db (Unit {0})
synchronize_owner service world none = pure tt
synchronize_owner service world (some owner) = synchronize service world owner >> pure tt

-- The loop, then the mark; the n-th id has the n-th world.
pub synchronize_ids :
    BillingService → (ℕ → BillingWorld) → ℕ → String → ℕ → List String → Db (Unit {0})
unfolding synchronize_owner
synchronize_ids service worlds now event n [] = do
  await (worlds n).others 5
  modify (mark_event_processed service.environment event now)
synchronize_ids service worlds now event n (id ∷ ids) = do
  await (worlds n).others 0
  owner ← gets (billing_owner service.environment id)
  synchronize_owner service (worlds n) owner
  synchronize_ids service worlds now event (suc n) ids

unless_processed :
    BillingService → (ℕ → BillingWorld) → ℕ → String → List String → Bool → Db (Unit {0})
unfolding synchronize_ids
unless_processed service worlds now event ids true = pure tt
unless_processed service worlds now event ids false =
    synchronize_ids service worlds now event 0 (distinct [] ids)

unfoldable pub webhook :
    BillingService → (ℕ → BillingWorld) → ℕ → String → List String → Db (Unit {0})
unfolding unless_processed
webhook service worlds now event ids = do
  processed ← gets (event_processed service.environment event)
  unless_processed service worlds now event ids processed

pub prefer_billing :
    MembershipRepository → String → ℕ → Option MembershipGrant → Db (Option MembershipGrant)
prefer_billing membership owner now (some grant) = pure (some grant)
prefer_billing membership owner now none = membership.active_grant owner now

-- `BillingMembershipRepository`
abbrev pub billing_membership :
    MembershipRepository → BillingEnvironment → Db BillingCatalog → Bool → MembershipRepository
billing_membership membership environment catalog sandbox = record membership {
  active_grant = λ owner now. do
    state ← gets (billing_state environment owner)
    offered ← catalog
    prefer_billing membership owner now (billing_grant state offered now sandbox);
}

-- Opens the purchases for a run.
unfoldable pub purchase_run : Unit {0}
unfolding synchronize catalog_for administration_catalog webhook distinct unless_processed
    synchronize_ids catalog_in identity begin_sync commit_sync billing_account billing_owner
    event_processed mark_event_processed guard_owner
purchase_run = tt
