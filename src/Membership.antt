-- ===== src/Membership.antt =====
-- packages/server/src/usecases/membership.ts: the plan of a user, and the use of its capabilities.
-- An instant is the number of milliseconds since 1970; a limit is a whole number.
pub mod Stored
pub mod Limits
mod Tests
use Prim.Native.String.{◌++◌}
use appbase.Prelude.{
  ℕ, String, Bool, true, false, not, Option, none, some, List, [], ◌∷◌, ◌==◌, get_or, find?, lookup,
  if◌then◌else◌,
}
use appbase.Prelude.Int.{ℤ}
use appbase.Prelude.Text.{text_of, two_digits, Month, utc_month_of}
use appbase.Action.{Result, ok, err, membership_limit, plain, pure, throw, lift, ◌>>=◌, ◌>>◌}
use appbase.Domain.Membership.{
  Period, lifetime, utc_month, CapabilityDefinition, MembershipPlan, MembershipGrant,
  CapabilitySnapshot, MembershipSnapshot,
}
use appbase.Database.{Db}
use appbase.Database.Fence.{guard_owner}
use appbase.MembershipTable.{
  ClaimResult, active_grant, count_usage, claim_unique_usage, release_usage,
}

-- `MembershipRepository` of usecases/membership_ports.ts
pub record MembershipRepository : Type 0 where
  pub active_grant : String → ℕ → Db (Option MembershipGrant)
  pub count_usage : String → String → String → Db ℕ
  pub claim_unique_usage : String → String → String → String → ℤ → ℕ → Db ClaimResult
  pub release_usage : String → String → String → String → Db (Unit {0})

-- `MembershipPlans`
pub record MembershipPlans : Type 0 where
  pub free_plan : MembershipPlan
  pub plans : List MembershipPlan

pub record MembershipConfig : Type 0 where
  pub load_catalog : Db MembershipPlans
  pub now : ℕ

month_key : Month → String
month_key m = text_of m.year ++ ("-" ++ two_digits m.month)

pub period_key_for : CapabilityDefinition → ℕ → String
unfolding month_key
period_key_for definition now = elim definition.period [
  | utc_month ↦ month_key (utc_month_of now)
  | lifetime ↦ "lifetime"
]

found_plan : String → Option MembershipPlan → Result MembershipPlan
found_plan id none = err (plain ("Unknown membership plan: " ++ id))
found_plan id (some plan) = ok plan

pub require_plan : String → MembershipPlans → Result MembershipPlan
unfolding found_plan
require_plan id config = found_plan id (find? (λ p. p.id == id) (config.free_plan ∷ config.plans))

found_capability : String → Option CapabilityDefinition → Result CapabilityDefinition
found_capability name none = err (plain ("Unknown membership capability: " ++ name))
found_capability name (some definition) = ok definition

pub require_capability : MembershipPlan → String → Result CapabilityDefinition
unfolding found_capability
require_capability plan name = found_capability name (lookup name plan.capabilities)

pub plan_of : Option MembershipGrant → MembershipPlans → Result MembershipPlan
plan_of none config = ok config.free_plan
plan_of (some grant) config = require_plan grant.plan_id config

grant_end : Option MembershipGrant → Option ℕ
grant_end none = none
grant_end (some g) = g.ends_at

module _ (repository : MembershipRepository) (config : MembershipConfig) where
  pub plan_for : String → Db MembershipPlan
  plan_for owner = do
    grant ← repository.active_grant owner config.now
    plans ← config.load_catalog
    lift (plan_of grant plans)

  capability_snapshots :
      String → List (String × CapabilityDefinition) → Db (List (String × CapabilitySnapshot))
  capability_snapshots owner [] = pure []
  capability_snapshots owner ((name, definition) ∷ rest) = do
    used ← repository.count_usage owner name (period_key_for definition config.now)
    snapshots ← capability_snapshots owner rest
    pure (
        (
          name,
          record {
            definition = definition;
            used = used;
            period_key = period_key_for definition config.now;
          },
        )
        ∷ snapshots)

  pub snapshot : String → Db MembershipSnapshot
  unfolding capability_snapshots
  snapshot owner = do
    plans ← config.load_catalog
    grant ← repository.active_grant owner config.now
    plan ← lift (plan_of grant plans)
    capabilities ← capability_snapshots owner plan.capabilities
    pure (record {
      plan_id = plan.id;
      display_name = get_or plan.display_name plan.id;
      is_paid = not (plan.id == plans.free_plan.id);
      grant_ends_at = grant_end grant;
      capabilities = capabilities;
    })

  claim_result : String → ℤ → String → ClaimResult → Result Bool
  claim_result capability limit period r =
      if r.allowed then ok r.created else err (membership_limit capability limit r.used period)

  -- `definition.limit === null` claims nothing.
  claim_limited : String → String → String → CapabilityDefinition → Option ℤ → Db Bool
  claim_limited owner capability item definition none = pure false
  claim_limited owner capability item definition (some limit) = do
    r ←
        repository.claim_unique_usage owner capability (period_key_for definition config.now) item
          limit config.now
    lift (claim_result capability limit (period_key_for definition config.now) r)

  pub claim_unique : String → String → String → Db Bool
  unfolding claim_limited
  claim_unique owner capability item = do
    plan ← plan_for owner
    definition ← lift (require_capability plan capability)
    claim_limited owner capability item definition definition.limit

  release_limited : String → String → String → CapabilityDefinition → Option ℤ → Db (Unit {0})
  release_limited owner capability item definition none = pure tt
  release_limited owner capability item definition (some limit) =
      repository.release_usage owner capability (period_key_for definition config.now) item

  pub release_unique : String → String → String → Db (Unit {0})
  unfolding release_limited
  release_unique owner capability item = do
    plan ← plan_for owner
    definition ← lift (require_capability plan capability)
    release_limited owner capability item definition definition.limit

  pub limit_of : String → String → Db (Option ℤ)
  limit_of owner capability = do
    plan ← plan_for owner
    definition ← lift (require_capability plan capability)
    pure definition.limit

-- Opens the membership for a run.
unfoldable pub membership_run : Unit {0}
unfolding claim_unique release_unique snapshot limit_of plan_for plan_of require_plan
    require_capability claim_result period_key_for text_of two_digits utc_month_of
    claim_unique_usage release_usage count_usage active_grant grant_end guard_owner
membership_run = tt
