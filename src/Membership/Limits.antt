-- ===== src/Membership/Limits.antt =====
-- What `claimUnique` and `releaseUnique` do over the D1 repository.
use appbase.Prelude.{ℕ, suc, String, ◌≡◌, refl, ap, ◌∙◌, Bool, true, false, some}
use appbase.Prelude.Int.{ℤ, pos, ◌<ℤ◌}
use appbase.Action.{Result, ok, err, membership_limit}
use appbase.Domain.Billing.{BillingEnvironment}
use appbase.Domain.Membership.{CapabilityDefinition, MembershipPlan}
use appbase.Database.{Database}
use appbase.Database.Fence.{fenced}
use appbase.AccountTable.{Others}
use appbase.MembershipTable.{
  UsageKey, ClaimResult, with_item, count_usage, has_item, claim_unique_usage,
}
use appbase.MembershipTable.Claims.{IsClaimed, known, new, refused, claim-IsClaimed, release-claim}
use appbase.Membership.{
  MembershipConfig, period_key_for, require_capability, plan_for, claim_result, claim_limited,
  claim_unique, release_limited, release_unique,
}
use appbase.Membership.Stored.{usage_key, stored}

module _ (environment : BillingEnvironment) (others : Others) (config : MembershipConfig)
    (owner capability item : String) where
  abbrev period : CapabilityDefinition → String
  period definition = period_key_for definition config.now

  abbrev key : CapabilityDefinition → UsageKey
  key definition = usage_key environment owner capability (period definition)

  -- The user's plan has the capability, and gives it this limit.
  pub record IsLimited (definition : CapabilityDefinition) (limit : ℤ) (db : Database)
      : Type 0 where
    pub plan : MembershipPlan
    pub planned : plan_for (stored environment others) config owner db ≡ (ok plan, db)
    pub capable : require_capability plan capability ≡ ok definition
    pub limited : definition.limit ≡ some limit

  claim_runs :
      (definition : CapabilityDefinition) (limit : ℤ) (r : ClaimResult) (db db' : Database)
      → IsLimited definition limit db
      → claim_unique_usage others (key definition) item limit config.now db ≡ (ok r, db')
      → claim_unique (stored environment others) config owner capability item db ≡ (
        claim_result (stored environment others) config capability limit (period definition) r,
        db',
      )
  unfolding claim_unique claim_limited
  claim_runs definition limit r db db' h run =
      rw (h.planned, h.capable)
        (ap
            (λ o.
              claim_limited (stored environment others) config owner capability item definition o
                db)
            h.limited
          ∙ rw run refl)

  -- What the call comes to.
  pub data Outcome (definition : CapabilityDefinition) (limit : ℤ) (db : Database)
      : Result Bool → Database → Type 0 where
    held : has_item (key definition) item db ≡ true → Outcome definition limit db (ok false) db
    taken :
        has_item (key definition) item db ≡ false
        → pos (count_usage (key definition) db) <ℤ limit
        → Outcome definition limit db (ok true) (with_item (key definition) item config.now db)
    refused_at :
        has_item (key definition) item db ≡ false
        → limit <ℤ pos (suc (count_usage (key definition) db))
        → Outcome definition limit db
            (err (
              membership_limit capability limit
                (count_usage (key definition) db)
                (period definition)))
            db

  of_claim :
      (definition : CapabilityDefinition) (limit : ℤ) (db : Database) (r : ClaimResult)
      (db' : Database)
      → IsClaimed (key definition) item limit config.now db r db'
      → Outcome definition limit db
          (claim_result (stored environment others) config capability limit (period definition) r)
          db'
  unfolding claim_result
  of_claim definition limit db r db' (known there) = held there
  of_claim definition limit db r db' (new absent below) = taken absent below
  of_claim definition limit db r db' (refused absent full) = refused_at absent full

  module _ (calm : (n : ℕ) (db : Database) → others n db ≡ db) where
    -- A claim of a limited capability, for an account that is not closed and with no other request
    -- in between: an item that the user holds is not taken again, a new one is taken if fewer than
    -- the limit are used in the period, and else `MembershipLimitError` tells the limit and how
    -- many are used, and nothing is written.
    pub claim_unique-Outcome :
        (definition : CapabilityDefinition) (limit : ℤ) (db : Database)
        → IsLimited definition limit db
        → fenced db.accounts owner ≡ false
        → (r : Result Bool) × (db' : Database) × (claim_unique
              (stored environment others)
              config
              owner
              capability
              item
              db
            ≡ (r, db'))
          × Outcome definition limit db r db'
    claim_unique-Outcome definition limit db h free =
        let (r, db', run, claimed) =
          claim-IsClaimed others calm (key definition) item limit config.now db free in
        (
          claim_result (stored environment others) config capability limit (period definition) r,
          db',
          claim_runs definition limit r db db' h run,
          of_claim definition limit db r db' claimed,
        )

  -- Releasing an item that was just taken gives the database back.
  pub release-taken :
      (definition : CapabilityDefinition) (limit : ℤ) (db : Database)
      → has_item (key definition) item db ≡ false
      → pos (count_usage (key definition) db) <ℤ limit
      → IsLimited definition limit (with_item (key definition) item config.now db)
      → release_unique
          (stored environment others)
          config
          owner
          capability
          item
          (with_item (key definition) item config.now db)
        ≡ (ok tt, db)
  unfolding release_unique release_limited
  release-taken definition limit db absent below h =
      let db' = with_item (key definition) item config.now db in
      rw (h.planned, h.capable)
        (ap
            (λ o.
              release_limited (stored environment others) config owner capability item definition o
                db')
            h.limited
          ∙ λ i. (
            ok tt,
            release-claim (key definition) item limit config.now db _ _ (new absent below) refl i,
          ))
