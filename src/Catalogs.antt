-- ===== src/Catalogs.antt =====
-- packages/server/src/domain/billing.ts, `validateCatalog`, and
-- packages/server/src/usecases/billing.ts, `BillingService.replaceCatalog`.
-- The names of capabilities and entitlements are own properties: names like `toString` are left out.
pub mod Plans
pub mod Accepted
mod Tests
use appbase.Prelude.{
  ℕ, zero, suc, ◌+◌, String, Bool, true, false, not, ◌&&◌, ◌||◌, Option, none, some, List, [], ◌∷◌,
  map, ◌==◌, leb, ltb, nat_eq, length, find?, any, all, lookup, if◌then◌else◌,
}
use appbase.Prelude.Int.{ℤ, pos, negsuc}
use appbase.Prelude.Text.{is_blank, text_length}
use appbase.Action.{Result, ok, err, billing, plain, pure, gets, lift, modify, require, ◌>>=◌, ◌>>◌}
use appbase.Domain.Membership.{Period, lifetime, utc_month, CapabilityDefinition, MembershipPlan}
use appbase.Domain.Billing.{
  BenefitSchema, BillingSchema, BillingCatalog, VersionedCatalog, PlatformPurchases,
  invalid_catalog, precondition_failed,
}
use appbase.Database.{Database, Db}
use appbase.Cursor.{max_safe_integer}
use appbase.AccountTable.{Others, await}
use appbase.BillingTable.{catalog_in, replace_catalog}
use appbase.Purchases.{BillingService, administration_catalog}

abbrev pub plans_of : BillingCatalog → List MembershipPlan
plans_of catalog = catalog.free_plan ∷ catalog.plans

abbrev pub original_plans : Option BillingCatalog → List MembershipPlan
original_plans none = []
original_plans (some baseline) = plans_of baseline

abbrev pub is_plan : List MembershipPlan → String → Bool
is_plan plans id = any (λ p. p.id == id) plans

-- `ids.length === new Set(ids).size`
abbrev pub distinct_ids : List MembershipPlan → Bool
distinct_ids [] = true
distinct_ids (p ∷ plans) = not (is_plan plans p.id) && distinct_ids plans

abbrev pub same_free : BillingCatalog → Option BillingCatalog → Bool
same_free catalog none = true
same_free catalog (some baseline) = catalog.free_plan.id == baseline.free_plan.id

abbrev pub keeps_ids : BillingCatalog → Option BillingCatalog → Option BillingSchema → Bool
keeps_ids catalog baseline (some schema) = true
keeps_ids catalog baseline none =
    all (λ p. is_plan (plans_of catalog) p.id) (original_plans baseline)

period_eq : Period → Period → Bool
period_eq lifetime lifetime = true
period_eq utc_month utc_month = true
period_eq _ _ = false

same_period : Option Period → Period → Bool
unfolding period_eq
same_period none q = false
same_period (some p) q = period_eq p q

valid_limit : Option ℤ → Bool
valid_limit none = true
valid_limit (some (pos n)) = leb n max_safe_integer
valid_limit (some (negsuc n)) = false

valid_name : Option String → Bool
valid_name none = true
valid_name (some name) = not (is_blank name) && leb (text_length name) 100

abbrev pub periods_of_plan : MembershipPlan → List (String × Period)
periods_of_plan plan = map (λ c. (c.0, c.1.period)) plan.capabilities

-- `(original.find((p) => p.id === plan.id) ?? baseline!.freePlan).capabilities`, or the schema's.
-- Without a schema and a baseline the code fails with a TypeError.
pub periods_for :
    Option BillingCatalog → Option BillingSchema → MembershipPlan → Result (List (String × Period))
periods_for baseline (some schema) plan = ok (map (λ c. (c.0, c.1.period)) schema.capabilities)
periods_for none none plan = err (plain "TypeError")
periods_for (some baseline) none plan = elim (find? (λ p. p.id == plan.id) (plans_of baseline)) [
  | some p ↦ ok (periods_of_plan p)
  | none ↦ ok (periods_of_plan baseline.free_plan)
]

pub valid_capabilities : List (String × Period) → MembershipPlan → Bool
unfolding same_period valid_limit
valid_capabilities periods plan =
    nat_eq (length plan.capabilities) (length periods)
    && all (λ c. same_period (lookup c.0 periods) c.1.period && valid_limit c.1.limit)
        plan.capabilities

abbrev pub checked : Bool → Result (Unit {0})
checked true = ok tt
checked false = err (billing invalid_catalog)

-- The guards of one round of the loop, then the next rounds.
check_plan :
    Result (List (String × Period)) → MembershipPlan → Result (Unit {0}) → Result (Unit {0})
unfolding valid_name valid_capabilities
check_plan (err e) plan rest = err e
check_plan (ok periods) plan rest =
    if valid_name plan.display_name
    then if valid_capabilities periods plan then rest else err (billing invalid_catalog)
    else err (billing invalid_catalog)

pub check_plans :
    Option BillingCatalog
    → Option BillingSchema
    → List MembershipPlan
    → Result (Unit {0})
    → Result (Unit {0})
unfolding check_plan periods_for
check_plans baseline schema [] rest = rest
check_plans baseline schema (p ∷ plans) rest =
    check_plan (periods_for baseline schema p) p (check_plans baseline schema plans rest)

abbrev pub entitlements_of : Option BillingCatalog → List (String × String)
entitlements_of none = []
entitlements_of (some baseline) = baseline.entitlement_plans

-- Historical entitlements are retained, and each names a paid plan.
abbrev pub keeps_entitlements : BillingCatalog → Option BillingCatalog → Bool
keeps_entitlements catalog baseline =
    all (λ e. any (λ f. f.0 == e.0) catalog.entitlement_plans) (entitlements_of baseline)
    && all (λ e. is_plan catalog.plans e.1) catalog.entitlement_plans

abbrev pub keeps_identities : BillingCatalog → Option BillingCatalog → Option BillingSchema → Bool
keeps_identities catalog baseline schema =
    same_free catalog baseline
    && (distinct_ids (plans_of catalog) && keeps_ids catalog baseline schema)

pub validate_catalog :
    BillingCatalog → Option BillingCatalog → Option BillingSchema → Result (Unit {0})
unfolding check_plans
validate_catalog catalog baseline schema =
    if keeps_identities catalog baseline schema
    then check_plans baseline schema (plans_of catalog)
        (checked (keeps_entitlements catalog baseline))
    else err (billing invalid_catalog)

revision_now : Option VersionedCatalog → ℕ
revision_now none = 0
revision_now (some v) = v.revision

catalog_now : Option VersionedCatalog → Option BillingCatalog
catalog_now none = none
catalog_now (some v) = some v.catalog

purchases_now : Option PlatformPurchases → Option VersionedCatalog → Option PlatformPurchases
purchases_now (some p) current = some p
purchases_now none none = none
purchases_now none (some v) = v.catalog.purchases

-- Older administrators do not send `purchases`; the stored policy stays.
pub with_purchases : BillingCatalog → Option VersionedCatalog → BillingCatalog
unfolding purchases_now
with_purchases catalog current = record catalog {
  purchases = purchases_now catalog.purchases current;
}

-- `this.legacyCatalog ? undefined : this.schema`
schema_for : BillingService → BillingSchema → Option BillingSchema
schema_for service schema = elim service.legacy_catalog [ none ↦ some schema | some c ↦ none ]

replace_from :
    BillingService
    → BillingSchema
    → Others
    → BillingCatalog
    → ℕ
    → Option VersionedCatalog
    → Db VersionedCatalog
unfolding revision_now catalog_now with_purchases schema_for
replace_from service schema others catalog revision current = do
  require (nat_eq (revision_now current) revision) (billing precondition_failed)
  lift (
      validate_catalog (with_purchases catalog current) (catalog_now current)
        (schema_for service schema))
  await others 0
  written ← replace_catalog others service.environment (with_purchases catalog current) revision
  require written (billing precondition_failed)
  pure (record { revision = suc revision; catalog = with_purchases catalog current })

-- `BillingService.replaceCatalog`
pub replace : BillingService → BillingSchema → Others → BillingCatalog → ℕ → Db VersionedCatalog
unfolding replace_from
replace service schema others catalog revision = do
  current ← gets (administration_catalog service)
  replace_from service schema others catalog revision current

-- Opens the catalogs for a run.
unfoldable pub catalog_run : Unit {0}
unfolding validate_catalog replace administration_catalog catalog_in replace_catalog is_blank
    text_length
catalog_run = tt
