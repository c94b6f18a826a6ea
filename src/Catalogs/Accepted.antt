-- ===== src/Catalogs/Accepted.antt =====
-- What an accepted catalog keeps of the one before it.
use appbase.Prelude.{
  String, ◌≡◌, ◌≢◌, refl, inl, inr, Bool, true, false, Option, none, some, List, [], ◌∷◌, arith,
  ◌==◌, eq_iff, any, any-true, all, All, All-mono, lookup, Bool-cases, if◌then◌else◌,
}
use appbase.Action.{Result, ok, err, billing}
use appbase.Domain.Membership.{MembershipPlan}
use appbase.Domain.Billing.{BillingSchema, BillingCatalog, invalid_catalog}
use appbase.Catalogs.{
  plans_of, is_plan, distinct_ids, same_free, keeps_ids, original_plans, entitlements_of,
  keeps_entitlements, keeps_identities, checked, validate_catalog,
}
use appbase.Catalogs.Plans.{all-All, split_and, Listed, plan_named, IsPlan, check_plans_ok}

-- No two plans have one id.
abbrev pub AreDistinct : List MembershipPlan → Type 0
AreDistinct [] = Unit
AreDistinct (p ∷ plans) = All (λ q. q.id ≢ p.id) plans × AreDistinct plans

other_ids :
    (id : String) (plans : List MembershipPlan)
    → is_plan plans id ≡ false
    → All (λ q. q.id ≢ id) plans
other_ids id [] h = tt
other_ids id (q ∷ plans) h = ground (arith, eq_iff q.id id, other_ids id plans)

distinct-AreDistinct : (plans : List MembershipPlan) → distinct_ids plans ≡ true → AreDistinct plans
distinct-AreDistinct [] h = tt
distinct-AreDistinct (p ∷ plans) h = elim (Bool-cases (is_plan plans p.id)) [
  | inl again ↦ absurd (ground arith)
  | inr once ↦ (other_ids p.id plans once, distinct-AreDistinct plans (ground arith))
]

abbrev pub HasFree : BillingCatalog → Option BillingCatalog → Type 0
HasFree catalog none = Unit
HasFree catalog (some baseline) = catalog.free_plan.id ≡ baseline.free_plan.id

-- One of the plans has the id.
abbrev pub HasId : List MembershipPlan → String → Type 0
HasId plans id = (p : MembershipPlan) × Listed p plans × (p.id ≡ id)

is_plan-HasId :
    (id : String) (plans : List MembershipPlan) → is_plan plans id ≡ true → HasId plans id
is_plan-HasId id plans h = elim (plan_named id plans) [
  | inl (p, member, named, _) ↦ (p, member, named)
  | inr (_, missing) ↦ absurd (any-true (λ p. p.id == id) plans h missing)
]

abbrev pub HasPlans : BillingCatalog → Option BillingCatalog → Option BillingSchema → Type 0
HasPlans catalog baseline (some schema) = Unit
HasPlans catalog none none = Unit
HasPlans catalog (some baseline) none =
    All (λ p. HasId (catalog.free_plan ∷ catalog.plans) p.id) (baseline.free_plan ∷ baseline.plans)

abbrev pub HasEntitlements : BillingCatalog → Option BillingCatalog → Type 0
HasEntitlements catalog none = Unit
HasEntitlements catalog (some baseline) =
    All (λ e. lookup e.0 catalog.entitlement_plans ≢ none) baseline.entitlement_plans

pub record IsAccepted (catalog : BillingCatalog) (baseline : Option BillingCatalog)
    (schema : Option BillingSchema) : Type 0 where
  -- The default plan is the same one.
  pub free : HasFree catalog baseline
  pub distinct : AreDistinct (catalog.free_plan ∷ catalog.plans)
  -- Without a schema, no plan is taken away.
  pub plans : HasPlans catalog baseline schema
  pub each : All (IsPlan baseline schema) (catalog.free_plan ∷ catalog.plans)
  -- No entitlement is taken away, and each gives a paid plan.
  pub entitlements : HasEntitlements catalog baseline
  pub paid : All (λ e. HasId catalog.plans e.1) catalog.entitlement_plans

same_free-HasFree :
    (catalog : BillingCatalog) (baseline : Option BillingCatalog)
    → same_free catalog baseline ≡ true
    → HasFree catalog baseline
same_free-HasFree catalog none h = tt
same_free-HasFree catalog (some b) h = (eq_iff catalog.free_plan.id b.free_plan.id).0 h

keeps_ids-HasPlans :
    (catalog : BillingCatalog) (baseline : Option BillingCatalog) (schema : Option BillingSchema)
    → keeps_ids catalog baseline schema ≡ true
    → HasPlans catalog baseline schema
keeps_ids-HasPlans catalog baseline (some schema) h = tt
keeps_ids-HasPlans catalog none none h = tt
keeps_ids-HasPlans catalog (some baseline) none h =
    All-mono (λ p k. is_plan-HasId p.id (plans_of catalog) k) (original_plans (some baseline))
      (all-All (λ p. is_plan (plans_of catalog) p.id) (original_plans (some baseline)) h)

named_entitlement :
    (name : String) (entitlements : List (String × String))
    → any (λ f. f.0 == name) entitlements ≡ true
    → lookup name entitlements ≢ none
named_entitlement name [] h e = cc h
named_entitlement name (f ∷ rest) h e = ground (arith, h, named_entitlement name rest)

entitlements-HasEntitlements :
    (catalog : BillingCatalog) (baseline : Option BillingCatalog)
    → all (λ e. any (λ f. f.0 == e.0) catalog.entitlement_plans) (entitlements_of baseline) ≡ true
    → HasEntitlements catalog baseline
entitlements-HasEntitlements catalog none h = tt
entitlements-HasEntitlements catalog (some baseline) h =
    All-mono (λ x k. named_entitlement x.0 catalog.entitlement_plans k) baseline.entitlement_plans
      (all-All (λ x. any (λ f. f.0 == x.0) catalog.entitlement_plans) baseline.entitlement_plans h)

identities_ok :
    (kept : Bool) (rest : Result (Unit {0})) (u : Unit {0})
    → (if kept then rest else err (billing invalid_catalog)) ≡ ok u
    → (kept ≡ true) × (rest ≡ ok u)
identities_ok true rest u h = (refl, h)
identities_ok false rest u h = cc h

checked_ok : (b : Bool) (u : Unit {0}) → checked b ≡ ok u → b ≡ true
checked_ok true u h = refl
checked_ok false u h = cc h

-- A catalog that `validateCatalog` accepts has the default plan of the catalog before it and
-- distinct plan ids; without a schema it has every plan of before. Each plan has no name or one that
-- is not blank and has up to a hundred characters, and as many capabilities as are required (those
-- of the schema or, without one, of the plan of the same id before, or of the default plan before
-- if there was none), each a required one with its period, and each limit, if there is one, is
-- between 0 and 2^53 - 1. No entitlement of before is gone, and each gives a plan that is for sale.
pub validate_catalog-IsAccepted :
    (catalog : BillingCatalog) (baseline : Option BillingCatalog) (schema : Option BillingSchema)
    (u : Unit {0})
    → validate_catalog catalog baseline schema ≡ ok u
    → IsAccepted catalog baseline schema
unfolding validate_catalog
validate_catalog-IsAccepted catalog baseline schema u h =
    let (kept, rest) = identities_ok (keeps_identities catalog baseline schema) _ u h in
    let (periods, last) =
      check_plans_ok baseline schema (plans_of catalog)
        (checked (keeps_entitlements catalog baseline)) u rest in
    let (same, others) = split_and (same_free catalog baseline) _ kept in
    let (distinct, ids) = split_and (distinct_ids (plans_of catalog)) _ others in
    let (old, paid) =
      split_and
        (all (λ e. any (λ f. f.0 == e.0) catalog.entitlement_plans) (entitlements_of baseline)) _
        (checked_ok (keeps_entitlements catalog baseline) u last) in
    record {
      free = same_free-HasFree catalog baseline same;
      distinct = distinct-AreDistinct (plans_of catalog) distinct;
      plans = keeps_ids-HasPlans catalog baseline schema ids;
      each = periods;
      entitlements = entitlements-HasEntitlements catalog baseline old;
      paid =
          All-mono (λ x k. is_plan-HasId x.1 catalog.plans k) catalog.entitlement_plans
            (all-All (λ x. is_plan catalog.plans x.1) catalog.entitlement_plans paid);
    }
