-- ===== src/Catalogs/Plans.antt =====
-- What `validateCatalog` makes sure of for each plan.
use appbase.Prelude.{
  ℕ, ◌≤◌, String, ◌≡◌, ◌≢◌, refl, ap, ◌⊎◌, inl, inr, Bool, true, false, ◌&&◌, Option, none, some,
  List, [], ◌∷◌, arith, ◌==◌, eq_iff, all, All, All-mono, map, length, lookup, find?, nat_eq,
  nat_eq_iff, Bool-cases, if◌then◌else◌,
}
use appbase.Prelude.Int.{ℤ, pos, negsuc}
use appbase.Prelude.Text.{is_blank, text_length}
use appbase.Action.{Result, ok, err, billing}
use appbase.Domain.Membership.{Period, lifetime, utc_month, MembershipPlan}
use appbase.Domain.Billing.{BillingSchema, BillingCatalog, invalid_catalog}
use appbase.Catalogs.{
  valid_limit, valid_name, valid_capabilities, period_eq, same_period, check_plan, periods_for,
  check_plans,
}

both_tests :
    (a b : Bool) (rest : Result (Unit {0})) (u : Unit {0})
    → (if a
        then if b then rest else err (billing invalid_catalog)
        else err (billing invalid_catalog))
      ≡ ok u
    → (a ≡ true) × (b ≡ true) × (rest ≡ ok u)
both_tests true true rest u h = (refl, refl, h)
both_tests true false rest u h = cc h
both_tests false b rest u h = cc h

pub all-All : {A : Type 0} (p : A → Bool) (xs : List A) → all p xs ≡ true → All (λ x. p x ≡ true) xs
all-All p [] h = tt
all-All p (x ∷ xs) h = ground (arith, all-All p xs)

-- One of the plans.
abbrev pub Listed : MembershipPlan → List MembershipPlan → Type 0
Listed p [] = ⊥
Listed p (q ∷ plans) = (q ≡ p) ⊎ Listed p plans

-- A limit that the database and JSON hold exactly: none, or from 0 to 2^53 - 1.
abbrev pub IsLimit : Option ℤ → Type 0
IsLimit none = Unit
IsLimit (some z) = (n : ℕ) × (z ≡ pos n) × (n ≤ 9007199254740991)

-- A name for people is left out, or has up to a hundred characters and is not blank.
abbrev pub IsName : Option String → Type 0
IsName none = Unit
IsName (some name) = (is_blank name ≡ false) × (text_length name ≤ 100)

abbrev pub periods_in : MembershipPlan → List (String × Period)
periods_in plan = map (λ c. (c.0, c.1.period)) plan.capabilities

-- The capabilities that a plan has to have: those that the schema names or, without one, those of
-- the plan of this id before, and of the default plan before if there was none.
abbrev pub AreRequired :
    Option BillingCatalog → Option BillingSchema → MembershipPlan → List (String × Period) → Type 0
AreRequired baseline (some schema) plan periods =
    periods ≡ map (λ c. (c.0, c.1.period)) schema.capabilities
AreRequired none none plan periods = ⊥
AreRequired (some old) none plan periods =
    ((p : MembershipPlan) × Listed p (old.free_plan ∷ old.plans)
      × (p.id ≡ plan.id)
      × (periods ≡ periods_in p))
    ⊎ (All (λ p. p.id ≢ plan.id) (old.free_plan ∷ old.plans) × (periods ≡ periods_in old.free_plan))

-- As many capabilities as required, each of the required period and with a limit that is held.
pub record HasCapabilities (periods : List (String × Period)) (plan : MembershipPlan) : Type 0 where
  pub as_many : length plan.capabilities ≡ length periods
  pub each : All (λ c. (lookup c.0 periods ≡ some c.1.period) × IsLimit c.1.limit) plan.capabilities

abbrev pub IsPlan : Option BillingCatalog → Option BillingSchema → MembershipPlan → Type 0
IsPlan baseline schema plan =
    IsName plan.display_name
    × ((periods : List (String × Period)) × AreRequired baseline schema plan periods
        × HasCapabilities periods plan)

valid_limit-IsLimit : (limit : Option ℤ) → valid_limit limit ≡ true → IsLimit limit
unfolding valid_limit
valid_limit-IsLimit none h = tt
valid_limit-IsLimit (some (pos n)) h = (n, refl, ground (arith, h))
valid_limit-IsLimit (some (negsuc n)) h = cc h

valid_name-IsName : (name : Option String) → valid_name name ≡ true → IsName name
unfolding valid_name
valid_name-IsName none h = tt
valid_name-IsName (some name) h = (ground (arith, h), ground (arith, h))

equal_period : (p q : Period) → period_eq p q ≡ true → p ≡ q
unfolding period_eq
equal_period lifetime lifetime h = refl
equal_period utc_month utc_month h = refl
equal_period lifetime utc_month h = cc h
equal_period utc_month lifetime h = cc h

same_period-eq : (o : Option Period) (q : Period) → same_period o q ≡ true → o ≡ some q
unfolding same_period
same_period-eq none q h = cc h
same_period-eq (some p) q h = ap some (equal_period p q h)

pub split_and : (a b : Bool) → (a && b) ≡ true → (a ≡ true) × (b ≡ true)
split_and a b h = ground arith

valid_capabilities-HasCapabilities :
    (periods : List (String × Period)) (plan : MembershipPlan)
    → valid_capabilities periods plan ≡ true
    → HasCapabilities periods plan
unfolding valid_capabilities
valid_capabilities-HasCapabilities periods plan h =
    let (count, every) = split_and (nat_eq (length plan.capabilities) (length periods)) _ h in
    record {
      as_many = (nat_eq_iff (length plan.capabilities) (length periods)).0 count;
      each =
          All-mono
            (λ c k.
              let (period, limit) =
                split_and (same_period (lookup c.0 periods) c.1.period) (valid_limit c.1.limit) k in
              (
                same_period-eq (lookup c.0 periods) c.1.period period,
                valid_limit-IsLimit c.1.limit limit,
              ))
            plan.capabilities
            (all-All (λ c. same_period (lookup c.0 periods) c.1.period && valid_limit c.1.limit)
              plan.capabilities every);
    }

-- The first plan of an id, or the proof that there is none.
pub plan_named :
    (id : String) (plans : List MembershipPlan)
    → ((p : MembershipPlan) × Listed p plans
        × (p.id ≡ id)
        × (find? (λ p. p.id == id) plans ≡ some p))
      ⊎ (All (λ p. p.id ≢ id) plans × (find? (λ p. p.id == id) plans ≡ none))
plan_named id [] = inr (tt, refl)
plan_named id (p ∷ plans) = elim (Bool-cases (p.id == id)) [
  | inl same ↦ inl (p, inl refl, (eq_iff p.id id).0 same, rw same refl)
  | inr other ↦ elim (plan_named id plans) [
    | inl (q, member, named, found) ↦ inl (q, inr member, named, rw other found)
    | inr (none_named, found) ↦
        inr ((λ e. absurd (cc (other, (eq_iff p.id id).1 e)), none_named), rw other found)
  ]
]

periods_for-AreRequired :
    (baseline : Option BillingCatalog) (schema : Option BillingSchema) (plan : MembershipPlan)
    (periods : List (String × Period))
    → periods_for baseline schema plan ≡ ok periods
    → AreRequired baseline schema plan periods
unfolding periods_for
periods_for-AreRequired baseline (some schema) plan periods h = cc h
periods_for-AreRequired none none plan periods h = cc h
periods_for-AreRequired (some old) none plan periods h =
    elim (plan_named plan.id (old.free_plan ∷ old.plans)) [
      | inl (p, member, named, found) ↦ inl (p, member, named, cc (h, found))
      | inr (other, missing) ↦ inr (other, cc (h, missing))
    ]

check_plan_ok :
    (baseline : Option BillingCatalog) (schema : Option BillingSchema) (plan : MembershipPlan)
    (periods : Result (List (String × Period))) (rest : Result (Unit {0})) (u : Unit {0})
    → periods_for baseline schema plan ≡ periods
    → check_plan periods plan rest ≡ ok u
    → IsPlan baseline schema plan × (rest ≡ ok u)
unfolding check_plan
check_plan_ok baseline schema plan (err e) rest u same h = cc h
check_plan_ok baseline schema plan (ok ps) rest u same h =
    let (named, capable, more) =
      both_tests (valid_name plan.display_name) (valid_capabilities ps plan) rest u h in
    (
      (
        valid_name-IsName plan.display_name named,
        (
          ps,
          periods_for-AreRequired baseline schema plan ps same,
          valid_capabilities-HasCapabilities ps plan capable,
        ),
      ),
      more,
    )

pub check_plans_ok :
    (baseline : Option BillingCatalog) (schema : Option BillingSchema) (plans : List MembershipPlan)
    (rest : Result (Unit {0})) (u : Unit {0})
    → check_plans baseline schema plans rest ≡ ok u
    → All (IsPlan baseline schema) plans × (rest ≡ ok u)
unfolding check_plans
check_plans_ok baseline schema [] rest u h = (tt, h)
check_plans_ok baseline schema (p ∷ plans) rest u h =
    let (mine, more) =
      check_plan_ok baseline schema p (periods_for baseline schema p)
        (check_plans baseline schema plans rest) u refl h in
    let (theirs, last) = check_plans_ok baseline schema plans rest u more in ((mine, theirs), last)
