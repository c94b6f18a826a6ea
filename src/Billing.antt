-- ===== src/Billing.antt =====
-- packages/server/src/domain/billing.ts, `billingGrant`: the plan that a user's purchases give.
-- The ids of entitlements are looked up as own properties: ids like `toString` are left out.
pub mod Sorting
pub mod Chosen
mod Tests
use appbase.Prelude.{
  ℕ, String, Bool, true, false, not, ◌&&◌, Option, none, some, List, [], ◌∷◌, map, ◌==◌, ltb, leb,
  option_eq, select, lookup, if◌then◌else◌,
}
use appbase.Domain.Billing.{BillingCatalog, BillingEntitlement, BillingState}
use appbase.Domain.Membership.{MembershipPlan, MembershipGrant}

abbrev pub bool_is : Bool → Bool → Bool
bool_is true b = b
bool_is false b = not b

-- The first filter.
abbrev pub belongs : BillingCatalog → ℕ → Bool → MembershipPlan → BillingEntitlement → Bool
belongs catalog now sandbox plan e =
    bool_is e.sandbox sandbox
    && (option_eq (lookup e.id catalog.entitlement_plans) (some plan.id) && leb e.starts_at now)

-- Of the end and the end of the grace period, both there, the later.
abbrev pub later_end : Option ℕ → Option ℕ → Option ℕ
later_end (some grace) (some expires) = if ltb expires grace then some grace else some expires
later_end none expires = expires
later_end (some grace) none = none

abbrev pub end_of : BillingCatalog → BillingEntitlement → Option ℕ
end_of catalog e =
    if catalog.honor_grace_period then later_end e.grace_ends_at e.expires_at else e.expires_at

abbrev pub grant_for : BillingCatalog → MembershipPlan → BillingEntitlement → MembershipGrant
grant_for catalog plan e = record {
  plan_id = plan.id;
  starts_at = e.starts_at;
  ends_at = end_of catalog e;
}

-- `g.endsAt === null || g.endsAt > now`
abbrev pub runs : ℕ → Option ℕ → Bool
runs now none = true
runs now (some t) = ltb now t

-- The comparison of the sort is negative: `a` ends later than `b`, or never.
abbrev pub ends_later : Option ℕ → Option ℕ → Bool
ends_later none none = false
ends_later none (some t) = true
ends_later (some s) none = false
ends_later (some s) (some t) = ltb t s

-- The sort, which keeps the order of equal grants.
insert_grant : MembershipGrant → List MembershipGrant → List MembershipGrant
insert_grant g [] = g ∷ []
insert_grant g (h ∷ hs) =
    if ends_later h.ends_at g.ends_at then h ∷ insert_grant g hs else g ∷ h ∷ hs

pub sort_grants : List MembershipGrant → List MembershipGrant
unfolding insert_grant
sort_grants [] = []
sort_grants (g ∷ gs) = insert_grant g (sort_grants gs)

pub grants_for :
    BillingCatalog → ℕ → Bool → MembershipPlan → List BillingEntitlement → List MembershipGrant
grants_for catalog now sandbox plan entitlements =
    select (λ g. runs now g.ends_at)
      (map (grant_for catalog plan) (select (belongs catalog now sandbox plan) entitlements))

-- `if (grants[0]) return grants[0]`
first_or : List MembershipGrant → Option MembershipGrant → Option MembershipGrant
first_or [] rest = rest
first_or (g ∷ gs) rest = some g

grant_among :
    BillingCatalog
    → ℕ
    → Bool
    → List BillingEntitlement
    → List MembershipPlan
    → Option MembershipGrant
unfolding sort_grants grants_for first_or
grant_among catalog now sandbox entitlements [] = none
grant_among catalog now sandbox entitlements (plan ∷ plans) =
    first_or (sort_grants (grants_for catalog now sandbox plan entitlements))
      (grant_among catalog now sandbox entitlements plans)

unfoldable pub billing_grant :
    Option BillingState → BillingCatalog → ℕ → Bool → Option MembershipGrant
unfolding grant_among
billing_grant none catalog now sandbox = none
billing_grant (some state) catalog now sandbox =
    grant_among catalog now sandbox state.entitlements catalog.plans
