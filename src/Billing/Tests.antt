-- ===== src/Billing/Tests.antt =====
-- The choice of a grant at concrete inputs.
use appbase.Prelude.{◌≡◌, refl, true, false, none, some, [], ◌∷◌}
use appbase.Domain.Billing.{BillingCatalog, BillingEntitlement, BillingState}
use appbase.Domain.Membership.{MembershipPlan}
use appbase.Billing.{billing_grant}
use appbase.Billing.Chosen.{IsChosen, billing_grant-IsChosen}

abbrev pro : MembershipPlan
pro = record { id = "pro"; display_name = none; capabilities = [] }

abbrev basic : MembershipPlan
basic = record { id = "basic"; display_name = none; capabilities = [] }

abbrev catalog : BillingCatalog
catalog = record {
  purchases = none;
  free_plan = record { id = "free"; display_name = none; capabilities = [] };
  plans = pro ∷ basic ∷ [];
  entitlement_plans = ("p", "pro") ∷ ("b", "basic") ∷ [];
  honor_grace_period = true;
}

abbrev entitlement : BillingEntitlement
entitlement = record {
  id = "b";
  product_id = "x";
  store = "app_store";
  sandbox = false;
  starts_at = 10;
  expires_at = some 20;
  grace_ends_at = some 30;
  will_renew = false;
}

abbrev state : BillingState
state = record {
  observed_at = 15;
  entitlements =
      record entitlement { id = "p"; expires_at = some 22; grace_ends_at = none }
      ∷ entitlement
      ∷ record entitlement { expires_at = none }
      ∷ [];
  management_url = none;
}

pro_first :
    billing_grant (some state) catalog 21 false
    ≡ some (record { plan_id = "pro"; starts_at = 10; ends_at = some 22 })
unfolding billing_grant
pro_first = refl

basic_forever :
    billing_grant (some state) catalog 25 false
    ≡ some (record { plan_id = "basic"; starts_at = 10; ends_at = none })
unfolding billing_grant
basic_forever = refl

billing_grant-IsChosen_example :
    IsChosen catalog 21 false state.entitlements catalog.plans
      (billing_grant (some state) catalog 21 false)
billing_grant-IsChosen_example = billing_grant-IsChosen state catalog 21 false
