-- ===== src/Catalogs/Tests.antt =====
-- Catalogs at concrete inputs, and the theorem at an input that meets its hypothesis.
use appbase.Prelude.{◌≡◌, refl, true, none, some, [], ◌∷◌}
use appbase.Prelude.Int.{pos, negsuc}
use appbase.Action.{ok, err, billing}
use appbase.Domain.Membership.{utc_month, MembershipPlan}
use appbase.Domain.Billing.{
  production, BillingSchema, BillingCatalog, invalid_catalog, precondition_failed,
}
use appbase.Database.{Database, empty_database}
use appbase.AccountTable.{Others}
use appbase.Purchases.{BillingService}
use appbase.Catalogs.{validate_catalog, replace, catalog_run}
use appbase.Catalogs.Accepted.{IsAccepted, validate_catalog-IsAccepted}

abbrev free : MembershipPlan
free = record {
  id = "free";
  display_name = some "Free";
  capabilities = ("books", record { limit = some (pos 3); period = utc_month }) ∷ [];
}

abbrev pro : MembershipPlan
pro = record free {
  id = "pro";
  capabilities = ("books", record { limit = none; period = utc_month }) ∷ [];
}

abbrev first_catalog : BillingCatalog
first_catalog = record {
  purchases = none;
  free_plan = free;
  plans = pro ∷ [];
  entitlement_plans = ("e1", "pro") ∷ [];
  honor_grace_period = true;
}

abbrev schema : BillingSchema
schema = record {
  capabilities =
      (
        "books",
        record { display_name = "Books"; description = ""; unit = "books"; period = utc_month },
      )
      ∷ [];
}

accepted : validate_catalog first_catalog (some first_catalog) none ≡ ok tt
unfolding catalog_run
accepted = refl

entitlement_gone :
    validate_catalog (record first_catalog { entitlement_plans = [] }) (some first_catalog) none
    ≡ err (billing invalid_catalog)
unfolding catalog_run
entitlement_gone = refl

blank_name :
    validate_catalog
      (record first_catalog { free_plan = record free { display_name = some "  " } })
      none
      (some schema)
    ≡ err (billing invalid_catalog)
unfolding catalog_run
blank_name = refl

negative_limit :
    validate_catalog
      (record first_catalog {
        plans =
            record pro {
              capabilities = ("books", record { limit = some (negsuc 0); period = utc_month }) ∷ [];
            }
            ∷ [];
      })
      none
      (some schema)
    ≡ err (billing invalid_catalog)
unfolding catalog_run
negative_limit = refl

abbrev calm : Others
calm n db = db

abbrev service : BillingService
service = record { environment = production; legacy_catalog = none }

abbrev stored : Database
stored = record empty_database {
  catalogs = record { environment = production; revision = 1; catalog = first_catalog } ∷ [];
}

replace_first :
    replace service schema calm first_catalog 0 empty_database
    ≡ (ok (record { revision = 1; catalog = first_catalog }), stored)
unfolding catalog_run
replace_first = refl

replace_stale :
    replace service schema calm first_catalog 0 stored ≡ (err (billing precondition_failed), stored)
unfolding catalog_run
replace_stale = refl

validate_catalog-IsAccepted_example : IsAccepted first_catalog (some first_catalog) none
validate_catalog-IsAccepted_example =
    validate_catalog-IsAccepted first_catalog (some first_catalog) none tt accepted
