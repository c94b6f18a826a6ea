-- ===== src/Domain/Billing.antt =====
-- packages/server/src/domain/billing.ts: catalogs, entitlements and the provider's snapshots.
use appbase.Prelude.{ℕ, String, Bool, true, false, Option, List}
use appbase.Domain.Membership.{Period, MembershipPlan}

pub record BenefitSchema : Type 0 where
  pub display_name : String
  pub description : String
  pub unit : String
  pub period : Period

pub record BillingSchema : Type 0 where
  pub capabilities : List (String × BenefitSchema)

pub data BillingEnvironment : Type 0 where
  production sandbox : BillingEnvironment

abbrev pub environment_eq : BillingEnvironment → BillingEnvironment → Bool
environment_eq production production = true
environment_eq sandbox sandbox = true
environment_eq _ _ = false

pub record PurchaseAvailability : Type 0 where
  pub enabled : Bool
  pub message : String

pub record PlatformPurchases : Type 0 where
  pub ios : PurchaseAvailability
  pub android : PurchaseAvailability

abbrev pub default_platform_purchases : PlatformPurchases
default_platform_purchases = record {
  ios = record { enabled = true; message = "" };
  android = record { enabled = true; message = "" };
}

pub record BillingCatalog : Type 0 where
  pub purchases : Option PlatformPurchases
  pub free_plan : MembershipPlan
  pub plans : List MembershipPlan
  pub entitlement_plans : List (String × String)
  pub honor_grace_period : Bool

pub record VersionedCatalog : Type 0 where
  pub revision : ℕ
  pub catalog : BillingCatalog

pub record BillingEntitlement : Type 0 where
  pub id : String
  pub product_id : String
  pub store : String
  pub sandbox : Bool
  pub starts_at : ℕ
  pub expires_at : Option ℕ
  pub grace_ends_at : Option ℕ
  pub will_renew : Bool

pub record BillingState : Type 0 where
  pub observed_at : ℕ
  pub entitlements : List BillingEntitlement
  pub management_url : Option String

-- The codes of `BillingError`.
pub data BillingCode : Type 0 where
  configuration_missing : BillingCode
  invalid_catalog : BillingCode
  precondition_failed : BillingCode
  sync_superseded : BillingCode
  provider_unavailable : BillingCode
  invalid_provider_response : BillingCode
