-- ===== src/Domain/Membership.antt =====
-- packages/server/src/domain/membership.ts: plans, capabilities and grants.
use appbase.Prelude.{ℕ, String, Bool, Option, List}
use appbase.Prelude.Int.{ℤ}

pub data Period : Type 0 where
  lifetime utc_month : Period

-- A limit of `null` is none.
pub record CapabilityDefinition : Type 0 where
  pub limit : Option ℤ
  pub period : Period

pub record MembershipPlan : Type 0 where
  pub id : String
  pub display_name : Option String
  pub capabilities : List (String × CapabilityDefinition)

pub record MembershipGrant : Type 0 where
  pub plan_id : String
  pub starts_at : ℕ
  pub ends_at : Option ℕ

pub record CapabilitySnapshot : Type 0 where
  pub definition : CapabilityDefinition
  pub used : ℕ
  pub period_key : String

pub record MembershipSnapshot : Type 0 where
  pub plan_id : String
  pub display_name : String
  pub is_paid : Bool
  pub grant_ends_at : Option ℕ
  pub capabilities : List (String × CapabilitySnapshot)
