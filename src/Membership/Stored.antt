-- ===== src/Membership/Stored.antt =====
-- `D1MembershipRepository` as a repository of the service.
use appbase.Prelude.{String}
use appbase.Action.{gets, modify}
use appbase.Domain.Billing.{BillingEnvironment}
use appbase.AccountTable.{Others}
use appbase.MembershipTable.{UsageKey, active_grant, count_usage, claim_unique_usage, release_usage}
use appbase.Membership.{MembershipRepository}

abbrev pub usage_key : BillingEnvironment → String → String → String → UsageKey
usage_key environment owner capability period = record {
  environment = environment;
  owner_sub = owner;
  capability = capability;
  period_key = period;
}

abbrev pub stored : BillingEnvironment → Others → MembershipRepository
stored environment others = record {
  active_grant = λ owner now. gets (active_grant environment owner now);
  count_usage =
      λ owner capability period. gets (count_usage (usage_key environment owner capability period));
  claim_unique_usage = λ owner capability period item limit now.
      claim_unique_usage others (usage_key environment owner capability period) item limit now;
  release_usage = λ owner capability period item.
      modify (release_usage (usage_key environment owner capability period) item);
}
