-- ===== src/MembershipTable/Tests.antt =====
-- Claims at concrete inputs, and the theorems at inputs that meet their hypotheses.
use appbase.Prelude.{ℕ, String, ◌≡◌, refl, true, false, none, some, [], ◌∷◌, arith}
use appbase.Prelude.Int.{pos}
use appbase.Action.{ok}
use appbase.Domain.Billing.{production}
use appbase.Database.{GrantRow, Database, empty_database}
use appbase.Database.Fence.{guard_owner}
use appbase.AccountTable.{Others}
use appbase.MembershipTable.{UsageKey, with_item, ClaimResult, claim_unique_usage, active_grant}
use appbase.MembershipTable.Claims.{IsWithin, claim-IsWithin, IsClaimed, new}

abbrev calm : Others
calm n db = db

abbrev key : UsageKey
key = record {
  environment = production;
  owner_sub = "ann";
  capability = "books";
  period_key = "lifetime";
}

abbrev one_item : Database
one_item = with_item key "b1" 10 empty_database

abbrev first_result : ClaimResult
first_result = record { allowed = true; created = true; used = 1 }

claim_first :
    claim_unique_usage calm key "b1" (pos 1) 10 empty_database ≡ (ok first_result, one_item)
unfolding claim_unique_usage guard_owner
claim_first = refl

claim_second :
    claim_unique_usage calm key "b2" (pos 1) 11 one_item
    ≡ (ok (record { allowed = false; created = false; used = 1 }), one_item)
unfolding claim_unique_usage guard_owner
claim_second = refl

abbrev grant : String → ℕ → GrantRow
grant plan start = record {
  environment = production;
  id = plan;
  owner_sub = "ann";
  plan_id = plan;
  source = "admin";
  starts_at = start;
  ends_at = some 50;
  created_at = 1;
}

-- The grant that started last is the active one, until it ends.
grant_latest :
    active_grant production "ann" 30
      (record empty_database { grants = grant "p1" 10 ∷ grant "p2" 20 ∷ [] })
    ≡ some (record { plan_id = "p2"; starts_at = 20; ends_at = some 50 })
unfolding active_grant
grant_latest = refl

grant_ended :
    active_grant production "ann" 50 (record empty_database { grants = grant "p1" 10 ∷ [] }) ≡ none
unfolding active_grant
grant_ended = refl

claim-IsWithin_example : IsWithin key 1 (claim_unique_usage calm key "b2" (pos 1) 11 one_item).1
unfolding claim_unique_usage guard_owner
claim-IsWithin_example =
    claim-IsWithin calm key key "b2" 1 1 11 one_item (λ same. omega arith) (λ k db h. h)
      (omega arith)

first-IsClaimed : IsClaimed key "b1" (pos 1) 10 empty_database first_result one_item
unfolding claim_unique_usage
first-IsClaimed = new refl (omega arith)
