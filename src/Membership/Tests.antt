-- ===== src/Membership/Tests.antt =====
-- Plans and claims at concrete inputs, and the theorems at inputs that meet their hypotheses.
use appbase.Prelude.{◌≡◌, refl, Bool, true, false, none, some, [], ◌∷◌}
use appbase.Prelude.Int.{pos}
use appbase.Action.{Result, ok, err, pure, membership_limit}
use appbase.Domain.Billing.{production}
use appbase.Domain.Membership.{utc_month, CapabilityDefinition, MembershipPlan, MembershipSnapshot}
use appbase.Database.{Database, empty_database}
use appbase.Database.Fence.{guard_owner}
use appbase.AccountTable.{Others}
use appbase.MembershipTable.{with_item}
use appbase.Membership.{
  MembershipPlans, MembershipConfig, period_key_for, claim_unique, snapshot, membership_run,
}
use appbase.Membership.Stored.{usage_key, stored}
use appbase.Membership.Limits.{IsLimited, Outcome, claim_unique-Outcome}

abbrev books : CapabilityDefinition
books = record { limit = some (pos 1); period = utc_month }

abbrev free : MembershipPlan
free = record { id = "free"; display_name = some "Free"; capabilities = ("books", books) ∷ [] }

abbrev plans : MembershipPlans
plans = record { free_plan = free; plans = [] }

-- 14 November 2023
abbrev config : MembershipConfig
config = record { load_catalog = pure plans; now = 1700000000000 }

abbrev calm : Others
calm n db = db

november : period_key_for books 1700000000000 ≡ "2023-11"
unfolding membership_run
november = refl

leap_day : period_key_for books 951782400000 ≡ "2000-02"
unfolding membership_run
leap_day = refl

abbrev one_book : Database
one_book =
    with_item (usage_key production "ann" "books" "2023-11") "b1" 1700000000000 empty_database

claim_one :
    claim_unique (stored production calm) config "ann" "books" "b1" empty_database
    ≡ (ok true, one_book)
unfolding membership_run
claim_one = refl

claim_two :
    claim_unique (stored production calm) config "ann" "books" "b2" one_book
    ≡ (err (membership_limit "books" (pos 1) 1 "2023-11"), one_book)
unfolding membership_run
claim_two = refl

abbrev ann_snapshot : MembershipSnapshot
ann_snapshot = record {
  plan_id = "free";
  display_name = "Free";
  is_paid = false;
  grant_ends_at = none;
  capabilities = ("books", record { definition = books; used = 1; period_key = "2023-11" }) ∷ [];
}

snapshot_one : snapshot (stored production calm) config "ann" one_book ≡ (ok ann_snapshot, one_book)
unfolding membership_run
snapshot_one = refl

IsLimited-empty : IsLimited production calm config "ann" "books" "b1" books (pos 1) empty_database
unfolding membership_run
IsLimited-empty = record { plan = free; planned = refl; capable = refl; limited = refl }

claim_unique-Outcome_example :
    (r : Result Bool) × (db' : Database) × (claim_unique
        (stored production calm)
        config
        "ann"
        "books"
        "b1"
        empty_database
      ≡ (r, db'))
    × Outcome production calm config "ann" "books" "b1" books (pos 1) empty_database r db'
unfolding guard_owner
claim_unique-Outcome_example =
    claim_unique-Outcome production calm config "ann" "books" "b1" (λ n db. refl) books (pos 1)
      empty_database IsLimited-empty refl

abbrev taken_book : Database
taken_book =
    with_item (usage_key production "ann" "books" (period_key_for books 1700000000000)) "b1"
      1700000000000 empty_database

IsLimited-taken : IsLimited production calm config "ann" "books" "b1" books (pos 1) taken_book
unfolding membership_run
IsLimited-taken = record { plan = free; planned = refl; capable = refl; limited = refl }
