-- ===== src/MembershipTable.antt =====
-- packages/server/src/adapters/d1_membership_repository.ts: grants of plans and used capabilities.
-- Of several grants that start at the same instant the first row is taken; the query leaves open
-- which it is.
pub mod Counting
pub mod Claims
mod Tests
use appbase.Prelude.{
  ℕ, suc, ◌+◌, String, Bool, true, false, not, ◌&&◌, ◌||◌, Option, none, some, List, [], ◌∷◌, ◌++◌,
  map, ◌==◌, ltb, leb, length, select, any, if◌then◌else◌,
}
use appbase.Prelude.Int.{ℤ, pos, ltb_ℤ}
use appbase.Action.{pure, gets, modify, ◌>>=◌, ◌>>◌}
use appbase.Domain.Billing.{BillingEnvironment, environment_eq}
use appbase.Domain.Membership.{MembershipGrant}
use appbase.Database.{GrantRow, UsageRow, Database, Db}
use appbase.Database.Fence.{guard_owner}
use appbase.AccountTable.{Others, await}

-- `ends_at IS NULL OR ends_at > ?2`
abbrev pub is_open : Option ℕ → ℕ → Bool
is_open none now = true
is_open (some t) now = ltb now t

abbrev pub is_active_grant : BillingEnvironment → String → ℕ → GrantRow → Bool
is_active_grant environment owner now g =
    environment_eq g.environment environment
    && (g.owner_sub == owner && (leb g.starts_at now && is_open g.ends_at now))

-- ORDER BY starts_at DESC LIMIT 1
latest_of : GrantRow → List GrantRow → GrantRow
latest_of best [] = best
latest_of best (g ∷ grants) = latest_of (if ltb best.starts_at g.starts_at then g else best) grants

latest : List GrantRow → Option GrantRow
unfolding latest_of
latest [] = none
latest (g ∷ grants) = some (latest_of g grants)

grant_of : Option GrantRow → Option MembershipGrant
grant_of none = none
grant_of (some g) =
    some (record { plan_id = g.plan_id; starts_at = g.starts_at; ends_at = g.ends_at })

unfoldable pub active_grant : BillingEnvironment → String → ℕ → Database → Option MembershipGrant
unfolding latest grant_of
active_grant environment owner now db =
    grant_of (latest (select (is_active_grant environment owner now) db.grants))

-- The input of `putGrant` is a row, without the environment.
abbrev pub same_grant : BillingEnvironment → String → GrantRow → Bool
same_grant environment id g = environment_eq g.environment environment && g.id == id

abbrev pub replaced : GrantRow → GrantRow → GrantRow
replaced input g = record g {
  plan_id = input.plan_id;
  starts_at = input.starts_at;
  ends_at = input.ends_at;
}

-- The triggers before an update, for each row that it changes.
unfoldable pub guard_update : List GrantRow → Db (Unit {0})
guard_update [] = pure tt
guard_update (g ∷ grants) = guard_owner g.owner_sub >> guard_update grants

unfoldable pub write_grant : BillingEnvironment → GrantRow → Database → Database
write_grant environment input db =
    if any (same_grant environment input.id) db.grants
    then record db {
      grants =
          map (λ g. if same_grant environment input.id g then replaced input g else g) db.grants;
    }
    else record db { grants = db.grants ++ record input { environment = environment } ∷ [] }

unfoldable pub put_grant : BillingEnvironment → GrantRow → Db (Unit {0})
unfolding guard_update write_grant
put_grant environment input = do
  guard_owner input.owner_sub
  known ← gets (λ db. select (same_grant environment input.id) db.grants)
  guard_update known
  modify (write_grant environment input)

-- What is counted together: one capability of an owner in one period.
pub record UsageKey : Type 0 where
  pub environment : BillingEnvironment
  pub owner_sub : String
  pub capability : String
  pub period_key : String

abbrev pub of_key : UsageKey → UsageRow → Bool
of_key key u =
    environment_eq u.environment key.environment
    && (u.owner_sub == key.owner_sub
        && (u.capability == key.capability && u.period_key == key.period_key))

abbrev pub of_item : UsageKey → String → UsageRow → Bool
of_item key item u = of_key key u && u.item_key == item

unfoldable pub count_usage : UsageKey → Database → ℕ
count_usage key db = length (select (of_key key) db.usage)

unfoldable pub has_item : UsageKey → String → Database → Bool
has_item key item db = any (of_item key item) db.usage

abbrev pub usage_row : UsageKey → String → ℕ → UsageRow
usage_row key item created = record {
  environment = key.environment;
  owner_sub = key.owner_sub;
  capability = key.capability;
  period_key = key.period_key;
  item_key = item;
  created_at = created;
}

abbrev pub with_item : UsageKey → String → ℕ → Database → Database
with_item key item created db = record db { usage = db.usage ++ usage_row key item created ∷ [] }

-- The statement's WHERE, then ON CONFLICT DO NOTHING. The result says whether a row was written.
unfoldable pub claim_insert : UsageKey → String → ℤ → ℕ → Db Bool
unfolding has_item count_usage
claim_insert key item limit created db =
    if has_item key item db
    then (guard_owner key.owner_sub >> pure false) db
    else if ltb_ℤ (pos (count_usage key db)) limit
    then (guard_owner key.owner_sub >> modify (with_item key item created) >> pure true) db
    else pure false db

pub record ClaimResult : Type 0 where
  pub allowed : Bool
  pub created : Bool
  pub used : ℕ

unfoldable pub claim_unique_usage : Others → UsageKey → String → ℤ → ℕ → Db ClaimResult
unfolding claim_insert
claim_unique_usage others key item limit now = do
  created ← claim_insert key item limit now
  await others 1
  used ← gets (count_usage key)
  await others 2
  existing ← gets (has_item key item)
  pure (record { allowed = existing; created = created; used = used })

unfoldable pub release_usage : UsageKey → String → Database → Database
release_usage key item db = record db { usage = select (λ u. not (of_item key item u)) db.usage }
