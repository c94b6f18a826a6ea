-- ===== src/MembershipTable/Counting.antt =====
-- How many items are used, before and after a row is written or deleted.
use mathlib.Core.List.{append-nil}
use appbase.Prelude.{
  ℕ, suc, String, ◌≡◌, refl, ap, ◌∙◌, true, false, not, List, [], ◌∷◌, arith, eq_iff, eq_refl,
  length, length-append, select, select-append, any,
}
use appbase.Domain.Billing.{BillingEnvironment, production, sandbox, environment_eq}
use appbase.Database.{UsageRow, Database}
use appbase.MembershipTable.{
  UsageKey, of_key, of_item, usage_row, with_item, count_usage, has_item, release_usage,
}

environment_refl : (e : BillingEnvironment) → environment_eq e e ≡ true
environment_refl production = refl
environment_refl sandbox = refl

environment_sound : (e f : BillingEnvironment) → environment_eq e f ≡ true → e ≡ f
environment_sound production production h = refl
environment_sound sandbox sandbox h = refl
environment_sound production sandbox h = cc h
environment_sound sandbox production h = cc h

pub of_key_self :
    (key : UsageKey) (item : String) (created : ℕ) → of_key key (usage_row key item created) ≡ true
of_key_self key item created = rw (environment_refl key.environment) (simp eq_refl)

pub of_item_self :
    (key : UsageKey) (item : String) (created : ℕ)
    → of_item key item (usage_row key item created) ≡ true
of_item_self key item created = rw (of_key_self key item created) (eq_refl item)

-- A row of one key is counted for that key alone.
pub same_key :
    (key other : UsageKey) (item : String) (created : ℕ)
    → of_key key (usage_row other item created) ≡ true
    → other ≡ key
same_key key other item created h =
    let parts : (environment_eq other.environment key.environment ≡ true)
        × (other.owner_sub ≡ key.owner_sub)
        × (other.capability ≡ key.capability)
        × (other.period_key ≡ key.period_key) =
      ground (
        arith,
        eq_iff other.owner_sub key.owner_sub,
        eq_iff other.capability key.capability,
        eq_iff other.period_key key.period_key,
      ) in
    let (environment, owner, capability, period) = parts in
    λ i. record {
      environment = environment_sound other.environment key.environment environment i;
      owner_sub = owner i;
      capability = capability i;
      period_key = period i;
    }

pub count-with_item :
    (key : UsageKey) (item : String) (created : ℕ) (db : Database)
    → count_usage key (with_item key item created db) ≡ suc (count_usage key db)
unfolding count_usage
count-with_item key item created db =
    ap length (select-append (of_key key) db.usage (usage_row key item created ∷ []))
    ∙ length-append (select (of_key key) db.usage) _
    ∙ rw (of_key_self key item created) (omega arith)

pub count-other :
    (key other : UsageKey) (item : String) (created : ℕ) (db : Database)
    → of_key key (usage_row other item created) ≡ false
    → count_usage key (with_item other item created db) ≡ count_usage key db
unfolding count_usage
count-other key other item created db h =
    ap length (
      select-append (of_key key) db.usage (usage_row other item created ∷ []) ∙ rw h (append-nil _))

-- Deleting a row that was just written leaves the table as it was.
pub release-with_item :
    (key : UsageKey) (item : String) (created : ℕ) (db : Database)
    → has_item key item db ≡ false
    → release_usage key item (with_item key item created db) ≡ db
unfolding has_item release_usage
release-with_item key item created db new =
    ap (λ us. record db { usage = us })
      (select-append (λ u. not (of_item key item u)) db.usage (usage_row key item created ∷ [])
        ∙ rw (of_item_self key item created) (append-nil _)
        ∙ keep db.usage new)
  where
    keep :
        (us : List UsageRow)
        → any (of_item key item) us ≡ false
        → select (λ u. not (of_item key item u)) us ≡ us
    keep [] h = refl
    keep (u ∷ us) h = ground (arith, keep us)
