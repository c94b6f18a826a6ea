-- ===== src/Accounts/BillingWrites.antt =====
-- So do the statements on the billing accounts.
use appbase.Prelude.{
  ℕ, String, ◌≡◌, refl, Option, none, some, Bool, true, false, [], ◌∷◌, ◌++◌, ◌==◌, any, not,
  if◌then◌else◌,
}
use appbase.Action.{rejected, plain, pure, gets, modify, require, or_throw, ◌>>◌}
use appbase.Action.Keeps.{Keeps, Keeps-pure, Keeps-gets, Keeps-or_throw, Keeps-modify, Keeps-bind}
use appbase.Domain.Billing.{BillingEnvironment, BillingState}
use appbase.Database.{Database, BillingAccount}
use appbase.Database.Fence.{fenced, guard_owner}
use appbase.AccountTable.{Others, await}
use appbase.AccountTable.Absent.{append-Absent}
use appbase.AccountTable.Keeping.{Respected}
use appbase.BillingTable.{
  billing_account, of_account, new_billing_account, insert_identity, identity, begin_found,
  begin_sync, update_billing, advanced, accepts, observed, commit_sync,
}
use appbase.Accounts.Writes.{OnlyOf, Allows, map-Absent, branch_owner, guarded-Keeps, at_step}

module _ (P : Database → Type 0) (allows : Allows P) where
  -- An update of the billing accounts of one owner.
  update_billing-OnlyOf :
      (owner : String) (test : BillingAccount → Bool) (f : BillingAccount → BillingAccount)
      (db : Database)
      → ((b : BillingAccount) → (f b).owner_sub ≡ b.owner_sub)
      → OnlyOf owner db (update_billing test f db)
  update_billing-OnlyOf owner test f db same = record {
    accounts = refl;
    rows = λ id other rows. rows;
    billing = λ id other b.
        map-Absent (λ r. r.owner_sub) id _
          (λ r. branch_owner (λ x. x.owner_sub) (test r) (f r) r (same r)) db.billing_accounts b;
  }

  insert_identity-P :
      (environment : BillingEnvironment) (owner id : String) (db : Database)
      → fenced db.accounts owner ≡ false
      → P db
      → P (insert_identity environment owner id db).1
  unfolding insert_identity
  insert_identity-P environment owner id db free h =
      go (any (of_account environment owner) db.billing_accounts)
        (not (any (λ b. b.app_user_id == id) db.billing_accounts))
    where
      go :
          (known unused : Bool)
          → P
              (if known
                then pure tt db
                else (require unused (rejected "appbase_billing_accounts")
                      >> modify (λ d. record d {
                        billing_accounts =
                            d.billing_accounts ++ new_billing_account environment owner id ∷ [];
                      }))
                    db).1
      go true unused = h
      go false false = h
      go false true =
          allows.writes owner db _
            (record {
              accounts = refl;
              rows = λ other_id other rows. rows;
              billing = λ other_id other b.
                  append-Absent (λ r. r.owner_sub) other_id db.billing_accounts _ other b;
            })
            free h

  module _ (others : Others) (kept : Respected P others) where
    pub identity-Keeps :
        (environment : BillingEnvironment) (owner random : String)
        → Keeps P (identity others environment owner random)
    unfolding identity
    identity-Keeps environment owner random = guarded-Keeps P allows owner _ λ db free h.
        at_step P allows (insert_identity environment owner random db) _
          (insert_identity-P environment owner random db free h)
          λ _. Keeps-bind (await others 2) _ (Keeps-modify (others 2) (kept 2)) λ _.
            Keeps-bind (gets (λ db. billing_account environment owner db.billing_accounts)) _
              (Keeps-gets (λ db. billing_account environment owner db.billing_accounts))
              λ row.
                Keeps-bind (or_throw row (plain "Billing identity was not persisted.")) _
                  (Keeps-or_throw row (plain "Billing identity was not persisted."))
                  λ b. Keeps-pure b.app_user_id

  begin_found-Keeps :
      (environment : BillingEnvironment) (owner : String) (o : Option BillingAccount)
      → Keeps P (begin_found environment owner o)
  unfolding begin_found
  begin_found-Keeps environment owner none = record { leaves = λ db h. h }
  begin_found-Keeps environment owner (some b) = guarded-Keeps P allows owner _ λ db free h.
      allows.writes owner db _
        (update_billing-OnlyOf owner (of_account environment owner) advanced db (λ b. refl)) free h

  pub begin_sync-Keeps :
      (environment : BillingEnvironment) (owner : String) → Keeps P (begin_sync environment owner)
  unfolding begin_sync
  begin_sync-Keeps environment owner =
      Keeps-bind (gets (λ db. billing_account environment owner db.billing_accounts)) _
        (Keeps-gets (λ db. billing_account environment owner db.billing_accounts))
        (begin_found-Keeps environment owner)

  pub commit_sync-Keeps :
      (environment : BillingEnvironment) (owner : String) (generation : ℕ) (next : BillingState)
      → Keeps P (commit_sync environment owner generation next)
  unfolding commit_sync
  commit_sync-Keeps environment owner generation next = record {
    leaves = λ db h. go (any (accepts environment owner generation next) db.billing_accounts) db h;
  }
    where
      go :
          (found : Bool) (db : Database)
          → P db
          → P
              (if found
                then (guard_owner owner
                      >> modify (
                          update_billing
                            (accepts environment owner generation next)
                            (observed next))
                      >> pure true)
                    db
                else pure false db).1
      go false db h = h
      go true db h =
          (Keeps-bind _ _
              (guarded-Keeps P allows owner
                (modify
                  (update_billing (accepts environment owner generation next) (observed next)))
                λ d free k.
                  allows.writes owner d _
                    (update_billing-OnlyOf owner (accepts environment owner generation next)
                      (observed next) d (λ b. refl))
                    free k)
              (λ _. Keeps-pure true)).leaves
            db h
