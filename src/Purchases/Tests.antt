-- ===== src/Purchases/Tests.antt =====
-- Synchronizations and notifications at concrete inputs, and the theorems at inputs that meet their
-- hypotheses.
use appbase.Prelude.{suc, ◌≡◌, refl, false, none, some, [], ◌∷◌, arith}
use appbase.Action.{ok, err, billing}
use appbase.Domain.Billing.{production, BillingCatalog, BillingState, sync_superseded}
use appbase.Database.{BillingAccount, Database, empty_database}
use appbase.AccountTable.{Others}
use appbase.BillingTable.{billing_account, update_billing, of_account, advanced}
use appbase.BillingTable.Rising.{Reached}
use appbase.Purchases.{BillingService, BillingWorld, synchronize, webhook, purchase_run}
use appbase.Purchases.Synchronizing.{synchronize-Reached, webhook_twice}

abbrev catalog : BillingCatalog
catalog = record {
  purchases = none;
  free_plan = record { id = "free"; display_name = none; capabilities = [] };
  plans = [];
  entitlement_plans = [];
  honor_grace_period = false;
}

abbrev service : BillingService
service = record { environment = production; legacy_catalog = some catalog }

abbrev snapshot : BillingState
snapshot = record { observed_at = 100; entitlements = []; management_url = none }

abbrev calm : BillingWorld
calm = record { others = λ n db. db; random = "u1"; subscriber = λ id. ok snapshot }

abbrev account : BillingAccount
account = record {
  environment = production;
  owner_sub = "ann";
  app_user_id = "u1";
  generation = 1;
  state = some snapshot;
}

abbrev synchronized : Database
synchronized = record empty_database { billing_accounts = account ∷ [] }

-- A newer synchronization begins while the provider answers.
abbrev overtaking : Others
overtaking (suc (suc (suc (suc n)))) db = update_billing (of_account production "ann") advanced db
overtaking n db = db

abbrev overtaken : Database
overtaken = record empty_database {
  billing_accounts = record account { generation = 2; state = none } ∷ [];
}

synchronize_first : synchronize service calm "ann" empty_database ≡ (ok snapshot, synchronized)
unfolding purchase_run
synchronize_first = refl

synchronize_superseded :
    synchronize service (record calm { others = overtaking }) "ann" empty_database
    ≡ (err (billing sync_superseded), overtaken)
unfolding purchase_run
synchronize_superseded = refl

abbrev notified : Database
notified = record synchronized {
  billing_accounts = record account { generation = 2 } ∷ [];
  events = record { environment = production; id = "e1"; processed_at = 200 } ∷ [];
}

webhook_first :
    webhook service (λ n. calm) 200 "e1" ("u1" ∷ "u2" ∷ "u1" ∷ []) synchronized ≡ (ok tt, notified)
unfolding purchase_run
webhook_first = refl

found_synchronized : billing_account production "ann" synchronized.billing_accounts ≡ some account
unfolding purchase_run
found_synchronized = refl

synchronize-Reached_example :
    Reached production "ann" 1 101 (synchronize service calm "bob" synchronized).1
synchronize-Reached_example =
    synchronize-Reached production "ann" "bob" 1 101 service calm synchronized (λ n db h. h)
      (account, found_synchronized, omega arith, omega arith)

webhook_twice_example :
    webhook service (λ n. calm) 300 "e1" ("u1" ∷ []) notified ≡ (ok tt, notified)
webhook_twice_example =
    webhook_twice service (λ n. calm) (λ n. calm) 200 300 "e1" ("u1" ∷ "u2" ∷ "u1" ∷ []) ("u1" ∷ [])
      synchronized notified notified tt webhook_first refl
