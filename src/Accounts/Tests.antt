-- ===== src/Accounts/Tests.antt =====
-- The life of one account at concrete inputs, and the theorems at inputs that meet their hypotheses.
use appbase.Prelude.{
  ℕ, zero, suc, String, ◌≡◌, refl, sym, subst, inl, true, false, none, some, [], ◌∷◌, arith,
}
use appbase.Action.{ok, err, plain, lifecycle, account_deleted, account_deleting, account_exists}
use appbase.Json.{str}
use appbase.Domain.Billing.{production}
use appbase.Database.{Account, Device, Database, empty_database}
use appbase.Records.{AppendVersionInput}
use appbase.AccountTable.{due, expire_sessions, find_account, new_account, begun, completed}
use appbase.AccountTable.Erased.{AreErased, NoData}
use appbase.AccountTable.Status.{Passed}
use appbase.Deletion.{AccountWorld, delete}
use appbase.Deletion.Finish.{Among, IsGone, delete-IsGone}
use appbase.Accounts.{
  Principal, OpenInput, Opened, open_account, authenticate, require_account, request_deletion,
  process, process_due, account_run,
}
use appbase.Accounts.Erasure.{opening, cleaning, serve, serve-AreErased}
use appbase.Accounts.Lifecycle.{serve-Passed}
use appbase.Accounts.Sessions.{IsIssued, open_account-IsIssued}
use appbase.Accounts.Attempts.{Tried, process_due-Tried}
use appbase.Accounts.Cleanup.{
  request_deletion-NoData, process_due-all, after_all, IsPostponed, process-IsPostponed,
}

abbrev names : ℕ → String
names zero = "a0"
names (suc zero) = "t1"
names (suc (suc n)) = "t2"

abbrev same_text : String → String
same_text s = s

abbrev calm : AccountWorld
calm = record {
  others = λ n db. db;
  now = λ n. 100;
  unixepoch = λ n. 100;
  random = names;
  delete_product_data = λ id. ok tt;
  delete_billing_identity = λ id. ok tt;
}

-- The provider of payments is not there.
abbrev broken : AccountWorld
broken = record calm { delete_billing_identity = λ id. err (plain "unreachable") }

abbrev ann : Principal
ann = record { sub = "ann"; scopes = "sync" ∷ []; account_id = none }

abbrev bearer : Principal
bearer = record ann { account_id = some "a_a0" }

abbrev first_time : OpenInput
first_time = record { device_id = "phone"; register = true; account_id = none }

abbrev account : Account
account = new_account "a_a0" "ann" 100

abbrev device : Device
device = record {
  token_hash = "ab1_t1t2";
  account_id = "a_a0";
  device_id = "phone";
  scopes = "sync" ∷ [];
  created_at = 100;
  expires_at = 1900;
}

abbrev opened : Opened
opened = record { account_id = "a_a0"; access_token = "ab1_t1t2"; expires_at = 1900 }

abbrev registered : Database
registered = record empty_database { accounts = account ∷ []; devices = device ∷ [] }

abbrev paying : Database
paying = record registered {
  billing_accounts =
      record {
        environment = production;
        owner_sub = "a_a0";
        app_user_id = "u1";
        generation = 0;
        state = none;
      }
      ∷ [];
}

abbrev closing : Database
closing = record paying { accounts = begun 100 account ∷ [] }

abbrev due_now : Database
due_now = record paying {
  accounts = record (begun 100 account) { next_cleanup_at = some 100 } ∷ [];
}

abbrev gone : Database
gone = record registered { accounts = completed 100 (begun 100 account) ∷ [] }

open_first : open_account same_text calm ann first_time empty_database ≡ (ok opened, registered)
unfolding account_run
open_first = refl

open_twice :
    open_account same_text calm ann first_time registered
    ≡ (err (lifecycle account_exists), registered)
unfolding account_run
open_twice = refl

authenticate_opened : authenticate same_text calm "ab1_t1t2" registered ≡ (ok bearer, registered)
unfolding account_run
authenticate_opened = refl

request_first : request_deletion calm bearer paying ≡ (ok "a_a0", closing)
unfolding account_run
request_first = refl

refuse_closing : require_account bearer closing ≡ (err account_deleted, closing)
unfolding account_run
refuse_closing = refl

open_closing :
    open_account same_text calm ann first_time closing ≡ (err (lifecycle account_deleting), closing)
unfolding account_run
open_closing = refl

delete-paying : delete calm "a_a0" paying ≡ (ok tt, gone)
unfolding account_run
delete-paying = refl

delete-broken : delete broken "a_a0" paying ≡ (err (plain "unreachable"), closing)
unfolding account_run
delete-broken = refl

found_closing : find_account "a_a0" closing.accounts ≡ some (begun 100 account)
unfolding account_run
found_closing = refl

found_paying : find_account "a_a0" paying.accounts ≡ some account
unfolding account_run
found_paying = refl

empty-AreErased : AreErased empty_database
empty-AreErased = tt

serve-AreErased_example : AreErased (serve same_text (opening calm ann first_time) empty_database)
serve-AreErased_example =
    serve-AreErased same_text (opening calm ann first_time) empty_database (λ n db h. h)
      empty-AreErased

abbrev input : AppendVersionInput
input = record {
  owner_sub = "ann";
  collection = "notes";
  record_id = "n1";
  device_id = "phone";
  mutation_id = "m1";
  revision = "r1";
  base_revision = none;
  payload = some (("body", str "x") ∷ []);
  deleted = false;
  created_at = 50;
  expected_revision = none;
}

passed_closing : Passed 1 "a_a0" closing
passed_closing = (begun 100 account, found_closing, omega arith)

serve-Passed_example : Passed 1 "a_a0" (serve same_text (cleaning calm (λ n. broken)) closing)
serve-Passed_example =
    serve-Passed 1 "a_a0" same_text (cleaning calm (λ n. broken)) closing
      ((λ n db h. h), (λ k n db h. h)) passed_closing

delete-IsGone_example :
    (db' : Database) × (delete calm "a_a0" paying ≡ (ok tt, db')) × IsGone "a_a0" db'
delete-IsGone_example =
    delete-IsGone calm "a_a0" (λ n db. refl) refl (λ identity. refl) paying
      (account, found_paying, omega arith)

first-IsIssued : IsIssued same_text calm ann first_time opened registered
first-IsIssued =
    open_account-IsIssued same_text calm ann first_time opened empty_database registered open_first

open_account-IsIssued_example : IsIssued same_text calm ann first_time opened registered
open_account-IsIssued_example =
    open_account-IsIssued same_text calm ann first_time opened empty_database registered open_first

found_registered : find_account "a_a0" registered.accounts ≡ some account
unfolding account_run
found_registered = refl

request_deletion-NoData_example : (bearer.account_id ≡ some "a_a0") × NoData "a_a0" closing
request_deletion-NoData_example =
    request_deletion-NoData calm bearer "a_a0" paying closing request_first

process_due-all_example : process_due calm (λ n. broken) closing ≡ (
  ok tt,
  after_all
      (λ n. broken)
      0
      (due 100 20 (expire_sessions 100 closing))
      (expire_sessions 100 closing),
)
process_due-all_example = process_due-all calm (λ n. broken) closing

process-IsPostponed_example :
    (db' : Database) × (process broken "a_a0" paying ≡ (err (plain "unreachable"), db'))
    × IsPostponed "a_a0" 100 (begun 100 account) db'
process-IsPostponed_example =
    process-IsPostponed broken "a_a0" (plain "unreachable") (begun 100 account) paying closing
      delete-broken refl found_closing refl

due_closing : due 100 20 (expire_sessions 100 due_now) ≡ "a_a0" ∷ []
unfolding account_run
due_closing = refl

found_due :
    find_account "a_a0" due_now.accounts
    ≡ some (record (begun 100 account) { next_cleanup_at = some 100 })
unfolding account_run
found_due = refl

process_due-Tried_example :
    (db' : Database) × (process_due calm (λ n. broken) due_now ≡ (ok tt, db')) × Tried 1 "a_a0" db'
process_due-Tried_example =
    process_due-Tried calm (λ n. broken) "a_a0"
      (record (begun 100 account) { next_cleanup_at = some 100 }) due_now (λ n db. refl)
      (λ k n db. refl) found_due refl (subst (Among "a_a0") (sym due_closing) (inl refl))
