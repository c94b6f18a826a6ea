-- ===== src/AccountTable/Keeping.antt =====
-- What the methods of the repository keep, under any interleaving with requests that keep it.
use appbase.Prelude.{ℕ, String, List, [], ◌∷◌, ◌==◌, any, not, ◌++◌}
use appbase.Action.{gets, modify, require, or_throw, rejected, plain}
use appbase.Action.Keeps.{
  Keeps, Keeps-gets, Keeps-or_throw, Keeps-modify, Keeps-require, Keeps-bind,
}
use appbase.Database.{Device, Database}
use appbase.Database.Fence.{guard_device, has_active, deleted_abort}
use appbase.AccountTable.{
  Others, await, current, find_account, insert_account, register, DeviceSession, device_row,
  save_session, begin_batch, begin, complete_billing_identity, complete, postpone,
}

-- The statements of the service keep `P`.
pub record Respects (P : Database → Type 0) : Type 0 where
  pub inserts :
      (id subject : String) (now : ℕ) (db : Database) → P db → P (insert_account id subject now db)
  pub sessions :
      (devices : List Device) (db : Database) → P db → P (record db { devices = devices })
  pub begins : (id : String) (clock : ℕ) (db : Database) → P db → P (begin_batch id clock db)
  pub identities :
      (id identity : String) (db : Database) → P db → P (complete_billing_identity id identity db)
  pub completes : (id : String) (clock : ℕ) (db : Database) → P db → P (complete id clock db)
  pub postpones : (id : String) (now : ℕ) (db : Database) → P db → P (postpone id now db)

-- So do the other requests.
abbrev pub Respected : (Database → Type 0) → Others → Type 0
Respected P others = (n : ℕ) (db : Database) → P db → P (others n db)

module _ (P : Database → Type 0) (calls : Respects P) where
  pub save_session-Keeps :
      (hash : String) (s : DeviceSession) (now : ℕ) → Keeps P (save_session hash s now)
  unfolding save_session guard_device
  save_session-Keeps hash s now =
      Keeps-bind (guard_device s.account_id) _
        (record {
          leaves = λ db h.
              (Keeps-require {P = P} (has_active db.accounts s.account_id) deleted_abort).leaves db
                h;
        })
        λ _.
          Keeps-bind (gets (λ db. any (λ d. d.token_hash == hash) db.devices)) _ (Keeps-gets _)
            λ known.
              Keeps-bind (require (not known) (rejected "appbase_devices")) _
                (Keeps-require (not known) _)
                λ _.
                  Keeps-modify
                    (λ db. record db { devices = db.devices ++ device_row hash s now ∷ [] })
                    (λ db h. calls.sessions _ db h)

  module _ (others : Others) (kept : Respected P others) where
    pub await-Keeps : (n : ℕ) → Keeps P (await others n)
    await-Keeps n = Keeps-modify (others n) (kept n)

    pub register-Keeps : (subject id : String) (now : ℕ) → Keeps P (register others subject id now)
    unfolding register
    register-Keeps subject id now = Keeps-bind (await others 1) _ (await-Keeps 1) λ _.
        Keeps-bind (modify (insert_account id subject now)) _
          (Keeps-modify _ (calls.inserts id subject now))
          λ _. Keeps-bind (await others 2) _ (await-Keeps 2) λ _.
            Keeps-bind (gets (λ db. current subject db.accounts)) _
              (Keeps-gets (λ db. current subject db.accounts))
              λ account. Keeps-or_throw account (plain "Account registration did not persist.")

    pub begin-Keeps : (id : String) (clock : ℕ) → Keeps P (begin others id clock)
    unfolding begin
    begin-Keeps id clock =
        Keeps-bind (gets (λ db. find_account id db.accounts)) _
          (Keeps-gets (λ db. find_account id db.accounts))
          λ account.
            Keeps-bind (or_throw account (plain "Application account does not exist.")) _
              (Keeps-or_throw account _)
              λ _.
                Keeps-bind (await others 1) _ (await-Keeps 1)
                  λ _. Keeps-modify _ (calls.begins id clock)
