-- ===== src/AccountTable/Sessions.antt =====
-- A session that was saved: it is found by its hash, and its account was active.
use appbase.Prelude.{
  ℕ, String, ◌≡◌, refl, subst, ◌∙◌, inl, inr, true, false, Option, some, List, [], ◌∷◌, ◌++◌, ◌==◌,
  eq_refl, get_or, any, any-false, find?, find?-append_new, Bool-cases,
}
use appbase.Action.{ok, err, rejected}
use appbase.Database.{Account, Device, Database}
use appbase.Database.Fence.{guard_device, has_active}
use appbase.AccountTable.{
  session, session_of, join_account, find_account, DeviceSession, device_row, save_session,
}

abbrev pub device_of : String → List Device → Option Device
device_of hash devices = find? (λ d. d.token_hash == hash) devices

abbrev saved : String → DeviceSession → ℕ → Database → Database
saved hash s now db = record db { devices = db.devices ++ device_row hash s now ∷ [] }

save_open :
    (hash : String) (s : DeviceSession) (now : ℕ) (db : Database)
    → has_active db.accounts s.account_id ≡ true
    → any (λ d. d.token_hash == hash) db.devices ≡ false
    → save_session hash s now db ≡ (ok tt, saved hash s now db)
unfolding save_session guard_device
save_open hash s now db live new = rw (live, new) refl

save_known :
    (hash : String) (s : DeviceSession) (now : ℕ) (db : Database)
    → has_active db.accounts s.account_id ≡ true
    → any (λ d. d.token_hash == hash) db.devices ≡ true
    → save_session hash s now db ≡ (err (rejected "appbase_devices"), db)
unfolding save_session guard_device
save_known hash s now db live known = rw (live, known) refl

save_shut :
    (hash : String) (s : DeviceSession) (now : ℕ) (db : Database)
    → has_active db.accounts s.account_id ≡ false
    → save_session hash s now db ≡ (err (rejected "APPBASE_ACCOUNT_DELETED"), db)
unfolding save_session guard_device
save_shut hash s now db shut = rw shut refl

found_saved :
    (hash : String) (s : DeviceSession) (now : ℕ) (db : Database)
    → any (λ d. d.token_hash == hash) db.devices ≡ false
    → device_of hash (saved hash s now db).devices ≡ some (device_row hash s now)
found_saved hash s now db new =
    find?-append_new (λ d. d.token_hash == hash) db.devices (device_row hash s now ∷ [])
      (any-false (λ d. d.token_hash == hash) db.devices new)
    ∙ rw (eq_refl hash) refl

-- A session is saved only for an active account, under a hash that no other session has.
pub save_session_stored :
    (hash : String) (s : DeviceSession) (now : ℕ) (db db' : Database) (u : Unit {0})
    → save_session hash s now db ≡ (ok u, db')
    → (has_active db'.accounts s.account_id ≡ true)
      × (device_of hash db'.devices ≡ some (device_row hash s now))
save_session_stored hash s now db db' u h =
    elim (Bool-cases (has_active db.accounts s.account_id)) [
      | inr shut ↦ absurd (cc (h, save_shut hash s now db shut))
      | inl live ↦ elim (Bool-cases (any (λ d. d.token_hash == hash) db.devices)) [
        | inl known ↦ absurd (cc (h, save_known hash s now db live known))
        | inr new ↦
            let same : saved hash s now db ≡ db' = cc (h, save_open hash s now db live new) in
            subst
              (λ d.
                (has_active d.accounts s.account_id ≡ true)
                × (device_of hash d.devices ≡ some (device_row hash s now)))
              same (live, found_saved hash s now db new)
      ]
    ]

pub session-stored :
    (hash : String) (d : Device) (a : Account) (db : Database)
    → device_of hash db.devices ≡ some d
    → find_account d.account_id db.accounts ≡ some a
    → session hash db
      ≡ some (record {
        account_id = d.account_id;
        device_id = d.device_id;
        subject = get_or a.subject "";
        scopes = d.scopes;
        expires_at = d.expires_at;
      })
unfolding session session_of join_account
session-stored hash d a db stored found = rw (stored, found) refl
