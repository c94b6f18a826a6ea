-- ===== src/Accounts/Sessions.antt =====
-- The sessions of devices: what opening an account gives, and when a token is accepted.
use appbase.Prelude.{
  ◌+◌, String, ◌≡◌, refl, sym, subst, ◌∙◌, inl, inr, true, false, some, leb, get_or, Bool-cases,
  if◌then◌else◌,
}
use appbase.Action.{
  ok, err, lifecycle, account_session_invalid, account_deleting, pure, >>=-eq-ok, lift-eq-ok, ◌>>=◌,
}
use appbase.Database.{Account, Device, Database, Db}
use appbase.Database.Fence.{has_active, is_active}
use appbase.AccountTable.{find_account, device_row, save_session}
use appbase.AccountTable.Sessions.{device_of, save_session_stored, session-stored}
use appbase.Deletion.{AccountWorld}
use appbase.Accounts.{
  Principal, OpenInput, Opened, given, token, new_session, look_up, admit, register_unless, issue,
  open_account, check_session, authenticate,
}

module _ (hash : String → String) (world : AccountWorld) (principal : Principal)
    (input : OpenInput) where
  -- A session was issued: its account is active, and the table has the session under the token's
  -- hash, with the scopes of the principal, for 1800 seconds.
  pub record IsIssued (o : Opened) (db : Database) : Type 0 where
    pub live : has_active db.accounts o.account_id ≡ true
    pub stored :
        device_of (hash o.access_token) db.devices
        ≡ some (
            device_row
              (hash o.access_token)
              (new_session hash world principal input o.account_id)
              (world.now 2))
    pub lasts : o.expires_at ≡ world.now 1 + 1800

  abbrev given_for : String → Opened
  given_for id = record {
    account_id = id;
    access_token = token hash world;
    expires_at = world.now 1 + 1800;
  }

  -- The part of `issue` after its guard.
  abbrev save_new : String → Db Opened
  save_new id =
      save_session (hash (token hash world)) (new_session hash world principal input id)
        (world.now 2)
      >>= λ _. pure (given_for id)

  issue_active :
      (a : Account) (db : Database)
      → is_active a.status ≡ true
      → issue hash world principal input a db ≡ save_new a.id (world.others 3 db)
  unfolding issue
  issue_active a db act = rw act refl

  issue_closed :
      (a : Account) (db : Database)
      → is_active a.status ≡ false
      → issue hash world principal input a db ≡ (err (lifecycle account_deleting), db)
  unfolding issue
  issue_closed a db shut = rw shut refl

  save_new-IsIssued :
      (id : String) (o : Opened) (db db' : Database) → save_new id db ≡ (ok o, db') → IsIssued o db'
  save_new-IsIssued id o db db' h =
      let (u, db3, saved, done) =
        >>=-eq-ok
          (save_session (hash (token hash world)) (new_session hash world principal input id)
            (world.now 2))
          (λ _. pure (given_for id)) db o db' h in
      let same : given_for id ≡ o = cc done in
      let there : db3 ≡ db' = cc done in
      let (live, stored) =
        save_session_stored (hash (token hash world)) (new_session hash world principal input id)
          (world.now 2) db db3 u saved in
      subst (λ x. IsIssued x db') same
        (subst (IsIssued (given_for id)) there
          (record { live = live; stored = stored; lasts = refl }))

  issue-IsIssued :
      (a : Account) (o : Opened) (db db' : Database)
      → issue hash world principal input a db ≡ (ok o, db')
      → IsIssued o db'
  issue-IsIssued a o db db' h = elim (Bool-cases (is_active a.status)) [
    | inl act ↦ save_new-IsIssued a.id o (world.others 3 db) db' (sym (issue_active a db act) ∙ h)
    | inr shut ↦ absurd (cc (h, issue_closed a db shut))
  ]

  -- When opening an account returns, whatever other requests did meanwhile, the account is active
  -- and the session is stored.
  pub open_account-IsIssued :
      (o : Opened) (db db' : Database)
      → open_account hash world principal input db ≡ (ok o, db')
      → IsIssued o db'
  unfolding open_account
  open_account-IsIssued o db db' h =
      let (admitted, _, h1) =
        lift-eq-ok
          (admit principal input.register (given input.account_id)
            (look_up principal (given input.account_id) db))
          _ db o db' h in
      let (a, mid, _, h2) =
        >>=-eq-ok (register_unless hash world principal admitted) _ db o db' h1 in
      issue-IsIssued a o mid db' h2

authenticate_stored :
    (hash : String → String) (world : AccountWorld) (text : String) (d : Device) (a : Account)
    (db : Database)
    → device_of (hash text) db.devices ≡ some d
    → find_account d.account_id db.accounts ≡ some a
    → world.others 1 db ≡ db
    → authenticate hash world text db ≡ (
      if leb d.expires_at (world.now 0)
          then err (lifecycle account_session_invalid)
          else ok (record {
            sub = get_or a.subject "";
            scopes = d.scopes;
            account_id = some d.account_id;
          }),
      db,
    )
unfolding authenticate check_session
authenticate_stored hash world text d a db stored found quiet =
    elim (Bool-cases (leb d.expires_at (world.now 0))) [
      | inl late ↦ rw (session-stored (hash text) d a db stored found, late) refl
      | inr early ↦ rw (session-stored (hash text) d a db stored found, early, quiet, found) refl
    ]

-- A token that opening an account gave is accepted until it runs out: at any later time at which
-- its session and its account are still there, `authenticate` gives the account's subject, the
-- scopes of the principal that opened it, and the account; from `expiresAt` on it is refused.
pub authenticate-IsIssued :
    (hash : String → String) (world later : AccountWorld) (principal : Principal)
    (input : OpenInput) (o : Opened) (a : Account) (db db' : Database)
    → IsIssued hash world principal input o db
    → device_of (hash o.access_token) db'.devices ≡ device_of (hash o.access_token) db.devices
    → find_account o.account_id db'.accounts ≡ some a
    → later.others 1 db' ≡ db'
    → authenticate hash later o.access_token db' ≡ (
      if leb o.expires_at (later.now 0)
          then err (lifecycle account_session_invalid)
          else ok (record {
            sub = get_or a.subject "";
            scopes = principal.scopes;
            account_id = some o.account_id;
          }),
      db',
    )
authenticate-IsIssued hash world later principal input o a db db' issued kept found quiet =
    authenticate_stored hash later o.access_token _ a db' (kept ∙ issued.stored) found quiet
    ∙ rw issued.lasts refl
