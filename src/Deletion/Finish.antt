-- ===== src/Deletion/Finish.antt =====
-- A deletion that nothing disturbs, and whose host's part succeeds, is finished.
use appbase.Prelude.{
  ℕ, suc, ◌≤◌, String, ◌≡◌, refl, sym, ap, ◌∙◌, some, subst, ◌⊎◌, inl, inr, false, not, ◌&&◌, List,
  [], ◌∷◌, map, arith, ◌==◌, eq_iff, eq_refl, select, All, All-mono, Bool-cases,
}
use appbase.Action.{ok, >>=-eq-ok, lift-eq-ok}
use appbase.Database.{
  AccountStatus, active, deleting, deleted, status_eq, Account, BillingAccount, Database,
}
use appbase.AccountTable.{
  find_account, begin, begin_batch, begun, pending_billing_identities, complete_billing_identity,
  complete, completed,
}
use appbase.AccountTable.Absent.{Absent, Absent-any}
use appbase.AccountTable.Erased.{NoData, begin_batch-NoData}
use appbase.AccountTable.Status.{Passed, rank, step, find-step, found_id}
use appbase.Deletion.{AccountWorld, delete, delete_identities}

-- One of the texts.
abbrev pub Among : String → List String → Type 0
Among t [] = ⊥
Among t (s ∷ ss) = (t ≡ s) ⊎ Among t ss

-- Every billing identity of the owner is in the list.
abbrev Listed : String → List String → List BillingAccount → Type 0
Listed owner identities = All (λ b. b.owner_sub ≡ owner → Among b.app_user_id identities)

mine_eq :
    (b : BillingAccount) (owner : String) → (b.owner_sub == owner) ≡ false → b.owner_sub ≡ owner → ⊥
mine_eq b owner other same = ground (arith, eq_iff b.owner_sub owner)

abbrev identities_of : String → List BillingAccount → List String
identities_of owner rows = map (λ b. b.app_user_id) (select (λ b. b.owner_sub == owner) rows)

Listed-pending :
    (owner : String) (rows : List BillingAccount) → Listed owner (identities_of owner rows) rows
Listed-pending owner [] = tt
Listed-pending owner (b ∷ rows) = elim (Bool-cases (b.owner_sub == owner)) [
  | inl mine ↦
      let e : identities_of owner (b ∷ rows) ≡ b.app_user_id ∷ identities_of owner rows =
        rw mine refl in
      subst (λ ids. Listed owner ids (b ∷ rows)) (sym e)
        (λ _. inl refl, All-mono (λ c h e. inr (h e)) rows (Listed-pending owner rows))
  | inr other ↦
      let e : identities_of owner (b ∷ rows) ≡ identities_of owner rows = rw other refl in
      subst (λ ids. Listed owner ids (b ∷ rows)) (sym e)
        (λ same. absurd (mine_eq b owner other same), Listed-pending owner rows)
]

not_completed :
    (b : BillingAccount) (owner identity : String)
    → (b.owner_sub == owner && b.app_user_id == identity) ≡ false
    → b.owner_sub ≡ owner
    → b.app_user_id ≡ identity
    → ⊥
not_completed b owner identity h mine same =
    ground (arith, eq_iff b.owner_sub owner, eq_iff b.app_user_id identity)

Listed-complete :
    (owner identity : String) (rest : List String) (rows : List BillingAccount)
    → Listed owner (identity ∷ rest) rows
    → Listed owner rest (select (λ b. not (b.owner_sub == owner && b.app_user_id == identity)) rows)
Listed-complete owner identity rest [] h = tt
Listed-complete owner identity rest (b ∷ rows) h =
    elim (Bool-cases (b.owner_sub == owner && b.app_user_id == identity)) [
      | inl gone ↦ rw gone (Listed-complete owner identity rest rows h.1)
      | inr left ↦ rw left (
        λ mine. elim (h.0 mine) [
          | inl same ↦ absurd (not_completed b owner identity left mine same)
          | inr later ↦ later
        ],
        Listed-complete owner identity rest rows h.1,
      )
    ]

Listed-Absent :
    (owner : String) (rows : List BillingAccount)
    → Listed owner [] rows
    → Absent (λ b. b.owner_sub) owner rows
Listed-Absent owner rows h = h

begun_far :
    (id : String) (clock : ℕ) (db : Database)
    → Passed 0 id db
    → Passed 1 id (begin_batch id clock db)
unfolding begin_batch
begun_far id clock db (a, found, far) = (
  step id active (begun clock) a,
  find-step id id active (begun clock) db.accounts a (λ b. refl) found,
  begun_rank a (found_id id db.accounts a found),
)
  where
    past : (s : AccountStatus) → status_eq s active ≡ false → 1 ≤ rank s
    past active other = cc other
    past deleting other = omega arith
    past deleted other = omega arith

    begun_rank : (a : Account) → a.id ≡ id → 1 ≤ rank (step id active (begun clock) a).status
    begun_rank a same = elim (Bool-cases (status_eq a.status active)) [
      | inl going ↦ rw (same, eq_refl id, going) (omega arith)
      | inr done ↦ rw (same, eq_refl id, done) (past a.status done)
    ]

-- Deleted: nothing of the owner is left.
pub record IsGone (owner : String) (db : Database) : Type 0 where
  pub status : Passed 2 owner db
  pub data_erased : NoData owner db
  pub billing_erased : Absent (λ b. b.owner_sub) owner db.billing_accounts

last_step :
    (id : String) (clock : ℕ) (a : Account)
    → a.id ≡ id
    → 1 ≤ rank a.status
    → 2 ≤ rank (step id deleting (completed clock) a).status
last_step id clock a same far = elim (Bool-cases (status_eq a.status deleting)) [
  | inl going ↦ rw (same, eq_refl id, going) (omega arith)
  | inr done ↦ rw (same, eq_refl id, done) (past a.status far done)
]
  where
    past : (s : AccountStatus) → 1 ≤ rank s → status_eq s deleting ≡ false → 2 ≤ rank s
    past active low other = absurd (omega (arith, low))
    past deleting low other = cc other
    past deleted low other = omega arith

complete-IsGone :
    (id : String) (clock : ℕ) (db : Database)
    → Passed 1 id db
    → NoData id db
    → Absent (λ b. b.owner_sub) id db.billing_accounts
    → IsGone id (complete id clock db)
unfolding complete
complete-IsGone id clock db (a, found, far) erased billing =
    rw (Absent-any (λ b. b.owner_sub) id db.billing_accounts billing) (record {
      status = (
        step id deleting (completed clock) a,
        find-step id id deleting (completed clock) db.accounts a (λ b. refl) found,
        last_step id clock a (found_id id db.accounts a found) far,
      );
      data_erased = erased;
      billing_erased = billing;
    })

module _ (world : AccountWorld) (owner : String)
    (calm : (n : ℕ) (db : Database) → world.others n db ≡ db)
    (product : world.delete_product_data owner ≡ ok tt)
    (billing : (identity : String) → world.delete_billing_identity identity ≡ ok tt) where
  delete_identities-IsGone :
      (n : ℕ) (identities : List String) (db : Database)
      → Passed 1 owner db
      → NoData owner db
      → Listed owner identities db.billing_accounts
      → (db' : Database) × (delete_identities world owner n identities db ≡ (ok tt, db'))
        × IsGone owner db'
  unfolding delete_identities complete_billing_identity
  delete_identities-IsGone n [] db h erased listed = (
    complete owner (world.unixepoch 1) db,
    rw (calm n db) refl,
    complete-IsGone owner (world.unixepoch 1) db h erased listed,
  )
  delete_identities-IsGone n (identity ∷ rest) db h erased listed =
      let next = complete_billing_identity owner identity db in
      let (db', run, gone) =
        delete_identities-IsGone (suc n) rest next h erased
          (Listed-complete owner identity rest db.billing_accounts listed) in
      (db', rw (billing identity, calm n db) run, gone)

  -- If the account exists, no other request comes between, and the host deletes what it is asked
  -- to, then the deletion returns; the account is `deleted`, and no record, key, grant, usage or
  -- billing identity of it is left.
  pub delete-IsGone :
      (db : Database)
      → Passed 0 owner db
      → (db' : Database) × (delete world owner db ≡ (ok tt, db')) × IsGone owner db'
  unfolding delete begin
  delete-IsGone db (a, found, far) =
      let mid = begin_batch owner (world.unixepoch 0) db in
      let (db', run, gone) =
        delete_identities-IsGone 3 (pending_billing_identities owner mid) mid
          (begun_far owner (world.unixepoch 0) db (a, found, far))
          (begin_batch-NoData owner (world.unixepoch 0) db)
          (unfold pending_billing_identities in Listed-pending owner mid.billing_accounts) in
      (db', rw (found, calm 1 db, product, calm 2 mid) run, gone)

-- Also if it is only known that it returned.
module _ (world : AccountWorld) (owner : String)
    (calm : (n : ℕ) (db : Database) → world.others n db ≡ db) where
  finished_identities :
      (n : ℕ) (identities : List String) (u : Unit {0}) (db db' : Database)
      → Passed 1 owner db
      → NoData owner db
      → Listed owner identities db.billing_accounts
      → delete_identities world owner n identities db ≡ (ok u, db')
      → IsGone owner db'
  unfolding delete_identities complete_billing_identity
  finished_identities n [] u db db' h erased listed run =
      let last : complete owner (world.unixepoch 1) db ≡ db' =
        ap (complete owner (world.unixepoch 1)) (sym (calm n db)) ∙ ap (λ x. x.1) run in
      subst (IsGone owner) last (complete-IsGone owner (world.unixepoch 1) db h erased listed)
  finished_identities n (identity ∷ rest) u db db' h erased listed run =
      let (_, _, next) = lift-eq-ok (world.delete_billing_identity identity) _ db u db' run in
      finished_identities (suc n) rest u (complete_billing_identity owner identity db) db' h erased
        (Listed-complete owner identity rest db.billing_accounts listed)
        (subst
          (λ d.
            delete_identities world owner (suc n) rest (complete_billing_identity owner identity d)
            ≡ (ok u, db'))
          (calm n db) next)

  pub finished_deletion :
      (a : Account) (u : Unit {0}) (db db' : Database)
      → find_account owner db.accounts ≡ some a
      → delete world owner db ≡ (ok u, db')
      → IsGone owner db'
  unfolding delete begin
  finished_deletion a u db db' found run =
      let (_, mid, begun_so, h1) =
        >>=-eq-ok (begin world.others owner (world.unixepoch 0)) _ db u db' run in
      let started : begin world.others owner (world.unixepoch 0) db
          ≡ (ok tt, begin_batch owner (world.unixepoch 0) db) =
        rw (found, calm 1 db) refl in
      let there : begin_batch owner (world.unixepoch 0) db ≡ mid = cc (begun_so, started) in
      let (_, _, h2) = lift-eq-ok (world.delete_product_data owner) _ mid u db' h1 in
      let at : Database = begin_batch owner (world.unixepoch 0) db in
      finished_identities 3 (pending_billing_identities owner at) u at db'
        (begun_far owner (world.unixepoch 0) db (a, found, omega arith))
        (begin_batch-NoData owner (world.unixepoch 0) db)
        (unfold pending_billing_identities in Listed-pending owner at.billing_accounts)
        (subst
          (λ d.
            delete_identities world owner 3 (pending_billing_identities owner d) d ≡ (ok u, db'))
          (calm 2 mid ∙ sym there) h2)
