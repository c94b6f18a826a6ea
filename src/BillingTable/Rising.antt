-- ===== src/BillingTable/Rising.antt =====
-- A billing account's generation and its newest snapshot never go back.
use appbase.Prelude.{
  ℕ, suc, ◌≤◌, String, ◌≡◌, refl, inl, inr, Bool, true, not, Option, none, some, [], ◌∷◌, ◌++◌, map,
  arith, ◌==◌, find?-append, find?-map, any, Bool-cases, if◌then◌else◌,
}
use appbase.Action.{gets, modify, or_throw, plain}
use appbase.Action.Keeps.{
  Keeps, Keeps-pure, Keeps-throw, Keeps-gets, Keeps-or_throw, Keeps-modify, Keeps-require,
  Keeps-bind,
}
use appbase.Domain.Billing.{BillingEnvironment, BillingState}
use appbase.Database.{BillingAccount, Database}
use appbase.Database.Fence.{guard_owner, fenced, deleted_abort}
use appbase.AccountTable.{Others, await}
use appbase.BillingTable.{
  of_account, billing_account, new_billing_account, insert_identity, identity, update_billing,
  advanced, begin_found, begin_sync, not_newer, accepts, observed, commit_sync,
}

-- The instant of a snapshot, later than none.
abbrev pub seen : Option BillingState → ℕ
seen none = 0
seen (some s) = suc s.observed_at

-- The account is there, in this generation or a later one, with a snapshot of this instant or later.
abbrev pub Reached : BillingEnvironment → String → ℕ → ℕ → Database → Type 0
Reached environment owner generation instant db =
    (b : BillingAccount) × (billing_account environment owner db.billing_accounts ≡ some b)
    × (generation ≤ b.generation)
    × (instant ≤ seen b.state)

module _ (environment : BillingEnvironment) (owner : String) (generation instant : ℕ) where
  abbrev P : Database → Type 0
  P = Reached environment owner generation instant

  change-Reached :
      (change : BillingAccount → BillingAccount) (db : Database)
      → ((b : BillingAccount)
          → of_account environment owner (change b) ≡ of_account environment owner b)
      → ((b : BillingAccount) → b.generation ≤ (change b).generation)
      → ((b : BillingAccount) → seen b.state ≤ seen (change b).state)
      → P db
      → P (record db { billing_accounts = map change db.billing_accounts })
  unfolding billing_account
  change-Reached change db same up newer (b, found, far, late) = (
    change b,
    find?-map (of_account environment owner) change same db.billing_accounts b found,
    omega (arith, up b),
    omega (arith, newer b),
  )

  update-Reached :
      (test : BillingAccount → Bool) (f : BillingAccount → BillingAccount) (db : Database)
      → ((b : BillingAccount) → of_account environment owner (f b) ≡ of_account environment owner b)
      → ((b : BillingAccount) → b.generation ≤ (f b).generation)
      → ((b : BillingAccount) → test b ≡ true → seen b.state ≤ seen (f b).state)
      → P db
      → P (update_billing test f db)
  update-Reached test f db same up newer =
      change-Reached (λ b. if test b then f b else b) db
        (λ b. elim (Bool-cases (test b)) [ inl hit ↦ rw hit (same b) | inr miss ↦ rw miss refl ])
        (λ b. elim (Bool-cases (test b)) [
          | inl hit ↦ rw hit (up b)
          | inr miss ↦ rw miss (omega arith)
        ])
        (λ b. elim (Bool-cases (test b)) [
          | inl hit ↦ rw hit (newer b hit)
          | inr miss ↦ rw miss (omega arith)
        ])

  guard_owner-Keeps : (who : String) → Keeps P (guard_owner who)
  unfolding guard_owner
  guard_owner-Keeps who = record {
    leaves =
        λ db h. (Keeps-require {P = P} (not (fenced db.accounts who)) deleted_abort).leaves db h;
  }

  insert_identity-Keeps :
      (other : BillingEnvironment) (who id : String) → Keeps P (insert_identity other who id)
  unfolding insert_identity
  insert_identity-Keeps other who id = record {
    leaves = λ db h. elim (Bool-cases (any (of_account other who) db.billing_accounts)) [
      | inl there ↦ rw there h
      | inr absent ↦ elim (Bool-cases (any (λ b. b.app_user_id == id) db.billing_accounts)) [
        | inl used ↦ rw (absent, used) h
        | inr free ↦ rw (absent, free) (added db h)
      ]
    ];
  }
    where
      added :
          (db : Database)
          → P db
          → P (record db {
            billing_accounts = db.billing_accounts ++ new_billing_account other who id ∷ [];
          })
      added db (b, found, far, late) = (
        b,
        unfold billing_account in
            find?-append (of_account environment owner) db.billing_accounts _ b found,
        far,
        late,
      )

  module _ (others : Others) (kept : (n : ℕ) (db : Database) → P db → P (others n db)) where
    pub identity-Keeps :
        (other : BillingEnvironment) (who random : String)
        → Keeps P (identity others other who random)
    unfolding identity
    identity-Keeps other who random = Keeps-bind (guard_owner who) _ (guard_owner-Keeps who) λ _.
        Keeps-bind (insert_identity other who random) _ (insert_identity-Keeps other who random)
          λ _. Keeps-bind (await others 2) _ (Keeps-modify (others 2) (kept 2)) λ _.
            Keeps-bind (gets (λ db. billing_account other who db.billing_accounts)) _
              (Keeps-gets (λ db. billing_account other who db.billing_accounts))
              λ row.
                Keeps-bind (or_throw row (plain "Billing identity was not persisted.")) _
                  (Keeps-or_throw row (plain "Billing identity was not persisted."))
                  λ b. Keeps-pure b.app_user_id

  pub begin_sync-Keeps :
      (other : BillingEnvironment) (who : String) → Keeps P (begin_sync other who)
  unfolding begin_sync begin_found
  begin_sync-Keeps other who =
      Keeps-bind (gets (λ db. billing_account other who db.billing_accounts)) _
        (Keeps-gets (λ db. billing_account other who db.billing_accounts)) go
    where
      go : (row : Option BillingAccount) → Keeps P (begin_found other who row)
      go none = Keeps-throw (plain "Billing account is missing.")
      go (some b) = Keeps-bind (guard_owner who) _ (guard_owner-Keeps who) λ _.
          Keeps-bind (modify (update_billing (of_account other who) advanced)) _
            (Keeps-modify (update_billing (of_account other who) advanced) (λ db.
              update-Reached (of_account other who) advanced db (λ c. refl) (λ c. omega arith)
                (λ c hit. omega arith)))
            λ _. Keeps-pure (suc b.generation)

  later_snapshot :
      (other : BillingEnvironment) (who : String) (g : ℕ) (next : BillingState) (b : BillingAccount)
      → accepts other who g next b ≡ true
      → seen b.state ≤ suc next.observed_at
  later_snapshot other who g next b h = go b.state (ground arith)
    where
      go : (o : Option BillingState) → not_newer o next ≡ true → seen o ≤ suc next.observed_at
      go none k = omega arith
      go (some s) k = ground arith

  pub commit_sync-Keeps :
      (other : BillingEnvironment) (who : String) (g : ℕ) (next : BillingState)
      → Keeps P (commit_sync other who g next)
  unfolding commit_sync guard_owner
  commit_sync-Keeps other who g next = record {
    leaves = λ db h. elim (Bool-cases (any (accepts other who g next) db.billing_accounts)) [
      | inr stale ↦ rw stale h
      | inl current ↦ elim (Bool-cases (fenced db.accounts who)) [
        | inl shut ↦ rw (current, shut) h
        | inr free ↦
            rw (current, free)
              (update-Reached (accepts other who g next) (observed next) db (λ c. refl)
                (λ c. omega arith) (later_snapshot other who g next) h)
      ]
    ];
  }
