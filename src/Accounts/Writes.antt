-- ===== src/Accounts/Writes.antt =====
-- The statements of the other services write only rows of an owner that is not fenced, or delete
-- rows; so they keep what such writes keep.
use appbase.Prelude.{
  ℕ, String, ◌≡◌, ◌≢◌, refl, sym, ◌∙◌, ◌&&◌, nat_eq, subst, inl, inr, Bool, true, false, List, [],
  ◌∷◌, ◌++◌, map, ◌==◌, select, any, All-map, Bool-cases, if◌then◌else◌,
}
use appbase.Prelude.Int.{ℤ, pos, ltb_ℤ}
use appbase.Action.{Result, ok, err, pure, modify, continue, ◌>>◌}
use appbase.Action.Keeps.{Keeps, Keeps-pure, Keeps-bind}
use appbase.Domain.Billing.{BillingEnvironment}
use appbase.Database.{Database, Db, UserKey, GrantRow}
use appbase.Database.Fence.{fenced, guard_owner}
use appbase.Records.{AppendVersionInput, append}
use appbase.Records.Append.{append-Outcome, appended}
use appbase.AccountTable.{Others}
use appbase.AccountTable.Absent.{Absent, append-Absent}
use appbase.AccountTable.Erased.{NoData}
use appbase.AccountTable.Keeping.{Respected}
use appbase.Envelope.{insert_key}
use appbase.MembershipTable.{
  UsageKey, claim_insert, claim_unique_usage, count_usage, has_item, with_item, release_usage,
  guard_update, write_grant, replaced, same_grant, put_grant,
}

-- No row of any other owner comes, and the accounts stay.
pub record OnlyOf (owner : String) (db later : Database) : Type 0 where
  pub accounts : later.accounts ≡ db.accounts
  pub rows : (id : String) → owner ≢ id → NoData id db → NoData id later
  pub billing :
      (id : String)
      → owner ≢ id
      → Absent (λ b. b.owner_sub) id db.billing_accounts
      → Absent (λ b. b.owner_sub) id later.billing_accounts

-- Writes of rows of an owner that is not fenced keep `P`, and so do deletions of used items.
pub record Allows (P : Database → Type 0) : Type 0 where
  pub writes :
      (owner : String) (db later : Database)
      → OnlyOf owner db later
      → fenced db.accounts owner ≡ false
      → P db
      → P later
  pub releases :
      (key : UsageKey) (item : String) (db : Database) → P db → P (release_usage key item db)

pub map-Absent :
    {A : Type 0} (owner : A → String) (id : String) (f : A → A)
    → ((r : A) → owner (f r) ≡ owner r)
    → (rows : List A) → Absent owner id rows
    → Absent owner id (map f rows)
map-Absent owner id f same =
    All-map (λ r. owner r ≢ id) (λ r. owner r ≢ id) f (λ r other e. other (sym (same r) ∙ e))

pub branch_owner :
    {A : Type 0} (owner : A → String) (test : Bool) (r s : A)
    → owner r ≡ owner s
    → owner (if test then r else s) ≡ owner s
branch_owner owner true r s e = e
branch_owner owner false r s e = refl

module _ (P : Database → Type 0) (allows : Allows P) where
  -- After the trigger let a write pass, the owner is not fenced.
  pub guarded-Keeps :
      {A : Type 0} (owner : String) (rest : Db A)
      → ((db : Database) → fenced db.accounts owner ≡ false → P db → P (rest db).1)
      → Keeps P (guard_owner owner >> rest)
  unfolding guard_owner
  guarded-Keeps owner rest each = record {
    leaves = λ db h. elim (Bool-cases (fenced db.accounts owner)) [
      | inl closed ↦ rw closed h
      | inr free ↦ rw free (each db free h)
    ];
  }

  -- What follows a step whose end is known.
  pub at_step :
      {A B : Type 0} (outcome : Result A × Database) (next : A → Db B)
      → P outcome.1
      → ((a : A) → Keeps P (next a))
      → P (continue outcome.0 next outcome.1).1
  at_step (ok a, later) next h each = (each a).leaves later h
  at_step (err e, later) next h each = h

  -- A write after a step that changes nothing.
  written_after :
      (outcome : Result (Unit {0}) × Database) (f : Database → Database) (db : Database)
      → outcome.1 ≡ db
      → P db
      → P (f db)
      → P (continue outcome.0 (λ _. modify f) outcome.1).1
  written_after (ok u, later) f db same before after = subst (λ d. P (f d)) (sym same) after
  written_after (err e, later) f db same before after = subst P (sym same) before

  pub insert_key-Keeps : (k : UserKey) → Keeps P (insert_key k)
  unfolding insert_key
  insert_key-Keeps k = guarded-Keeps k.owner_sub _ λ db free h.
      go db
        (any (λ x. x.owner_sub == k.owner_sub && nat_eq x.key_version k.key_version) db.user_keys)
        free h
    where
      go :
          (db : Database) (known : Bool)
          → fenced db.accounts k.owner_sub ≡ false
          → P db
          → P (if known then db else record db { user_keys = db.user_keys ++ k ∷ [] })
      go db true free h = h
      go db false free h =
          allows.writes k.owner_sub db _
            (record {
              accounts = refl;
              rows = λ id other (records, keys, grants, usage). (
                records,
                append-Absent (λ r. r.owner_sub) id db.user_keys k other keys,
                grants,
                usage,
              );
              billing = λ id other b. b;
            })
            free h

  pub append-Keeps : (input : AppendVersionInput) → Keeps P (append input)
  append-Keeps input = record {
    leaves = λ db h. elim (append-Outcome input db) [
      | inl (a, e) ↦
          subst (λ r. P r.1) (sym e)
            (allows.writes input.owner_sub db (appended input db)
              (record {
                accounts = refl;
                rows = λ id other (records, keys, grants, usage). (
                  append-Absent (λ r. r.owner_sub) id db.records _ other records,
                  keys,
                  grants,
                  usage,
                );
                billing = λ id other b. b;
              })
              a.open_account h)
      | inr (_, inl e) ↦ subst (λ r. P r.1) (sym e) h
      | inr (_, inr (_, e)) ↦ subst (λ r. P r.1) (sym e) h
    ];
  }

  guard_update-reads : (grants : List GrantRow) (db : Database) → (guard_update grants db).1 ≡ db
  unfolding guard_update guard_owner
  guard_update-reads [] db = refl
  guard_update-reads (g ∷ grants) db = elim (Bool-cases (fenced db.accounts g.owner_sub)) [
    | inl closed ↦ rw closed refl
    | inr free ↦ rw free (guard_update-reads grants db)
  ]

  write_grant-OnlyOf :
      (environment : BillingEnvironment) (input : GrantRow) (db : Database)
      → OnlyOf input.owner_sub db (write_grant environment input db)
  unfolding write_grant
  write_grant-OnlyOf environment input db =
      elim (Bool-cases (any (same_grant environment input.id) db.grants)) [
        | inl known ↦ rw known (record {
          accounts = refl;
          rows = λ id other (records, keys, grants, usage). (
            records,
            keys,
            map-Absent (λ r. r.owner_sub) id _
                (λ g.
                  branch_owner (λ r. r.owner_sub) (same_grant environment input.id g)
                    (replaced input g) g refl)
                db.grants grants,
            usage,
          );
          billing = λ id other b. b;
        })
        | inr fresh ↦ rw fresh (record {
          accounts = refl;
          rows = λ id other (records, keys, grants, usage).
              (records, keys, append-Absent (λ r. r.owner_sub) id db.grants _ other grants, usage);
          billing = λ id other b. b;
        })
      ]

  pub put_grant-Keeps :
      (environment : BillingEnvironment) (input : GrantRow) → Keeps P (put_grant environment input)
  unfolding put_grant
  put_grant-Keeps environment input = guarded-Keeps input.owner_sub _ λ db free h.
      let known = select (same_grant environment input.id) db.grants in
      written_after (guard_update known db) (write_grant environment input) db
        (guard_update-reads known db) h
        (allows.writes input.owner_sub db _ (write_grant-OnlyOf environment input db) free h)

  claim_insert-Keeps :
      (key : UsageKey) (item : String) (limit : ℤ) (now : ℕ)
      → Keeps P (claim_insert key item limit now)
  unfolding claim_insert
  claim_insert-Keeps key item limit now = record {
    leaves = λ db h. go db (has_item key item db) (ltb_ℤ (pos (count_usage key db)) limit) h;
  }
    where
      go :
          (db : Database) (known under : Bool)
          → P db
          → P
              (if known
                then (guard_owner key.owner_sub >> pure false) db
                else if under
                then (guard_owner key.owner_sub >> modify (with_item key item now) >> pure true) db
                else pure false db).1
      go db true under h = (guarded-Keeps key.owner_sub (pure false) λ d f k. k).leaves db h
      go db false false h = h
      go db false true h =
          (Keeps-bind _ _
              (guarded-Keeps key.owner_sub (modify (with_item key item now)) λ d free k.
                allows.writes key.owner_sub d (with_item key item now d)
                  (record {
                    accounts = refl;
                    rows = λ id other (records, keys, grants, usage). (
                      records,
                      keys,
                      grants,
                      append-Absent (λ r. r.owner_sub) id d.usage _ other usage,
                    );
                    billing = λ id other b. b;
                  })
                  free k)
              (λ _. Keeps-pure true)).leaves
            db h

  module _ (others : Others) (kept : Respected P others) where
    pub claim-Keeps :
        (key : UsageKey) (item : String) (limit : ℤ) (now : ℕ)
        → Keeps P (claim_unique_usage others key item limit now)
    unfolding claim_unique_usage
    claim-Keeps key item limit now =
        Keeps-bind (claim_insert key item limit now) _ (claim_insert-Keeps key item limit now)
          λ created. record { leaves = λ db h. kept 2 _ (kept 1 db h) }
