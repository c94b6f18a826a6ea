-- ===== src/Records/Append.antt =====
-- When `append` writes, what it writes, and that the table stays a history.
use appbase.Prelude.{
  suc, ◌≤◌, String, ◌≡◌, refl, sym, ap, ◌∙◌, subst, ◌⊎◌, inl, inr, ◌↔◌, true, false, Option, none,
  some, List, [], ◌∷◌, ◌++◌, arith, option_eq_iff, All-append, All-mono, any-false, any-true, ◌≢◌,
  Bool-cases, Option-cases,
}
use appbase.Action.{Result, ok, err, rejected}
use appbase.Domain.Sync.{StoredVersion}
use appbase.Database.{Database}
use appbase.Database.Fence.{fenced, guard_owner, deleted_abort}
use appbase.Records.{
  find_mutation, get_current, get_version, revision_of, AppendVersionInput, row, is_expected,
  reuses_revision, insert_unless_known, append,
}
use appbase.Records.History.{grow, IsSound}

-- What lets the statement insert a row.
pub record Accepts (input : AppendVersionInput) (db : Database) : Type 0 where
  pub expected :
      revision_of (get_current input.owner_sub input.collection input.record_id db.records)
      ≡ input.expected_revision
  pub open_account : fenced db.accounts input.owner_sub ≡ false
  pub new_mutation :
      find_mutation input.owner_sub input.device_id input.mutation_id db.records ≡ none
  pub new_revision :
      get_version input.owner_sub input.collection input.record_id input.revision db.records ≡ none

abbrev pub appended : AppendVersionInput → Database → Database
appended input db = record db {
  records = db.records ++ row (suc db.last_sequence) input ∷ [];
  last_sequence = suc db.last_sequence;
}

-- What a call may come to: the row is written, or nothing is.
abbrev pub Outcome :
    AppendVersionInput → Database → Result (Option StoredVersion) × Database → Type 0
Outcome input db r =
    (Accepts input db × (r ≡ (ok (some (row (suc db.last_sequence) input)), appended input db)))
    ⊎ ((¬ Accepts input db) × ((r ≡ (ok none, db)) ⊎ ((e : String) × (r ≡ (err (rejected e), db)))))

expected_iff :
    (input : AppendVersionInput) (db : Database)
    → (is_expected input db.records ≡ true) ↔ (
        revision_of (get_current input.owner_sub input.collection input.record_id db.records)
        ≡ input.expected_revision)
unfolding is_expected
expected_iff input db = option_eq_iff _ _

version_new :
    (input : AppendVersionInput) (records : List StoredVersion)
    → reuses_revision input records ≡ false
    → get_version input.owner_sub input.collection input.record_id input.revision records ≡ none
unfolding reuses_revision get_version
version_new input records h = any-false _ records h

version_known :
    (input : AppendVersionInput) (records : List StoredVersion)
    → reuses_revision input records ≡ true
    → get_version input.owner_sub input.collection input.record_id input.revision records ≢ none
unfolding reuses_revision get_version
version_known input records h = any-true _ records h

append_unexpected :
    (input : AppendVersionInput) (db : Database)
    → is_expected input db.records ≡ false
    → append input db ≡ (ok none, db)
unfolding append
append_unexpected input db h = rw h

append-fenced :
    (input : AppendVersionInput) (db : Database)
    → is_expected input db.records ≡ true
    → fenced db.accounts input.owner_sub ≡ true
    → append input db ≡ (err deleted_abort, db)
unfolding append guard_owner
append-fenced input db h f = rw (h, f)

append_open :
    (input : AppendVersionInput) (db : Database)
    → is_expected input db.records ≡ true
    → fenced db.accounts input.owner_sub ≡ false
    → append input db
      ≡ insert_unless_known
          (find_mutation input.owner_sub input.device_id input.mutation_id db.records)
          input
          db
unfolding append guard_owner
append_open input db h f = rw (h, f)

insert_known :
    (input : AppendVersionInput) (db : Database) (v : StoredVersion)
    → insert_unless_known (some v) input db ≡ (ok none, db)
unfolding insert_unless_known
insert_known input db v = refl

insert_reused :
    (input : AppendVersionInput) (db : Database)
    → reuses_revision input db.records ≡ true
    → insert_unless_known none input db ≡ (err (rejected "appbase_records_revision"), db)
unfolding insert_unless_known
insert_reused input db h = rw h

insert_new :
    (input : AppendVersionInput) (db : Database)
    → reuses_revision input db.records ≡ false
    → insert_unless_known none input db
      ≡ (ok (some (row (suc db.last_sequence) input)), appended input db)
unfolding insert_unless_known
insert_new input db h = rw h

-- `append` writes exactly when the newest version is the expected one, the account is not fenced,
-- and neither the mutation nor the revision is known; else it leaves the database as it was.
pub append-Outcome :
    (input : AppendVersionInput) (db : Database) → Outcome input db (append input db)
append-Outcome input db = elim (Bool-cases (is_expected input db.records)) [
  | inr stale ↦ inr (
    (λ a. cc (stale, (expected_iff input db).1 a.expected)),
    inl (append_unexpected input db stale),
  )
  | inl fresh ↦ elim (Bool-cases (fenced db.accounts input.owner_sub)) [
    | inl shut ↦ inr (
      (λ a. cc (shut, a.open_account)),
      inr ("APPBASE_ACCOUNT_DELETED", append-fenced input db fresh shut),
    )
    | inr free ↦
        let run = append_open input db fresh free in
        elim (Option-cases
          (find_mutation input.owner_sub input.device_id input.mutation_id db.records)) [
            | inr (v, known) ↦ inr (
              (λ a. cc (known, a.new_mutation)),
              inl (run ∙ ap (λ o. insert_unless_known o input db) known ∙ insert_known input db v),
            )
            | inl new ↦ elim (Bool-cases (reuses_revision input db.records)) [
              | inl reused ↦ inr (
                (λ a. version_known input db.records reused a.new_revision),
                inr (
                  "appbase_records_revision",
                  run
                      ∙ ap (λ o. insert_unless_known o input db) new
                      ∙ insert_reused input db reused,
                ),
              )
              | inr unused ↦ inl (
                record {
                  expected = (expected_iff input db).0 fresh;
                  open_account = free;
                  new_mutation = new;
                  new_revision = version_new input db.records unused;
                },
                run ∙ ap (λ o. insert_unless_known o input db) new ∙ insert_new input db unused,
              )
            ]
          ]
  ]
]

appended-IsSound :
    (input : AppendVersionInput) (db : Database)
    → input.base_revision ≡ input.expected_revision
    → Accepts input db
    → IsSound db
    → IsSound (appended input db)
appended-IsSound input db same a s = record {
  history =
      grow db.records (row (suc db.last_sequence) input) (appended input db).records s.history refl
        (All-mono (λ r h. omega arith) db.records s.counted) a.new_mutation a.new_revision
        (same ∙ sym a.expected);
  counted =
      All-append (λ r. r.sequence ≤ suc db.last_sequence) db.records
        (row (suc db.last_sequence) input ∷ []) (All-mono (λ r h. omega arith) db.records s.counted)
        (omega arith, tt);
}

-- A write on top of the version it expects keeps the table a history.
pub append-IsSound :
    (input : AppendVersionInput) (db : Database)
    → input.base_revision ≡ input.expected_revision
    → IsSound db
    → IsSound (append input db).1
append-IsSound input db same s = elim (append-Outcome input db) [
  | inl (a, e) ↦ subst (λ r. IsSound r.1) (sym e) (appended-IsSound input db same a s)
  | inr (_, inl e) ↦ subst (λ r. IsSound r.1) (sym e) s
  | inr (_, inr (_, e)) ↦ subst (λ r. IsSound r.1) (sym e) s
]
