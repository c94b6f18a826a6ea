-- ===== src/Records.antt =====
-- packages/server/src/adapters/d1_sync_repository.ts: the record versions in D1.
-- The table holds its rows by rising `sequence`, its primary key (Records/History has this as an
-- invariant), so `ORDER BY sequence` is the order of the list.
pub mod History
pub mod Append
mod Tests
use appbase.Prelude.{
  ℕ, suc, String, Bool, not, ◌&&◌, ◌||◌, Option, none, some, List, [], ◌∷◌, ◌++◌, ◌==◌, ltb,
  option_eq, take, last?, find?, select, any, if◌then◌else◌,
}
use appbase.Action.{Failure, rejected, pure, throw, ◌>>=◌, ◌>>◌}
use appbase.Json.{JsonObject}
use appbase.Domain.Sync.{StoredVersion}
use appbase.Database.{Database, Db}
use appbase.Database.Fence.{guard_owner}

-- WHERE owner_sub = ?1 AND collection = ?2 AND record_id = ?3
abbrev pub of_record : String → String → String → StoredVersion → Bool
of_record owner collection record_id v =
    v.owner_sub == owner && (v.collection == collection && v.record_id == record_id)

-- WHERE owner_sub = ?1 AND device_id = ?2 AND mutation_id = ?3
abbrev pub of_mutation : String → String → String → StoredVersion → Bool
of_mutation owner device mutation v =
    v.owner_sub == owner && (v.device_id == device && v.mutation_id == mutation)

unfoldable pub find_mutation : String → String → String → List StoredVersion → Option StoredVersion
find_mutation owner device mutation records = find? (of_mutation owner device mutation) records

unfoldable pub get_current : String → String → String → List StoredVersion → Option StoredVersion
get_current owner collection record_id records =
    last? (select (of_record owner collection record_id) records)

unfoldable pub get_version :
    String → String → String → String → List StoredVersion → Option StoredVersion
get_version owner collection record_id revision records =
    find? (λ v. of_record owner collection record_id v && v.revision == revision) records

-- `current?.revision ?? null`
abbrev pub revision_of : Option StoredVersion → Option String
revision_of none = none
revision_of (some v) = some v.revision

-- `AppendVersionInput`
pub record AppendVersionInput : Type 0 where
  pub owner_sub : String
  pub collection : String
  pub record_id : String
  pub device_id : String
  pub mutation_id : String
  pub revision : String
  pub base_revision : Option String
  pub payload : Option JsonObject
  pub deleted : Bool
  pub created_at : ℕ
  pub expected_revision : Option String

-- The row that the statement inserts, and `mapRow` of it.
abbrev pub row : ℕ → AppendVersionInput → StoredVersion
row sequence input = record {
  sequence = sequence;
  owner_sub = input.owner_sub;
  collection = input.collection;
  record_id = input.record_id;
  device_id = input.device_id;
  mutation_id = input.mutation_id;
  revision = input.revision;
  base_revision = input.base_revision;
  payload = input.payload;
  deleted = input.deleted;
  created_at = input.created_at;
}

-- The statement's WHERE: no version is there and none is expected, or the newest is the expected.
is_expected : AppendVersionInput → List StoredVersion → Bool
unfolding get_current
is_expected input records =
    option_eq (revision_of (get_current input.owner_sub input.collection input.record_id records))
      input.expected_revision

-- The unique index appbase_records_revision.
reuses_revision : AppendVersionInput → List StoredVersion → Bool
reuses_revision input records =
    any
      (λ v.
        of_record input.owner_sub input.collection input.record_id v
        && v.revision == input.revision)
      records

insert_row : AppendVersionInput → Db (Option StoredVersion)
insert_row input db = pure (some (row (suc db.last_sequence) input)) (record db {
  records = db.records ++ row (suc db.last_sequence) input ∷ [];
  last_sequence = suc db.last_sequence;
})

-- ON CONFLICT(owner_sub, device_id, mutation_id) DO NOTHING, and the index on revisions.
insert_unless_known : Option StoredVersion → AppendVersionInput → Db (Option StoredVersion)
unfolding insert_row reuses_revision
insert_unless_known (some known) input db = pure none db
insert_unless_known none input db =
    if reuses_revision input db.records
    then throw (rejected "appbase_records_revision") db
    else insert_row input db

-- One statement, so nothing comes between its test and its insert.
pub append : AppendVersionInput → Db (Option StoredVersion)
unfolding insert_unless_known is_expected
append input db =
    if is_expected input db.records
    then (guard_owner input.owner_sub >> λ db'.
          insert_unless_known
            (find_mutation input.owner_sub input.device_id input.mutation_id db'.records) input db')
        db
    else pure none db

unfoldable pub list_changes : String → ℕ → ℕ → List StoredVersion → List StoredVersion
list_changes owner after limit records =
    take limit (select (λ v. v.owner_sub == owner && ltb after v.sequence) records)

-- Opens the repository for a run.
unfoldable pub records_run : Unit {0}
unfolding append guard_owner find_mutation get_current get_version list_changes
records_run = tt
