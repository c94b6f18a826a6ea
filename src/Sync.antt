-- ===== src/Sync.antt =====
-- packages/server/src/usecases/sync.ts, `pushMutations`: how the server takes a client's mutations.
-- The function awaits the database at each call, and other requests run meanwhile: a `World` says
-- what they do to the database at each point, and what the clock and the random revisions give.
pub mod Codec
pub mod Rounds
pub mod Quiet
pub mod Accepted
pub mod Replay
pub mod Soundness
pub mod Samples
mod Tests
use appbase.Prelude.{
  ℕ, zero, suc, String, Bool, true, false, not, Option, none, some, List, [], ◌∷◌, option_eq,
  get_or, max, if◌then◌else◌,
}
use appbase.Action.{Failure, sync_conflict, pure, throw, gets, modify, ◌>>=◌, ◌>>◌}
use appbase.Json.{JsonObject}
use appbase.Domain.Sync.{
  Operation, put, delete, SyncMutation, StoredVersion, SyncChange, Status, applied, merged,
  replayed, MutationResult,
}
use appbase.Database.{Database, Db}
use appbase.Records.{
  find_mutation, get_current, get_version, revision_of, AppendVersionInput, append, records_run,
}
use appbase.Merge.{default_three_way_merge, merge_run}

-- `SecretCodec` of usecases/ports.ts; `unseal` is its `open`.
pub record SecretCodec : Type 0 where
  pub seal : String → String → String → JsonObject → Db JsonObject
  pub unseal : String → String → String → JsonObject → Db JsonObject

-- `SyncDeps`, without the repository, which is D1's, and without `now` and `createRevision`.
pub record SyncDeps : Type 0 where
  pub secret_codec : SecretCodec
  pub max_conflict_retries : Option ℕ

-- Where `pushMutation` awaits the database, its codec's calls included: `open` and `seal` read the
-- keys. A call that the code leaves out (of a version or a payload that is not there) has its point
-- all the same, next to that of the call that follows.
pub data Point : Type 0 where
  before_replay before_ancestor before_ancestor_open before_reply : Point
  before_current before_current_open before_seal before_append before_second_replay : ℕ → Point

-- What surrounds the handling of one mutation: the effect of other requests at each point, and the
-- values of `now` and `createRevision` at each round of the loop.
pub record World : Type 0 where
  pub others : Point → Database → Database
  pub now : ℕ → ℕ
  pub create_revision : ℕ → String

abbrev pub await : World → Point → Db (Unit {0})
await world p = modify (world.others p)

abbrev pub change_of : StoredVersion → Option JsonObject → SyncChange
change_of v payload = record {
  sequence = v.sequence;
  collection = v.collection;
  record_id = v.record_id;
  revision = v.revision;
  payload = payload;
  deleted = v.deleted;
  created_at = v.created_at;
}

module _ (deps : SyncDeps) where
  unfoldable pub unseal_version : Bool → Option JsonObject → StoredVersion → Db (Option JsonObject)
  unseal_version deleted none v = pure none
  unseal_version true (some envelope) v = pure none
  unseal_version false (some envelope) v = do
    payload ← deps.secret_codec.unseal v.owner_sub v.collection v.record_id envelope
    pure (some payload)

  unfoldable pub logical_payload : StoredVersion → Db (Option JsonObject)
  unfolding unseal_version
  logical_payload v = unseal_version v.deleted v.payload v

  -- `version === null ? null : await logicalPayload(deps, version)`
  pub payload_of : Option StoredVersion → Db (Option JsonObject)
  unfolding logical_payload
  payload_of none = pure none
  payload_of (some v) = logical_payload v

  unfoldable pub public_change : StoredVersion → Db SyncChange
  public_change v = do payload ← logical_payload v; pure (change_of v payload)

  pub seal_payload : String → SyncMutation → Option JsonObject → Db (Option JsonObject)
  seal_payload owner m none = pure none
  seal_payload owner m (some logical) = do
    envelope ← deps.secret_codec.seal owner m.collection m.record_id logical
    pure (some envelope)

-- `mutation.operation === "delete" ? null : (mutation.payload ?? null)`
client_payload : SyncMutation → Option JsonObject
client_payload m = elim m.operation [ delete ↦ none | put ↦ m.payload ]

is_null : Option JsonObject → Bool
is_null none = true
is_null (some p) = false

-- `(current?.revision ?? null) !== mutation.baseRevision`
pub is_conflicted : Option StoredVersion → SyncMutation → Bool
is_conflicted current m = not (option_eq (revision_of current) m.base_revision)

-- The payload to store.
pub resolve :
    Option JsonObject → Option StoredVersion → Option JsonObject → SyncMutation → Option JsonObject
unfolding client_payload is_conflicted
resolve ancestor current current_payload m =
    if is_conflicted current m
    then default_three_way_merge
        (record { ancestor = ancestor; server = current_payload; client = client_payload m })
    else client_payload m

-- What `append` is given. The revision of the newest version is both the base and the expected.
pub append_input :
    World
    → String
    → SyncMutation
    → ℕ
    → Option StoredVersion
    → Option JsonObject
    → Option JsonObject
    → AppendVersionInput
unfolding is_null
append_input world owner m n current logical stored = record {
  owner_sub = owner;
  collection = m.collection;
  record_id = m.record_id;
  device_id = m.device_id;
  mutation_id = m.mutation_id;
  revision = world.create_revision n;
  base_revision = revision_of current;
  payload = stored;
  deleted = is_null logical;
  created_at = world.now n;
  expected_revision = revision_of current;
}

module _ (deps : SyncDeps) (world : World) (owner : String) (m : SyncMutation) where
  result : Status → StoredVersion → Db MutationResult
  result status v = do
    await world before_reply
    change ← public_change deps v
    pure (record { mutation_id = m.mutation_id; status = status; change = change })

  -- The end of a round: `none` lets the loop go on.
  replay_or_retry : Option StoredVersion → Db (Option MutationResult)
  unfolding result
  replay_or_retry none = pure none
  replay_or_retry (some v) = do r ← result replayed v; pure (some r)

  settle : ℕ → Bool → Option StoredVersion → Db (Option MutationResult)
  unfolding replay_or_retry
  settle n conflicted (some v) = do
    r ← result (if conflicted then merged else applied) v
    pure (some r)
  settle n conflicted none = do
    await world (before_second_replay n)
    concurrent ← gets (λ db. find_mutation owner m.device_id m.mutation_id db.records)
    replay_or_retry concurrent

  -- One round, from the newest version that it read.
  write_round : Option JsonObject → ℕ → Option StoredVersion → Db (Option MutationResult)
  unfolding settle
  write_round ancestor n current = do
    await world (before_current_open n)
    current_payload ← payload_of deps current
    await world (before_seal n)
    stored ← seal_payload deps owner m (resolve ancestor current current_payload m)
    await world (before_append n)
    appended ←
        append
          (append_input world owner m n current (resolve ancestor current current_payload m) stored)
    settle n (is_conflicted current m) appended

  round : Option JsonObject → ℕ → Db (Option MutationResult)
  unfolding write_round
  round ancestor n = do
    await world (before_current n)
    current ← gets (λ db. get_current owner m.collection m.record_id db.records)
    write_round ancestor n current

  -- A result ends the loop.
  finish : Option MutationResult → Db MutationResult → Db MutationResult
  finish (some r) rest = pure r
  finish none rest = rest

  -- The loop, with the rounds that are left and the round's number.
  rounds : ℕ → Option JsonObject → ℕ → Db MutationResult
  unfolding finish
  rounds zero ancestor n = throw (sync_conflict m.collection m.record_id)
  rounds (suc k) ancestor n = do
    outcome ← round ancestor n
    finish outcome (rounds k ancestor (suc n))

  -- `mutation.baseRevision === null ? null : await getVersion(…)`
  pub ancestor_of : Option String → Database → Option StoredVersion
  ancestor_of none db = none
  ancestor_of (some revision) db = get_version owner m.collection m.record_id revision db.records

  push_new : Db MutationResult
  unfolding ancestor_of
  push_new = do
    await world before_ancestor
    ancestor ← gets (ancestor_of m.base_revision)
    await world before_ancestor_open
    payload ← payload_of deps ancestor
    rounds (max 1 (get_or deps.max_conflict_retries 3)) payload 0

  push_unless_known : Option StoredVersion → Db MutationResult
  unfolding push_new result
  push_unless_known (some v) = result replayed v
  push_unless_known none = push_new

  pub push_mutation : Db MutationResult
  unfolding push_unless_known
  push_mutation = do
    await world before_replay
    replay ← gets (λ db. find_mutation owner m.device_id m.mutation_id db.records)
    push_unless_known replay

module _ (deps : SyncDeps) (owner : String) where
  -- The loop over the batch; the n-th mutation has the n-th world. The first that throws ends it,
  -- and what came before stays written.
  pub push_mutations : (ℕ → World) → ℕ → List SyncMutation → Db (List MutationResult)
  push_mutations worlds n [] = pure []
  push_mutations worlds n (m ∷ rest) = do
    r ← push_mutation deps (worlds n) owner m
    results ← push_mutations worlds (suc n) rest
    pure (r ∷ results)

-- Opens the push for a run.
unfoldable pub push_run : Unit {0}
unfolding push_mutations push_mutation rounds round public_change seal_payload payload_of resolve
    append_input merge_run records_run
push_run = tt
