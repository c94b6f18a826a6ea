-- ===== src/Sync/Replay.antt =====
-- A mutation that was accepted is never written again: sending it once more gives the same change.
use appbase.Prelude.{String, ◌≡◌, refl, ap, ◌∙◌, some, List, ◌++◌}
use appbase.Action.{ok}
use appbase.Domain.Sync.{SyncMutation, StoredVersion, MutationResult, replayed}
use appbase.Database.{Database}
use appbase.Records.{find_mutation}
use appbase.Records.History.{find_mutation-append}
use appbase.Sync.{
  SyncDeps, World, before_replay, before_reply, public_change, result, push_unless_known,
  push_mutation,
}
use appbase.Sync.Codec.{KeysGrow, CodecLaws}
use appbase.Sync.Accepted.{public_change_reads, Settled, push-Settled}

-- What other requests do at a point leaves the versions that are there.
abbrev pub AddsVersions : (Database → Database) → Type 0
AddsVersions others =
    (db : Database)
    → (versions : List StoredVersion) × ((others db).records ≡ db.records ++ versions)

-- What a replay returns.
abbrev pub as_replayed : MutationResult → MutationResult
as_replayed r = record r { status = replayed }

module _ (deps : SyncDeps) (laws : CodecLaws deps.secret_codec) (owner : String)
    (m : SyncMutation) where
  result_again :
      (world : World) (v : StoredVersion) (r : MutationResult) (db : Database)
      → public_change deps v (world.others before_reply db)
        ≡ (ok r.change, world.others before_reply db)
      → r.mutation_id ≡ m.mutation_id
      → result deps world owner m replayed v db ≡ (ok (as_replayed r), world.others before_reply db)
  unfolding result
  result_again world v r db read named = rw (read, named) refl

  push_known :
      (world : World) (v : StoredVersion) (db : Database)
      → find_mutation owner m.device_id m.mutation_id (world.others before_replay db).records
        ≡ some v
      → push_mutation deps world owner m db
        ≡ result deps world owner m replayed v (world.others before_replay db)
  unfolding push_mutation push_unless_known
  push_known world v db known = rw known refl

  -- A version that was in the table at some moment is in every table that has more.
  found_later :
      (v : StoredVersion) (db later : Database) (versions : List StoredVersion)
      → find_mutation owner m.device_id m.mutation_id db.records ≡ some v
      → later.records ≡ db.records ++ versions
      → find_mutation owner m.device_id m.mutation_id later.records ≡ some v
  found_later v db later versions found more =
      ap (λ rs. find_mutation owner m.device_id m.mutation_id rs) more
      ∙ find_mutation-append owner m.device_id m.mutation_id db.records versions v found

  still_there :
      (world : World) (r : MutationResult) (db : Database)
      → AddsVersions (world.others before_reply)
      → (s : Settled deps world owner m r db)
      → find_mutation owner m.device_id m.mutation_id db.records ≡ some s.version
  still_there world r db adds s =
      let (versions, more) = adds s.moment in
      found_later s.version s.moment db versions s.found (s.rows ∙ more)

  -- What has happened by the time the second answer is made.
  abbrev pub by_reply : World → Database → Database
  by_reply world db = world.others before_reply (world.others before_replay db)

  -- Idempotence, with a codec that keeps the laws of `CodecLaws`. After a push returned, under any
  -- interleaving in which the requests that ran while its reply was opened deleted no version, the
  -- same mutation sent again returns the same change with status `replayed` and writes nothing, as
  -- long as in between versions were only added and keys were only added until its reply.
  pub push_twice :
      (first again : World) (r : MutationResult) (db db' later : Database)
      → AddsVersions (first.others before_reply)
      → push_mutation deps first owner m db ≡ (ok r, db')
      → (versions : List StoredVersion)
      → (again.others before_replay later).records ≡ db'.records ++ versions
      → KeysGrow db' (by_reply again later)
      → push_mutation deps again owner m later ≡ (ok (as_replayed r), by_reply again later)
  push_twice first again r db db' later adds pushed versions more keys =
      let s = push-Settled deps laws first owner m r db db' pushed in
      push_known again s.version later (
        found_later s.version db' (again.others before_replay later) versions
          (still_there first r db' adds s) more)
      ∙ result_again again s.version r (again.others before_replay later)
          (public_change_reads deps laws s.version r.change db' db' (by_reply again later)
            s.reported keys)
          s.named
