-- ===== src/Sync/Accepted.antt =====
-- A push that returns has its mutation in the table, and the change it returns can be read again.
use mathlib.Core.List.{append-nil}
use appbase.Prelude.{
  ℕ, zero, suc, String, ◌≡◌, refl, sym, ap, ◌∙◌, subst, inl, inr, Bool, true, false, Option, none,
  some, [], if◌then◌else◌,
}
use appbase.Action.{Result, ok, err, continue, >>=-eq-ok, ◌>>=◌, pure}
use appbase.Json.{JsonObject}
use appbase.Domain.Sync.{
  SyncMutation, StoredVersion, SyncChange, Status, applied, merged, replayed, MutationResult,
}
use appbase.Database.{Database, Db}
use appbase.Records.{find_mutation, row, AppendVersionInput, append}
use appbase.Records.History.{found_new}
use appbase.Records.Append.{appended, append-Outcome}
use appbase.Sync.{
  SyncDeps, World, before_second_replay, before_append, before_reply, before_seal,
  before_current_open, unseal_version, logical_payload, payload_of, public_change, change_of,
  seal_payload, is_conflicted, resolve, append_input, result, replay_or_retry, settle, write_round,
  round, finish, rounds, push_unless_known, push_mutation,
}
use appbase.Sync.Codec.{KeysGrow, CodecLaws}

-- Actions that leave the table of records alone.
bind_records :
    {A B : Type 0} (m : Db A) (f : A → Db B) (db : Database)
    → (m db).1.records ≡ db.records
    → ((a : A) (later : Database) → (f a later).1.records ≡ later.records)
    → ((m >>= f) db).1.records ≡ db.records
bind_records m f db first next = go (m db) first
  where
    go :
        (outcome : Result _ × Database)
        → outcome.1.records ≡ db.records
        → (continue outcome.0 f outcome.1).1.records ≡ db.records
    go (ok a, later) same = next a later ∙ same
    go (err e, later) same = same

module _ (deps : SyncDeps) (laws : CodecLaws deps.secret_codec) where
  unseal_version_reads :
      (d : Bool) (o : Option JsonObject) (v : StoredVersion) (p : Option JsonObject)
      (db db' later : Database)
      → unseal_version deps d o v db ≡ (ok p, db')
      → KeysGrow db' later
      → unseal_version deps d o v later ≡ (ok p, later)
  unfolding unseal_version
  unseal_version_reads d none v p db db' later h keys = cc
  unseal_version_reads true (some e) v p db db' later h keys = cc
  unseal_version_reads false (some e) v p db db' later h keys =
      let (a, mid, read, done) =
        >>=-eq-ok (deps.secret_codec.unseal v.owner_sub v.collection v.record_id e)
          (λ payload. pure (some payload)) db p db' h in
      let same : db' ≡ mid = cc done in
      rw
        (laws.unseal_stable v.owner_sub v.collection v.record_id a e db mid later read
          (subst (λ d. KeysGrow d later) same keys))
        (cc done)

  -- A change that was returned once is returned again while the keys are kept.
  pub public_change_reads :
      (v : StoredVersion) (c : SyncChange) (db db' later : Database)
      → public_change deps v db ≡ (ok c, db')
      → KeysGrow db' later
      → public_change deps v later ≡ (ok c, later)
  unfolding public_change logical_payload
  public_change_reads v c db db' later h keys =
      let (p, mid, read, done) =
        >>=-eq-ok (unseal_version deps v.deleted v.payload v) (λ p. pure (change_of v p)) db c db'
          h in
      let same : db' ≡ mid = cc done in
      rw
        (unseal_version_reads v.deleted v.payload v p db mid later read
          (subst (λ d. KeysGrow d later) same keys))
        (cc done)

  unseal_version_records :
      (d : Bool) (o : Option JsonObject) (v : StoredVersion) (db : Database)
      → (unseal_version deps d o v db).1.records ≡ db.records
  unfolding unseal_version
  unseal_version_records d none v db = refl
  unseal_version_records true (some e) v db = refl
  unseal_version_records false (some e) v db =
      let opened = deps.secret_codec.unseal v.owner_sub v.collection v.record_id e in
      bind_records opened (λ payload. pure (some payload)) db
        (ap (λ d. d.records) (laws.unseal_frame v.owner_sub v.collection v.record_id e db))
        (λ payload later. refl)

  public_change_records :
      (v : StoredVersion) (c : SyncChange) (db db' : Database)
      → public_change deps v db ≡ (ok c, db')
      → db'.records ≡ db.records
  unfolding public_change logical_payload
  public_change_records v c db db' h =
      ap (λ x. x.1.records) (sym h)
      ∙ bind_records (unseal_version deps v.deleted v.payload v) (λ p. pure (change_of v p)) db
          (unseal_version_records v.deleted v.payload v db) (λ p later. refl)

-- At some moment the mutation was in the table; the other requests that run before the codec opens
-- its version leave the rows of `db`, and `r` reports the version.
module _ (deps : SyncDeps) (world : World) (owner : String) (m : SyncMutation) where
  pub record Settled (r : MutationResult) (db : Database) : Type 0 where
    pub moment : Database
    pub version : StoredVersion
    pub found : find_mutation owner m.device_id m.mutation_id moment.records ≡ some version
    pub rows : db.records ≡ (world.others before_reply moment).records
    pub reported : public_change deps version db ≡ (ok r.change, db)
    pub named : r.mutation_id ≡ m.mutation_id

module _ (deps : SyncDeps) (laws : CodecLaws deps.secret_codec) (world : World) (owner : String)
    (m : SyncMutation) where
  result-Settled :
      (status : Status) (v : StoredVersion) (r : MutationResult) (db db' : Database)
      → find_mutation owner m.device_id m.mutation_id db.records ≡ some v
      → result deps world owner m status v db ≡ (ok r, db')
      → Settled deps world owner m r db'
  unfolding result
  result-Settled status v r db db' known h =
      let (c, mid, read, done) =
        >>=-eq-ok (public_change deps v)
          (λ c. pure (record { mutation_id = m.mutation_id; status = status; change = c }))
          (world.others before_reply db) r db' h in
      let same : record { mutation_id = m.mutation_id; status = status; change = c } ≡ r =
        cc done in
      let same_db : db' ≡ mid = cc done in
      let again : public_change deps v mid ≡ (ok c, mid) =
        public_change_reads deps laws v c (world.others before_reply db) mid mid read
          ([], sym (append-nil mid.user_keys)) in
      let same_change : c ≡ r.change = ap (λ x. x.change) same in
      record {
        moment = db;
        version = v;
        found = known;
        rows =
            ap (λ d. d.records) same_db
            ∙ public_change_records deps laws v c (world.others before_reply db) mid read;
        reported = cc (again, same_db, same_change);
        named = ap (λ x. x.mutation_id) (sym same);
      }

  some-result-Settled :
      (status : Status) (v : StoredVersion) (r : MutationResult) (db db' : Database)
      → find_mutation owner m.device_id m.mutation_id db.records ≡ some v
      → (result deps world owner m status v >>= λ r. pure (some r)) db ≡ (ok (some r), db')
      → Settled deps world owner m r db'
  some-result-Settled status v r db db' known h =
      let (r', mid, run, done) =
        >>=-eq-ok (result deps world owner m status v) (λ r. pure (some r)) db (some r) db' h in
      result-Settled status v r db db' known (run ∙ cc done)

  replay-Settled :
      (o : Option StoredVersion) (r : MutationResult) (db db' : Database)
      → find_mutation owner m.device_id m.mutation_id db.records ≡ o
      → replay_or_retry deps world owner m o db ≡ (ok (some r), db')
      → Settled deps world owner m r db'
  unfolding replay_or_retry
  replay-Settled none r db db' known h = cc h
  replay-Settled (some v) r db db' known h = some-result-Settled replayed v r db db' known h

  settle-Settled :
      (n : ℕ) (conflicted : Bool) (appended : Option StoredVersion) (r : MutationResult)
      (db db' : Database)
      → ((v : StoredVersion)
          → appended ≡ some v
          → find_mutation owner m.device_id m.mutation_id db.records ≡ some v)
      → settle deps world owner m n conflicted appended db ≡ (ok (some r), db')
      → Settled deps world owner m r db'
  unfolding settle
  settle-Settled n conflicted none r db db' known h =
      replay-Settled
        (find_mutation owner m.device_id m.mutation_id
          (world.others (before_second_replay n) db).records)
        r (world.others (before_second_replay n) db) db' refl h
  settle-Settled n conflicted (some v) r db db' known h =
      some-result-Settled (if conflicted then merged else applied) v r db db' (known v refl) h

  -- A row that `append` reports is found under the identity that it was given.
  append_finds :
      (input : AppendVersionInput) (o : Option StoredVersion) (db db' : Database)
      → append input db ≡ (ok o, db')
      → (v : StoredVersion) → o ≡ some v
      → find_mutation input.owner_sub input.device_id input.mutation_id db'.records ≡ some v
  append_finds input o db db' h v e = elim (append-Outcome input db) [
    | inl (a, w) ↦
        let same_db : db' ≡ appended input db = cc (h, w) in
        let same_v : v ≡ row (suc db.last_sequence) input = cc (h, w, e) in
        rw (same_db, same_v)
          (found_new db.records (row (suc db.last_sequence) input) a.new_mutation)
    | inr (_, inl k) ↦ cc (h, k, e)
    | inr (_, inr (_, k)) ↦ cc (h, k)
  ]

  write_round-Settled :
      (ancestor : Option JsonObject) (n : ℕ) (current : Option StoredVersion) (r : MutationResult)
      (db db' : Database)
      → write_round deps world owner m ancestor n current db ≡ (ok (some r), db')
      → Settled deps world owner m r db'
  unfolding write_round
  write_round-Settled ancestor n current r db db' h =
      let (payload, mid, _, h1) =
        >>=-eq-ok (payload_of deps current) _ (world.others (before_current_open n) db) (some r) db'
          h in
      let (stored, mid', _, h2) =
        >>=-eq-ok (seal_payload deps owner m (resolve ancestor current payload m)) _
          (world.others (before_seal n) mid) (some r) db' h1 in
      let input : AppendVersionInput =
        append_input world owner m n current (resolve ancestor current payload m) stored in
      let (answer, last, wrote, h3) =
        >>=-eq-ok (append input) _ (world.others (before_append n) mid') (some r) db' h2 in
      settle-Settled n (is_conflicted current m) answer r last db'
        (unfold append_input in
          append_finds input answer (world.others (before_append n) mid') last wrote)
        h3

  round-Settled :
      (ancestor : Option JsonObject) (n : ℕ) (r : MutationResult) (db db' : Database)
      → round deps world owner m ancestor n db ≡ (ok (some r), db')
      → Settled deps world owner m r db'
  unfolding round
  round-Settled ancestor n r db db' h = write_round-Settled ancestor n _ r _ db' h

  rounds-Settled :
      (k : ℕ) (ancestor : Option JsonObject) (n : ℕ) (r : MutationResult) (db db' : Database)
      → rounds deps world owner m k ancestor n db ≡ (ok r, db')
      → Settled deps world owner m r db'
  unfolding rounds
  rounds-Settled zero ancestor n r db db' h = cc h
  rounds-Settled (suc k) ancestor n r db db' h =
      let (outcome, mid, run, done) =
        >>=-eq-ok (round deps world owner m ancestor n) _ db r db' h in
      finish-Settled outcome mid run done (rounds-Settled k ancestor (suc n) r mid db')
    where
      finish-Settled :
          (outcome : Option MutationResult) (mid : Database)
          → round deps world owner m ancestor n db ≡ (ok outcome, mid)
          → finish deps world owner m outcome (rounds deps world owner m k ancestor (suc n)) mid
            ≡ (ok r, db')
          → (rounds deps world owner m k ancestor (suc n) mid ≡ (ok r, db')
              → Settled deps world owner m r db')
          → Settled deps world owner m r db'
      finish-Settled (some r') mid run done rest = round-Settled ancestor n r db db' (run ∙ cc done)
      finish-Settled none mid run done rest = rest done

  push_unless_known-Settled :
      (o : Option StoredVersion) (r : MutationResult) (db db' : Database)
      → find_mutation owner m.device_id m.mutation_id db.records ≡ o
      → push_unless_known deps world owner m o db ≡ (ok r, db')
      → Settled deps world owner m r db'
  unfolding push_unless_known
  push_unless_known-Settled (some v) r db db' known h = result-Settled replayed v r db db' known h
  push_unless_known-Settled none r db db' known h =
      let (payload, mid, _, h1) = >>=-eq-ok (payload_of deps _) _ _ r db' h in
      rounds-Settled _ payload 0 r mid db' h1

  -- With a codec that keeps the laws of `CodecLaws`, and whatever other requests do to the database
  -- at each await: when a push returns, there was a moment at which the mutation was in the table,
  -- and the returned change is that of the version that was stored under the mutation's identity,
  -- opened after the requests that ran since that moment; these alone decide which rows are left.
  pub push-Settled :
      (r : MutationResult) (db db' : Database)
      → push_mutation deps world owner m db ≡ (ok r, db')
      → Settled deps world owner m r db'
  unfolding push_mutation
  push-Settled r db db' h = push_unless_known-Settled _ r _ db' refl h
