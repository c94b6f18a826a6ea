-- ===== src/Sync/Rounds.antt =====
-- The rounds of a push that no other request disturbs: the first one writes, and ends the loop.
use mathlib.Core.List.{append-nil}
use appbase.Prelude.{
  ℕ, suc, String, ◌≡◌, refl, sym, ap, ◌∙◌, subst, true, false, Option, none, some, [], arith, ◌-◌,
  get_or, max, inl, inr, if◌then◌else◌,
}
use appbase.Action.{ok, >>=-eq-ok, pure}
use appbase.Json.{JsonObject}
use appbase.Domain.Sync.{SyncMutation, StoredVersion, applied, merged, MutationResult}
use appbase.Database.{Database}
use appbase.Database.Fence.{fenced}
use appbase.Records.{
  find_mutation, get_current, get_version, revision_of, AppendVersionInput, row, append,
}
use appbase.Records.Append.{Accepts, appended, append-Outcome}
use appbase.Sync.{
  SyncDeps, World, is_null, unseal_version, logical_payload, payload_of, public_change, change_of,
  seal_payload, is_conflicted, resolve, append_input, result, settle, write_round, round, rounds,
  ancestor_of, push_new, push_unless_known, push_mutation,
}
use appbase.Sync.Codec.{KeysGrow, CodecLaws}

abbrev pub quiet : (ℕ → ℕ) → (ℕ → String) → World
quiet now create_revision = record {
  others = λ p db. db;
  now = now;
  create_revision = create_revision;
}

append_accepted :
    (input : AppendVersionInput) (db : Database)
    → Accepts input db
    → append input db ≡ (ok (some (row (suc db.last_sequence) input)), appended input db)
append_accepted input db a = elim (append-Outcome input db) [
  | inl (_, e) ↦ e
  | inr (refused, _) ↦ absurd (refused a)
]

module _ (deps : SyncDeps) (laws : CodecLaws deps.secret_codec) (owner : String)
    (m : SyncMutation) where
  -- What was sealed for a version is what the version is read as.
  reads_sealed :
      (logical stored : Option JsonObject) (db sealed later : Database) (v : StoredVersion)
      → seal_payload deps owner m logical db ≡ (ok stored, sealed)
      → KeysGrow sealed later
      → v.owner_sub ≡ owner
      → v.collection ≡ m.collection
      → v.record_id ≡ m.record_id
      → unseal_version deps (is_null logical) stored v later ≡ (ok logical, later)
  unfolding seal_payload unseal_version is_null
  reads_sealed none stored db sealed later v h keys o c r =
      let unsealed : none ≡ stored = cc h in
      subst (λ s. unseal_version deps true s v later ≡ (ok none, later)) unsealed refl
  reads_sealed (some p) stored db sealed later v h keys o c r =
      let (e, mid, seal, done) =
        >>=-eq-ok (deps.secret_codec.seal owner m.collection m.record_id p) (λ e. pure (some e)) db
          stored sealed h in
      let envelope : some e ≡ stored = cc done in
      let read : deps.secret_codec.unseal owner m.collection m.record_id e later ≡ (ok p, later) =
        laws.unseal-seal owner m.collection m.record_id p e db sealed later (seal ∙ cc done) keys in
      subst (λ s. unseal_version deps false s v later ≡ (ok (some p), later)) envelope
        (rw (o, c, r, read) refl)

  seal_payload_frame :
      (logical stored : Option JsonObject) (db sealed : Database)
      → seal_payload deps owner m logical db ≡ (ok stored, sealed)
      → record sealed { user_keys = db.user_keys } ≡ db
  unfolding seal_payload
  seal_payload_frame none stored db sealed h =
      let same : db ≡ sealed = cc h in
      subst (λ d. record d { user_keys = db.user_keys } ≡ db) same refl
  seal_payload_frame (some p) stored db sealed h =
      let (e, mid, seal, done) =
        >>=-eq-ok (deps.secret_codec.seal owner m.collection m.record_id p) (λ e. pure (some e)) db
          stored sealed h in
      let same : (deps.secret_codec.seal owner m.collection m.record_id p db).1 ≡ sealed =
        cc (seal, done) in
      subst (λ d. record d { user_keys = db.user_keys } ≡ db) same
        (laws.seal_frame owner m.collection m.record_id p db)

module _ (deps : SyncDeps) (laws : CodecLaws deps.secret_codec) (now : ℕ → ℕ)
    (create_revision : ℕ → String) (owner : String) (m : SyncMutation) where
  abbrev world : World
  world = quiet now create_revision

  -- The row that the first round writes.
  abbrev pub new_row :
      Option StoredVersion → Option JsonObject → Option JsonObject → Database → StoredVersion
  new_row current logical stored sealed =
      row (suc sealed.last_sequence) (append_input world owner m 0 current logical stored)

  abbrev pub grown :
      Option StoredVersion → Option JsonObject → Option JsonObject → Database → Database
  grown current logical stored sealed =
      appended (append_input world owner m 0 current logical stored) sealed

  abbrev pub outcome :
      Option StoredVersion → Option JsonObject → Option JsonObject → Database → MutationResult
  outcome current logical stored sealed = record {
    mutation_id = m.mutation_id;
    status = if is_conflicted current m then merged else applied;
    change = change_of (new_row current logical stored sealed) logical;
  }

  report_new :
      (current : Option StoredVersion) (logical stored : Option JsonObject) (db sealed : Database)
      → seal_payload deps owner m logical db ≡ (ok stored, sealed)
      → public_change deps
          (new_row current logical stored sealed)
          (grown current logical stored sealed)
        ≡ (
          ok (change_of (new_row current logical stored sealed) logical),
          grown current logical stored sealed,
        )
  unfolding public_change logical_payload append_input
  report_new current logical stored db sealed h =
      rw
        (reads_sealed deps laws owner m logical stored db sealed
          (grown current logical stored sealed) (new_row current logical stored sealed) h
          ([], sym (append-nil sealed.user_keys)) refl refl refl)
        refl

  write_quiet :
      (ancestor server stored : Option JsonObject) (current : Option StoredVersion)
      (db sealed : Database)
      → payload_of deps current db ≡ (ok server, db)
      → seal_payload deps owner m (resolve ancestor current server m) db ≡ (ok stored, sealed)
      → Accepts
          (append_input world owner m 0 current (resolve ancestor current server m) stored)
          sealed
      → write_round deps world owner m ancestor 0 current db ≡ (
        ok (some (outcome current (resolve ancestor current server m) stored sealed)),
        grown current (resolve ancestor current server m) stored sealed,
      )
  unfolding write_round settle result
  write_quiet ancestor server stored current db sealed read seal accepted =
      rw
        (
          read,
          seal,
          append_accepted
              (append_input world owner m 0 current (resolve ancestor current server m) stored)
              sealed accepted,
          report_new current (resolve ancestor current server m) stored db sealed seal,
        )
        refl

  rounds_quiet :
      (k : ℕ) (ancestor : Option JsonObject) (r : MutationResult) (db db' : Database)
      → write_round deps world owner m ancestor 0
          (get_current owner m.collection m.record_id db.records)
          db
        ≡ (ok (some r), db')
      → rounds deps world owner m (suc k) ancestor 0 db ≡ (ok r, db')
  unfolding rounds round
  rounds_quiet k ancestor r db db' h = rw h refl

  some_round : (n : ℕ) → (k : ℕ) × (max 1 n ≡ suc k)
  some_round n = (max 1 n - 1, omega arith)

  push_new_quiet :
      (ancestor : Option JsonObject) (r : MutationResult) (db db' : Database)
      → find_mutation owner m.device_id m.mutation_id db.records ≡ none
      → payload_of deps (ancestor_of deps world owner m m.base_revision db) db ≡ (ok ancestor, db)
      → write_round deps world owner m ancestor 0
          (get_current owner m.collection m.record_id db.records)
          db
        ≡ (ok (some r), db')
      → push_mutation deps world owner m db ≡ (ok r, db')
  unfolding push_mutation push_unless_known push_new
  push_new_quiet ancestor r db db' new base h =
      let (k, count) = some_round (get_or deps.max_conflict_retries 3) in
      rw (new, base, count, rounds_quiet k ancestor r db db' h) refl

  Accepts-quiet :
      (logical stored : Option JsonObject) (db sealed : Database)
      → record sealed { user_keys = db.user_keys } ≡ db
      → find_mutation owner m.device_id m.mutation_id db.records ≡ none
      → fenced db.accounts owner ≡ false
      → get_version owner m.collection m.record_id (create_revision 0) db.records ≡ none
      → Accepts
          (append_input world owner m 0
            (get_current owner m.collection m.record_id db.records)
            logical
            stored)
          sealed
  unfolding append_input
  Accepts-quiet logical stored db sealed frame new open_account unused = record {
    expected = ap (λ rs. revision_of (get_current owner m.collection m.record_id rs)) same_records;
    open_account = ap (λ d. fenced d.accounts owner) frame ∙ open_account;
    new_mutation = ap (λ rs. find_mutation owner m.device_id m.mutation_id rs) same_records ∙ new;
    new_revision =
        ap (λ rs. get_version owner m.collection m.record_id (create_revision 0) rs) same_records
        ∙ unused;
  }
    where
      same_records : sealed.records ≡ db.records
      same_records = ap (λ d. d.records) frame

  pub push_resolved :
      (ancestor server stored : Option JsonObject) (db sealed : Database)
      → let current = get_current owner m.collection m.record_id db.records in
        let logical = resolve ancestor current server m in
        find_mutation owner m.device_id m.mutation_id db.records ≡ none
        → payload_of deps (ancestor_of deps world owner m m.base_revision db) db ≡ (ok ancestor, db)
        → payload_of deps current db ≡ (ok server, db)
        → seal_payload deps owner m logical db ≡ (ok stored, sealed)
        → fenced db.accounts owner ≡ false
        → get_version owner m.collection m.record_id (create_revision 0) db.records ≡ none
        → push_mutation deps world owner m db
          ≡ (ok (outcome current logical stored sealed), grown current logical stored sealed)
  push_resolved ancestor server stored db sealed new base read seal open_account unused =
      let current = get_current owner m.collection m.record_id db.records in
      push_new_quiet ancestor _ db _ new base (
        write_quiet ancestor server stored current db sealed read seal (
          Accepts-quiet (resolve ancestor current server m) stored db sealed
            (seal_payload_frame deps laws owner m (resolve ancestor current server m) stored db
              sealed seal)
            new open_account unused))
