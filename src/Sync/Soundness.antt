-- ===== src/Sync/Soundness.antt =====
-- What a push keeps, under any interleaving with requests that keep it.
use appbase.Prelude.{
  ℕ, zero, suc, String, ◌≡◌, refl, sym, ap, subst, Bool, true, false, Option, none, some, List, [],
  ◌∷◌, if◌then◌else◌, All, ◌≤◌,
}
use appbase.Action.Keeps.{Keeps, Keeps-pure, Keeps-throw, Keeps-modify, Keeps-bind}
use appbase.Action.{pure, ◌>>=◌}
use appbase.Json.{JsonObject}
use appbase.Domain.Sync.{
  SyncMutation, StoredVersion, Status, applied, merged, replayed, MutationResult,
}
use appbase.Database.{Database}
use appbase.Records.{AppendVersionInput, append, revision_of}
use appbase.Records.History.{History, IsSound}
use appbase.Records.Append.{append-IsSound}
use appbase.Sync.{
  SecretCodec, SyncDeps, World, Point, before_reply, before_current_open, before_seal,
  before_append, is_conflicted, resolve, await, unseal_version, logical_payload, payload_of,
  public_change, change_of, seal_payload, append_input, result, replay_or_retry, settle,
  write_round, round, finish, rounds, push_unless_known, push_mutation, push_mutations,
}
use appbase.Sync.Codec.{CodecLaws}

-- The calls of a push keep `P`.
pub record Respects (P : Database → Type 0) (codec : SecretCodec) (owner : String) : Type 0 where
  pub seals : (c r : String) (p : JsonObject) → Keeps P (codec.seal owner c r p)
  pub unseals : (o c r : String) (e : JsonObject) → Keeps P (codec.unseal o c r e)
  pub appends :
      (input : AppendVersionInput)
      → input.owner_sub ≡ owner
      → input.base_revision ≡ input.expected_revision
      → Keeps P (append input)

-- So do the other requests.
abbrev pub Respected : (Database → Type 0) → World → Type 0
Respected P world = (p : Point) (db : Database) → P db → P (world.others p db)

module _ (P : Database → Type 0) (deps : SyncDeps) (owner : String)
    (calls : Respects P deps.secret_codec owner) where
  unseal_version-Keeps :
      (d : Bool) (o : Option JsonObject) (v : StoredVersion) → Keeps P (unseal_version deps d o v)
  unfolding unseal_version
  unseal_version-Keeps d none v = Keeps-pure none
  unseal_version-Keeps true (some e) v = Keeps-pure none
  unseal_version-Keeps false (some e) v =
      Keeps-bind (deps.secret_codec.unseal v.owner_sub v.collection v.record_id e) _
        (calls.unseals v.owner_sub v.collection v.record_id e) (λ p. Keeps-pure (some p))

  payload_of-Keeps : (o : Option StoredVersion) → Keeps P (payload_of deps o)
  unfolding payload_of
  payload_of-Keeps none = Keeps-pure none
  payload_of-Keeps (some v) = unseal_version-Keeps v.deleted v.payload v

  public_change-Keeps : (v : StoredVersion) → Keeps P (public_change deps v)
  unfolding public_change logical_payload
  public_change-Keeps v =
      Keeps-bind (unseal_version deps v.deleted v.payload v) _
        (unseal_version-Keeps v.deleted v.payload v) (λ p. Keeps-pure (change_of v p))

  seal_payload-Keeps :
      (m : SyncMutation) (o : Option JsonObject) → Keeps P (seal_payload deps owner m o)
  unfolding seal_payload
  seal_payload-Keeps m none = Keeps-pure none
  seal_payload-Keeps m (some p) =
      Keeps-bind (deps.secret_codec.seal owner m.collection m.record_id p) _
        (calls.seals m.collection m.record_id p) (λ e. Keeps-pure (some e))

module _ (P : Database → Type 0) (deps : SyncDeps) (owner : String)
    (calls : Respects P deps.secret_codec owner) (world : World) (others : Respected P world)
    (m : SyncMutation) where
  await-Keeps : (p : Point) → Keeps P (await world p)
  await-Keeps p = Keeps-modify (world.others p) (others p)

  result-Keeps :
      (status : Status) (v : StoredVersion) → Keeps P (result deps world owner m status v)
  unfolding result
  result-Keeps status v = record {
    leaves = λ db h.
        (Keeps-bind (public_change deps v) _ (public_change-Keeps P deps owner calls v)
            (λ c. Keeps-pure _)).leaves
          _ (others before_reply db h);
  }

  some-result-Keeps :
      (status : Status) (v : StoredVersion)
      → Keeps P (result deps world owner m status v >>= λ r. pure (some r))
  some-result-Keeps status v =
      Keeps-bind (result deps world owner m status v) _ (result-Keeps status v)
        (λ r. Keeps-pure (some r))

  replay-Keeps : (o : Option StoredVersion) → Keeps P (replay_or_retry deps world owner m o)
  unfolding replay_or_retry
  replay-Keeps none = Keeps-pure none
  replay-Keeps (some v) = some-result-Keeps replayed v

  settle-Keeps :
      (n : ℕ) (conflicted : Bool) (o : Option StoredVersion)
      → Keeps P (settle deps world owner m n conflicted o)
  unfolding settle
  settle-Keeps n conflicted (some v) = some-result-Keeps (if conflicted then merged else applied) v
  settle-Keeps n conflicted none = record {
    leaves = λ db h. (replay-Keeps _).leaves _ (others _ db h);
  }

  write_round-Keeps :
      (ancestor : Option JsonObject) (n : ℕ) (current : Option StoredVersion)
      → Keeps P (write_round deps world owner m ancestor n current)
  unfolding write_round append_input
  write_round-Keeps ancestor n current =
      Keeps-bind (await world (before_current_open n)) _ (await-Keeps (before_current_open n)) λ _.
        Keeps-bind (payload_of deps current) _ (payload_of-Keeps P deps owner calls current)
          λ payload.
            let logical = resolve ancestor current payload m in
            Keeps-bind (await world (before_seal n)) _ (await-Keeps (before_seal n)) λ _.
              Keeps-bind (seal_payload deps owner m logical) _
                (seal_payload-Keeps P deps owner calls m logical)
                λ stored.
                  let input = append_input world owner m n current logical stored in
                  Keeps-bind (await world (before_append n)) _ (await-Keeps (before_append n)) λ _.
                    Keeps-bind (append input) _
                      (calls.appends input refl (refl {a = revision_of current}))
                      (settle-Keeps n (is_conflicted current m))

  rounds-Keeps :
      (k : ℕ) (ancestor : Option JsonObject) (n : ℕ)
      → Keeps P (rounds deps world owner m k ancestor n)
  unfolding rounds round
  rounds-Keeps zero ancestor n = Keeps-throw _
  rounds-Keeps (suc k) ancestor n =
      Keeps-bind (round deps world owner m ancestor n) _
        (record { leaves = λ db h. (write_round-Keeps ancestor n _).leaves _ (others _ db h) })
        (finish-Keeps (rounds-Keeps k ancestor (suc n)))
    where
      finish-Keeps :
          Keeps P (rounds deps world owner m k ancestor (suc n))
          → (outcome : Option MutationResult)
          → Keeps P
              (finish deps world owner m outcome (rounds deps world owner m k ancestor (suc n)))
      finish-Keeps rest (some r) = Keeps-pure r
      finish-Keeps rest none = rest

  push_unless_known-Keeps :
      (o : Option StoredVersion) → Keeps P (push_unless_known deps world owner m o)
  unfolding push_unless_known
  push_unless_known-Keeps (some v) = result-Keeps replayed v
  push_unless_known-Keeps none = record {
    leaves = λ db h.
        (Keeps-bind (payload_of deps _) _ (payload_of-Keeps P deps owner calls _)
            λ payload. rounds-Keeps _ payload 0).leaves
          _ (others _ _ (others _ db h));
  }

  -- Any property that the calls and the other requests keep, a push keeps.
  pub push-Keeps : Keeps P (push_mutation deps world owner m)
  unfolding push_mutation
  push-Keeps = record { leaves = λ db h. (push_unless_known-Keeps _).leaves _ (others _ db h) }

module _ (P : Database → Type 0) (deps : SyncDeps) (owner : String)
    (calls : Respects P deps.secret_codec owner) where
  -- So does a batch, also one that throws halfway.
  pub push_mutations-Keeps :
      (worlds : ℕ → World)
      → ((n : ℕ) → Respected P (worlds n))
      → (n : ℕ) (ms : List SyncMutation) → Keeps P (push_mutations deps owner worlds n ms)
  unfolding push_mutations
  push_mutations-Keeps worlds others n [] = Keeps-pure []
  push_mutations-Keeps worlds others n (m ∷ rest) =
      Keeps-bind (push_mutation deps (worlds n) owner m) _
        (push-Keeps P deps owner calls (worlds n) (others n) m)
        λ r.
          Keeps-bind (push_mutations deps owner worlds (suc n) rest) _
            (push_mutations-Keeps worlds others (suc n) rest) (λ results. Keeps-pure (r ∷ results))

same_table :
    (db db' : Database) → record db' { user_keys = db.user_keys } ≡ db → IsSound db → IsSound db'
same_table db db' e s = record {
  history = subst History (sym (ap (λ d. d.records) e)) s.history;
  counted = subst (λ d. All (λ r. r.sequence ≤ d.last_sequence) d.records) (sym e) s.counted;
}

calls-IsSound :
    (codec : SecretCodec) (owner : String) → CodecLaws codec → Respects IsSound codec owner
calls-IsSound codec owner laws = record {
  seals = λ c r p. record { leaves = λ db. same_table db _ (laws.seal_frame owner c r p db) };
  unseals = λ o c r e. record { leaves = λ db. same_table db _ (laws.unseal_frame o c r e db) };
  appends = λ input mine same. record { leaves = λ db. append-IsSound input db same };
}

-- A batch of mutations, whether it is taken whole or throws halfway, and whatever sound requests
-- run between its steps, leaves the table of versions a history: each version was written on top
-- of the newest one of its record, and no mutation and no revision is there twice.
pub push_mutations-IsSound :
    (deps : SyncDeps) (owner : String) (worlds : ℕ → World) (ms : List SyncMutation) (db : Database)
    → CodecLaws deps.secret_codec
    → ((n : ℕ) → Respected IsSound (worlds n))
    → IsSound db
    → IsSound (push_mutations deps owner worlds 0 ms db).1
push_mutations-IsSound deps owner worlds ms db laws others s =
    (push_mutations-Keeps IsSound deps owner (calls-IsSound deps.secret_codec owner laws) worlds
        others 0 ms).leaves
      db s
