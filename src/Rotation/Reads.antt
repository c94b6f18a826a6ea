-- ===== src/Rotation/Reads.antt =====
-- What a client reads before, during and after a rotation is the same.
use mathlib.Core.List.{append-nil, append_assoc}
use appbase.Prelude.{
  ℕ, ◌<◌, ◌≡◌, ◌≢◌, refl, sym, ap, subst, ◌∙◌, inl, inr, Bool, true, false, Option, none, some,
  List, [], ◌∷◌, ◌++◌, arith, All, Bool-cases, map,
}
use appbase.Action.{ok, pure, ◌>>=◌}
use appbase.Json.{JsonObject}
use appbase.Domain.Sync.{StoredVersion, SyncChange}
use appbase.Database.{Database}
use appbase.Records.History.{Row, IsRising}
use appbase.Sync.{SyncDeps, unseal_version, logical_payload, public_change, change_of}
use appbase.Sync.Codec.{KeysGrow, CodecLaws}
use appbase.Sync.Accepted.{public_change_reads}
use appbase.Rotation.{holds, replaced}
use appbase.Rotation.Counting.{holds-payload}

pub KeysGrow-refl : (db : Database) → KeysGrow db db
KeysGrow-refl db = ([], sym (append-nil db.user_keys))

pub KeysGrow-trans : (a b c : Database) → KeysGrow a b → KeysGrow b c → KeysGrow a c
KeysGrow-trans a b c (more, first) (last, second) =
    (more ++ last, second ∙ ap (λ ks. ks ++ last) first ∙ append_assoc a.user_keys more last)

above :
    {n : ℕ} (vs : List StoredVersion) (w : StoredVersion)
    → All (λ x. n < x.sequence) vs
    → Row w vs
    → w.sequence ≢ n
above (v ∷ vs) w h (inl e) k = absurd (omega (arith, h.0, ap (λ x. x.sequence) e, k))
above (v ∷ vs) w h (inr r) k = above vs w h.1 r k
above [] w h r k = absurd r

module _ (deps : SyncDeps) (start : Database) where
  -- The row `w` of `db` stands for the row `v` of `start`: only its payload differs, and what was
  -- read from `v` is read from `w`.
  pub record StandsFor (db : Database) (v w : StoredVersion) : Type 0 where
    pub kept : record w { payload = v.payload } ≡ v
    pub reads :
        (c : SyncChange)
        → public_change deps v start ≡ (ok c, start)
        → public_change deps w db ≡ (ok c, db)

  -- Row by row; rows that were written since come after them.
  abbrev pub RowsStand : Database → List StoredVersion → List StoredVersion → Type 0
  RowsStand db [] ws = Unit
  RowsStand db (v ∷ vs) [] = ⊥
  RowsStand db (v ∷ vs) (w ∷ ws) = StandsFor db v w × RowsStand db vs ws

  pub record ReadsAs (db : Database) : Type 0 where
    pub grows : KeysGrow start db
    pub rows : RowsStand db start.records db.records

  RowsStand-refl : (vs : List StoredVersion) → RowsStand start vs vs
  RowsStand-refl [] = tt
  RowsStand-refl (v ∷ vs) = (record { kept = refl; reads = λ c h. h }, RowsStand-refl vs)

  pub ReadsAs-refl : ReadsAs start
  ReadsAs-refl = record { grows = KeysGrow-refl start; rows = RowsStand-refl start.records }

  RowsStand-mono :
      (db later : Database)
      → ((w : StoredVersion) (c : SyncChange)
          → public_change deps w db ≡ (ok c, db)
          → public_change deps w later ≡ (ok c, later))
      → (vs ws : List StoredVersion) → RowsStand db vs ws
      → RowsStand later vs ws
  RowsStand-mono db later again [] ws h = tt
  RowsStand-mono db later again (v ∷ vs) [] h = h
  RowsStand-mono db later again (v ∷ vs) (w ∷ ws) h = (
    record { kept = h.0.kept; reads = λ c read. again w c (h.0.reads c read) },
    RowsStand-mono db later again vs ws h.1,
  )

module _ (deps : SyncDeps) (laws : CodecLaws deps.secret_codec) (start : Database) where
  pub ReadsAs-keys :
      (db later : Database)
      → record later { user_keys = db.user_keys } ≡ db
      → KeysGrow db later
      → ReadsAs deps start db
      → ReadsAs deps start later
  ReadsAs-keys db later frame keys h = record {
    grows = KeysGrow-trans start db later h.grows keys;
    rows = subst (RowsStand deps start later start.records) (sym (ap (λ d. d.records) frame)) (
        RowsStand-mono deps start db later
          (λ w c read. public_change_reads deps laws w c db db later read keys) start.records
          db.records h.rows);
  }

  -- A row whose envelope was replaced by another of the same payload.
  swap_reads :
      (w : StoredVersion) (e new p : JsonObject) (c : SyncChange) (db later : Database)
      → w.payload ≡ some e
      → deps.secret_codec.unseal w.owner_sub w.collection w.record_id e db ≡ (ok p, db)
      → deps.secret_codec.unseal w.owner_sub w.collection w.record_id new later ≡ (ok p, later)
      → public_change deps w db ≡ (ok c, db)
      → public_change deps (record w { payload = some new }) later ≡ (ok c, later)
  unfolding public_change logical_payload unseal_version
  swap_reads w e new p c db later payload old fresh read = go w.deleted w.payload payload read
    where
      go :
          (d : Bool) (o : Option JsonObject)
          → o ≡ some e
          → (unseal_version deps d o w >>= λ x. pure (change_of w x)) db ≡ (ok c, db)
          → (unseal_version deps d (some new) (record w { payload = some new }) >>= λ x.
                pure (change_of w x))
              later
            ≡ (ok c, later)
      go d none h k = cc h
      go true (some x) h k = cc k
      go false (some x) h k =
          let same : x ≡ e = cc h in
          let was : (unseal_version deps false (some x) w >>= λ y. pure (change_of w y)) db
              ≡ (ok (change_of w (some p)), db) =
            rw (same, old) refl in
          rw fresh (cc (was, k))

  rising_same :
      (vs : List StoredVersion) (v w : StoredVersion)
      → IsRising vs
      → Row v vs
      → Row w vs
      → v.sequence ≡ w.sequence
      → v ≡ w
  rising_same (u ∷ vs) v w h (inl a) (inl b) same = a ∙ sym b
  rising_same (u ∷ vs) v w h (inl a) (inr b) same =
      absurd (above vs w h.0 b (sym same ∙ ap (λ x. x.sequence) a))
  rising_same (u ∷ vs) v w h (inr a) (inl b) same =
      absurd (above vs v h.0 a (same ∙ ap (λ x. x.sequence) b))
  rising_same (u ∷ vs) v w h (inr a) (inr b) same = rising_same vs v w h.1 a b same
  rising_same [] v w h a b same = absurd a

  -- What the update of one row does to what clients read.
  module _ (row : StoredVersion) (e new p : JsonObject) (db later : Database)
      (there : Row row start.records) (rising : IsRising start.records) (keys : KeysGrow db later)
      (old : deps.secret_codec.unseal row.owner_sub row.collection row.record_id e db ≡ (ok p, db))
      (fresh : deps.secret_codec.unseal row.owner_sub row.collection row.record_id new later
        ≡ (ok p, later)) where
    replaced-StandsFor :
        (v w : StoredVersion)
        → Row v start.records
        → StandsFor deps start db v w
        → StandsFor deps start later v (replaced row.sequence e new w)
    unfolding replaced
    replaced-StandsFor v w listed h = elim (Bool-cases (holds row.sequence e w)) [
      | inl hit ↦
          let (number, payload) = holds-payload row.sequence e w hit in
          let same : v ≡ row =
            rising_same start.records v row rising listed there
              (sym (ap (λ x. x.sequence) h.kept) ∙ number) in
          let owner : w.owner_sub ≡ row.owner_sub =
            ap (λ x. x.owner_sub) h.kept ∙ ap (λ x. x.owner_sub) same in
          let collection : w.collection ≡ row.collection =
            ap (λ x. x.collection) h.kept ∙ ap (λ x. x.collection) same in
          let record_id : w.record_id ≡ row.record_id =
            ap (λ x. x.record_id) h.kept ∙ ap (λ x. x.record_id) same in
          rw hit (record {
            kept = h.kept;
            reads = λ c read.
                swap_reads w e new p c db later payload (rw (owner, collection, record_id) old)
                  (rw (owner, collection, record_id) fresh) (h.reads c read);
          })
      | inr miss ↦ rw miss (record {
        kept = h.kept;
        reads = λ c read. public_change_reads deps laws w c db db later (h.reads c read) keys;
      })
    ]

    pub replaced-RowsStand :
        (vs ws : List StoredVersion)
        → All (λ v. Row v start.records) vs
        → RowsStand deps start db vs ws
        → RowsStand deps start later vs (map (replaced row.sequence e new) ws)
    replaced-RowsStand [] ws listed h = tt
    replaced-RowsStand (v ∷ vs) [] listed h = h
    replaced-RowsStand (v ∷ vs) (w ∷ ws) listed h =
        (replaced-StandsFor v w listed.0 h.0, replaced-RowsStand vs ws listed.1 h.1)
