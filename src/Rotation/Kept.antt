-- ===== src/Rotation/Kept.antt =====
-- A batch of the rotation changes nothing that a client reads.
use appbase.Prelude.{
  ℕ, zero, suc, ◌≡◌, refl, sym, ap, subst, inl, inr, Bool, true, false, Option, none, some, List,
  [], ◌∷◌, not, ◌&&◌, any, All, All-select, length, map, select, take, nat_eq, leb, ◌+◌,
}
use appbase.Action.{Failure, Result, ok, err, pure, modify, require, continue, ◌>>=◌}
use appbase.Action.Keeps.{Keeps, Keeps-bind, Keeps-pure, Keeps-require}
use appbase.Json.{JsonObject}
use appbase.Domain.Sync.{StoredVersion}
use appbase.Database.{Database, Db}
use appbase.Database.Fence.{fenced, deleted_abort}
use appbase.Records.History.{Row, IsRising}
use appbase.Keyring.{is_version}
use appbase.Envelope.{require_version}
use appbase.Sync.{SyncDeps}
use appbase.Sync.Codec.{KeysGrow, CodecLaws}
use appbase.Rotation.{
  is_under, holds, replaced, replace_payload, reencrypt_payload, reencrypt_rows, check_batch,
  run_batch, reencrypt_batch,
}
use appbase.Rotation.Reads.{
  ReadsAs, ReadsAs-refl, ReadsAs-keys, KeysGrow-refl, KeysGrow-trans, replaced-RowsStand,
}
use appbase.Rotation.Progress.{check_batch-eq-ok}

bind_leaves :
    {A B : Type 0} (Q : Database → Type 0) (m : Db A) (f : A → Db B) (db : Database)
    → ((e : Failure) (later : Database) → m db ≡ (err e, later) → Q later)
    → ((a : A) (later : Database) → m db ≡ (ok a, later) → Q (f a later).1)
    → Q ((m >>= f) db).1
bind_leaves Q m f db failed done = go (m db) refl
  where
    go : (outcome : Result _ × Database) → m db ≡ outcome → Q (continue outcome.0 f outcome.1).1
    go (ok a, later) h = done a later h
    go (err e, later) h = failed e later h

replace_leaves :
    (Q : Database → Type 0) (sequence : ℕ) (old new : JsonObject) (db : Database)
    → Q db
    → Q (record db { records = map (replaced sequence old new) db.records })
    → Q (replace_payload sequence old new db).1
unfolding replace_payload
replace_leaves Q sequence old new db before after =
    go (not (any (λ v. holds sequence old v && fenced db.accounts v.owner_sub) db.records))
  where
    go :
        (allowed : Bool)
        → Q
            ((require allowed deleted_abort >>= λ _.
                modify (λ d. record d { records = map (replaced sequence old new) d.records })
                >>= λ _. pure (length (select (holds sequence old) db.records)))
              db).1
    go true = after
    go false = before

check_batch-Keeps :
    {P : Database → Type 0} (current from limit : ℕ) → Keeps P (check_batch current from limit)
unfolding check_batch
check_batch-Keeps current from limit =
    Keeps-bind (require_version from) _ (Keeps-require (is_version from) _) λ _.
      Keeps-bind (require (not (nat_eq from current)) _) _
        (Keeps-require (not (nat_eq from current)) _)
        λ _. Keeps-require (leb 1 limit && leb limit 1000) _

rows_listed :
    (xs ys : List StoredVersion)
    → ((v : StoredVersion) → Row v ys → Row v xs)
    → All (λ v. Row v xs) ys
rows_listed xs [] within = tt
rows_listed xs (y ∷ ys) within = (within y (inl refl), rows_listed xs ys (λ v h. within v (inr h)))

All-take :
    (P : StoredVersion → Type 0) (n : ℕ) (vs : List StoredVersion) → All P vs → All P (take n vs)
All-take P zero vs h = tt
All-take P (suc n) [] h = tt
All-take P (suc n) (v ∷ vs) h = (h.0, All-take P n vs h.1)

-- What other requests may do meanwhile: no more than a rotation does.
abbrev pub Harmless : SyncDeps → Database → (ℕ → Database → Database) → Type 0
Harmless deps start others =
    (n : ℕ) (db : Database)
    → ReadsAs deps start db
    → ReadsAs deps start (others n db) × KeysGrow db (others n db)

module _ (deps : SyncDeps) (laws : CodecLaws deps.secret_codec) (start : Database)
    (rising : IsRising start.records) (others : ℕ → Database → Database)
    (harmless : Harmless deps start others) where
  payload_leaves :
      (n : ℕ) (row : StoredVersion) (o : Option JsonObject) (db : Database)
      → Row row start.records
      → ReadsAs deps start db
      → ReadsAs deps start (reencrypt_payload deps.secret_codec others n row o db).1
  unfolding reencrypt_payload
  payload_leaves n row none db listed h = h
  payload_leaves n row (some e) db listed h =
      bind_leaves Reading (deps.secret_codec.unseal row.owner_sub row.collection row.record_id e) _
        db (λ failure d1 ran. subst Reading (ap (λ x. x.1) ran) opened)
        λ p d1 ran.
          bind_leaves Reading (deps.secret_codec.seal row.owner_sub row.collection row.record_id p)
            _ d1
            (λ failure d2 wrote.
              subst Reading (ap (λ x. x.1) wrote)
                (sealed p d1 (subst Reading (ap (λ x. x.1) ran) opened)))
            λ new d2 wrote. stored p new d1 d2 ran wrote (
              harmless n d2 (
                subst Reading (ap (λ x. x.1) wrote)
                  (sealed p d1 (subst Reading (ap (λ x. x.1) ran) opened))))
    where
      Reading : Database → Type 0
      Reading = ReadsAs deps start

      opened : Reading (deps.secret_codec.unseal row.owner_sub row.collection row.record_id e db).1
      opened =
          ReadsAs-keys deps laws start db _
            (laws.unseal_frame row.owner_sub row.collection row.record_id e db)
            (laws.unseal_grows row.owner_sub row.collection row.record_id e db) h

      sealed :
          (p : JsonObject) (d : Database)
          → Reading d
          → Reading (deps.secret_codec.seal row.owner_sub row.collection row.record_id p d).1
      sealed p d k =
          ReadsAs-keys deps laws start d _
            (laws.seal_frame row.owner_sub row.collection row.record_id p d)
            (laws.seal_grows row.owner_sub row.collection row.record_id p d) k

      stored :
          (p new : JsonObject) (d1 d2 : Database)
          → deps.secret_codec.unseal row.owner_sub row.collection row.record_id e db ≡ (ok p, d1)
          → deps.secret_codec.seal row.owner_sub row.collection row.record_id p d1 ≡ (ok new, d2)
          → Reading (others n d2) × KeysGrow d2 (others n d2)
          → Reading (replace_payload row.sequence e new (others n d2)).1
      stored p new d1 d2 ran wrote (k, grown) =
          replace_leaves Reading row.sequence e new (others n d2) k (record {
            grows = k.grows;
            rows =
                replaced-RowsStand deps laws start row e new p (others n d2)
                  (record (others n d2) {
                    records = map (replaced row.sequence e new) (others n d2).records;
                  })
                  listed rising (KeysGrow-refl (others n d2))
                  (laws.unseal_stable row.owner_sub row.collection row.record_id p e db d1
                    (others n d2) ran
                    (KeysGrow-trans d1 d2 (others n d2)
                      (subst (KeysGrow d1) (ap (λ x. x.1) wrote)
                        (laws.seal_grows row.owner_sub row.collection row.record_id p d1))
                      grown))
                  (laws.unseal-seal row.owner_sub row.collection row.record_id p new d1 d2 _ wrote
                    grown)
                  start.records (others n d2).records
                  (rows_listed start.records start.records (λ v h. h)) k.rows;
          })

  rows_leaves :
      (n : ℕ) (rows : List StoredVersion)
      → All (λ v. Row v start.records) rows
      → Keeps (ReadsAs deps start) (reencrypt_rows deps.secret_codec others n rows)
  unfolding reencrypt_rows
  rows_leaves n [] listed = Keeps-pure 0
  rows_leaves n (row ∷ rest) listed =
      Keeps-bind (reencrypt_payload deps.secret_codec others n row row.payload) _
        (record { leaves = λ db h. payload_leaves n row row.payload db listed.0 h })
        λ a.
          Keeps-bind (reencrypt_rows deps.secret_codec others (suc n) rest) _
            (rows_leaves (suc n) rest listed.1) (λ b. Keeps-pure (a + b))

  run_leaves :
      (current from limit : ℕ)
      → ReadsAs deps start (run_batch deps.secret_codec others current from limit start).1
  unfolding run_batch
  run_leaves current from limit =
      let rows = take limit (select (is_under from) start.records) in
      let listed : All (λ v. Row v start.records) rows =
        All-take (λ v. Row v start.records) limit (select (is_under from) start.records)
          (All-select (λ v. Row v start.records) (is_under from) start.records
            (rows_listed start.records start.records (λ v h. h))) in
      bind_leaves (ReadsAs deps start) (reencrypt_rows deps.secret_codec others 0 rows) _ start
        (λ e later h. subst (ReadsAs deps start) (ap (λ x. x.1) h) (after rows listed))
        (λ n later h. subst (ReadsAs deps start) (ap (λ x. x.1) h) (after rows listed))
    where
      after :
          (rows : List StoredVersion)
          → All (λ v. Row v start.records) rows
          → ReadsAs deps start (reencrypt_rows deps.secret_codec others 0 rows start).1
      after rows listed = (rows_leaves 0 rows listed).leaves start (ReadsAs-refl deps start)

  -- A batch of the rotation, whether it returns or throws, leaves every record as it was read: each
  -- row keeps all but its payload, and a client that could read it reads the same from it. Other
  -- requests may do as much between the reading and the replacement of a row.
  pub batch-ReadsAs :
      (current from limit : ℕ)
      → ReadsAs deps start (reencrypt_batch deps.secret_codec others current from limit start).1
  unfolding reencrypt_batch
  batch-ReadsAs current from limit =
      bind_leaves (ReadsAs deps start) (check_batch current from limit) _ start
        (λ e later h. subst (ReadsAs deps start) (ap (λ x. x.1) h) (
          (check_batch-Keeps {P = ReadsAs deps start} current from limit).leaves start
            (ReadsAs-refl deps start)))
        λ u later checked.
          subst
            (λ d. ReadsAs deps start (run_batch deps.secret_codec others current from limit d).1)
            (sym (check_batch-eq-ok from current limit start later checked).0)
            (run_leaves current from limit)
