-- ===== src/Rotation/Progress.antt =====
-- How far a batch of the rotation gets.
use appbase.Prelude.{
  ℕ, zero, suc, ◌+◌, ◌≤◌, String, ◌≡◌, ◌≢◌, refl, sym, ap, subst, ◌∙◌, ◌⊎◌, inl, inr, Bool, true,
  false, ◌&&◌, not, Option, none, some, List, [], ◌∷◌, arith, leb, nat_eq, length, select, any, map,
  take,
}
use appbase.Action.{require-eq-ok, Failure, Result, err, ◌>>◌, ok, require, >>=-eq-ok}
use appbase.Json.{JsonObject}
use appbase.Domain.Sync.{StoredVersion}
use appbase.Database.{Database}
use appbase.Database.Fence.{fenced, deleted_abort}
use appbase.Keyring.{is_version}
use appbase.Sync.{SecretCodec}
use appbase.Sync.Codec.{CodecLaws}
use appbase.Rotation.{
  payload_version, is_under, envelope_count, holds, replaced, replace_payload, reencrypt_payload,
  reencrypt_rows, check_batch, run_batch, reencrypt_batch, KeyRotationBatchResult,
}
use appbase.Rotation.Counting.{counts, found_first, Under, take-Under, select-Under}

migrated_of : KeyRotationBatchResult → Result KeyRotationBatchResult × Database → ℕ
migrated_of r (ok x, db) = x.migrated
migrated_of r (err e, db) = r.migrated

remaining_of : KeyRotationBatchResult → Result KeyRotationBatchResult × Database → ℕ
remaining_of r (ok x, db) = x.remaining
remaining_of r (err e, db) = r.remaining

require_three :
    {S : Type 0} (a b c : Bool) (e f g : Failure) (s s' : S) {u : Unit {0}}
    → (do require a e; require b f; require c g) s ≡ (ok u, s')
    → (s' ≡ s) × (b ≡ true) × (c ≡ true)
require_three true true true e f g s s' h = (cc h, refl, refl)
require_three true true false e f g s s' h = cc h
require_three true false c e f g s s' h = cc h
require_three false b c e f g s s' h = cc h

take_first :
    {A : Type 0} (n : ℕ) (xs : List A) (y : A) (ys : List A)
    → take n xs ≡ y ∷ ys
    → (zs : List A) × (xs ≡ y ∷ zs)
take_first zero xs y ys h = cc h
take_first (suc n) [] y ys h = cc h
take_first (suc n) (x ∷ xs) y ys h = (xs, cc h)

take_none : {A : Type 0} (n : ℕ) (xs : List A) → 1 ≤ n → take n xs ≡ [] → length xs ≡ 0
take_none zero xs h k = absurd (omega (arith, h))
take_none (suc n) [] h k = refl
take_none (suc n) (x ∷ xs) h k = cc k

no_version : (from : ℕ) → payload_version none ≢ some from
unfolding payload_version
no_version from h = cc h

pub check_batch-eq-ok :
    (from to limit : ℕ) (db db' : Database) {u : Unit {0}}
    → check_batch to from limit db ≡ (ok u, db')
    → (db' ≡ db) × (nat_eq to from ≡ false) × (1 ≤ limit)
unfolding check_batch
check_batch-eq-ok from to limit db db' h =
    let (same, other, last) =
      require_three (is_version from) (not (nat_eq from to)) (leb 1 limit && leb limit 1000) _ _ _
        db db' h in
    (same, ground arith, ground arith)

module _ (from to : ℕ) (apart : nat_eq to from ≡ false) where
  replace_progress :
      (sequence : ℕ) (old new : JsonObject) (n : ℕ) (db db' : Database)
      → payload_version (some old) ≡ some from
      → payload_version (some new) ≡ some to
      → replace_payload sequence old new db ≡ (ok n, db')
      → (n + envelope_count from db'.records ≡ envelope_count from db.records)
        × (n ≡ length (select (holds sequence old) db.records))
  unfolding replace_payload
  replace_progress sequence old new n db db' before after h =
      let test =
        not (any (λ v. holds sequence old v && fenced db.accounts v.owner_sub) db.records) in
      let (_, mid, passed, done) = >>=-eq-ok (require test deleted_abort) _ db n db' h in
      let same : mid ≡ db = (require-eq-ok test deleted_abort db mid passed).0 in
      let rows : db'.records ≡ map (replaced sequence old new) db.records =
        sym (ap (λ x. x.1.records) done)
        ∙ ap (λ d. map (replaced sequence old new) d.records) same in
      let number : n ≡ length (select (holds sequence old) db.records) = cc done in
      (cc (counts from to sequence old new before after apart db.records, rows, number), number)

  module _ (codec : SecretCodec) (laws : CodecLaws codec)
      (stamps : (o c r : String) (p e : JsonObject) (db db' : Database)
        → codec.seal o c r p db ≡ (ok e, db')
        → payload_version (some e) ≡ some to) where
    payload_progress :
        (i : ℕ) (row : StoredVersion) (o : Option JsonObject) (n : ℕ) (db db' : Database)
        → payload_version o ≡ some from
        → reencrypt_payload codec (λ i d. d) i row o db ≡ (ok n, db')
        → (n + envelope_count from db'.records ≡ envelope_count from db.records)
          × ((e : JsonObject) × (o ≡ some e)
              × (n ≡ length (select (holds row.sequence e) db.records)))
    unfolding reencrypt_payload
    payload_progress i row none n db db' before h = absurd (no_version from before)
    payload_progress i row (some e) n db db' before h =
        let (p, d1, opened, h1) =
          >>=-eq-ok (codec.unseal row.owner_sub row.collection row.record_id e) _ db n db' h in
        let (new, d2, wrote, h2) =
          >>=-eq-ok (codec.seal row.owner_sub row.collection row.record_id p) _ d1 n db' h1 in
        let same1 : d1.records ≡ db.records =
          sym (ap (λ x. x.1.records) opened)
          ∙ ap (λ d. d.records)
              (laws.unseal_frame row.owner_sub row.collection row.record_id e db) in
        let same2 : d2.records ≡ db.records =
          sym (ap (λ x. x.1.records) wrote)
          ∙ ap (λ d. d.records) (laws.seal_frame row.owner_sub row.collection row.record_id p d1)
          ∙ same1 in
        let (sum, number) =
          replace_progress row.sequence e new n d2 db' before
            (stamps row.owner_sub row.collection row.record_id p new d1 d2 wrote) h2 in
        (
          sum ∙ ap (envelope_count from) same2,
          (e, refl, number ∙ ap (λ vs. length (select (holds row.sequence e) vs)) same2),
        )

    rows_progress :
        (i : ℕ) (rows : List StoredVersion) (n : ℕ) (db db' : Database)
        → Under from rows
        → reencrypt_rows codec (λ i d. d) i rows db ≡ (ok n, db')
        → n + envelope_count from db'.records ≡ envelope_count from db.records
    unfolding reencrypt_rows
    rows_progress i [] n db db' under h =
        let same : db ≡ db' = cc h in
        let none_done : 0 ≡ n = cc h in
        subst (λ d. n + envelope_count from d.records ≡ envelope_count from db.records) same
          (subst (λ k. k + envelope_count from db.records ≡ envelope_count from db.records)
            none_done (omega arith))
    rows_progress i (row ∷ rest) n db db' under h =
        let (a, d1, first, h1) =
          >>=-eq-ok (reencrypt_payload codec (λ i d. d) i row row.payload) _ db n db' h in
        let (b, d2, others, h2) =
          >>=-eq-ok (reencrypt_rows codec (λ i d. d) (suc i) rest) _ d1 n db' h1 in
        let sum : a + b ≡ n = cc h2 in
        let same : d2.records ≡ db'.records = ap (λ x. x.1.records) h2 in
        omega (
          arith,
          sum,
          (payload_progress i row row.payload a db d1 under.0 first).0,
          rows_progress (suc i) rest b d1 d2 under.1 others,
          ap (envelope_count from) same,
        )

    -- The first row is always replaced.
    first_replaced :
        (rows : List StoredVersion) (n : ℕ) (db db' : Database)
        → Under from rows
        → ((v : StoredVersion) (ws : List StoredVersion) (e : JsonObject)
            → rows ≡ v ∷ ws
            → v.payload ≡ some e
            → 1 ≤ length (select (holds v.sequence e) db.records))
        → reencrypt_rows codec (λ i d. d) 0 rows db ≡ (ok n, db')
        → (rows ≡ []) ⊎ (1 ≤ n)
    unfolding reencrypt_rows
    first_replaced [] n db db' under there h = inl refl
    first_replaced (row ∷ rest) n db db' under there h =
        let (a, d1, first, h1) =
          >>=-eq-ok (reencrypt_payload codec (λ i d. d) 0 row row.payload) _ db n db' h in
        let (b, d2, others, h2) =
          >>=-eq-ok (reencrypt_rows codec (λ i d. d) 1 rest) _ d1 n db' h1 in
        let sum : a + b ≡ n = cc h2 in
        let (e, payload, number) = (payload_progress 0 row row.payload a db d1 under.0 first).1 in
        inr (omega (arith, sum, number, there row rest e refl payload))

    pub batch_progress :
        (limit : ℕ) (r : KeyRotationBatchResult) (db db' : Database)
        → reencrypt_batch codec (λ i d. d) to from limit db ≡ (ok r, db')
        → (r.migrated + r.remaining ≡ envelope_count from db.records)
          × ((envelope_count from db.records ≡ 0) ⊎ (1 ≤ r.migrated))
    unfolding reencrypt_batch run_batch migrated_of remaining_of
    batch_progress limit r db db' h =
        let (_, d1, checked, h1) = >>=-eq-ok (check_batch to from limit) _ db r db' h in
        let (same, _, enough) = check_batch-eq-ok from to limit db d1 checked in
        let rows = take limit (select (is_under from) d1.records) in
        let (n, d2, run, h2) = >>=-eq-ok (reencrypt_rows codec (λ i d. d) 0 rows) _ d1 r db' h1 in
        let migrated : n ≡ r.migrated = ap (migrated_of r) h2 in
        let remaining : envelope_count from d2.records ≡ r.remaining = ap (remaining_of r) h2 in
        let under : Under from rows =
          take-Under from limit (select (is_under from) d1.records)
            (select-Under from d1.records) in
        let kept : envelope_count from d1.records ≡ envelope_count from db.records =
          ap (λ d. envelope_count from d.records) same in
        (
          omega (arith, migrated, remaining, kept, rows_progress 0 rows n d1 d2 under run),
          elim (first_replaced rows n d1 d2 under
              (λ v ws e first payload.
                let (rest, whole) =
                  take_first limit (select (is_under from) d1.records) v ws first in
                found_first from d1.records v rest e whole payload)
              run) [
                | inl none_left ↦ inl (
                    sym kept
                    ∙ (unfold envelope_count in
                        take_none limit (select (is_under from) d1.records) enough none_left))
                | inr some_left ↦ inr (omega (arith, some_left, migrated))
              ],
        )
