-- ===== src/Pull/Isolation.antt =====
-- What one user pushes is not seen by another.
use mathlib.Core.List.{append-nil}
use appbase.Prelude.{
  ℕ, String, ◌≡◌, ◌≢◌, refl, sym, ap, ◌∙◌, false, ◌&&◌, List, [], ◌∷◌, ◌++◌, arith, ◌==◌, eq_iff,
  ltb, select-append, inl, inr,
}
use appbase.Domain.Sync.{SyncMutation, StoredVersion}
use appbase.Database.{Database}
use appbase.Records.{AppendVersionInput, row, append}
use appbase.Records.Append.{append-Outcome}
use appbase.Sync.{SecretCodec, World, SyncDeps, push_mutations}
use appbase.Sync.Codec.{CodecLaws}
use appbase.Sync.Soundness.{Respects, Respected, push_mutations-Keeps}
use appbase.Pull.Paging.{changes_after}

-- The reader's changes are these.
abbrev pub Sees : String → ℕ → List StoredVersion → Database → Type 0
Sees reader after seen db = changes_after reader after db.records ≡ seen

other_string : (a b : String) → a ≢ b → (a == b) ≡ false
other_string a b h = ground (arith, eq_iff a b)

unseen :
    (reader : String) (after sequence : ℕ) (input : AppendVersionInput)
    (records : List StoredVersion)
    → input.owner_sub ≢ reader
    → changes_after reader after (records ++ row sequence input ∷ [])
      ≡ changes_after reader after records
unseen reader after sequence input records h =
    select-append (λ v. v.owner_sub == reader && ltb after v.sequence) records
      (row sequence input ∷ [])
    ∙ rw (other_string input.owner_sub reader h) (append-nil _)

append-Sees :
    (reader : String) (after : ℕ) (seen : List StoredVersion) (input : AppendVersionInput)
    (db : Database)
    → input.owner_sub ≢ reader
    → Sees reader after seen db
    → Sees reader after seen (append input db).1
append-Sees reader after seen input db h s = elim (append-Outcome input db) [
  | inl (_, e) ↦
      ap (λ r. changes_after reader after r.1.records) e
      ∙ unseen reader after _ input db.records h
      ∙ s
  | inr (_, inl e) ↦ ap (λ r. changes_after reader after r.1.records) e ∙ s
  | inr (_, inr (_, e)) ↦ ap (λ r. changes_after reader after r.1.records) e ∙ s
]

same_rows :
    (db db' : Database) → record db' { user_keys = db.user_keys } ≡ db → db'.records ≡ db.records
same_rows db db' e = ap (λ d. d.records) e

calls-Sees :
    (reader owner : String) (after : ℕ) (seen : List StoredVersion) (codec : SecretCodec)
    → owner ≢ reader
    → CodecLaws codec
    → Respects (Sees reader after seen) codec owner
calls-Sees reader owner after seen codec h laws = record {
  seals = λ c r p. record {
    leaves = λ db s.
        ap (changes_after reader after)
          (same_rows db (codec.seal owner c r p db).1 (laws.seal_frame owner c r p db))
        ∙ s;
  };
  unseals = λ o c r e. record {
    leaves = λ db s.
        ap (changes_after reader after)
          (same_rows db (codec.unseal o c r e db).1 (laws.unseal_frame o c r e db))
        ∙ s;
  };
  appends = λ input mine same. record {
    leaves = λ db. append-Sees reader after seen input db (λ e. h (sym mine ∙ e));
  };
}

-- Whatever one owner pushes, with any other requests that do not write for the reader between its
-- steps, the changes that another reader can pull, after any cursor, stay the same.
pub push_mutations-Sees :
    (deps : SyncDeps) (owner reader : String) (after : ℕ) (worlds : ℕ → World)
    (ms : List SyncMutation) (db : Database)
    → CodecLaws deps.secret_codec
    → owner ≢ reader
    → ((n : ℕ) → Respected (Sees reader after (changes_after reader after db.records)) (worlds n))
    → changes_after reader after (push_mutations deps owner worlds 0 ms db).1.records
      ≡ changes_after reader after db.records
push_mutations-Sees deps owner reader after worlds ms db laws h others =
    (push_mutations-Keeps (Sees reader after (changes_after reader after db.records)) deps owner
        (calls-Sees reader owner after _ deps.secret_codec h laws) worlds others 0 ms).leaves
      db refl
