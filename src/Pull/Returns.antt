-- ===== src/Pull/Returns.antt =====
-- When a pull returns.
use appbase.Prelude.{
  ℕ, zero, suc, ◌≤◌, String, ◌≡◌, refl, Option, List, [], ◌∷◌, arith, ◌==◌, ◌&&◌, eq_iff, ltb, take,
  last?, select, All, All-select, All-mono, length,
}
use appbase.Action.{ok}
use appbase.Domain.Sync.{StoredVersion, SyncChange, PullResult}
use appbase.Database.{Database}
use appbase.Records.{list_changes}
use appbase.Records.History.{IsSound}
use appbase.Base64.{bytes_to_base64_url}
use appbase.Cursor.{to_decimal, max_safe_integer, decode_cursor}
use appbase.Cursor.RoundTrip.{decode_le, encode_small}
use appbase.Sync.{SyncDeps, public_change}
use appbase.Pull.{public_changes, last_sequence, pull_changes}

All-take :
    (P : StoredVersion → Type 0) (n : ℕ) (vs : List StoredVersion) → All P vs → All P (take n vs)
All-take P zero vs h = tt
All-take P (suc n) [] h = tt
All-take P (suc n) (v ∷ vs) h = (h.0, All-take P n vs h.1)

last_sequence-le :
    (after bound : ℕ) (vs : List StoredVersion)
    → after ≤ bound
    → All (λ v. v.sequence ≤ bound) vs
    → last_sequence after (last? vs) ≤ bound
unfolding last_sequence
last_sequence-le after bound [] h all = h
last_sequence-le after bound (v ∷ []) h all = all.0
last_sequence-le after bound (v ∷ w ∷ vs) h all = last_sequence-le after bound (w ∷ vs) h all.1

module _ (deps : SyncDeps) where
  -- The version's payload can be opened, and opening it changes nothing.
  abbrev pub IsReadable : Database → StoredVersion → Type 0
  IsReadable db v = (c : SyncChange) × (public_change deps v db ≡ (ok c, db))

  reads-All :
      (db : Database) (vs : List StoredVersion)
      → All (IsReadable db) vs
      → (cs : List SyncChange) × (public_changes deps vs db ≡ (ok cs, db))
  unfolding public_changes
  reads-All db [] h = ([], refl)
  reads-All db (v ∷ vs) h =
      let (c, one) = h.0 in let (cs, more) = reads-All db vs h.1 in (c ∷ cs, rw (one, more) refl)

  -- A pull whose cursor is well-formed returns, and changes nothing, if the payloads of the
  -- owner's versions can be opened and no sequence number is beyond the safe integers.
  pub pull_returns :
      (owner : String) (cursor : Option (List ℕ)) (limit after : ℕ) (db : Database)
      → decode_cursor cursor ≡ ok after
      → IsSound db
      → db.last_sequence ≤ max_safe_integer
      → All (λ v. v.owner_sub ≡ owner → IsReadable db v) db.records
      → (r : PullResult) × (pull_changes deps owner cursor limit db ≡ (ok r, db))
  unfolding pull_changes list_changes
  pull_returns owner cursor limit after db decoded sound small readable =
      let page = take limit (
        take (suc limit) (select (λ v. v.owner_sub == owner && ltb after v.sequence) db.records)) in
      let (cs, read) =
        reads-All db page
          (All-take _ limit _ (All-take _ (suc limit) _ (All-mine db.records readable))) in
      let le : last_sequence after (last? page) ≤ max_safe_integer =
        last_sequence-le after max_safe_integer page (decode_le cursor after decoded) (
          All-take _ limit _ (
            All-take _ (suc limit) _ (
              All-select _ _ db.records
                (All-mono (λ v h. omega arith) db.records sound.counted)))) in
      (
        record {
          changes = cs;
          cursor = bytes_to_base64_url (to_decimal (last_sequence after (last? page)));
          has_more = ltb limit (
              length (
                take (suc limit)
                  (select (λ v. v.owner_sub == owner && ltb after v.sequence) db.records)));
        },
        rw (decoded, read, encode_small (last_sequence after (last? page)) le) refl,
      )
    where
      All-mine :
          (vs : List StoredVersion)
          → All (λ v. v.owner_sub ≡ owner → IsReadable db v) vs
          → All (IsReadable db) (select (λ v. v.owner_sub == owner && ltb after v.sequence) vs)
      All-mine [] h = tt
      All-mine (v ∷ vs) h = ground (arith, eq_iff v.owner_sub owner, All-mine vs h.1)
