-- ===== src/Sync/Quiet.antt =====
-- A push that no other request disturbs: it returns in the first round, with exactly one new
-- version, and what it reports is what it stored.
use appbase.Prelude.{
  ℕ, suc, String, ◌≡◌, refl, sym, ap, ◌∙◌, true, false, Option, none, some, [], arith, inl, inr,
  if◌then◌else◌, ◌∷◌, ◌++◌, Bool, not, ◌↔◌, ◌≢◌, option_eq_iff, Bool-cases,
}
use appbase.Action.{ok}
use appbase.Json.{JsonObject}
use appbase.Domain.Sync.{
  SyncMutation, StoredVersion, put, delete, Status, applied, merged, MutationResult,
}
use appbase.Database.{Database}
use appbase.Database.Fence.{fenced}
use appbase.Records.{find_mutation, get_current, get_version, revision_of}
use appbase.Sync.{
  SyncDeps, World, is_null, payload_of, seal_payload, client_payload, is_conflicted, resolve,
  append_input, ancestor_of, push_mutation,
}
use appbase.Merge.{default_three_way_merge}
use appbase.Sync.Codec.{CodecLaws}
use appbase.Sync.Rounds.{quiet, new_row, grown, outcome, push_resolved}

not-false : (b : Bool) → not b ≡ false → b ≡ true
not-false b h = ground arith

module _ (deps : SyncDeps) (laws : CodecLaws deps.secret_codec) (now : ℕ → ℕ)
    (create_revision : ℕ → String) (owner : String) (m : SyncMutation) where
  abbrev world : World
  world = quiet now create_revision

  -- The revision of the newest version, and whether there is a payload.
  abbrev pub newest : Option StoredVersion → Option String
  newest none = none
  newest (some v) = some v.revision

  abbrev pub is_absent : Option JsonObject → Bool
  is_absent none = true
  is_absent (some p) = false

  -- The payload that the client sent.
  pub data Sent (sent : Option JsonObject) : Type 0 where
    in_put : m.operation ≡ put → sent ≡ m.payload → Sent sent
    in_delete : m.operation ≡ delete → sent ≡ none → Sent sent

  -- The payload that the push is to store, and the status that it is to report: the client's own
  -- if it is based on the newest version, and the merge of the three if it is not.
  pub data Resolves (ancestor server : Option JsonObject) (current : Option StoredVersion)
      (logical : Option JsonObject) (status : Status) : Type 0 where
    in_place :
        newest current ≡ m.base_revision
        → Sent logical
        → status ≡ applied
        → Resolves ancestor server current logical status
    three_way :
        (client : Option JsonObject)
        → newest current ≢ m.base_revision
        → Sent client
        → logical
          ≡ default_three_way_merge
              (record { ancestor = ancestor; server = server; client = client })
        → status ≡ merged
        → Resolves ancestor server current logical status

  -- The version that is to be added, and the answer.
  abbrev pub added :
      Option StoredVersion → Option JsonObject → Option JsonObject → Database → StoredVersion
  added current logical stored sealed = record {
    sequence = suc sealed.last_sequence;
    owner_sub = owner;
    collection = m.collection;
    record_id = m.record_id;
    device_id = m.device_id;
    mutation_id = m.mutation_id;
    revision = create_revision 0;
    base_revision = newest current;
    payload = stored;
    deleted = is_absent logical;
    created_at = now 0;
  }

  abbrev pub answer : Status → Option JsonObject → Database → MutationResult
  answer status logical sealed = record {
    mutation_id = m.mutation_id;
    status = status;
    change = record {
      sequence = suc sealed.last_sequence;
      collection = m.collection;
      record_id = m.record_id;
      revision = create_revision 0;
      payload = logical;
      deleted = is_absent logical;
      created_at = now 0;
    };
  }

  newest-revision_of : (current : Option StoredVersion) → revision_of current ≡ newest current
  newest-revision_of none = refl
  newest-revision_of (some v) = refl

  absent-is_null : (logical : Option JsonObject) → is_null logical ≡ is_absent logical
  unfolding is_null
  absent-is_null none = refl
  absent-is_null (some p) = refl

  client_payload-Sent : (sent : Option JsonObject) → Sent sent → client_payload m ≡ sent
  unfolding client_payload
  client_payload-Sent sent (in_put p e) = rw (p, e) refl
  client_payload-Sent sent (in_delete p e) = rw (p, e) refl

  conflicted_iff :
      (current : Option StoredVersion)
      → (is_conflicted current m ≡ false) ↔ (newest current ≡ m.base_revision)
  unfolding is_conflicted
  conflicted_iff current =
      let same = newest-revision_of current in
      let (to, from) = option_eq_iff (revision_of current) m.base_revision in
      (λ h. sym same ∙ to (not-false _ h), λ h. ap not (from (same ∙ h)))

  -- What the code resolves is what is to be stored and reported.
  resolves :
      (ancestor server logical : Option JsonObject) (current : Option StoredVersion)
      (status : Status)
      → Resolves ancestor server current logical status
      → (resolve ancestor current server m ≡ logical)
        × ((if is_conflicted current m then merged else applied) ≡ status)
  unfolding resolve
  resolves ancestor server logical current status (in_place e sent reported) =
      rw ((conflicted_iff current).1 e) (client_payload-Sent logical sent, sym reported)
  resolves ancestor server logical current status (three_way client ne sent e reported) =
      elim (Bool-cases (is_conflicted current m)) [
        | inl h ↦ rw (h, client_payload-Sent client sent) (sym e, sym reported)
        | inr h ↦ absurd (ne ((conflicted_iff current).0 h))
      ]

  outcome-answer :
      (current : Option StoredVersion) (logical stored : Option JsonObject) (status : Status)
      (sealed : Database)
      → (if is_conflicted current m then merged else applied) ≡ status
      → outcome deps laws now create_revision owner m current logical stored sealed
        ≡ answer status logical sealed
  unfolding append_input
  outcome-answer current logical stored status sealed reported =
      rw (reported, absent-is_null logical) refl

  new_row-added :
      (current : Option StoredVersion) (logical stored : Option JsonObject) (sealed : Database)
      → new_row deps laws now create_revision owner m current logical stored sealed
        ≡ added current logical stored sealed
  unfolding append_input
  new_row-added current logical stored sealed =
      rw (newest-revision_of current, absent-is_null logical) refl

  -- An undisturbed push of a new mutation, with a codec that keeps the laws of `CodecLaws`: if the
  -- payloads of the ancestor and of the newest version can be read and the resolved payload sealed,
  -- and the account is not fenced and the revision is new, then one version is added, and nothing
  -- else but a key is written. If the mutation's base revision is that of the newest version, its
  -- payload is the client's (none for a delete) and the status `applied`; if it is not, the payload
  -- is the three-way merge and the status `merged`. The answer reports the version that is added.
  pub push_quiet :
      (ancestor server logical stored : Option JsonObject) (status : Status) (db sealed : Database)
      → let current = get_current owner m.collection m.record_id db.records in
        find_mutation owner m.device_id m.mutation_id db.records ≡ none
        → payload_of deps (ancestor_of deps world owner m m.base_revision db) db ≡ (ok ancestor, db)
        → payload_of deps current db ≡ (ok server, db)
        → Resolves ancestor server current logical status
        → seal_payload deps owner m logical db ≡ (ok stored, sealed)
        → fenced db.accounts owner ≡ false
        → get_version owner m.collection m.record_id (create_revision 0) db.records ≡ none
        → push_mutation deps world owner m db ≡ (
          ok (answer status logical sealed),
          record sealed {
            records = sealed.records ++ added current logical stored sealed ∷ [];
            last_sequence = suc sealed.last_sequence;
          },
        )
  push_quiet ancestor server logical stored status db sealed new base read how seal open_account
        unused =
      let current = get_current owner m.collection m.record_id db.records in
      let (same, reported) = resolves ancestor server logical current status how in
      let sealed_so : seal_payload deps owner m (resolve ancestor current server m) db
          ≡ (ok stored, sealed) =
        ap (λ l. seal_payload deps owner m l db) same ∙ seal in
      push_resolved deps laws now create_revision owner m ancestor server stored db sealed new base
        read sealed_so open_account unused
      ∙ ap
          (λ l. (
            ok (outcome deps laws now create_revision owner m current l stored sealed),
            grown deps laws now create_revision owner m current l stored sealed,
          ))
          same
      ∙ ap (λ r. (ok r, grown deps laws now create_revision owner m current logical stored sealed))
          (outcome-answer current logical stored status sealed reported)
      ∙ ap
          (λ v. (
            ok (answer status logical sealed),
            record sealed {
              records = sealed.records ++ v ∷ [];
              last_sequence = suc sealed.last_sequence;
            },
          ))
          (new_row-added current logical stored sealed)
