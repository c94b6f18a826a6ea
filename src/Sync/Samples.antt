-- ===== src/Sync/Samples.antt =====
-- A codec that stores payloads as they are, and a table of versions, for the tests.
use mathlib.Core.List.{append-nil}
use appbase.Prelude.{ℕ, zero, suc, String, refl, sym, none, some, [], ◌∷◌, false}
use appbase.Action.{pure}
use appbase.Json.{str}
use appbase.Domain.Sync.{put, SyncMutation, StoredVersion}
use appbase.Database.{Database, empty_database}
use appbase.Records.History.{IsSound, History, nothing, grow}
use appbase.Records.{records_run}
use appbase.Prelude.{arith}
use appbase.Sync.{SecretCodec, SyncDeps, World}
use appbase.Sync.Codec.{CodecLaws}
use appbase.Sync.Rounds.{quiet}

abbrev pub plain : SecretCodec
plain = record { seal = λ o c r p. pure p; unseal = λ o c r e. pure e }

pub plain_laws : CodecLaws plain
plain_laws = record {
  seal_frame = λ o c r p db. refl;
  unseal_frame = λ o c r e db. refl;
  seal_grows = λ o c r p db. ([], sym (append-nil db.user_keys));
  unseal_grows = λ o c r e db. ([], sym (append-nil db.user_keys));
  unseal-seal = λ o c r p e db db' later h keys. cc h;
  unseal_stable = λ o c r p e db db' later h keys. cc h;
}

abbrev pub deps : SyncDeps
deps = record { secret_codec = plain; max_conflict_retries = none }

abbrev pub revisions : ℕ → String
revisions zero = "r2"
revisions (suc n) = "r3"

abbrev pub calm : World
calm = quiet (λ n. 100) revisions

abbrev pub note : SyncMutation
note = record {
  mutation_id = "m2";
  device_id = "tablet";
  collection = "notes";
  record_id = "n1";
  base_revision = none;
  operation = put;
  payload = some (("title", str "b") ∷ []);
}

abbrev pub first_version : StoredVersion
first_version = record {
  sequence = 1;
  owner_sub = "ann";
  collection = "notes";
  record_id = "n1";
  device_id = "phone";
  mutation_id = "m1";
  revision = "r1";
  base_revision = none;
  payload = some (("body", str "x") ∷ []);
  deleted = false;
  created_at = 50;
}

abbrev pub second_version : StoredVersion
second_version = record {
  sequence = 2;
  owner_sub = "ann";
  collection = "notes";
  record_id = "n1";
  device_id = "tablet";
  mutation_id = "m2";
  revision = "r2";
  base_revision = some "r1";
  payload = some (("body", str "x") ∷ ("title", str "b") ∷ []);
  deleted = false;
  created_at = 100;
}

abbrev pub before : Database
before = record empty_database { records = first_version ∷ []; last_sequence = 1 }

abbrev pub after : Database
after = record empty_database { records = first_version ∷ second_version ∷ []; last_sequence = 2 }

pub empty-IsSound : IsSound empty_database
empty-IsSound = record { history = nothing; counted = tt }

after-History : History after.records
unfolding records_run
after-History =
    grow (first_version ∷ []) second_version after.records
      (grow [] first_version (first_version ∷ []) nothing refl tt refl refl refl) refl
      (omega arith, tt) refl refl refl

pub after-IsSound : IsSound after
after-IsSound = record { history = after-History; counted = (omega arith, (omega arith, tt)) }
