-- ===== src/Sync/Tests.antt =====
-- Runs of the push over a codec that stores payloads as they are, and the theorems at inputs that
-- meet their hypotheses.
use mathlib.Core.List.{append-nil}
use appbase.Prelude.{◌≡◌, refl, sym, none, some, [], ◌∷◌, false}
use appbase.Action.{ok}
use appbase.Json.{str}
use appbase.Domain.Sync.{merged, MutationResult}
use appbase.Database.{empty_database}
use appbase.Records.History.{IsSound}
use appbase.Sync.{push_mutation, push_mutations, push_run}
use appbase.Sync.Samples.{plain_laws, deps, revisions, calm, note, before, after, empty-IsSound}
use appbase.Sync.Accepted.{Settled, push-Settled}
use appbase.Sync.Replay.{as_replayed, push_twice}
use appbase.Sync.Soundness.{push_mutations-IsSound}
use appbase.Sync.Quiet.{three_way, in_put, push_quiet}

abbrev merged_result : MutationResult
merged_result = record {
  mutation_id = "m2";
  status = merged;
  change = record {
    sequence = 2;
    collection = "notes";
    record_id = "n1";
    revision = "r2";
    payload = some (("body", str "x") ∷ ("title", str "b") ∷ []);
    deleted = false;
    created_at = 100;
  };
}

push_merges : push_mutation deps calm "ann" note before ≡ (ok merged_result, after)
unfolding push_run
push_merges = refl

push_quiet_example : push_mutation deps calm "ann" note before ≡ (ok merged_result, after)
unfolding push_run
push_quiet_example =
    push_quiet deps plain_laws (λ n. 100) revisions "ann" note none (some (("body", str "x") ∷ []))
      (some (("body", str "x") ∷ ("title", str "b") ∷ []))
      (some (("body", str "x") ∷ ("title", str "b") ∷ [])) merged before before refl refl refl
      (three_way (some (("title", str "b") ∷ [])) (λ e. cc e) (in_put refl refl) refl refl) refl
      refl refl

push-Settled_example : Settled deps calm "ann" note merged_result after
push-Settled_example =
    push-Settled deps plain_laws calm "ann" note merged_result before after push_merges

push_twice_example :
    push_mutation deps calm "ann" note after ≡ (ok (as_replayed merged_result), after)
push_twice_example =
    push_twice deps plain_laws "ann" note calm calm merged_result before after after
      (λ db. ([], sym (append-nil db.records))) push_merges [] refl ([], refl)

push_mutations-IsSound_example :
    IsSound (push_mutations deps "ann" (λ n. calm) 0 (note ∷ note ∷ []) empty_database).1
push_mutations-IsSound_example =
    push_mutations-IsSound deps "ann" (λ n. calm) (note ∷ note ∷ []) empty_database plain_laws
      (λ n p db s. s) empty-IsSound
