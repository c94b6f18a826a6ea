-- ===== src/Records/Tests.antt =====
-- Runs of the repository, and the theorems at inputs that meet their hypotheses.
use appbase.Prelude.{◌≡◌, refl, none, some, [], ◌∷◌, false, arith}
use appbase.Action.{ok}
use appbase.Json.{str}
use appbase.Database.{Database, empty_database}
use appbase.Records.{AppendVersionInput, row, append, list_changes, records_run}
use appbase.Records.History.{History, nothing, grow, IsSound}
use appbase.Records.Append.{Outcome, append-Outcome, append-IsSound}

abbrev first_input : AppendVersionInput
first_input = record {
  owner_sub = "ann";
  collection = "notes";
  record_id = "n1";
  device_id = "phone";
  mutation_id = "m1";
  revision = "r1";
  base_revision = none;
  payload = some (("body", str "x") ∷ []);
  deleted = false;
  created_at = 50;
  expected_revision = none;
}

abbrev second_input : AppendVersionInput
second_input = record first_input {
  mutation_id = "m2";
  revision = "r2";
  base_revision = some "r1";
  created_at = 60;
  expected_revision = some "r1";
}

abbrev one_row : Database
one_row = record empty_database { records = row 1 first_input ∷ []; last_sequence = 1 }

abbrev two_rows : Database
two_rows = record empty_database {
  records = row 1 first_input ∷ row 2 second_input ∷ [];
  last_sequence = 2;
}

append_first : append first_input empty_database ≡ (ok (some (row 1 first_input)), one_row)
unfolding records_run
append_first = refl

append_second : append second_input one_row ≡ (ok (some (row 2 second_input)), two_rows)
unfolding records_run
append_second = refl

-- The same mutation again, and a write on an old version.
append_again : append first_input two_rows ≡ (ok none, two_rows)
unfolding records_run
append_again = refl

list_second : list_changes "ann" 1 5 two_rows.records ≡ row 2 second_input ∷ []
unfolding records_run
list_second = refl

empty-IsSound : IsSound empty_database
empty-IsSound = record { history = nothing; counted = tt }

append-IsSound_example : IsSound (append first_input empty_database).1
append-IsSound_example = append-IsSound first_input empty_database refl empty-IsSound

append-Outcome_example : Outcome second_input one_row (append second_input one_row)
append-Outcome_example = append-Outcome second_input one_row

one-History : History one_row.records
unfolding records_run
one-History = grow [] (row 1 first_input) (row 1 first_input ∷ []) nothing refl tt refl refl refl

two-History : History two_rows.records
unfolding records_run
two-History =
    grow (row 1 first_input ∷ []) (row 2 second_input) two_rows.records one-History refl
      (omega arith, tt) refl refl refl
