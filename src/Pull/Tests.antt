-- ===== src/Pull/Tests.antt =====
-- Pages of a table of versions, and the theorems at inputs that meet their hypotheses.
use appbase.Prelude.{eq_iff, String, ◌≡◌, ◌≢◌, refl, none, some, [], ◌∷◌, true, false, arith}
use appbase.Action.{ok}
use appbase.Domain.Sync.{PullResult}
use appbase.Cursor.{decode_cursor, cursor_run}
use appbase.Sync.{push_run, change_of}
use appbase.Sync.Samples.{deps, first_version, second_version, after, after-IsSound}
use appbase.Pull.{pull_changes}
use appbase.Pull.Paging.{IsPage, pull-IsPage}
use appbase.Pull.Returns.{IsReadable, pull_returns}

abbrev first_page : PullResult
first_page = record {
  changes = change_of first_version first_version.payload ∷ [];
  cursor = b'M' ∷ b'Q' ∷ [];
  has_more = true;
}

pull_first : pull_changes deps "ann" none 1 after ≡ (ok first_page, after)
unfolding pull_changes push_run cursor_run
pull_first = refl

abbrev last_page : PullResult
last_page = record {
  changes = change_of second_version second_version.payload ∷ [];
  cursor = b'M' ∷ b'g' ∷ [];
  has_more = false;
}

pull_last : pull_changes deps "ann" (some (b'M' ∷ b'Q' ∷ [])) 1 after ≡ (ok last_page, after)
unfolding pull_changes push_run cursor_run
pull_last = refl

pull-IsPage_example : IsPage deps "ann" 1 none first_page after after
pull-IsPage_example = pull-IsPage deps "ann" 1 none first_page after after after-IsSound pull_first

IsReadable-first : IsReadable deps after first_version
unfolding push_run
IsReadable-first = (change_of first_version first_version.payload, refl)

IsReadable-second : IsReadable deps after second_version
unfolding push_run
IsReadable-second = (change_of second_version second_version.payload, refl)

decode_start : decode_cursor none ≡ ok 0
unfolding cursor_run
decode_start = refl

pull_returns_example : (r : PullResult) × (pull_changes deps "ann" none 1 after ≡ (ok r, after))
pull_returns_example =
    pull_returns deps "ann" none 1 0 after decode_start after-IsSound (omega arith)
      (λ _. IsReadable-first, (λ _. IsReadable-second, tt))

abbrev bob : String
bob = "bob"

other_owner : bob ≢ "ann"
other_owner h = cc ((eq_iff bob "ann").1 h)
