-- ===== src/Pull.antt =====
-- packages/server/src/usecases/sync.ts, `pullChanges`: the changes after a cursor, a page at a
-- time. The page is read by one query; what other requests do after it cannot change the page.
pub mod Paging
pub mod Returns
pub mod Isolation
mod Tests
use appbase.Prelude.{
  ℕ, zero, suc, String, Option, none, some, List, [], ◌∷◌, take, last?, length, ltb,
}
use appbase.Action.{pure, gets, lift, ◌>>=◌}
use appbase.Domain.Sync.{StoredVersion, SyncChange, PullResult}
use appbase.Database.{Database, Db}
use appbase.Records.{list_changes}
use appbase.Cursor.{encode_cursor, decode_cursor}
use appbase.Sync.{SyncDeps, public_change}

-- `page.at(-1)?.sequence ?? afterSequence`
last_sequence : ℕ → Option StoredVersion → ℕ
last_sequence after none = after
last_sequence after (some v) = v.sequence

module _ (deps : SyncDeps) where
  -- `Promise.all(page.map((version) => publicChange(deps, version)))`
  pub public_changes : List StoredVersion → Db (List SyncChange)
  public_changes [] = pure []
  public_changes (v ∷ vs) = do
    change ← public_change deps v
    changes ← public_changes vs
    pure (change ∷ changes)

  unfoldable pub pull_changes : String → Option (List ℕ) → ℕ → Db PullResult
  unfolding public_changes last_sequence
  pull_changes owner cursor limit = do
    after ← lift (decode_cursor cursor)
    versions ← gets (λ db. list_changes owner after (suc limit) db.records)
    changes ← public_changes (take limit versions)
    next ← lift (encode_cursor (last_sequence after (last? (take limit versions))))
    pure (record { changes = changes; cursor = next; has_more = ltb limit (length versions) })
