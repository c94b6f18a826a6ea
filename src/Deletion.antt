-- ===== src/Deletion.antt =====
-- packages/server/src/usecases/account_deletion.ts: the service that deletes an account.
pub mod Keeping
pub mod Finish
use appbase.Prelude.{ℕ, suc, String, not, List, [], ◌∷◌}
use appbase.Action.{Result, account_deleted, pure, gets, lift, modify, require, ◌>>=◌, ◌>>◌}
use appbase.Database.{Database, Db}
use appbase.AccountTable.{
  Others, await, begin, is_deleted, pending_billing_identities, complete_billing_identity, complete,
}

-- What surrounds the handling of one request or one clean-up: the other requests, the clocks of
-- the worker and of the database, the random texts, and how the host's deletions of other data end.
pub record AccountWorld : Type 0 where
  pub others : Others
  pub now : ℕ → ℕ
  pub unixepoch : ℕ → ℕ
  pub random : ℕ → String
  pub delete_product_data : String → Result (Unit {0})
  pub delete_billing_identity : String → Result (Unit {0})

unfoldable pub require_active : String → Db (Unit {0})
require_active owner = do closed ← gets (is_deleted owner); require (not closed) account_deleted

module _ (world : AccountWorld) (owner : String) where
  -- The loop over the billing identities, then `complete`.
  unfoldable pub delete_identities : ℕ → List String → Db (Unit {0})
  delete_identities n [] = do await world.others n; modify (complete owner (world.unixepoch 1))
  delete_identities n (identity ∷ rest) = do
    lift (world.delete_billing_identity identity)
    await world.others n
    modify (complete_billing_identity owner identity)
    delete_identities (suc n) rest

  unfoldable pub delete : Db (Unit {0})
  unfolding delete_identities
  delete = do
    begin world.others owner (world.unixepoch 0)
    lift (world.delete_product_data owner)
    await world.others 2
    identities ← gets (pending_billing_identities owner)
    delete_identities 3 identities
