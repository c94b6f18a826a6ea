-- ===== src/Deletion/Keeping.antt =====
-- What the deletion of an account keeps, under any interleaving with requests that keep it.
use appbase.Prelude.{ℕ, suc, String, List, [], ◌∷◌}
use appbase.Action.{gets, lift, modify}
use appbase.Action.Keeps.{Keeps, Keeps-gets, Keeps-lift, Keeps-modify, Keeps-bind}
use appbase.Database.{Database}
use appbase.AccountTable.{await, begin, complete_billing_identity, pending_billing_identities}
use appbase.AccountTable.Keeping.{Respects, Respected, await-Keeps, begin-Keeps}
use appbase.Deletion.{AccountWorld, delete, delete_identities}

module _ (P : Database → Type 0) (calls : Respects P) where
  module _ (world : AccountWorld) (kept : Respected P world.others) where
    delete_identities-Keeps :
        (owner : String) (n : ℕ) (identities : List String)
        → Keeps P (delete_identities world owner n identities)
    unfolding delete_identities
    delete_identities-Keeps owner n [] =
        Keeps-bind (await world.others n) _ (await-Keeps P calls world.others kept n)
          λ _. Keeps-modify _ (calls.completes owner (world.unixepoch 1))
    delete_identities-Keeps owner n (identity ∷ rest) =
        Keeps-bind (lift (world.delete_billing_identity identity)) _ (Keeps-lift _) λ _.
          Keeps-bind (await world.others n) _ (await-Keeps P calls world.others kept n) λ _.
            Keeps-bind (modify (complete_billing_identity owner identity)) _
              (Keeps-modify _ (calls.identities owner identity))
              λ _. delete_identities-Keeps owner (suc n) rest

    pub delete-Keeps : (owner : String) → Keeps P (delete world owner)
    unfolding delete
    delete-Keeps owner =
        Keeps-bind (begin world.others owner (world.unixepoch 0)) _
          (begin-Keeps P calls world.others kept owner (world.unixepoch 0))
          λ _. Keeps-bind (lift (world.delete_product_data owner)) _ (Keeps-lift _) λ _.
            Keeps-bind (await world.others 2) _ (await-Keeps P calls world.others kept 2) λ _.
              Keeps-bind (gets (pending_billing_identities owner)) _
                (Keeps-gets (pending_billing_identities owner))
                λ identities. delete_identities-Keeps owner 3 identities
