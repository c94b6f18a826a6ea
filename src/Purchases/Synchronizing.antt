-- ===== src/Purchases/Synchronizing.antt =====
-- Synchronizations that overlap, and notifications that come twice.
use appbase.Prelude.{
  ℕ, suc, String, ◌≡◌, refl, sym, ap, subst, ◌∙◌, inl, inr, true, false, ◌&&◌, List, [], ◌∷◌, ◌==◌,
  eq_refl, any, any-append, Bool-cases,
}
use appbase.Action.{ok, gets, lift, require, billing, >>=-eq-ok}
use appbase.Action.Keeps.{
  Keeps, Keeps-pure, Keeps-gets, Keeps-lift, Keeps-or_throw, Keeps-modify, Keeps-require,
  Keeps-bind,
}
use appbase.Domain.Billing.{
  BillingEnvironment, production, sandbox, environment_eq, configuration_missing, sync_superseded,
}
use appbase.Database.{Database}
use appbase.AccountTable.{await}
use appbase.BillingTable.{
  identity, begin_sync, commit_sync, billing_owner, event_processed, mark_event_processed,
}
use appbase.BillingTable.Rising.{Reached, identity-Keeps, begin_sync-Keeps, commit_sync-Keeps}
use appbase.Purchases.{
  BillingWorld, BillingService, administration_catalog, catalog_for, synchronize, synchronize_owner,
  synchronize_ids, unless_processed, distinct, webhook,
}

module _ (environment : BillingEnvironment) (owner : String) (generation instant : ℕ)
    (service : BillingService) (world : BillingWorld)
    (kept : (n : ℕ) (db : Database)
      → Reached environment owner generation instant db
      → Reached environment owner generation instant (world.others n db)) where
  abbrev P : Database → Type 0
  P = Reached environment owner generation instant

  wait : (n : ℕ) → Keeps P (await world.others n)
  wait n = Keeps-modify (world.others n) (kept n)

  synchronize-Keeps : (who : String) → Keeps P (synchronize service world who)
  unfolding synchronize catalog_for
  synchronize-Keeps who =
      Keeps-bind (catalog_for service) _
        (Keeps-bind (gets (administration_catalog service)) _
          (Keeps-gets (administration_catalog service))
          λ result. Keeps-or_throw result (billing configuration_missing))
        λ _. Keeps-bind (await world.others 1) _ (wait 1) λ _.
          Keeps-bind (identity world.others service.environment who world.random) _
            (identity-Keeps environment owner generation instant world.others kept
              service.environment who world.random)
            λ id. Keeps-bind (await world.others 3) _ (wait 3) λ _.
              Keeps-bind (begin_sync service.environment who) _
                (begin_sync-Keeps environment owner generation instant service.environment who)
                λ g.
                  Keeps-bind (lift (world.subscriber id)) _ (Keeps-lift (world.subscriber id))
                    λ state. Keeps-bind (await world.others 4) _ (wait 4) λ _.
                      Keeps-bind (commit_sync service.environment who g state) _
                        (commit_sync-Keeps environment owner generation instant service.environment
                          who g state)
                        λ committed.
                          Keeps-bind (require committed (billing sync_superseded)) _
                            (Keeps-require committed (billing sync_superseded))
                            λ _. Keeps-pure state

-- Whatever synchronization runs, for whichever user, returning or throwing, and in whatever order
-- overlapping ones commit: the generation of a user's billing account and the instant of the
-- newest snapshot that it holds do not go back.
pub synchronize-Reached :
    (environment : BillingEnvironment) (owner who : String) (generation instant : ℕ)
    (service : BillingService) (world : BillingWorld) (db : Database)
    → ((n : ℕ) (db : Database)
        → Reached environment owner generation instant db
        → Reached environment owner generation instant (world.others n db))
    → Reached environment owner generation instant db
    → Reached environment owner generation instant (synchronize service world who db).1
synchronize-Reached environment owner who generation instant service world db kept h =
    (synchronize-Keeps environment owner generation instant service world kept who).leaves db h

environment_refl : (e : BillingEnvironment) → environment_eq e e ≡ true
environment_refl production = refl
environment_refl sandbox = refl

marked :
    (environment : BillingEnvironment) (event : String) (now : ℕ) (db : Database)
    → event_processed environment event (mark_event_processed environment event now db) ≡ true
unfolding event_processed mark_event_processed
marked environment event now db =
    elim (Bool-cases
      (any (λ e. environment_eq e.environment environment && e.id == event) db.events)) [
        | inl there ↦ rw (there, there) refl
        | inr absent ↦
            rw
              (
                absent,
                any-append (λ e. environment_eq e.environment environment && e.id == event)
                    db.events _,
                absent,
                environment_refl environment,
                eq_refl event,
              )
              refl
      ]

ids_mark :
    (service : BillingService) (worlds : ℕ → BillingWorld) (now : ℕ) (event : String) (n : ℕ)
    (ids : List String) (db db' : Database) (u : Unit {0})
    → synchronize_ids service worlds now event n ids db ≡ (ok u, db')
    → event_processed service.environment event db' ≡ true
unfolding synchronize_ids
ids_mark service worlds now event n [] db db' u h =
    let there : mark_event_processed service.environment event now ((worlds n).others 5 db) ≡ db' =
      cc h in
    subst (λ d. event_processed service.environment event d ≡ true) there
      (marked service.environment event now ((worlds n).others 5 db))
ids_mark service worlds now event n (id ∷ ids) db db' u h =
    let db1 = (worlds n).others 0 db in
    let (v, mid, _, rest) =
      >>=-eq-ok (synchronize_owner service (worlds n) (billing_owner service.environment id db1))
        (λ _. synchronize_ids service worlds now event (suc n) ids) db1 u db' h in
    ids_mark service worlds now event (suc n) ids mid db' u rest

skipped :
    (service : BillingService) (worlds : ℕ → BillingWorld) (now : ℕ) (event : String)
    (ids : List String) (db : Database)
    → event_processed service.environment event db ≡ true
    → webhook service worlds now event ids db ≡ (ok tt, db)
unfolding webhook unless_processed
skipped service worlds now event ids db done = rw done refl

webhook_runs :
    (service : BillingService) (worlds : ℕ → BillingWorld) (now : ℕ) (event : String)
    (ids : List String) (db : Database)
    → event_processed service.environment event db ≡ false
    → webhook service worlds now event ids db
      ≡ synchronize_ids service worlds now event 0 (distinct [] ids) db
unfolding webhook unless_processed
webhook_runs service worlds now event ids db fresh = rw fresh refl

-- A notification that was handled without an error is remembered: when the provider sends it
-- again, with any users, to a database that still has the processed events, nothing is done.
pub webhook_twice :
    (service : BillingService) (worlds again : ℕ → BillingWorld) (now later : ℕ) (event : String)
    (ids more : List String) (db db' db'' : Database) (u : Unit {0})
    → webhook service worlds now event ids db ≡ (ok u, db')
    → db''.events ≡ db'.events
    → webhook service again later event more db'' ≡ (ok tt, db'')
webhook_twice service worlds again now later event ids more db db' db'' u h same =
    skipped service again later event more db'' (
      unfold event_processed in
      ap (λ es. any (λ e. environment_eq e.environment service.environment && e.id == event) es)
        same
      ∙ done)
  where
    done : event_processed service.environment event db' ≡ true
    done = elim (Bool-cases (event_processed service.environment event db)) [
      | inl before ↦
          subst (λ d. event_processed service.environment event d ≡ true)
            (let e = sym (skipped service worlds now event ids db before) ∙ h in cc e) before
      | inr fresh ↦
          ids_mark service worlds now event 0 (distinct [] ids) db db' u
            (sym (webhook_runs service worlds now event ids db fresh) ∙ h)
    ]
