-- ===== src/Accounts/Keeping.antt =====
-- What the account service keeps, under any interleaving with requests that keep it.
use appbase.Prelude.{ℕ, suc, ◌+◌, String, Option, none, some, List, [], ◌∷◌}
use appbase.Action.{Failure, pure, gets, lift, modify, require, lifecycle, account_deleting}
use appbase.Action.Keeps.{
  Keeps, Keeps-pure, Keeps-throw, Keeps-gets, Keeps-lift, Keeps-modify, Keeps-require, Keeps-bind,
  Keeps-catch,
}
use appbase.Database.{Account, Database}
use appbase.AccountTable.{await, due, save_session, begin, postpone, expire_sessions}
use appbase.AccountTable.Keeping.{
  Respects, Respected, save_session-Keeps, await-Keeps, register-Keeps, begin-Keeps,
}
use appbase.Deletion.{AccountWorld, delete}
use appbase.Deletion.Keeping.{delete-Keeps}
use appbase.Accounts.{
  Principal, OpenInput, token, new_session, given, look_up, admit, open_account, register_unless,
  issue, request_deletion, request_for, put_off, process, process_all, process_due,
}

module _ (P : Database → Type 0) (calls : Respects P) where
  module _ (world : AccountWorld) (kept : Respected P world.others) where
    pub process-Keeps : (id : String) → Keeps P (process world id)
    unfolding process put_off
    process-Keeps id = record {
      leaves = λ db h.
          (Keeps-catch (delete world id db).0 pure (put_off world id) (λ v. Keeps-pure v)
              put_off-Keeps).leaves
            (delete world id db).1 ((delete-Keeps P calls world kept id).leaves db h);
    }
      where
        put_off-Keeps : (error : Failure) → Keeps P (put_off world id error)
        put_off-Keeps error =
            Keeps-bind (await world.others 0) _ (await-Keeps P calls world.others kept 0) λ _.
              Keeps-bind (modify (postpone id (world.now 0))) _
                (Keeps-modify _ (calls.postpones id (world.now 0))) λ _. Keeps-throw error

    pub request-Keeps : (principal : Principal) → Keeps P (request_deletion world principal)
    unfolding request_deletion request_for
    request-Keeps principal = go _
      where
        go : (o : Option String) → Keeps P (request_for world o)
        go none = Keeps-throw _
        go (some id) =
            Keeps-bind (begin world.others id (world.unixepoch 0)) _
              (begin-Keeps P calls world.others kept id (world.unixepoch 0)) λ _. Keeps-pure id

    module _ (hash : String → String) where
      issue-Keeps :
          (principal : Principal) (input : OpenInput) (a : Account)
          → Keeps P (issue hash world principal input a)
      unfolding issue
      issue-Keeps principal input a =
          Keeps-bind (require _ (lifecycle account_deleting)) _ (Keeps-require _ _) λ _.
            Keeps-bind (await world.others 3) _ (await-Keeps P calls world.others kept 3) λ _.
              Keeps-bind
                (save_session (hash (token hash world))
                  (new_session hash world principal input a.id) (world.now 2))
                _
                (save_session-Keeps P calls (hash (token hash world))
                  (new_session hash world principal input a.id) (world.now 2))
                λ _. Keeps-pure (record {
                  account_id = a.id;
                  access_token = token hash world;
                  expires_at = world.now 1 + 1800;
                })

      pub open_account-Keeps :
          (principal : Principal) (input : OpenInput)
          → Keeps P (open_account hash world principal input)
      unfolding open_account register_unless
      open_account-Keeps principal input =
          Keeps-bind (gets (look_up principal (given input.account_id))) _
            (Keeps-gets (look_up principal (given input.account_id)))
            λ found.
              Keeps-bind (lift (admit principal input.register (given input.account_id) found)) _
                (Keeps-lift _)
                λ admitted.
                  Keeps-bind (register_unless hash world principal admitted) _ (go admitted)
                    λ a. issue-Keeps principal input a
        where
          go : (o : Option Account) → Keeps P (register_unless hash world principal o)
          go none = register-Keeps P calls world.others kept principal.sub _ (world.now 0)
          go (some a) = Keeps-pure a

  process_all-Keeps :
      (worlds : ℕ → AccountWorld)
      → ((n : ℕ) → Respected P (worlds n).others)
      → (n : ℕ) (ids : List String) → Keeps P (process_all worlds n ids)
  unfolding process_all
  process_all-Keeps worlds kept n [] = record { leaves = λ db h. h }
  process_all-Keeps worlds kept n (id ∷ ids) = record {
    leaves = λ db h.
        (Keeps-catch (process (worlds n) id db).0 _ _
            (λ _. process_all-Keeps worlds kept (suc n) ids)
            (λ _. process_all-Keeps worlds kept (suc n) ids)).leaves
          (process (worlds n) id db).1 ((process-Keeps (worlds n) (kept n) id).leaves db h);
  }

  pub process_due-Keeps :
      (world : AccountWorld) (worlds : ℕ → AccountWorld)
      → Respected P world.others
      → ((n : ℕ) → Respected P (worlds n).others)
      → Keeps P (process_due world worlds)
  unfolding process_due expire_sessions
  process_due-Keeps world worlds kept each =
      Keeps-bind (modify (expire_sessions (world.now 0))) _
        (Keeps-modify _ (λ db h. calls.sessions _ db h))
        λ _. Keeps-bind (await world.others 1) _ (await-Keeps P calls world.others kept 1) λ _.
          Keeps-bind (gets (due (world.now 1) 20)) _ (Keeps-gets (due (world.now 1) 20))
            λ ids. process_all-Keeps worlds each 0 ids
