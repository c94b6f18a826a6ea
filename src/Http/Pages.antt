-- ===== src/Http/Pages.antt =====
-- The pages of changes that the route answers with.
use appbase.Prelude.{ℕ, ◌≤◌, ◌≡◌, Option, none, some, List, lookup}
use appbase.Prelude.Text.{codes}
use appbase.Action.{ok}
use appbase.Domain.Sync.{PullResult}
use appbase.Database.{Database}
use appbase.Records.History.{IsSound}
use appbase.Accounts.{Principal, account_owner}
use appbase.Pull.{pull_changes}
use appbase.Pull.Paging.{IsPage}
use appbase.Http.{Request, sync_read, page, Response, Step, next, Options, HttpWorld}
use appbase.Http.Bodies.{Libraries, page_size}
use appbase.Http.Guards.{respond, authorized_principal}
use appbase.Http.SyncRoutes.{page_of}

module _ (options : Options) (libraries : Libraries) (world : HttpWorld) (request : Request)
    (db : Database) (positive : 1 ≤ options.public_config.max_changes_per_page)
    (sound : IsSound db) where
  abbrev token : Option (List ℕ)
  token = elim (lookup "pageToken" request.query) [ none ↦ none | some t ↦ some (codes t) ]

  -- What the route answers with when it answers with changes.
  pub record IsServed (r : Response) (later : Database) : Type 0 where
    pub principal : Principal
    pub size : ℕ
    pub result : PullResult
    pub allowed : authorized_principal options request sync_read db ≡ (next principal, db)
    pub answer : r ≡ respond 200 (page (page_of options libraries world request size result))
    pub bounds : (1 ≤ size) × (size ≤ options.public_config.max_changes_per_page)
    pub pages : IsPage options.sync_deps (account_owner principal) size token result db later

  abbrev Served : Step Response × Database → Type 0
  Served out = (r : Response) → out.0 ≡ next r → IsServed r out.1

  -- A page that was pulled.
  record Pulled (principal : Principal) (found : ℕ × PullResult) (later : Database) : Type 0 where
    sized :
        page_size libraries options.public_config.max_changes_per_page
          (lookup "pageSize" request.query)
        ≡ some found.0
    ran :
        pull_changes options.sync_deps (account_owner principal) token found.0 db
        ≡ (ok found.1, later)

  abbrev IsPull : Principal → Step (ℕ × PullResult) × Database → Type 0
  IsPull principal out =
      (found : ℕ × PullResult) → out.0 ≡ next found → Pulled principal found out.1
