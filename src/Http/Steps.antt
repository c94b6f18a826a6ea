-- ===== src/Http/Steps.antt =====
-- How the steps of a handler compose, for proofs.
use appbase.Prelude.{◌≡◌, refl, sym, subst}
use appbase.Database.{Database}
use appbase.Http.{Response, Thrown, Step, next, stop, thrown, Handler, proceed, ◌>>=◌}

-- A handler that only reads.
abbrev pub ReadsOnly : {A : Type 0} → Handler A → Database → Type 0
ReadsOnly m db = (m db).1 ≡ db

module _ {A B : Type 0} (Q : Step B × Database → Type 0) (m : Handler A) (f : A → Handler B)
    (db : Database) where
  -- To show something of what a handler does, show it of what follows a value of its first step
  -- and of the ends that this step may have.
  pub bind_read :
      ReadsOnly m db
      → ((r : Response) → Q (stop r, db))
      → ((t : Thrown) → Q (thrown t, db))
      → ((a : A) → (m db).0 ≡ next a → Q (f a db))
      → Q ((m >>= f) db)
  bind_read reads stopped threw rest =
      subst (λ d. Q (proceed (m db).0 f d)) (sym reads) (go (m db).0 refl)
    where
      go : (s : Step A) → (m db).0 ≡ s → Q (proceed s f db)
      go (next a) e = rest a e
      go (stop r) e = stopped r
      go (thrown t) e = threw t

pub bind-ReadsOnly :
    {A B : Type 0} (m : Handler A) (f : A → Handler B) (db : Database)
    → ReadsOnly m db
    → ((a : A) → (m db).0 ≡ next a → ReadsOnly (f a) db)
    → ReadsOnly (m >>= f) db
bind-ReadsOnly m f db reads rest =
    bind_read (λ out. out.1 ≡ db) m f db reads (λ r. refl) (λ t. refl) rest
