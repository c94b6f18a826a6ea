-- ===== src/MembershipTable/Claims.antt =====
-- Claims: a capability's limit is never passed, an item is claimed once, and a release undoes it.
use appbase.Prelude.{
  ℕ, suc, ◌≤◌, String, ◌≡◌, refl, sym, subst, ◌∙◌, inl, inr, Bool, true, false, [], ◌∷◌, arith,
  any-append, Bool-cases,
}
use appbase.Prelude.Int.{ℤ, pos, negsuc, ltb_ℤ, ◌<ℤ◌}
use appbase.Action.{ok, gets}
use appbase.Action.Keeps.{Keeps, Keeps-pure, Keeps-gets, Keeps-bind, Keeps-modify}
use appbase.Database.{Database}
use appbase.Database.Fence.{fenced, guard_owner}
use appbase.AccountTable.{Others, await}
use appbase.MembershipTable.{
  UsageKey, of_key, of_item, usage_row, with_item, count_usage, has_item, claim_insert, ClaimResult,
  claim_unique_usage, release_usage,
}
use appbase.MembershipTable.Counting.{
  of_item_self, same_key, count-with_item, count-other, release-with_item,
}

-- At most `n` items of the key are used.
abbrev pub IsWithin : UsageKey → ℕ → Database → Type 0
IsWithin key n db = count_usage key db ≤ n

insert_known :
    (key : UsageKey) (item : String) (limit : ℤ) (created : ℕ) (db : Database)
    → has_item key item db ≡ true
    → fenced db.accounts key.owner_sub ≡ false
    → claim_insert key item limit created db ≡ (ok false, db)
unfolding claim_insert guard_owner
insert_known key item limit created db known open_owner = rw (known, open_owner) refl

insert_full :
    (key : UsageKey) (item : String) (limit : ℤ) (created : ℕ) (db : Database)
    → has_item key item db ≡ false
    → ltb_ℤ (pos (count_usage key db)) limit ≡ false
    → claim_insert key item limit created db ≡ (ok false, db)
unfolding claim_insert
insert_full key item limit created db new full = rw (new, full) refl

insert_new :
    (key : UsageKey) (item : String) (limit : ℤ) (created : ℕ) (db : Database)
    → has_item key item db ≡ false
    → ltb_ℤ (pos (count_usage key db)) limit ≡ true
    → fenced db.accounts key.owner_sub ≡ false
    → claim_insert key item limit created db ≡ (ok true, with_item key item created db)
unfolding claim_insert guard_owner
insert_new key item limit created db new below open_owner = rw (new, below, open_owner) refl

-- Whether it fails or not, the statement leaves the table or adds one row below the limit.
insert_leaves :
    (P : Database → Type 0) (key : UsageKey) (item : String) (limit : ℤ) (created : ℕ)
    (db : Database)
    → (ltb_ℤ (pos (count_usage key db)) limit ≡ true → P (with_item key item created db))
    → P db
    → P (claim_insert key item limit created db).1
unfolding claim_insert guard_owner
insert_leaves P key item limit created db adds h =
    elim (Bool-cases (fenced db.accounts key.owner_sub)) [
      | inl shut ↦ elim (Bool-cases (has_item key item db)) [
        | inl known ↦ rw (known, shut) h
        | inr new ↦ elim (Bool-cases (ltb_ℤ (pos (count_usage key db)) limit)) [
          | inl below ↦ rw (new, below, shut) h
          | inr full ↦ rw (new, full) h
        ]
      ]
      | inr free ↦ elim (Bool-cases (has_item key item db)) [
        | inl known ↦ rw (known, free) h
        | inr new ↦ elim (Bool-cases (ltb_ℤ (pos (count_usage key db)) limit)) [
          | inl below ↦ rw (new, below, free) (adds below)
          | inr full ↦ rw (new, full) h
        ]
      ]
    ]

below_limit : (count limit n : ℕ) → ltb_ℤ (pos count) (pos limit) ≡ true → limit ≤ n → suc count ≤ n
below_limit count limit n h le = ground arith

insert-IsWithin :
    (key other : UsageKey) (item : String) (limit n created : ℕ)
    → (other ≡ key → limit ≤ n)
    → Keeps (IsWithin key n) (claim_insert other item (pos limit) created)
insert-IsWithin key other item limit n created small = record {
  leaves = λ db h. insert_leaves (IsWithin key n) other item (pos limit) created db (grows db h) h;
}
  where
    grows :
        (db : Database)
        → IsWithin key n db
        → ltb_ℤ (pos (count_usage other db)) (pos limit) ≡ true
        → IsWithin key n (with_item other item created db)
    grows db h below = elim (Bool-cases (of_key key (usage_row other item created))) [
      | inr apart ↦ subst (λ c. c ≤ n) (sym (count-other key other item created db apart)) h
      | inl mine ↦
          let same = same_key key other item created mine in
          subst (λ k. count_usage k (with_item other item created db) ≤ n) same
            (subst (λ c. c ≤ n) (sym (count-with_item other item created db))
              (below_limit (count_usage other db) limit n below (small same)))
    ]

-- However claims and other requests interleave: if at most `n` items of a key are used, and no
-- claim of that key has a limit beyond `n`, then at most `n` are used afterwards.
pub claim-IsWithin :
    (others : Others) (key other : UsageKey) (item : String) (limit n now : ℕ) (db : Database)
    → (other ≡ key → limit ≤ n)
    → ((k : ℕ) (db : Database) → IsWithin key n db → IsWithin key n (others k db))
    → IsWithin key n db
    → IsWithin key n (claim_unique_usage others other item (pos limit) now db).1
unfolding claim_unique_usage
claim-IsWithin others key other item limit n now db small kept h =
    (Keeps-bind (claim_insert other item (pos limit) now) _
        (insert-IsWithin key other item limit n now small)
        λ created. Keeps-bind (await others 1) _ (Keeps-modify (others 1) (kept 1)) λ _.
          Keeps-bind (gets (count_usage other)) _ (Keeps-gets (count_usage other)) λ used.
            Keeps-bind (await others 2) _ (Keeps-modify (others 2) (kept 2)) λ _.
              Keeps-bind (gets (has_item other item)) _ (Keeps-gets (has_item other item))
                λ existing.
                  Keeps-pure (record { allowed = existing; created = created; used = used })).leaves
      db h

-- What a claim comes to.
pub data IsClaimed (key : UsageKey) (item : String) (limit : ℤ) (now : ℕ) (db : Database)
    : ClaimResult → Database → Type 0 where
  known :
      has_item key item db ≡ true
      → IsClaimed key item limit now db
          (record { allowed = true; created = false; used = count_usage key db })
          db
  new :
      has_item key item db ≡ false
      → pos (count_usage key db) <ℤ limit
      → IsClaimed key item limit now db
          (record { allowed = true; created = true; used = suc (count_usage key db) })
          (with_item key item now db)
  refused :
      has_item key item db ≡ false
      → limit <ℤ pos (suc (count_usage key db))
      → IsClaimed key item limit now db
          (record { allowed = false; created = false; used = count_usage key db })
          db

pub has-with_item :
    (key : UsageKey) (item : String) (created : ℕ) (db : Database)
    → has_item key item (with_item key item created db) ≡ true
unfolding has_item
has-with_item key item created db =
    any-append (of_item key item) db.usage (usage_row key item created ∷ [])
    ∙ rw (of_item_self key item created) (ground arith)

not_below : (count : ℕ) (limit : ℤ) → ltb_ℤ (pos count) limit ≡ false → limit <ℤ pos (suc count)
not_below count (pos n) h = ground arith
not_below count (negsuc n) h = ground arith

is_below : (count : ℕ) (limit : ℤ) → ltb_ℤ (pos count) limit ≡ true → pos count <ℤ limit
is_below count (pos n) h = ground arith
is_below count (negsuc n) h = ground arith

module _ (others : Others) (calm : (n : ℕ) (db : Database) → others n db ≡ db) where
  claim_reads :
      (key : UsageKey) (item : String) (limit : ℤ) (now : ℕ) (b has : Bool) (db db' : Database)
      → claim_insert key item limit now db ≡ (ok b, db')
      → has_item key item db' ≡ has
      → claim_unique_usage others key item limit now db
        ≡ (ok (record { allowed = has; created = b; used = count_usage key db' }), db')
  unfolding claim_unique_usage
  claim_reads key item limit now b has db db' h there = rw (h, calm 1 db', calm 2 db', there) refl

  claim_known :
      (key : UsageKey) (item : String) (limit : ℤ) (now : ℕ) (db : Database)
      → fenced db.accounts key.owner_sub ≡ false
      → has_item key item db ≡ true
      → claim_unique_usage others key item limit now db
        ≡ (ok (record { allowed = true; created = false; used = count_usage key db }), db)
  claim_known key item limit now db free there =
      claim_reads key item limit now false true db db
        (insert_known key item limit now db there free) there

  -- A claim for an account that is not closed, with no other request in between, returns: an item
  -- that is there is allowed and not created again; a new one is created if fewer than `limit` are
  -- used; else it is refused, and nothing is written. `used` is the count afterwards.
  pub claim-IsClaimed :
      (key : UsageKey) (item : String) (limit : ℤ) (now : ℕ) (db : Database)
      → fenced db.accounts key.owner_sub ≡ false
      → (r : ClaimResult) × (db' : Database) × (claim_unique_usage others key item limit now db
          ≡ (ok r, db'))
        × IsClaimed key item limit now db r db'
  claim-IsClaimed key item limit now db free = elim (Bool-cases (has_item key item db)) [
    | inl there ↦ (_, db, claim_known key item limit now db free there, known there)
    | inr absent ↦ elim (Bool-cases (ltb_ℤ (pos (count_usage key db)) limit)) [
      | inl below ↦
          let db' = with_item key item now db in
          (
            record { allowed = true; created = true; used = suc (count_usage key db) },
            db',
            subst
                (λ c.
                  claim_unique_usage others key item limit now db
                  ≡ (ok (record { allowed = true; created = true; used = c }), db'))
                (count-with_item key item now db)
                (claim_reads key item limit now true true db db'
                  (insert_new key item limit now db absent below free)
                  (has-with_item key item now db)),
            new absent (is_below (count_usage key db) limit below),
          )
      | inr full ↦ (
        _,
        db,
        claim_reads key item limit now false false db db
            (insert_full key item limit now db absent full) absent,
        refused absent (not_below (count_usage key db) limit full),
      )
    ]
  ]

  -- A claim that was allowed can be repeated, with any limit, and changes nothing more.
  pub claim_again :
      (key : UsageKey) (item : String) (limit again : ℤ) (now later : ℕ) (db : Database)
      (r : ClaimResult) (db' : Database)
      → fenced db'.accounts key.owner_sub ≡ false
      → IsClaimed key item limit now db r db'
      → r.allowed ≡ true
      → claim_unique_usage others key item again later db'
        ≡ (ok (record { allowed = true; created = false; used = r.used }), db')
  claim_again key item limit again now later db r db' free (known there) allowed =
      claim_known key item again later db' free there
  claim_again key item limit again now later db r db' free (new absent below) allowed =
      claim_known key item again later db' free (has-with_item key item now db)
      ∙ rw (count-with_item key item now db) refl
  claim_again key item limit again now later db r db' free (refused absent full) allowed =
      cc allowed

-- Releasing an item that a claim created gives back the table as it was before the claim.
pub release-claim :
    (key : UsageKey) (item : String) (limit : ℤ) (now : ℕ) (db : Database) (r : ClaimResult)
    (db' : Database)
    → IsClaimed key item limit now db r db'
    → r.created ≡ true
    → release_usage key item db' ≡ db
release-claim key item limit now db r db' (known there) created = cc created
release-claim key item limit now db r db' (new absent below) created =
    release-with_item key item now db absent
release-claim key item limit now db r db' (refused absent full) created = cc created
