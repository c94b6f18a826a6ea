-- ===== src/Pull/Paging.antt =====
-- Pages follow one another without a gap and without an overlap.
use appbase.Prelude.{
  ℕ, zero, suc, ◌<◌, ◌≤◌, String, ◌≡◌, ◌≢◌, ◌↔◌, refl, sym, ap, ◌∙◌, subst, Bool, true, ◌&&◌,
  Option, some, List, [], ◌∷◌, ◌++◌, arith, ◌==◌, ltb, take, drop, last?, length, select, All,
  All-select, take-append-drop,
}
use appbase.Action.{ok, lift-eq-ok, >>=-eq-ok}
use appbase.Domain.Sync.{StoredVersion, PullResult}
use appbase.Database.{Database}
use appbase.Records.{list_changes}
use appbase.Records.History.{IsRising, IsSound, History-IsRising}
use appbase.Cursor.{encode_cursor, decode_cursor}
use appbase.Cursor.RoundTrip.{decode-encode}
use appbase.Sync.{SyncDeps}
use appbase.Pull.{public_changes, last_sequence, pull_changes}

-- Every change of an owner after a sequence number.
abbrev pub changes_after : String → ℕ → List StoredVersion → List StoredVersion
changes_after owner after records =
    select (λ v. v.owner_sub == owner && ltb after v.sequence) records

abbrev later : ℕ → List StoredVersion → List StoredVersion
later after vs = select (λ v. ltb after v.sequence) vs

later-All :
    (after : ℕ) (vs : List StoredVersion) → All (λ v. after < v.sequence) vs → later after vs ≡ vs
later-All after [] h = refl
later-All after (v ∷ vs) h = ground (arith, later-All after vs h.1)

changes-later :
    (owner : String) (after next : ℕ) (records : List StoredVersion)
    → after ≤ next
    → changes_after owner next records ≡ later next (changes_after owner after records)
changes-later owner after next [] h = refl
changes-later owner after next (v ∷ vs) h = ground (arith, changes-later owner after next vs h)

-- The last sequence number of a list, from its head.
end_of : StoredVersion → List StoredVersion → ℕ
end_of v [] = v.sequence
end_of v (w ∷ vs) = end_of w vs

last_sequence-end_of :
    (after : ℕ) (v : StoredVersion) (vs : List StoredVersion)
    → last_sequence after (last? (v ∷ vs)) ≡ end_of v vs
unfolding last_sequence end_of
last_sequence-end_of after v [] = refl
last_sequence-end_of after v (w ∷ vs) = last_sequence-end_of after w vs

end_of-le :
    (v : StoredVersion) (vs rest : List StoredVersion)
    → IsRising (v ∷ (vs ++ rest))
    → v.sequence ≤ end_of v vs
unfolding end_of
end_of-le v [] rest h = omega arith
end_of-le v (w ∷ vs) rest h = omega (arith, h.0.0, end_of-le w vs rest h.1)

drop_first :
    (n : ℕ) (v : StoredVersion) (vs : List StoredVersion)
    → v.sequence ≤ n
    → later n (v ∷ vs) ≡ later n vs
drop_first n v vs h = ground arith

later-rest :
    (v : StoredVersion) (vs rest : List StoredVersion)
    → IsRising (v ∷ (vs ++ rest))
    → later (end_of v vs) (v ∷ (vs ++ rest)) ≡ rest
unfolding end_of
later-rest v [] rest h = drop_first v.sequence v rest (omega arith) ∙ later-All v.sequence rest h.0
later-rest v (w ∷ vs) rest h =
    drop_first (end_of w vs) v (w ∷ (vs ++ rest)) (omega (arith, h.0.0, end_of-le w vs rest h.1))
    ∙ later-rest w vs rest h.1

-- In a rising list, what comes after the end of a front part is the rest.
later-front :
    (after : ℕ) (front rest : List StoredVersion)
    → IsRising (front ++ rest)
    → All (λ v. after < v.sequence) (front ++ rest)
    → later (last_sequence after (last? front)) (front ++ rest) ≡ rest
later-front after [] rest rising above = unfold last_sequence in later-All after rest above
later-front after (v ∷ vs) rest rising above =
    ap (λ n. later n (v ∷ (vs ++ rest))) (last_sequence-end_of after v vs)
    ∙ later-rest v vs rest rising

after-le :
    (after : ℕ) (front rest : List StoredVersion)
    → IsRising (front ++ rest)
    → All (λ v. after < v.sequence) (front ++ rest)
    → after ≤ last_sequence after (last? front)
after-le after [] rest rising above = unfold last_sequence in omega arith
after-le after (v ∷ vs) rest rising above =
    rw (last_sequence-end_of after v vs) (omega (arith, above.0, end_of-le v vs rest rising))

All-later :
    (owner : String) (after : ℕ) (records : List StoredVersion)
    → All (λ v. after < v.sequence) (changes_after owner after records)
All-later owner after [] = tt
All-later owner after (v ∷ vs) = ground (arith, All-later owner after vs)

IsRising-select :
    (p : StoredVersion → Bool) (vs : List StoredVersion) → IsRising vs → IsRising (select p vs)
IsRising-select p [] h = tt
IsRising-select p (v ∷ vs) h =
    ground (arith, IsRising-select p vs h.1, All-select (λ w. v.sequence < w.sequence) p vs h.0)

-- The list of changes splits at the end of any front part of it.
split_changes :
    (owner : String) (after n : ℕ) (records : List StoredVersion)
    → IsRising records
    → let page = take n (changes_after owner after records) in
      changes_after owner (last_sequence after (last? page)) records
      ≡ drop n (changes_after owner after records)
split_changes owner after n records rising =
    let all = changes_after owner after records in
    let page = take n all in
    let rest = drop n all in
    let whole : page ++ rest ≡ all = take-append-drop n all in
    let up : IsRising (page ++ rest) =
      subst IsRising (sym whole)
        (IsRising-select (λ v. v.owner_sub == owner && ltb after v.sequence) records rising) in
    let above : All (λ v. after < v.sequence) (page ++ rest) =
      subst (All (λ v. after < v.sequence)) (sym whole) (All-later owner after records) in
    changes-later owner after (last_sequence after (last? page)) records
      (after-le after page rest up above)
    ∙ ap (later (last_sequence after (last? page))) (sym whole)
    ∙ later-front after page rest up above

take-take : (n : ℕ) (vs : List StoredVersion) → take n (take (suc n) vs) ≡ take n vs
take-take zero vs = refl
take-take (suc n) [] = refl
take-take (suc n) (v ∷ vs) = ap (◌∷◌ v) (take-take n vs)

length-take-le : (n : ℕ) (vs : List StoredVersion) → length (take n vs) ≤ n
length-take-le zero vs = omega arith
length-take-le (suc n) [] = omega arith
length-take-le (suc n) (v ∷ vs) = omega (arith, length-take-le n vs)

-- One row more than the page tells whether there are more.
more_iff :
    (n : ℕ) (vs : List StoredVersion) → (ltb n (length (take (suc n) vs)) ≡ true) ↔ (drop n vs ≢ [])
more_iff zero [] = (λ h. cc h, λ h. absurd (h refl))
more_iff zero (v ∷ vs) = (λ h e. cc e, λ h. ground arith)
more_iff (suc n) [] = (λ h. ground arith, λ h. absurd (h refl))
more_iff (suc n) (v ∷ vs) =
    (λ h. (more_iff n vs).0 (ground arith), λ h. ground (arith, (more_iff n vs).1 h))

module _ (deps : SyncDeps) (owner : String) (limit : ℕ) where
  -- What a page is: `page` are the versions from `after` on, and `next` is where it ends.
  pub record IsPage (cursor : Option (List ℕ)) (r : PullResult) (db db' : Database) : Type 0 where
    pub after : ℕ
    pub next : ℕ
    pub page : List StoredVersion
    pub starts : decode_cursor cursor ≡ ok after
    pub ends : decode_cursor (some r.cursor) ≡ ok next
    pub reported : public_changes deps page db ≡ (ok r.changes, db')
    pub bounded : length page ≤ limit
    pub splits : changes_after owner after db.records ≡ page ++ changes_after owner next db.records
    pub more : (r.has_more ≡ true) ↔ (changes_after owner next db.records ≢ [])

  -- A pull that returns gives, of the owner's changes after the cursor, the front ones in order, at
  -- most `limit`. What comes after the returned cursor is exactly the rest, and `hasMore` says
  -- whether there is any: pages that follow one another leave out and repeat nothing.
  pub pull-IsPage :
      (cursor : Option (List ℕ)) (r : PullResult) (db db' : Database)
      → IsSound db
      → pull_changes deps owner cursor limit db ≡ (ok r, db')
      → IsPage cursor r db db'
  unfolding pull_changes list_changes
  pull-IsPage cursor r db db' sound h =
      let (after, decoded, h1) = lift-eq-ok (decode_cursor cursor) _ db r db' h in
      let all = changes_after owner after db.records in
      let (changes, mid, read, h2) =
        >>=-eq-ok (public_changes deps (take limit (take (suc limit) all))) _ db r db' h1 in
      let (text, encoded, done) = lift-eq-ok (encode_cursor _) _ mid r db' h2 in
      let same : record {
        changes = changes;
        cursor = text;
        has_more = ltb limit (length (take (suc limit) all));
      }
          ≡ r =
        cc done in
      let same_mid : mid ≡ db' = cc done in
      let says_more = ap (λ x. x.has_more) same in
      let next = last_sequence after (last? (take limit all)) in
      let shorter = take-take limit all in
      let rest : changes_after owner next db.records ≡ drop limit all =
        split_changes owner after limit db.records (History-IsRising sound.history) in
      record {
        after = after;
        next = next;
        page = take limit all;
        starts = decoded;
        ends =
            ap (λ x. decode_cursor (some x.cursor)) (sym same)
            ∙ decode-encode next text
                (ap (λ p. encode_cursor (last_sequence after (last? p))) (sym shorter) ∙ encoded);
        reported =
            ap (λ p. public_changes deps p db) (sym shorter)
            ∙ read
            ∙ (λ i. (ok (same i).changes, same_mid i));
        bounded = length-take-le limit all;
        splits = sym (take-append-drop limit all) ∙ ap (◌++◌ (take limit all)) (sym rest);
        more = (
          (λ h. subst (λ vs. vs ≢ []) (sym rest) ((more_iff limit all).0 (says_more ∙ h))),
          (λ left. sym says_more ∙ (more_iff limit all).1 (subst (λ vs. vs ≢ []) rest left)),
        );
      }
