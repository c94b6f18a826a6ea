-- ===== src/Billing/Sorting.antt =====
-- The sort of the grants by their end: its first element ends last.
use appbase.Prelude.{
  ℕ, ◌≡◌, refl, inl, inr, Bool, true, false, Option, none, some, List, [], ◌∷◌, arith, All,
  All-mono, Bool-cases, if◌then◌else◌,
}
use appbase.Domain.Membership.{MembershipGrant}
use appbase.Billing.{ends_later, insert_grant, sort_grants}

-- `a` does not end later than `b`.
abbrev pub NotLater : Option ℕ → Option ℕ → Type 0
NotLater a b = ends_later a b ≡ false

pub NotLater-refl : (a : Option ℕ) → NotLater a a
NotLater-refl none = refl
NotLater-refl (some a) = ground arith

pub NotLater-trans : (a b c : Option ℕ) → NotLater a b → NotLater b c → NotLater a c
NotLater-trans (some a) (some b) (some c) h k = ground arith
NotLater-trans (some a) none none h k = refl
NotLater-trans (some a) (some b) none h k = refl
NotLater-trans none none none h k = refl
NotLater-trans (some a) none (some c) h k = cc k
NotLater-trans none (some b) c h k = cc h
NotLater-trans none none (some c) h k = cc k

before_NotLater : (a b : Option ℕ) → ends_later a b ≡ true → NotLater b a
before_NotLater (some a) (some b) h = ground arith
before_NotLater none (some b) h = refl
before_NotLater none none h = refl
before_NotLater (some a) none h = cc h

module _ (P : MembershipGrant → Type 0) where
  insert-All :
      (g : MembershipGrant) (hs : List MembershipGrant) → P g → All P hs → All P (insert_grant g hs)
  unfolding insert_grant
  insert-All g [] p ps = (p, tt)
  insert-All g (h ∷ hs) p ps = elim (Bool-cases (ends_later h.ends_at g.ends_at)) [
    | inl further ↦ rw further (ps.0, insert-All g hs p ps.1)
    | inr placed ↦ rw placed (p, ps)
  ]

  All-insert :
      (g : MembershipGrant) (hs : List MembershipGrant) → All P (insert_grant g hs) → P g × All P hs
  unfolding insert_grant
  All-insert g [] ps = (ps.0, tt)
  All-insert g (h ∷ hs) ps = go (ends_later h.ends_at g.ends_at) ps (All-insert g hs)
    where
      go :
          (further : Bool)
          → All P (if further then h ∷ insert_grant g hs else g ∷ h ∷ hs)
          → (All P (insert_grant g hs) → P g × All P hs)
          → P g × All P (h ∷ hs)
      go true qs rest = let (p, tail) = rest qs.1 in (p, (qs.0, tail))
      go false qs rest = qs

  pub sort-All : (gs : List MembershipGrant) → All P gs → All P (sort_grants gs)
  unfolding sort_grants
  sort-All [] ps = tt
  sort-All (g ∷ gs) ps = insert-All g (sort_grants gs) ps.0 (sort-All gs ps.1)

  pub All-sort : (gs : List MembershipGrant) → All P (sort_grants gs) → All P gs
  unfolding sort_grants
  All-sort [] ps = tt
  All-sort (g ∷ gs) ps = let (p, rest) = All-insert g (sort_grants gs) ps in (p, All-sort gs rest)

abbrev pub IsSorted : List MembershipGrant → Type 0
IsSorted [] = Unit
IsSorted (g ∷ gs) = All (λ h. NotLater h.ends_at g.ends_at) gs × IsSorted gs

insert-IsSorted :
    (g : MembershipGrant) (hs : List MembershipGrant) → IsSorted hs → IsSorted (insert_grant g hs)
unfolding insert_grant
insert-IsSorted g [] s = (tt, tt)
insert-IsSorted g (h ∷ hs) s = elim (Bool-cases (ends_later h.ends_at g.ends_at)) [
  | inl further ↦ rw further (
    insert-All (λ k. NotLater k.ends_at h.ends_at) g hs
        (before_NotLater h.ends_at g.ends_at further) s.0,
    insert-IsSorted g hs s.1,
  )
  | inr placed ↦ rw placed (
    (
      placed,
      All-mono (λ k below. NotLater-trans k.ends_at h.ends_at g.ends_at below placed) hs s.0,
    ),
    s,
  )
]

pub sort-IsSorted : (gs : List MembershipGrant) → IsSorted (sort_grants gs)
unfolding sort_grants
sort-IsSorted [] = tt
sort-IsSorted (g ∷ gs) = insert-IsSorted g (sort_grants gs) (sort-IsSorted gs)
