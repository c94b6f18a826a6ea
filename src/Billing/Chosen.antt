-- ===== src/Billing/Chosen.antt =====
-- Which grant `billingGrant` chooses: the first plan of the catalog that an entitlement in force
-- gives, and of the entitlements that give it one that ends last.
use appbase.Prelude.{
  ℕ, ◌≡◌, refl, sym, subst, ◌⊎◌, inl, inr, Bool, true, false, Option, none, some, List, [], ◌∷◌,
  All, Bool-cases,
}
use appbase.Domain.Billing.{BillingCatalog, BillingEntitlement, BillingState}
use appbase.Domain.Membership.{MembershipPlan, MembershipGrant}
use appbase.Billing.Sorting.{NotLater, NotLater-refl, IsSorted, sort-IsSorted, sort-All, All-sort}
use appbase.Billing.{
  belongs, end_of, grant_for, runs, ends_later, sort_grants, grants_for, first_or, grant_among,
  billing_grant,
}

-- A member of the list.
abbrev pub Member : {A : Type 0} → A → List A → Type 0
Member a [] = ⊥
Member a (b ∷ bs) = (a ≡ b) ⊎ Member a bs

module _ (catalog : BillingCatalog) (now : ℕ) (sandbox : Bool)
    (entitlements : List BillingEntitlement) where
  -- The entitlement gives the plan now.
  abbrev pub Gives : MembershipPlan → BillingEntitlement → Type 0
  Gives plan e = (belongs catalog now sandbox plan e ≡ true) × (runs now (end_of catalog e) ≡ true)

  -- None of the entitlements ends later.
  abbrev pub IsLast : MembershipPlan → BillingEntitlement → Type 0
  IsLast plan e =
      (f : BillingEntitlement)
      → Member f entitlements
      → Gives plan f
      → ends_later (end_of catalog f) (end_of catalog e) ≡ false

  pub data IsChosen : List MembershipPlan → Option MembershipGrant → Type 0 where
    no_plan : IsChosen [] none
    here :
        (plan : MembershipPlan) (plans : List MembershipPlan) (e : BillingEntitlement)
        → Member e entitlements
        → Gives plan e
        → IsLast plan e
        → IsChosen (plan ∷ plans) (some (grant_for catalog plan e))
    later :
        (plan : MembershipPlan) (plans : List MembershipPlan) (g : Option MembershipGrant)
        → ((e : BillingEntitlement) → Member e entitlements → Gives plan e → ⊥)
        → IsChosen plans g
        → IsChosen (plan ∷ plans) g

  -- What holds of the grants of the entitlements that give the plan holds of the list, and back.
  grants-All :
      (P : MembershipGrant → Type 0) (plan : MembershipPlan) (es : List BillingEntitlement)
      → ((e : BillingEntitlement) → Member e es → Gives plan e → P (grant_for catalog plan e))
      → All P (grants_for catalog now sandbox plan es)
  unfolding grants_for
  grants-All P plan [] h = tt
  grants-All P plan (e ∷ es) h =
      let rest = grants-All P plan es (λ f there. h f (inr there)) in
      elim (Bool-cases (belongs catalog now sandbox plan e)) [
        | inr apart ↦ rw apart rest
        | inl mine ↦ elim (Bool-cases (runs now (end_of catalog e))) [
          | inr over ↦ rw (mine, over) rest
          | inl open_end ↦ rw (mine, open_end) (h e (inl refl) (mine, open_end), rest)
        ]
      ]

  grants_in :
      (plan : MembershipPlan) (e : BillingEntitlement) (es : List BillingEntitlement)
      → Gives plan e
      → grants_for catalog now sandbox plan (e ∷ es)
        ≡ grant_for catalog plan e ∷ grants_for catalog now sandbox plan es
  unfolding grants_for
  grants_in plan e es (mine, open_end) = rw (mine, open_end) refl

  grants_apart :
      (plan : MembershipPlan) (e : BillingEntitlement) (es : List BillingEntitlement)
      → belongs catalog now sandbox plan e ≡ false
      → grants_for catalog now sandbox plan (e ∷ es) ≡ grants_for catalog now sandbox plan es
  unfolding grants_for
  grants_apart plan e es apart = rw apart refl

  grants_over :
      (plan : MembershipPlan) (e : BillingEntitlement) (es : List BillingEntitlement)
      → belongs catalog now sandbox plan e ≡ true
      → runs now (end_of catalog e) ≡ false
      → grants_for catalog now sandbox plan (e ∷ es) ≡ grants_for catalog now sandbox plan es
  unfolding grants_for
  grants_over plan e es mine over = rw (mine, over) refl

  grants_rest :
      (P : MembershipGrant → Type 0) (plan : MembershipPlan) (e : BillingEntitlement)
      (es : List BillingEntitlement)
      → All P (grants_for catalog now sandbox plan (e ∷ es))
      → All P (grants_for catalog now sandbox plan es)
  grants_rest P plan e es ps = elim (Bool-cases (belongs catalog now sandbox plan e)) [
    | inr apart ↦ subst (All P) (grants_apart plan e es apart) ps
    | inl mine ↦ elim (Bool-cases (runs now (end_of catalog e))) [
      | inr over ↦ subst (All P) (grants_over plan e es mine over) ps
      | inl open_end ↦ (subst (All P) (grants_in plan e es (mine, open_end)) ps).1
    ]
  ]

  All-grants :
      (P : MembershipGrant → Type 0) (plan : MembershipPlan) (es : List BillingEntitlement)
      → All P (grants_for catalog now sandbox plan es)
      → (e : BillingEntitlement) → Member e es
      → Gives plan e
      → P (grant_for catalog plan e)
  All-grants P plan [] ps e there gives = absurd there
  All-grants P plan (d ∷ es) ps e (inl same) gives =
      subst (λ f. P (grant_for catalog plan f)) (sym same)
        (subst (All P) (grants_in plan d es (subst (Gives plan) same gives)) ps).0
  All-grants P plan (d ∷ es) ps e (inr there) gives =
      All-grants P plan es (grants_rest P plan d es ps) e there gives

  -- A grant of the list, and the entitlement it is of.
  abbrev Source : MembershipPlan → MembershipGrant → Type 0
  Source plan g =
      (e : BillingEntitlement) × Member e entitlements
      × Gives plan e
      × (g ≡ grant_for catalog plan e)

  chosen_plan :
      (plan : MembershipPlan) (plans : List MembershipPlan) (rest : Option MembershipGrant)
      (sorted : List MembershipGrant)
      → IsSorted sorted
      → All (Source plan) sorted
      → ((P : MembershipGrant → Type 0)
          → All P sorted
          → All P (grants_for catalog now sandbox plan entitlements))
      → IsChosen plans rest
      → IsChosen (plan ∷ plans) (first_or sorted rest)
  unfolding first_or
  chosen_plan plan plans rest [] s sources back chosen =
      later plan plans rest
        (λ e there gives. All-grants (λ g. ⊥) plan entitlements (back (λ g. ⊥) tt) e there gives)
        chosen
  chosen_plan plan plans rest (g ∷ gs) s sources back chosen =
      let (e, there, gives, same) = sources.0 in
      subst (λ x. IsChosen (plan ∷ plans) (some x)) (sym same)
        (here plan plans e there gives (λ f found live.
          subst (λ x. NotLater (end_of catalog f) x.ends_at) same
            (All-grants (λ h. NotLater h.ends_at g.ends_at) plan entitlements
              (back (λ h. NotLater h.ends_at g.ends_at) (NotLater-refl g.ends_at, s.0)) f found
              live)))

  grant_among-IsChosen :
      (plans : List MembershipPlan)
      → IsChosen plans (grant_among catalog now sandbox entitlements plans)
  unfolding grant_among
  grant_among-IsChosen [] = no_plan
  grant_among-IsChosen (plan ∷ plans) =
      let grants = grants_for catalog now sandbox plan entitlements in
      chosen_plan plan plans (grant_among catalog now sandbox entitlements plans)
        (sort_grants grants) (sort-IsSorted grants)
        (sort-All (Source plan) grants
          (grants-All (Source plan) plan entitlements (λ e there gives. (e, there, gives, refl))))
        (λ P. All-sort P grants) (grant_among-IsChosen plans)

-- The grant is that of the first plan of the catalog for which some entitlement of the environment
-- has begun and not ended, the grace period counted where the catalog honours it; of the
-- entitlements that give this plan none ends later. Without such a plan there is no grant.
pub billing_grant-IsChosen :
    (state : BillingState) (catalog : BillingCatalog) (now : ℕ) (sandbox : Bool)
    → IsChosen catalog now sandbox state.entitlements catalog.plans
        (billing_grant (some state) catalog now sandbox)
unfolding billing_grant
billing_grant-IsChosen state catalog now sandbox =
    grant_among-IsChosen catalog now sandbox state.entitlements catalog.plans
