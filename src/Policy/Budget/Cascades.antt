-- ===== src/Policy/Budget/Cascades.antt =====
-- The cascades that `budget_aware_route` of gateway/policy.py routes to, and its refusals.
use ctrl_gateway.Prelude.{
  ℕ, ◌≤◌, ◌<◌, ◌≡◌, refl, sym, ap, subst, ◌⊎◌, inl, inr, String, true, false, Option, none, some,
  List, [], ◌∷◌, arith, All, take, length,
}
use ctrl_gateway.Prelude.Dict.{Dict}
use ctrl_gateway.Policy.Inputs.{Config, RequestContext}
use ctrl_gateway.Policy.{
  no_fit, RoutingDecision, Route, routed, no_tiers_configured, no_available_endpoints,
  escalate_to_safe_tier,
}
use ctrl_gateway.Policy.Candidates.{IsAll}
use ctrl_gateway.Policy.Budget.{
  BudgetAwareCandidate, TenantBudget, BudgetRoute, budget_routed, no_viable_route,
  quality_target_unmet, meets, grow, decide_chain, of_escalation, budget_candidates, eligible,
  route_among, budget_aware_route,
}
use ctrl_gateway.Policy.Budget.Eligible.{IsEligible, eligible_lem}
use ctrl_gateway.Policy.Budget.Growth.{
  WhenNone, IsShortest, grow-All, grow-IsShortest, IsUnmet, grow-IsUnmet,
}

abbrev pub OnBudget : (RoutingDecision → List BudgetAwareCandidate → Type 0) → BudgetRoute → Type 0
OnBudget P (budget_routed d chain) = P d chain
OnBudget P no_viable_route = Unit
OnBudget P quality_target_unmet = Unit

-- The decision is for the head of the cascade.
abbrev pub IsHead : RoutingDecision → List BudgetAwareCandidate → Type 0
IsHead d chain =
    (c : BudgetAwareCandidate) × (cs : List BudgetAwareCandidate) × (chain ≡ c ∷ cs)
    × (d.tier ≡ c.tier_name)
    × (d.endpoint ≡ c.endpoint_name)
    × (d.cost_usd ≡ c.cost)

OnBudget-map :
    (P Q : RoutingDecision → List BudgetAwareCandidate → Type 0) (r : BudgetRoute)
    → ((d : RoutingDecision) (chain : List BudgetAwareCandidate) → P d chain → Q d chain)
    → OnBudget P r
    → OnBudget Q r
OnBudget-map P Q (budget_routed d chain) f h = f d chain h
OnBudget-map P Q no_viable_route f h = tt
OnBudget-map P Q quality_target_unmet f h = tt

IsAll-both :
    {A : Type 0} (P Q : A → Type 0) (o : Option A)
    → IsAll P o
    → IsAll Q o
    → IsAll (λ a. P a × Q a) o
IsAll-both P Q none p q = tt
IsAll-both P Q (some a) p q = (p, q)

abbrev OnUnmet : Type 0 → BudgetRoute → Type 0
OnUnmet Q (budget_routed d chain) = Unit
OnUnmet Q no_viable_route = Unit
OnUnmet Q quality_target_unmet = Q

escalated_not_refused : (Q : Type 0) (r : Route) → OnUnmet Q (of_escalation r)
unfolding of_escalation
escalated_not_refused Q (routed d) = tt
escalated_not_refused Q no_tiers_configured = tt
escalated_not_refused Q no_available_endpoints = tt

refused_none :
    (target : ℕ) (Q : Type 0) (o : Option (List BudgetAwareCandidate))
    → IsAll (IsShortest target []) o
    → WhenNone Q o
    → OnUnmet Q (decide_chain o)
unfolding decide_chain
refused_none target Q none s h = h
refused_none target Q (some []) s h = ground (arith, s.is_longer)
refused_none target Q (some (c ∷ cs)) s h = tt

decide_lem :
    (P : List BudgetAwareCandidate → Type 0) (o : Option (List BudgetAwareCandidate))
    → IsAll P o
    → OnBudget (λ d chain. P chain × IsHead d chain) (decide_chain o)
unfolding decide_chain
decide_lem P none h = tt
decide_lem P (some []) h = tt
decide_lem P (some (c ∷ cs)) h = (h, (c, cs, refl, refl, refl, refl))

module _ (sigmoid : ℕ → ℕ → ℕ) (conf : Config) (ctx : RequestContext) (states : Dict String)
    (budget : TenantBudget) where
  -- The cascade is of eligible candidates and the shortest that meets the target.
  abbrev IsCascade : List BudgetAwareCandidate → Type 0
  IsCascade chain =
      All (IsEligible sigmoid conf ctx states budget) chain
      × IsShortest budget.target_success_probability [] chain

  -- There is no candidate at all, and the decision is the escalation to the safe tier.
  abbrev pub IsEscalated : RoutingDecision → List BudgetAwareCandidate → Type 0
  IsEscalated d chain =
      (chain ≡ [])
      × (budget_candidates sigmoid conf ctx states budget ≡ [])
      × (escalate_to_safe_tier conf states no_fit ≡ routed d)

  abbrev Outcome : RoutingDecision → List BudgetAwareCandidate → Type 0
  Outcome d chain = IsEscalated d chain ⊎ (IsCascade chain × IsHead d chain)

  abbrev grown : Option (List BudgetAwareCandidate)
  grown = grow budget.target_success_probability [] (eligible sigmoid conf ctx states budget)

  empty_chain :
      (r : Route)
      → escalate_to_safe_tier conf states no_fit ≡ r
      → budget_candidates sigmoid conf ctx states budget ≡ []
      → OnBudget Outcome (of_escalation r)
  unfolding of_escalation
  empty_chain (routed d) e none_left = inl (refl, none_left, e)
  empty_chain no_tiers_configured e none_left = tt
  empty_chain no_available_endpoints e none_left = tt

  outcome :
      (l : List BudgetAwareCandidate)
      → budget_candidates sigmoid conf ctx states budget ≡ l
      → OnBudget Outcome (route_among sigmoid conf ctx states budget l)
  unfolding route_among of_escalation
  outcome [] e = empty_chain (escalate_to_safe_tier conf states no_fit) refl e
  outcome (x ∷ xs) e =
      OnBudget-map (λ d ch. IsCascade ch × IsHead d ch) Outcome (decide_chain grown)
        (λ d ch h. inr h)
        (decide_lem IsCascade grown (
          IsAll-both (All (IsEligible sigmoid conf ctx states budget))
            (IsShortest budget.target_success_probability []) grown
            (grow-All budget.target_success_probability (IsEligible sigmoid conf ctx states budget)
              [] (eligible sigmoid conf ctx states budget) tt
              (eligible_lem sigmoid conf ctx states budget))
            (grow-IsShortest budget.target_success_probability []
              (eligible sigmoid conf ctx states budget))))

  -- Every candidate of a cascade that is routed to is a qualified endpoint of a tier of the config, at
  -- its cost and its chance of success; the plan lists the endpoint, unless it lists none, and the
  -- tokens of the request are no more than those that remain to the tenant and of the model, unless
  -- these are unlimited.
  pub cascade-IsEligible :
      (d : RoutingDecision) (chain : List BudgetAwareCandidate)
      → budget_aware_route sigmoid conf ctx states budget ≡ budget_routed d chain
      → All (IsEligible sigmoid conf ctx states budget) chain
  unfolding budget_aware_route
  cascade-IsEligible d chain h =
      elim (subst (OnBudget Outcome) h
        (outcome (budget_candidates sigmoid conf ctx states budget) refl)) [
          | inl e ↦ subst (All (IsEligible sigmoid conf ctx states budget)) (sym e.0) tt
          | inr o ↦ o.0.0
        ]

  -- A cascade that is routed to is either empty, where there is no candidate at all and the decision is
  -- the escalation to the safe tier, or its chance of success reaches the target, and the decision is
  -- for its head.
  pub cascade_meets :
      (d : RoutingDecision) (chain : List BudgetAwareCandidate)
      → budget_aware_route sigmoid conf ctx states budget ≡ budget_routed d chain
      → IsEscalated d chain
        ⊎ ((meets budget.target_success_probability chain ≡ true) × IsHead d chain)
  unfolding budget_aware_route
  cascade_meets d chain h =
      elim (subst (OnBudget Outcome) h
        (outcome (budget_candidates sigmoid conf ctx states budget) refl)) [
          | inl e ↦ inl e
          | inr o ↦ inr (o.0.1.meets_target, o.1)
        ]

  -- No shorter beginning of a cascade that is routed to, but the empty one, reaches the target.
  pub cascade_shortest :
      (d : RoutingDecision) (chain : List BudgetAwareCandidate) (j : ℕ)
      → budget_aware_route sigmoid conf ctx states budget ≡ budget_routed d chain
      → 1 ≤ j
      → j < length chain
      → meets budget.target_success_probability (take j chain) ≡ false
  unfolding budget_aware_route
  cascade_shortest d chain j h a b =
      elim (subst (OnBudget Outcome) h
        (outcome (budget_candidates sigmoid conf ctx states budget) refl)) [
          | inl e ↦ ground (arith, ap length (e.0))
          | inr o ↦ o.0.1.none_shorter j a b
        ]

  abbrev IsFruitless : Type 0
  IsFruitless =
      IsUnmet budget.target_success_probability [] (eligible sigmoid conf ctx states budget)

  refusal :
      (l : List BudgetAwareCandidate)
      → OnUnmet IsFruitless (route_among sigmoid conf ctx states budget l)
  unfolding route_among
  refusal [] = escalated_not_refused IsFruitless (escalate_to_safe_tier conf states no_fit)
  refusal (x ∷ xs) =
      refused_none budget.target_success_probability IsFruitless grown
        (grow-IsShortest budget.target_success_probability []
          (eligible sigmoid conf ctx states budget))
        (grow-IsUnmet budget.target_success_probability []
          (eligible sigmoid conf ctx states budget))

  -- A request is refused for its quality target only when there is no eligible candidate, or when not
  -- even all of them together reach the target.
  pub refused_unmeetable :
      budget_aware_route sigmoid conf ctx states budget ≡ quality_target_unmet
      → (eligible sigmoid conf ctx states budget ≡ [])
        ⊎ (meets budget.target_success_probability (eligible sigmoid conf ctx states budget)
            ≡ false)
  unfolding budget_aware_route
  refused_unmeetable h =
      subst (OnUnmet IsFruitless) h (refusal (budget_candidates sigmoid conf ctx states budget))
