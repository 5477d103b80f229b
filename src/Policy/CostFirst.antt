-- ===== src/Policy/CostFirst.antt =====
-- What `cost_first_route` of gateway/policy.py decides.
use ctrl_gateway.Prelude.{
  ℕ, ◌≤◌, ◌≡◌, refl, sym, ◌∙◌, ap, subst, inl, inr, String, List, ◌∷◌, arith, All,
}
use ctrl_gateway.Prelude.Dict.{Dict}
use ctrl_gateway.Policy.Inputs.{Endpoint, Tier, Config, RequestContext}
use ctrl_gateway.Policy.{
  arith as by_cost, RoutingDecision, routed, Candidate, sort_by, cost_of, candidate_of, candidates,
  cost_first_route,
}
use ctrl_gateway.Policy.Qualified.{
  IsQualified, considered-IsQualified, IsQualified-considered, IsQualified-passes,
}
use ctrl_gateway.Policy.Sorting.{IsSorted, All-sort_by, All-unsort_by, sort_by-IsSorted}
use ctrl_gateway.Policy.Candidates.{least_of_Some, All-candidates_of, candidate_at_most}
use ctrl_gateway.Policy.Steps.{OnRoute, NearlyAs, Outcome, chosen_lem}

module _ (sigmoid : ℕ → ℕ → ℕ) (conf : Config) (ctx : RequestContext) (states : Dict String) where
  -- The candidate is a qualified endpoint of a tier.
  abbrev pub IsViable : Candidate → Type 0
  IsViable c =
      (t : Tier) × (e : Endpoint) × IsQualified sigmoid conf ctx states t e
      × (candidate_of sigmoid conf ctx states t e ≡ c)

  -- The decision is for a qualified endpoint of a tier, at its cost.
  abbrev pub IsOffer : RoutingDecision → Type 0
  IsOffer d =
      (t : Tier) × (e : Endpoint) × IsQualified sigmoid conf ctx states t e
      × (d.tier ≡ t.name)
      × (d.endpoint ≡ e.name)
      × (d.cost_usd ≡ cost_of sigmoid conf ctx states t e)

  IsViable-IsOffer :
      (c : Candidate) (d : RoutingDecision)
      → IsViable c
      → d.tier ≡ c.tier
      → d.endpoint ≡ c.endpoint
      → d.cost_usd ≡ c.cost
      → IsOffer d
  IsViable-IsOffer c d (t, e, q, same) tier endpoint cost = (
    t,
    e,
    q,
    tier ∙ sym (ap (λ y. y.tier) same),
    endpoint ∙ sym (ap (λ y. y.endpoint) same),
    cost ∙ sym (ap (λ y. y.cost) same),
  )

  viable : All IsViable (candidates sigmoid conf ctx states)
  unfolding candidates
  viable =
      All-candidates_of sigmoid conf ctx states (λ c. c.cost) (candidate_of sigmoid conf ctx states)
        IsViable conf.tiers
        (λ t e i n j c. (t, e, considered-IsQualified sigmoid conf ctx states t e i n j c, refl))

  -- The cheapest candidate costs no more than any endpoint that the loops consider.
  first_is_low :
      (t : Tier) (x : Endpoint)
      → IsQualified sigmoid conf ctx states t x
      → (a : Candidate) (bs : List Candidate)
      → sort_by (λ c. c.cost) (candidates sigmoid conf ctx states) ≡ a ∷ bs
      → a.cost ≤ cost_of sigmoid conf ctx states t x
  unfolding candidates
  first_is_low t x q a bs e =
      let sorted =
        subst (IsSorted (λ y. y.cost)) e
          (sort_by-IsSorted (λ y. y.cost) (candidates sigmoid conf ctx states)) in
      let least =
        All-unsort_by (λ y. y.cost) (λ y. a.cost ≤ y.cost) (candidates sigmoid conf ctx states)
          (subst (All (λ y. a.cost ≤ y.cost)) (sym e) (omega arith, sorted.0)) in
      least_of_Some (λ y. y.cost) a.cost _ _ least
        (candidate_at_most sigmoid conf ctx states (λ y. y.cost)
          (candidate_of sigmoid conf ctx states) conf.tiers t x q.in_config
          (IsQualified-passes sigmoid conf ctx states t x q) q.in_tier
          (IsQualified-considered sigmoid conf ctx states t x q))

  -- When the route is decided by cost alone, it is for a qualified endpoint of a tier, and that
  -- endpoint costs no more than any qualified endpoint of any tier, or, where loads break ties, at
  -- most a twentieth more.
  pub cheapest :
      (loads : Dict ℕ) (d : RoutingDecision) (t : Tier) (x : Endpoint)
      → cost_first_route sigmoid conf ctx states loads ≡ routed d
      → d.source ≡ by_cost
      → IsQualified sigmoid conf ctx states t x
      → IsOffer d
        × NearlyAs sigmoid conf ctx states d.cost_usd (cost_of sigmoid conf ctx states t x)
  unfolding cost_first_route
  cheapest loads d t x h s q =
      elim (subst
        (OnRoute (Outcome sigmoid conf ctx states IsViable (cost_of sigmoid conf ctx states t x))) h
        (chosen_lem sigmoid conf ctx states IsViable loads (cost_of sigmoid conf ctx states t x) _
          (first_is_low t x q) (All-sort_by (λ y. y.cost) IsViable _ viable))) [
            | inl (reason, u, safe, (tier, inl e)) ↦ let gone = e.0 in ground (arith, s, gone)
            | inl (reason, u, safe, (tier, inr e)) ↦ let gone = e.0 in ground (arith, s, gone)
            | inr (c', v, tier, endpoint, cost, inl near) ↦
                (IsViable-IsOffer c' d v tier endpoint cost, rw cost near.1)
            | inr (c', v, tier, endpoint, cost, inr margin) ↦ ground (arith, s, margin)
          ]
