-- ===== src/Policy/Budget/Eligible.antt =====
-- The candidates that `budget_aware_route` of gateway/policy.py may put in a cascade.
use ctrl_gateway.Prelude.{
  ℕ, zero, suc, ◌+◌, ◌≡◌, refl, sym, subst, ◌⊎◌, inl, inr, String, true, List, [], ◌∷◌, arith, All,
}
use ctrl_gateway.Prelude.Members.{IsIn, All-map, any-IsIn}
use ctrl_gateway.Prelude.Int.{ℤ, pos, negsuc, ◌≤ℤ◌}
use ctrl_gateway.Prelude.Dict.{Dict}
use ctrl_gateway.Policy.Inputs.{Endpoint, Tier, Config, RequestContext}
use ctrl_gateway.Policy.{cost_of}
use ctrl_gateway.Policy.Qualified.{IsQualified, considered-IsQualified}
use ctrl_gateway.Policy.Sorting.{All-sort_by}
use ctrl_gateway.Policy.Candidates.{All-candidates_of}
use ctrl_gateway.Policy.Budget.{
  BudgetAwareCandidate, TenantBudget, is_eligible, evaluate_candidate, fits_remaining, is_unlimited,
  plan_allowed_endpoint, budget_candidates, eligible,
}
use ctrl_gateway.Policy.Budget.Growth.{All-keep}

module _ (sigmoid : ℕ → ℕ → ℕ) (conf : Config) (ctx : RequestContext) (states : Dict String)
    (budget : TenantBudget) where
  -- The tokens of the request are no more than those that remain; -1 is unlimited.
  abbrev pub IsLeft : ℤ → Type 0
  IsLeft left =
      (left ≡ negsuc 0) ⊎ (pos (ctx.estimated_input_tokens + ctx.estimated_output_tokens) ≤ℤ left)

  -- The candidate is a qualified endpoint of a tier, at its cost and its chance of success; the plan
  -- lists the endpoint, unless it lists none; and the tokens of the request remain to the tenant and
  -- of the model.
  abbrev pub IsEligible : BudgetAwareCandidate → Type 0
  IsEligible c =
      (t : Tier) × (e : Endpoint) × IsQualified sigmoid conf ctx states t e
      × (c.tier_name ≡ t.name)
      × (c.endpoint_name ≡ e.name)
      × (c.cost ≡ cost_of sigmoid conf ctx states t e)
      × (c.p_completed ≡ budget.estimate_success_probability e.name)
      × ((budget.allowed_models ≡ []) ⊎ IsIn e.name budget.allowed_models)
      × IsLeft budget.remaining_tokens_today
      × IsLeft (budget.remaining_model_tokens_today e.name)

  fits-IsLeft :
      (left : ℤ)
      → fits_remaining (ctx.estimated_input_tokens + ctx.estimated_output_tokens) left ≡ true
      → IsLeft left
  unfolding fits_remaining is_unlimited
  fits-IsLeft (pos n) h = inr (ground (arith, h))
  fits-IsLeft (negsuc zero) h = inl refl
  fits-IsLeft (negsuc (suc n)) h = absurd (ground (arith, h))

  allowed-IsIn :
      (names : List String) (name : String)
      → plan_allowed_endpoint names name ≡ true
      → (names ≡ []) ⊎ IsIn name names
  unfolding plan_allowed_endpoint
  allowed-IsIn [] name h = inl refl
  allowed-IsIn (m ∷ ms) name h = inr (any-IsIn name (m ∷ ms) h)

  evaluated-IsEligible :
      (c : BudgetAwareCandidate)
      → (t : Tier) × (e : Endpoint) × IsQualified sigmoid conf ctx states t e
        × (evaluate_candidate sigmoid conf ctx states budget t e ≡ c)
      → is_eligible c ≡ true
      → IsEligible c
  unfolding is_eligible evaluate_candidate
  evaluated-IsEligible c (t, e, q, same) h =
      let eligible_ : is_eligible (evaluate_candidate sigmoid conf ctx states budget t e) ≡ true =
        subst (λ x. is_eligible x ≡ true) (sym same) h in
      subst IsEligible same (
        t,
        e,
        q,
        refl,
        refl,
        refl,
        refl,
        allowed-IsIn budget.allowed_models e.name (ground (arith, eligible_)),
        fits-IsLeft budget.remaining_tokens_today (ground (arith, eligible_)),
        fits-IsLeft (budget.remaining_model_tokens_today e.name) (ground (arith, eligible_)),
      )

  pub eligible_lem : All IsEligible (eligible sigmoid conf ctx states budget)
  unfolding eligible budget_candidates
  eligible_lem =
      All-sort_by (λ c. c.cost) IsEligible _
        (All-map _ (λ c h. evaluated-IsEligible c h.0 h.1)
          (All-keep _ is_eligible _ (
            All-candidates_of sigmoid conf ctx states (λ c. c.cost)
              (evaluate_candidate sigmoid conf ctx states budget)
              (λ c.
                (t : Tier) × (e : Endpoint) × IsQualified sigmoid conf ctx states t e
                × (evaluate_candidate sigmoid conf ctx states budget t e ≡ c))
              conf.tiers
              (λ t e i n j c.
                (t, e, considered-IsQualified sigmoid conf ctx states t e i n j c, refl)))))
