-- ===== src/Policy/Budget.antt =====
-- The budget-aware routing of gateway/policy.py. The quotas and the quality profiles that it reads are
-- given. Left out: the 99th percentile of the cost and the texts, which only go in the report.
mod Growth
mod Eligible
mod Cascades
mod Tests
use ctrl_gateway.Prelude.{
  ℕ, ◌+◌, ◌-◌, ◌*◌, String, Bool, true, false, not, ◌&&◌, ◌||◌, ◌++◌, Option, none, some, List, [],
  ◌∷◌, ltb, leb, ◌==◌, any, keep, str_eq, if◌then◌else◌,
}
use ctrl_gateway.Prelude.Dict.{Dict}
use ctrl_gateway.Prelude.Int.{ℤ, pos, negsuc, ltb_ℤ}
use ctrl_gateway.Policy.Inputs.{million, Endpoint, Tier, Config, RequestContext}
use ctrl_gateway.Policy.{
  no_fit, Source, budget_aware, budget_aware_cascade, RoutingDecision, Route, routed,
  no_tiers_configured, no_available_endpoints, sort_by, escalate_to_safe_tier, fit_of, cost_of,
  candidates_of,
}

pub record BudgetAwareCandidate : Type 0 where
  pub tier_name : String
  pub endpoint_name : String
  pub cost : ℕ
  pub fit : ℕ
  pub p_completed : ℕ
  pub estimated_tokens : ℕ
  pub fits_remaining_tokens : Bool
  pub allowed_by_plan : Bool

-- What the router reads of the tenant and of the endpoints' quality profiles.
pub record TenantBudget : Type 0 where
  pub target_success_probability : ℕ
  pub remaining_tokens_today : ℤ
  pub remaining_model_tokens_today : String → ℤ
  pub allowed_models : List String
  pub estimate_success_probability : String → ℕ

pub data BudgetRoute : Type 0 where
  budget_routed : RoutingDecision → List BudgetAwareCandidate → BudgetRoute
  no_viable_route : BudgetRoute
  quality_target_unmet : BudgetRoute

pub is_unlimited : ℤ → Bool
is_unlimited (pos n) = false
is_unlimited (negsuc n) = n == 0

pub fits_remaining : ℕ → ℤ → Bool
fits_remaining tokens left = is_unlimited left || not (ltb_ℤ left (pos tokens))

-- `plan_allowed_endpoint`; a plan without models, or none, allows every endpoint
unfoldable pub plan_allowed_endpoint : List String → String → Bool
plan_allowed_endpoint [] name = true
plan_allowed_endpoint (m ∷ ms) name = any (λ x. str_eq x name) (m ∷ ms)

-- `1 - cascade_success_probability(chain)` is `failures chain / scale chain`.
pub failures : List BudgetAwareCandidate → ℕ
failures [] = 1
failures (c ∷ cs) = (million - c.p_completed) * failures cs

pub scale : List BudgetAwareCandidate → ℕ
scale [] = 1
scale (c ∷ cs) = million * scale cs

-- `cascade_success_probability(chain) >= target`
pub meets : ℕ → List BudgetAwareCandidate → Bool
meets target chain = leb (target * scale chain + failures chain * million) (million * scale chain)

-- The loop that builds the cascade from the eligible candidates.
pub grow :
    ℕ → List BudgetAwareCandidate → List BudgetAwareCandidate → Option (List BudgetAwareCandidate)
grow target chain [] = none
grow target chain (c ∷ cs) =
    let longer = chain ++ c ∷ [] in
    let rest = grow target longer cs in if meets target longer then some longer else rest

pub source_of : List BudgetAwareCandidate → Source
source_of [] = budget_aware
source_of (_ ∷ _) = budget_aware_cascade

pub decide_chain : Option (List BudgetAwareCandidate) → BudgetRoute
decide_chain none = quality_target_unmet
decide_chain (some []) = quality_target_unmet
decide_chain (some (c ∷ cs)) =
    budget_routed
      (record {
        tier = c.tier_name;
        endpoint = c.endpoint_name;
        source = source_of cs;
        escalated = false;
        cost_usd = c.cost;
        fit = c.fit;
      })
      (c ∷ cs)

pub of_escalation : Route → BudgetRoute
of_escalation (routed d) = budget_routed d []
of_escalation no_tiers_configured = no_viable_route
of_escalation no_available_endpoints = no_viable_route

pub is_eligible : BudgetAwareCandidate → Bool
is_eligible c = c.fits_remaining_tokens && c.allowed_by_plan

module _ (sigmoid : ℕ → ℕ → ℕ) (conf : Config) (ctx : RequestContext) (states : Dict String)
    (budget : TenantBudget) where
  -- `evaluate_candidate`
  pub evaluate_candidate : Tier → Endpoint → BudgetAwareCandidate
  evaluate_candidate t e =
      let tokens = ctx.estimated_input_tokens + ctx.estimated_output_tokens in
      record {
        tier_name = t.name;
        endpoint_name = e.name;
        cost = cost_of sigmoid conf ctx states t e;
        fit = fit_of sigmoid conf ctx states t;
        p_completed = budget.estimate_success_probability e.name;
        estimated_tokens = tokens;
        fits_remaining_tokens =
            fits_remaining tokens budget.remaining_tokens_today
            && fits_remaining tokens (budget.remaining_model_tokens_today e.name);
        allowed_by_plan = plan_allowed_endpoint budget.allowed_models e.name;
      }

  pub budget_candidates : List BudgetAwareCandidate
  budget_candidates =
      candidates_of sigmoid conf ctx states (λ c. c.cost) evaluate_candidate conf.tiers

  -- The eligible candidates, the cheapest first.
  pub eligible : List BudgetAwareCandidate
  eligible = sort_by (λ c. c.cost) (keep is_eligible budget_candidates)

  pub route_among : List BudgetAwareCandidate → BudgetRoute
  route_among [] = of_escalation (escalate_to_safe_tier conf states no_fit)
  route_among (_ ∷ _) = decide_chain (grow budget.target_success_probability [] eligible)

  -- `budget_aware_route`
  pub budget_aware_route : BudgetRoute
  budget_aware_route = route_among budget_candidates
