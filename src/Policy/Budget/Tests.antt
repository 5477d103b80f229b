-- ===== src/Policy/Budget/Tests.antt =====
-- Budget-aware routes of the example config, and the theorems at inputs where their hypotheses hold.
use ctrl_gateway.Prelude.{◌≤◌, ◌<◌, ◌≡◌, ◌⊎◌, refl, arith, true, false, [], ◌∷◌, All, take}
use ctrl_gateway.Prelude.Dict
use ctrl_gateway.Prelude.Int.{pos, negsuc}
use ctrl_gateway.Policy.Inputs.{
  find_tier, find_endpoint, known, endpoints_for_tier, is_open, exceeds_context, tokens_needed,
  expected_cost, capability_of, min_capability_of,
}
use ctrl_gateway.Policy.{
  no_fit, budget_aware_cascade, escalation, RoutingDecision, insert_by, sort_by, cheaper,
  first_ordinary, safe_tier, first_closed, escalated_to, fall_back, escalate_to_safe_tier, fit_of,
  is_skipped, is_considered, cost_of, best_of, candidates_of,
}
use ctrl_gateway.Policy.Budget.{
  BudgetAwareCandidate, TenantBudget, budget_routed, quality_target_unmet, is_unlimited,
  fits_remaining, plan_allowed_endpoint, failures, scale, meets, grow, source_of, decide_chain,
  of_escalation, is_eligible, evaluate_candidate, budget_candidates, eligible, route_among,
  budget_aware_route,
}
use ctrl_gateway.Policy.Budget.Eligible.{IsEligible}
use ctrl_gateway.Policy.Budget.Cascades.{
  IsHead, IsEscalated, cascade-IsEligible, cascade_meets, cascade_shortest, refused_unmeetable,
}
use ctrl_gateway.Policy.Examples.{step_fit, medium, tier1, conf, request}

program : Unit {0}
unfolding find_tier find_endpoint known endpoints_for_tier is_open exceeds_context tokens_needed
    expected_cost capability_of min_capability_of insert_by sort_by cheaper first_ordinary safe_tier
    first_closed escalated_to fall_back escalate_to_safe_tier fit_of is_skipped is_considered
    cost_of best_of candidates_of is_unlimited fits_remaining plan_allowed_endpoint failures scale
    meets grow source_of decide_chain of_escalation is_eligible evaluate_candidate budget_candidates
    eligible route_among budget_aware_route Dict.lookup
program = tt

-- Each endpoint completes nine requests of ten; two of them are needed for a target of 99 %.
abbrev budget : TenantBudget
budget = record {
  target_success_probability = 990_000;
  remaining_tokens_today = pos 2000;
  remaining_model_tokens_today = λ _. negsuc 0;
  allowed_models = [];
  estimate_success_probability = λ _. 900_000;
}

abbrev first : BudgetAwareCandidate
first = record {
  tier_name = "tier1";
  endpoint_name = "small";
  cost = 10_000;
  fit = 1_000_000;
  p_completed = 900_000;
  estimated_tokens = 1500;
  fits_remaining_tokens = true;
  allowed_by_plan = true;
}

abbrev second : BudgetAwareCandidate
second = record first { tier_name = "tier2"; endpoint_name = "large"; cost = 90_000 }

abbrev to_first : RoutingDecision
to_first = record {
  tier = "tier1";
  endpoint = "small";
  source = budget_aware_cascade;
  escalated = false;
  cost_usd = 10_000;
  fit = 1_000_000;
}

two :
    budget_aware_route step_fit conf request [] budget
    ≡ budget_routed to_first (first ∷ second ∷ [])
unfolding program
two = refl

-- A plan that allows `medium` only: it is considered, but the cheaper `small` of its tier is the one
-- candidate, so that the request is refused.
abbrev plan : TenantBudget
plan = record budget { target_success_probability = 500_000; allowed_models = "medium" ∷ [] }

plan_refused : budget_aware_route step_fit conf request [] plan ≡ quality_target_unmet
unfolding program
plan_refused = refl

plan_allows :
    (is_skipped step_fit conf request [] tier1 ≡ false)
    × (is_considered step_fit conf request [] tier1 medium ≡ true)
    × (is_eligible (evaluate_candidate step_fit conf request [] plan tier1 medium) ≡ true)
    × (meets 500_000 (evaluate_candidate step_fit conf request [] plan tier1 medium ∷ []) ≡ true)
unfolding program
plan_allows = (refl, refl, refl, refl)

-- Without a candidate the escalation is routed to, whether the plan allows its endpoint or not.
plan_forgotten :
    budget_aware_route step_fit (record conf { fit_threshold = 2_000_000 }) request [] plan
    ≡ budget_routed
        (record {
          tier = "tier2";
          endpoint = "large";
          source = escalation no_fit;
          escalated = true;
          cost_usd = 0;
          fit = 0;
        })
        []
unfolding program
plan_forgotten = refl

cascade-IsEligible_example : All (IsEligible step_fit conf request [] budget) (first ∷ second ∷ [])
cascade-IsEligible_example =
    cascade-IsEligible step_fit conf request [] budget to_first (first ∷ second ∷ []) two

cascade_meets_example :
    IsEscalated step_fit conf request [] budget to_first (first ∷ second ∷ [])
    ⊎ ((meets 990_000 (first ∷ second ∷ []) ≡ true) × IsHead to_first (first ∷ second ∷ []))
cascade_meets_example =
    cascade_meets step_fit conf request [] budget to_first (first ∷ second ∷ []) two

one_le : 1 ≤ 1
one_le = omega arith

one_lt : 1 < 2
one_lt = omega arith

cascade_shortest_example : meets 990_000 (take 1 (first ∷ second ∷ [])) ≡ false
cascade_shortest_example =
    cascade_shortest step_fit conf request [] budget to_first (first ∷ second ∷ []) 1 two one_le
      one_lt

refused_unmeetable_example :
    (eligible step_fit conf request [] plan ≡ [])
    ⊎ (meets 500_000 (eligible step_fit conf request [] plan) ≡ false)
refused_unmeetable_example = refused_unmeetable step_fit conf request [] plan plan_refused
