-- ===== src/Policy/Tests.antt =====
-- Routes of the example config, and the theorems at inputs where their hypotheses hold.
use ctrl_gateway.Prelude.{◌≡◌, inl, arith as by_omega, refl, true, false, [], ◌∷◌, here, there}
use ctrl_gateway.Prelude.Dict
use ctrl_gateway.Policy.Inputs.{
  find_tier, find_endpoint, known, endpoints_for_tier, is_open, exceeds_context, tokens_needed,
  expected_cost, capability_of, min_capability_of,
}
use ctrl_gateway.Policy.{
  ood, arith, escalation_fallback, RoutingDecision, routed, insert_by, sort_by, cheaper,
  first_ordinary, safe_tier, first_closed, escalated_to, fall_back, escalate_to_safe_tier, fit_of,
  is_skipped, is_considered, cost_of, best_of, candidates_of, candidates, lighter, tie_break,
  escalation_of, decide, abstain, choose, cost_first_route,
}
use ctrl_gateway.Policy.CostFirst.{IsOffer, cheapest}
use ctrl_gateway.Policy.Qualified.{IsQualified}
use ctrl_gateway.Policy.Steps.{NearlyAs}
use ctrl_gateway.Policy.Examples.{step_fit, large, tier2, conf, request}

program : Unit {0}
unfolding find_tier find_endpoint known endpoints_for_tier is_open exceeds_context tokens_needed
    expected_cost capability_of min_capability_of insert_by sort_by cheaper first_ordinary safe_tier
    first_closed escalated_to fall_back escalate_to_safe_tier fit_of is_skipped is_considered
    cost_of best_of candidates_of candidates lighter tie_break escalation_of decide abstain choose
    cost_first_route Dict.lookup
program = tt

abbrev to_small : RoutingDecision
to_small = record {
  tier = "tier1";
  endpoint = "small";
  source = arith;
  escalated = false;
  cost_usd = 10_000;
  fit = 1_000_000;
}

routed_small : cost_first_route step_fit conf request [] [] ≡ routed to_small
unfolding program
routed_small = refl

-- With the breaker of the cheapest endpoint open, the next one is taken.
routed_medium :
    cost_first_route step_fit conf request (("small", "OPEN") ∷ []) []
    ≡ routed (record to_small { endpoint = "medium"; cost_usd = 20_000 })
unfolding program
routed_medium = refl

-- The fallback endpoint is taken though its breaker is open.
fallback_is_open :
    escalate_to_safe_tier conf (("large", "OPEN") ∷ []) ood
    ≡ routed (record {
      tier = "tier2";
      endpoint = "large";
      source = escalation_fallback ood;
      escalated = true;
      cost_usd = 0;
      fit = 0;
    })
unfolding program
fallback_is_open = refl

large-IsQualified : IsQualified step_fit conf request [] tier2 large
unfolding program
large-IsQualified = record {
  in_config = there (here refl);
  in_tier = here refl;
  ordinary = refl;
  sees = inl refl;
  closed = refl;
  fits_in = omega by_omega;
  capable = omega by_omega;
}

cheapest_example :
    IsOffer step_fit conf request [] to_small
    × NearlyAs step_fit conf request [] 10_000 (cost_of step_fit conf request [] tier2 large)
cheapest_example =
    cheapest step_fit conf request [] [] to_small tier2 large routed_small refl large-IsQualified
