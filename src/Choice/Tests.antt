-- ===== src/Choice/Tests.antt =====
-- Choices on concrete configs, and the theorems at inputs where their hypotheses hold.
use ctrl_gateway.Prelude.{◌≡◌, refl, false, true, none, some, [], ◌∷◌, All}
use ctrl_gateway.Prelude.Int.{pos}
use ctrl_gateway.Prelude.Dict
use ctrl_gateway.Policy.Inputs.{
  Pricing, Config, RequestContext, find_tier, find_endpoint, endpoints_for_tier, known, is_open,
  tokens_needed,
}
use ctrl_gateway.Policy.Budget.{plan_allowed_endpoint}
use ctrl_gateway.Tenant.{TenantState, can_access_tier, highest_accessible_tier}
use ctrl_gateway.Choice.Decisions.{
  router, translation, context, Decision, chosen, refused, context_length_exceeded,
}
use ctrl_gateway.Choice.Windows.{
  window_capacity, fits, windows_of, windows, str_ltb, window_ltb, least_window, redirect,
  redirect_to, current_max, search_windows, ensure_context_capacity,
}
use ctrl_gateway.Choice.{
  Ask, first_not_open, first_endpoint_for_tier, named_endpoint, tier_for, direct_model_route,
  move_to, check_access, inherit, translate, check_dispatch, compact, start_decision, adjust,
  choose_endpoint,
}
use ctrl_gateway.Choice.Memory.{
  compaction_required, tiers_after, first_large, should_redirect_for_compaction,
}
use ctrl_gateway.Tenant.Bucket.{new_bucket}
use ctrl_gateway.Choice.Context.{IsTooSmall, IsFull, exceeded_everywhere}
use ctrl_gateway.Choice.Access.{IsPermitted, choose_endpoint-IsPermitted}

program : Unit {0}
unfolding Dict.lookup should_redirect_for_compaction compaction_required tiers_after first_large
    find_tier find_endpoint endpoints_for_tier known is_open tokens_needed plan_allowed_endpoint
    can_access_tier highest_accessible_tier first_not_open first_endpoint_for_tier named_endpoint
    tier_for direct_model_route move_to check_access inherit window_capacity fits windows_of windows
    str_ltb window_ltb least_window redirect redirect_to current_max search_windows
    ensure_context_capacity translate check_dispatch compact start_decision adjust choose_endpoint
program = tt

-- A small and a large tier, and one for translations.
abbrev conf : Config
conf = record {
  tiers =
      record {
        name = "t0";
        override_only = false;
        has_vision_endpoints = false;
        max_context = 1000;
        max_tokens_bump = 0;
        capability_per_vertical = [];
        endpoints = "a" ∷ [];
      }
      ∷ record {
        name = "t1";
        override_only = false;
        has_vision_endpoints = false;
        max_context = 8000;
        max_tokens_bump = 0;
        capability_per_vertical = [];
        endpoints = "b" ∷ [];
      }
      ∷ record {
        name = "tr";
        override_only = true;
        has_vision_endpoints = false;
        max_context = 500;
        max_tokens_bump = 0;
        capability_per_vertical = [];
        endpoints = "c" ∷ [];
      }
      ∷ [];
  endpoints =
      record { name = "a"; max_context = none; pricing = free }
      ∷ record { name = "b"; max_context = some 6000; pricing = free }
      ∷ record { name = "c"; max_context = none; pricing = free }
      ∷ [];
  min_capability = [];
  fit_threshold = 800_000;
  retry_penalty_multiplier = 5;
  fallback_endpoint = "a";
  context_reserve_pct = 25;
  ood_flag_to_tier = "t1";
  confidence_threshold = 500_000;
  top2_epsilon = 50_000;
  cost_margin_abstain_pct = 10;
  prefer_healthier = false;
  prefer_lower_load = false;
}
  where
    free : Pricing
    free = record { fixed_per_request = 0; in_per_1k_tokens = 0; out_per_1k_tokens = 0 }

abbrev acme : TenantState
acme = record {
  tenant_id = "acme";
  tier_access = "t0" ∷ "t1" ∷ [];
  budget_usd_per_day = pos 100;
  rps_limit = 10;
  concurrent_limit = 5;
  tokens_per_min = pos 1000;
  daily_token_limit = pos 0;
  target_success_probability = 990_000;
  plan_id = none;
  bucket = new_bucket 10 10 0;
}

abbrev long_request : RequestContext
long_request = record {
  has_image = false;
  vertical = "general";
  vertical_top2 = [];
  is_ood = false;
  estimated_input_tokens = 900;
  estimated_output_tokens = 256;
}

abbrev huge_request : RequestContext
huge_request = record long_request { estimated_input_tokens = 90_000 }

abbrev plain : Ask
plain = record {
  requested = none;
  pre_routed = none;
  routed = some ("t0", "a");
  memory = record { total_tokens_estimate = 500; threshold_pct = 75; threshold = 0 };
  inherited = none;
  dedicated = none;
  allowed_models = "b" ∷ "c" ∷ [];
}

-- The request does not fit in the small tier.
context_redirects :
    choose_endpoint acme conf long_request [] [] plain
    ≡ chosen (record { tier = "t1"; endpoint = "b"; source = router ∷ context ∷ [] })
unfolding program
context_redirects = refl

too_long : choose_endpoint acme conf huge_request [] [] plain ≡ refused context_length_exceeded
unfolding program
too_long = refl

-- A translation goes to a tier that the tenant has no access to, and that is too small.
translation_escapes :
    choose_endpoint acme conf long_request [] [] (record plain { dedicated = some "tr" })
    ≡ chosen (record { tier = "tr"; endpoint = "c"; source = router ∷ context ∷ translation ∷ [] })
unfolding program
translation_escapes = refl

choose_endpoint-IsPermitted_example :
    IsPermitted acme conf long_request [] none
      (record { tier = "t1"; endpoint = "b"; source = router ∷ context ∷ [] })
    × (plan_allowed_endpoint ("b" ∷ "c" ∷ []) "b" ≡ true)
choose_endpoint-IsPermitted_example =
    choose_endpoint-IsPermitted acme conf long_request [] [] plain
      (record { tier = "t1"; endpoint = "b"; source = router ∷ context ∷ [] }) context_redirects

abbrev at_t0 : Decision
at_t0 = record { tier = "t0"; endpoint = "a"; source = router ∷ [] }

abbrev at_t1 : Decision
at_t1 = record { tier = "t1"; endpoint = "b"; source = router ∷ context ∷ [] }

gives_up : ensure_context_capacity acme conf huge_request [] at_t0 ≡ none
unfolding program
gives_up = refl

exceeded_everywhere_example :
    IsTooSmall acme conf huge_request [] at_t0
    × All (IsFull acme conf huge_request [] (current_max conf at_t0)) conf.tiers
exceeded_everywhere_example = exceeded_everywhere acme conf huge_request [] at_t0 gives_up
