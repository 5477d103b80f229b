-- ===== src/Policy/Examples.antt =====
-- A config of two tiers, with three endpoints.
use ctrl_gateway.Prelude.{ℕ, false, none, some, [], ◌∷◌, leb, if◌then◌else◌}
use ctrl_gateway.Policy.Inputs.{million, Pricing, Endpoint, Tier, Config, RequestContext}

abbrev pub step_fit : ℕ → ℕ → ℕ
step_fit capability floor = if leb floor capability then million else 0

abbrev pub priced : ℕ → Pricing
priced n = record { fixed_per_request = n; in_per_1k_tokens = 0; out_per_1k_tokens = 0 }

abbrev pub small : Endpoint
small = record { name = "small"; max_context = none; pricing = priced 10 }

abbrev pub medium : Endpoint
medium = record { name = "medium"; max_context = none; pricing = priced 20 }

abbrev pub large : Endpoint
large = record { name = "large"; max_context = some 4000; pricing = priced 90 }

abbrev pub tier1 : Tier
tier1 = record {
  name = "tier1";
  override_only = false;
  has_vision_endpoints = false;
  max_context = 4000;
  max_tokens_bump = 0;
  capability_per_vertical = ("_default", 600_000) ∷ [];
  endpoints = "small" ∷ "medium" ∷ [];
}

abbrev pub tier2 : Tier
tier2 = record tier1 { name = "tier2"; endpoints = "large" ∷ [] }

abbrev pub conf : Config
conf = record {
  tiers = tier1 ∷ tier2 ∷ [];
  endpoints = small ∷ medium ∷ large ∷ [];
  min_capability = [];
  fit_threshold = 900_000;
  retry_penalty_multiplier = 5_000_000;
  fallback_endpoint = "large";
  context_reserve_pct = 25;
  ood_flag_to_tier = "tier2";
  confidence_threshold = 550_000;
  top2_epsilon = 100_000;
  cost_margin_abstain_pct = 5;
  prefer_healthier = false;
  prefer_lower_load = false;
}

abbrev pub request : RequestContext
request = record {
  has_image = false;
  vertical = "code";
  vertical_top2 = 900_000 ∷ 50_000 ∷ [];
  is_ood = false;
  estimated_input_tokens = 1000;
  estimated_output_tokens = 500;
}
