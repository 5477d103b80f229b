-- ===== src/Policy/Inputs.antt =====
-- What routing reads: the tiers, endpoints and thresholds of a config snapshot (gateway/config.py), a
-- request's context, and the costs of gateway/policy.py. Prices are nanodollars, costs picodollars,
-- probabilities, capabilities and fits millionths, percentages whole.
use ctrl_gateway.Prelude.{
  ℕ, ◌+◌, ◌-◌, ◌*◌, String, Bool, false, Option, none, some, List, [], ◌∷◌, ltb, leb, max, str_eq,
  if◌then◌else◌,
}
use ctrl_gateway.Prelude.Dict
use ctrl_gateway.Prelude.Dict.{Dict}

abbrev pub million : ℕ
million = 1_000_000

pub record Pricing : Type 0 where
  pub fixed_per_request : ℕ
  pub in_per_1k_tokens : ℕ
  pub out_per_1k_tokens : ℕ

pub record Endpoint : Type 0 where
  pub name : String
  pub max_context : Option ℕ
  pub pricing : Pricing

pub record Tier : Type 0 where
  pub name : String
  pub override_only : Bool
  pub has_vision_endpoints : Bool
  pub max_context : ℕ
  pub max_tokens_bump : ℕ
  pub capability_per_vertical : Dict ℕ
  pub endpoints : List String

pub record Config : Type 0 where
  pub tiers : List Tier
  pub endpoints : List Endpoint
  pub min_capability : Dict ℕ
  pub fit_threshold : ℕ
  pub retry_penalty_multiplier : ℕ
  pub fallback_endpoint : String
  pub context_reserve_pct : ℕ
  pub ood_flag_to_tier : String
  pub confidence_threshold : ℕ
  pub top2_epsilon : ℕ
  pub cost_margin_abstain_pct : ℕ
  pub prefer_healthier : Bool
  pub prefer_lower_load : Bool

-- The scores of `vertical_top2` without their names.
pub record RequestContext : Type 0 where
  pub has_image : Bool
  pub vertical : String
  pub vertical_top2 : List ℕ
  pub is_ood : Bool
  pub estimated_input_tokens : ℕ
  pub estimated_output_tokens : ℕ

unfoldable pub find_tier : String → List Tier → Option Tier
find_tier n [] = none
find_tier n (t ∷ ts) = if str_eq t.name n then some t else find_tier n ts

unfoldable pub find_endpoint : String → List Endpoint → Option Endpoint
find_endpoint n [] = none
find_endpoint n (e ∷ es) = if str_eq e.name n then some e else find_endpoint n es

unfoldable pub known : List Endpoint → List String → List Endpoint
known es [] = []
known es (n ∷ ns) = elim (find_endpoint n es) [ none ↦ known es ns | some e ↦ e ∷ known es ns ]

-- `endpoints_for_tier`
unfoldable pub endpoints_for_tier : Config → String → List Endpoint
endpoints_for_tier conf n = elim (find_tier n conf.tiers) [
  | none ↦ []
  | some t ↦ known conf.endpoints t.endpoints
]

-- `breaker_states.get(ep["name"]) == "OPEN"`
unfoldable pub is_open : Dict String → String → Bool
is_open states n = elim (Dict.lookup n states) [ none ↦ false | some s ↦ str_eq s "OPEN" ]

-- `tokens > int(context * max(0.0, 1.0 - reserve_pct / 100.0))`, without the division
unfoldable pub exceeds_context : Config → ℕ → ℕ → Bool
exceeds_context conf context tokens =
    ltb (context * (100 - conf.context_reserve_pct)) (tokens * 100)

unfoldable pub tokens_needed : RequestContext → Tier → ℕ
tokens_needed ctx t = ctx.estimated_input_tokens + max ctx.estimated_output_tokens t.max_tokens_bump

-- `expected_cost`
unfoldable pub expected_cost : Config → RequestContext → Pricing → ℕ → ℕ
expected_cost conf ctx p fit =
    let base =
      p.fixed_per_request * 1000
      + ctx.estimated_input_tokens * p.in_per_1k_tokens
      + ctx.estimated_output_tokens * p.out_per_1k_tokens in
    base + (if leb 950_000 fit then 0 else conf.retry_penalty_multiplier * (million - fit))

unfoldable pub capability_of : Tier → String → ℕ
capability_of t vertical = elim (Dict.lookup vertical t.capability_per_vertical) [
  | some c ↦ c
  | none ↦ elim (Dict.lookup "_default" t.capability_per_vertical) [ some c ↦ c | none ↦ 500_000 ]
]

unfoldable pub min_capability_of : Config → String → ℕ
min_capability_of conf vertical = elim (Dict.lookup vertical conf.min_capability) [
  | some c ↦ c
  | none ↦ 500_000
]
