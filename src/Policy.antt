-- ===== src/Policy.antt =====
-- The routing of a request: gateway/policy.py. `sigmoid` stands for the floating-point function
-- `1 / (1 + exp(-k * (capability - floor)))` of the capability and the floor.
pub mod Inputs
mod Sorting
mod Candidates
pub mod Qualified
mod Steps
mod CostFirst
pub mod Budget
mod Tests
mod Examples
use ctrl_gateway.Prelude.{
  ℕ, ◌+◌, ◌-◌, ◌*◌, String, Bool, true, false, not, ◌&&◌, ◌||◌, Option, none, some, List, [], ◌∷◌,
  ltb, leb, min, max, any, str_eq, if◌then◌else◌,
}
use ctrl_gateway.Prelude.Dict
use ctrl_gateway.Prelude.Dict.{Dict}
use ctrl_gateway.Policy.Inputs.{
  Endpoint, Tier, Config, RequestContext, find_tier, find_endpoint, endpoints_for_tier, is_open,
  exceeds_context, tokens_needed, expected_cost, capability_of, min_capability_of,
}

pub data Reason : Type 0 where
  no_fit : Reason
  ood : Reason
  low_confidence : Reason
  top2_close : Reason

pub data Source : Type 0 where
  arith : Source
  arith_escalated_margin : Source
  escalation : Reason → Source
  escalation_fallback : Reason → Source
  budget_aware : Source
  budget_aware_cascade : Source

pub record RoutingDecision : Type 0 where
  pub tier : String
  pub endpoint : String
  pub source : Source
  pub escalated : Bool
  pub cost_usd : ℕ
  pub fit : ℕ

-- A decision, or the error that is raised.
pub data Route : Type 0 where
  routed : RoutingDecision → Route
  no_tiers_configured : Route
  no_available_endpoints : Route

pub record Candidate : Type 0 where
  pub tier : String
  pub endpoint : String
  pub cost : ℕ
  pub fit : ℕ

-- A stable sort by ascending cost: `x` comes before what costs the same.
module _ {ℓ} {C : Type ℓ} (cost : C → ℕ) where
  pub insert_by : C → List C → List C
  insert_by x [] = x ∷ []
  insert_by x (y ∷ ys) = if ltb (cost y) (cost x) then y ∷ insert_by x ys else x ∷ y ∷ ys

  pub sort_by : List C → List C
  sort_by [] = []
  sort_by (x ∷ xs) = insert_by x (sort_by xs)

  -- `if best is None or c.cost < best.cost: best = c`
  pub cheaper : Option C → C → Option C
  cheaper none c = some c
  cheaper (some b) c = if ltb (cost c) (cost b) then some c else some b

-- `if not tier.get("override_only")`, the first such tier
pub first_ordinary : List Tier → Option Tier
first_ordinary [] = none
first_ordinary (t ∷ ts) = if t.override_only then first_ordinary ts else some t

pub safe_tier : Config → Option Tier
safe_tier conf = elim (find_tier conf.ood_flag_to_tier conf.tiers) [
  | some t ↦ some t
  | none ↦ first_ordinary conf.tiers
]

pub first_closed : Dict String → List Endpoint → Option Endpoint
first_closed states [] = none
first_closed states (e ∷ es) = if is_open states e.name then first_closed states es else some e

pub escalated_to : Tier → String → Source → Route
escalated_to t endpoint source = routed (record {
  tier = t.name;
  endpoint = endpoint;
  source = source;
  escalated = true;
  cost_usd = 0;
  fit = 0;
})

pub fall_back : Config → Tier → Reason → Option Endpoint → Option Endpoint → Route
fall_back conf t reason (some e) _ = escalated_to t e.name (escalation reason)
fall_back conf t reason none (some e) =
    escalated_to t conf.fallback_endpoint (escalation_fallback reason)
fall_back conf t reason none none = no_available_endpoints

-- `_escalate_to_safe_tier`
pub escalate_to_safe_tier : Config → Dict String → Reason → Route
escalate_to_safe_tier conf states reason = elim (safe_tier conf) [
  | none ↦ no_tiers_configured
  | some t ↦
      fall_back conf t reason (first_closed states (endpoints_for_tier conf t.name))
        (find_endpoint conf.fallback_endpoint conf.endpoints)
]

module _ (sigmoid : ℕ → ℕ → ℕ) (conf : Config) (ctx : RequestContext) (states : Dict String) where
  -- `fit_capability`
  pub fit_of : Tier → ℕ
  fit_of t = sigmoid (capability_of t ctx.vertical) (min_capability_of conf ctx.vertical)

  -- The `continue`s of the loop over the tiers.
  pub is_skipped : Tier → Bool
  is_skipped t =
      t.override_only
      || (t.has_vision_endpoints && not ctx.has_image)
      || exceeds_context conf t.max_context (tokens_needed ctx t)
      || not (any (λ e. not (is_open states e.name)) (endpoints_for_tier conf t.name))
      || ltb (fit_of t) conf.fit_threshold

  -- An endpoint of a tier that the inner loop considers.
  pub is_considered : Tier → Endpoint → Bool
  is_considered t e =
      not (is_open states e.name)
      && not (
          exceeds_context conf
            (min t.max_context (elim e.max_context [ some m ↦ m | none ↦ t.max_context ]))
            (tokens_needed ctx t))

  pub cost_of : Tier → Endpoint → ℕ
  cost_of t e = expected_cost conf ctx e.pricing (fit_of t)

  module _ {C : Type 0} (cost : C → ℕ) (candidate : Tier → Endpoint → C) where
    pub best_of : Tier → Option C → List Endpoint → Option C
    best_of t b [] = b
    best_of t b (e ∷ es) =
        best_of t (if is_considered t e then cheaper cost b (candidate t e) else b) es

    -- The loop over the tiers: the cheapest endpoint of each tier that is not skipped.
    pub candidates_of : List Tier → List C
    candidates_of [] = []
    candidates_of (t ∷ ts) =
        let rest = candidates_of ts in
        if is_skipped t then rest else elim (best_of t none (endpoints_for_tier conf t.name)) [
          | none ↦ rest
          | some c ↦ c ∷ rest
        ]

  abbrev pub candidate_of : Tier → Endpoint → Candidate
  candidate_of t e = record { tier = t.name; endpoint = e.name; cost = cost_of t e; fit = fit_of t }

  pub candidates : List Candidate
  candidates = candidates_of (λ c. c.cost) candidate_of conf.tiers

  abbrev pub load_of : Dict ℕ → String → ℕ
  load_of loads n = elim (Dict.lookup n loads) [ none ↦ 0 | some l ↦ l ]

  -- `cost_diff_pct` of the two cheapest is below `pct`; a nanodollar is the least divisor.
  abbrev pub margin_below : ℕ → Candidate → Candidate → Bool
  margin_below pct a b = ltb ((b.cost - a.cost) * 100) (pct * max a.cost 1000)

  -- The loop of the tie-break.
  pub lighter : Dict ℕ → Candidate → List Candidate → Candidate
  lighter loads a [] = a
  lighter loads a (b ∷ bs) =
      let rest = lighter loads a bs in
      if ltb (a.cost * 105) (b.cost * 100)
      then a
      else if not (is_open states b.endpoint)
          && conf.prefer_lower_load
          && ltb (load_of loads b.endpoint) (load_of loads a.endpoint)
      then b
      else rest

  pub tie_break : Dict ℕ → Candidate → List Candidate → Candidate
  tie_break loads a [] = a
  tie_break loads a (b ∷ bs) =
      if (conf.prefer_healthier || conf.prefer_lower_load) && margin_below 5 a b
      then lighter loads a (b ∷ bs)
      else a

  pub escalation_of : List ℕ → Option Reason
  escalation_of scores = if ctx.is_ood then some ood else elim scores [
    | [] ↦ none
    | p ∷ ps ↦ if ltb p conf.confidence_threshold then some low_confidence else elim ps [
      | [] ↦ none
      | q ∷ _ ↦ if ltb p (q + conf.top2_epsilon) then some top2_close else none
    ]
  ]

  pub decide : Candidate → Source → Bool → Route
  decide c source escalated = routed (record {
    tier = c.tier;
    endpoint = c.endpoint;
    source = source;
    escalated = escalated;
    cost_usd = c.cost;
    fit = c.fit;
  })

  -- The cost-margin abstention.
  pub abstain : Dict ℕ → Candidate → List Candidate → Route
  abstain loads a [] = decide a arith false
  abstain loads a (b ∷ bs) =
      if ltb a.cost b.cost && margin_below conf.cost_margin_abstain_pct a b
      then decide b arith_escalated_margin true
      else decide (tie_break loads a (b ∷ bs)) arith false

  pub choose : Dict ℕ → List Candidate → Route
  choose loads [] = escalate_to_safe_tier conf states no_fit
  choose loads (a ∷ bs) = elim (escalation_of ctx.vertical_top2) [
    | some reason ↦ escalate_to_safe_tier conf states reason
    | none ↦ abstain loads a bs
  ]

  -- `cost_first_route`
  pub cost_first_route : Dict ℕ → Route
  cost_first_route loads = choose loads (sort_by (λ c. c.cost) candidates)
