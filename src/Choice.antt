-- ===== src/Choice.antt =====
-- How the chat handler of gateway/app.py chooses the endpoint of a request: a model that is named, a
-- pre-route or the router decides, and then the compaction of the memory, the access of the tenant,
-- the tier of the session, the context windows, a translation and the plan may change or refuse it.
-- A request that is decomposed by the swarm is left out. Every tier has a `max_context`.
pub mod Decisions
pub mod Memory
pub mod Windows
mod Members
mod Context
mod Access
mod Tests
use ctrl_gateway.Prelude.{
  ℕ, ◌+◌, ◌*◌, ◌/◌, ◌-◌, String, Bool, true, false, not, ◌&&◌, ◌||◌, Option, none, some, List, [],
  ◌∷◌, ◌++◌, map, ltb, leb, ◌==◌, min, max, any, str_eq, if◌then◌else◌,
}
use ctrl_gateway.Prelude.Dict.{Dict}
use ctrl_gateway.Policy.Inputs.{
  Endpoint, Tier, Config, RequestContext, find_tier, find_endpoint, endpoints_for_tier, is_open,
  tokens_needed,
}
use ctrl_gateway.Policy.Budget.{plan_allowed_endpoint}
use ctrl_gateway.Tenant.{TenantState, can_access_tier, highest_accessible_tier}
use ctrl_gateway.Choice.Decisions.{
  model_direct, pre_route, router, memory_compaction_redirect, tenant_access, wm_inherit, context,
  translation, Mark, Decision, Refusal, model_not_found, router_refused, tier_not_accessible,
  context_length_exceeded, invalid_routing_decision, model_not_allowed, Verdict, chosen, refused,
}
use ctrl_gateway.Choice.Memory.{MemoryContext, should_redirect_for_compaction}
use ctrl_gateway.Choice.Windows.{ensure_context_capacity}

-- `endpoints[0]["name"] if endpoints else ""`
abbrev pub name_of_first : List Endpoint → String
name_of_first [] = ""
name_of_first (e ∷ es) = e.name

unfoldable pub first_not_open : Dict String → List Endpoint → Option String
unfolding is_open
first_not_open states [] = none
first_not_open states (e ∷ es) =
    if is_open states e.name then first_not_open states es else some e.name

-- `_first_endpoint_for_tier`
unfoldable pub first_endpoint_for_tier : Config → String → Dict String → String
unfolding first_not_open endpoints_for_tier
first_endpoint_for_tier conf tier states =
    let es = endpoints_for_tier conf tier in
    elim (first_not_open states es) [ some n ↦ n | none ↦ name_of_first es ]

-- The endpoint that has the name, or else the first one that has it for an alias. `aliases` are the
-- pairs of an endpoint's alias and name.
unfoldable pub named_endpoint : Config → List (String × String) → String → Option String
unfolding find_endpoint
named_endpoint conf aliases requested = elim (find_endpoint requested conf.endpoints) [
  | some e ↦ some requested
  | none ↦ first_alias aliases
]
  where
    first_alias : List (String × String) → Option String
    first_alias [] = none
    first_alias ((alias, name) ∷ rest) =
        if str_eq alias requested then some name else first_alias rest

-- The first tier that lists the endpoint and that the tenant has access to.
unfoldable pub tier_for : TenantState → String → List Tier → Option String
unfolding can_access_tier
tier_for st name [] = none
tier_for st name (t ∷ ts) =
    if any (λ n. str_eq n name) t.endpoints && can_access_tier st t.name
    then some t.name
    else tier_for st name ts

-- `_direct_model_route`, for a request that names a model
unfoldable pub direct_model_route :
    TenantState → Config → List (String × String) → Dict String → String → Option Decision
unfolding named_endpoint tier_for is_open
direct_model_route st conf aliases states requested = elim (named_endpoint conf aliases requested) [
  | none ↦ none
  | some name ↦ if is_open states name then none else elim (tier_for st name conf.tiers) [
    | none ↦ none
    | some t ↦ some (record { tier = t; endpoint = name; source = model_direct ∷ [] })
  ]
]

-- The tier takes over, with its first endpoint.
unfoldable pub move_to : Config → Dict String → String → List Mark → Decision
unfolding first_endpoint_for_tier
move_to conf states tier source = record {
  tier = tier;
  endpoint = first_endpoint_for_tier conf tier states;
  source = source;
}

-- The tenant access check. An empty name is no tier.
unfoldable pub check_access : TenantState → Config → Dict String → Decision → Option Decision
unfolding can_access_tier highest_accessible_tier move_to
check_access st conf states d =
    if can_access_tier st d.tier
    then some d
    else elim (highest_accessible_tier st (map (λ t. t.name) conf.tiers)) [
      | none ↦ none
      | some t ↦
          if str_eq t ""
          then none
          else some (move_to conf states t (d.source ++ tenant_access ∷ []))
    ]

abbrev pub is_compaction : Mark → Bool
is_compaction memory_compaction_redirect = true
is_compaction model_direct = false
is_compaction pre_route = false
is_compaction router = false
is_compaction tenant_access = false
is_compaction wm_inherit = false
is_compaction context = false
is_compaction translation = false

-- The inheritance of the session's tier, which is `none` where the handler has none to inherit.
unfoldable pub inherit :
    TenantState → Config → Dict String → Bool → Option String → Decision → Decision
unfolding find_tier can_access_tier move_to
inherit st conf states pre_matched none d = d
inherit st conf states pre_matched (some t) d =
    if not pre_matched && not (any is_compaction d.source)
    then elim (find_tier t conf.tiers) [
      | none ↦ d
      | some found ↦
          if can_access_tier st t then move_to conf states t (d.source ++ wm_inherit ∷ []) else d
    ]
    else d

-- The dedicated tier of a translation, if the request is one and the config sends it there.
unfoldable pub translate : Config → Dict String → Option String → Decision → Decision
unfolding find_tier move_to
translate conf states none d = d
translate conf states (some t) d = elim (find_tier t conf.tiers) [
  | none ↦ d
  | some found ↦ move_to conf states t (d.source ++ translation ∷ [])
]

-- The tests right before the request is sent.
unfoldable pub check_dispatch : Config → List String → Decision → Verdict
unfolding find_tier find_endpoint plan_allowed_endpoint
check_dispatch conf allowed_models d = elim (find_endpoint d.endpoint conf.endpoints) [
  | none ↦ refused invalid_routing_decision
  | some e ↦ elim (find_tier d.tier conf.tiers) [
    | none ↦ refused invalid_routing_decision
    | some t ↦
        if plan_allowed_endpoint allowed_models d.endpoint
        then chosen d
        else refused model_not_allowed
  ]
]

-- What the handler knows of a request. `routed` is the tier and the endpoint that the router returns,
-- `none` where it refuses; `dedicated` is the tier of a translation.
pub record Ask : Type 0 where
  pub requested : Option String
  pub pre_routed : Option String
  pub routed : Option (String × String)
  pub memory : MemoryContext
  pub inherited : Option String
  pub dedicated : Option String
  pub allowed_models : List String

unfoldable pub compact : Config → Dict String → Option String → Decision → Decision
unfolding move_to
compact conf states none d = d
compact conf states (some t) d =
    if str_eq t "" then d else move_to conf states t (memory_compaction_redirect ∷ [])

-- The decision that the rest starts from. `requested` is a text other than "" and "gateway".
unfoldable pub start_decision :
    TenantState → Config → List (String × String) → Dict String → Ask → Verdict
unfolding direct_model_route move_to compact should_redirect_for_compaction
start_decision st conf aliases states a = elim a.requested [
  | some requested ↦ elim (direct_model_route st conf aliases states requested) [
    | none ↦ refused model_not_found
    | some d ↦ chosen d
  ]
  | none ↦ elim a.pre_routed [
    | some t ↦ chosen (move_to conf states t (pre_route ∷ []))
    | none ↦ elim a.routed [
      | none ↦ refused router_refused
      | some r ↦ chosen (
          compact conf states (should_redirect_for_compaction a.memory conf.tiers r.0)
            (record { tier = r.0; endpoint = r.1; source = router ∷ [] }))
    ]
  ]
]

abbrev pub is_given : Option String → Bool
is_given none = false
is_given (some s) = true

-- The steps after the first decision.
unfoldable pub adjust :
    TenantState → Config → RequestContext → Dict String → Ask → Decision → Verdict
unfolding check_access inherit ensure_context_capacity translate check_dispatch
adjust st conf ctx states a d = elim (check_access st conf states d) [
  | none ↦ refused tier_not_accessible
  | some d1 ↦
      elim (ensure_context_capacity st conf ctx states
        (inherit st conf states (is_given a.pre_routed) a.inherited d1)) [
          | none ↦ refused context_length_exceeded
          | some d2 ↦ check_dispatch conf a.allowed_models (translate conf states a.dedicated d2)
        ]
]

-- The choice of `chat_completions`
unfoldable pub choose_endpoint :
    TenantState → Config → RequestContext → List (String × String) → Dict String → Ask → Verdict
unfolding start_decision adjust
choose_endpoint st conf ctx aliases states a = elim (start_decision st conf aliases states a) [
  | refused r ↦ refused r
  | chosen d ↦ adjust st conf ctx states a d
]
