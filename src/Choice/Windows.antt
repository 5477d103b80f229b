-- ===== src/Choice/Windows.antt =====
-- The context windows: `_ensure_context_capacity` of gateway/app.py.
use Prim.Native.String.{compare}
use Prim.Native.Nat.{lt, eq, gt}
use ctrl_gateway.Prelude.{
  ℕ, ◌*◌, ◌/◌, ◌-◌, String, Bool, true, false, not, ◌&&◌, ◌||◌, Option, none, some, List, [], ◌∷◌,
  ◌++◌, ltb, leb, ◌==◌, min, str_eq, if◌then◌else◌,
}
use ctrl_gateway.Prelude.Dict.{Dict}
use ctrl_gateway.Policy.Inputs.{
  Endpoint, Tier, Config, RequestContext, find_tier, find_endpoint, endpoints_for_tier, is_open,
  tokens_needed,
}
use ctrl_gateway.Tenant.{TenantState, can_access_tier}
use ctrl_gateway.Choice.Decisions.{context, Decision}

-- `capacity`
unfoldable pub window_capacity : Config → Tier → Endpoint → ℕ
window_capacity conf t e =
    let configured : ℕ = elim e.max_context [
      | none ↦ t.max_context
      | some c ↦ min t.max_context c
    ] in
    configured * (100 - conf.context_reserve_pct) / 100

abbrev pub Window : Type 0
Window = ℕ × String × String

-- `required <= usable`
unfoldable pub fits : Config → RequestContext → Tier → Endpoint → Bool
unfolding window_capacity tokens_needed
fits conf ctx t e = leb (tokens_needed ctx t) (window_capacity conf t e)

-- The endpoints of a tier that are not open and whose window is large enough.
unfoldable pub windows_of :
    Config → RequestContext → Dict String → Tier → List Endpoint → List Window
unfolding fits window_capacity is_open
windows_of conf ctx states t [] = []
windows_of conf ctx states t (e ∷ es) =
    if not (is_open states e.name) && fits conf ctx t e
    then (window_capacity conf t e, t.name, e.name) ∷ windows_of conf ctx states t es
    else windows_of conf ctx states t es

-- `candidates` of `_ensure_context_capacity`
unfoldable pub windows :
    TenantState → Config → RequestContext → Dict String → ℕ → List Tier → List Window
unfolding windows_of can_access_tier endpoints_for_tier
windows st conf ctx states current_max [] = []
windows st conf ctx states current_max (t ∷ ts) =
    if t.override_only || (ltb t.max_context current_max || not (can_access_tier st t.name))
    then windows st conf ctx states current_max ts
    else windows_of conf ctx states t (endpoints_for_tier conf t.name)
      ++ windows st conf ctx states current_max ts

unfoldable pub str_ltb : String → String → Bool
str_ltb a b = elim (compare a b) [ lt ↦ true | eq ↦ false | gt ↦ false ]

-- `a < b` on tuples
unfoldable pub window_ltb : Window → Window → Bool
unfolding str_ltb
window_ltb (u, t, e) (v, t', e') =
    ltb u v || ((u == v) && (str_ltb t t' || (str_eq t t' && str_ltb e e')))

-- `min(candidates)`, the first of those that are least
unfoldable pub least_window : Window → List Window → Window
unfolding window_ltb
least_window w [] = w
least_window w (v ∷ vs) = if window_ltb v w then least_window v vs else least_window w vs

abbrev pub smallest : List Window → Option Window
smallest [] = none
smallest (w ∷ ws) = some (least_window w ws)

-- The redirect to a window; the decision stays if it is the one that it has.
unfoldable pub redirect : Decision → Window → Decision
redirect d (usable, t, e) =
    if str_eq t d.tier && str_eq e d.endpoint
    then d
    else record { tier = t; endpoint = e; source = d.source ++ context ∷ [] }

unfoldable pub redirect_to : Decision → Option Window → Option Decision
unfolding redirect
redirect_to d none = none
redirect_to d (some w) = some (redirect d w)

unfoldable pub current_max : Config → Decision → ℕ
unfolding find_tier
current_max conf d = elim (find_tier d.tier conf.tiers) [ none ↦ 0 | some t ↦ t.max_context ]

-- What `_ensure_context_capacity` does if the decision's endpoint is too small or not there.
unfoldable pub search_windows :
    TenantState → Config → RequestContext → Dict String → Decision → Option Decision
unfolding windows least_window redirect_to current_max
search_windows st conf ctx states d =
    redirect_to d (smallest (windows st conf ctx states (current_max conf d) conf.tiers))

-- `_ensure_context_capacity`
unfoldable pub ensure_context_capacity :
    TenantState → Config → RequestContext → Dict String → Decision → Option Decision
unfolding search_windows fits find_tier find_endpoint
ensure_context_capacity st conf ctx states d = elim (find_tier d.tier conf.tiers) [
  | none ↦ search_windows st conf ctx states d
  | some t ↦ elim (find_endpoint d.endpoint conf.endpoints) [
    | none ↦ search_windows st conf ctx states d
    | some e ↦ if fits conf ctx t e then some d else search_windows st conf ctx states d
  ]
]
