-- ===== src/Choice/Members.antt =====
-- What a lookup finds stands in the config, what it is to fit in a window, and the least window is no
-- larger than any other.
use ctrl_gateway.Prelude.{
  ℕ, ◌≡◌, ◌≤◌, ◌<◌, sym, ap, subst, ◌∙◌, inl, inr, String, true, false, some, List, [], ◌∷◌, arith,
  str_eq, eq_iff, All, Some, here, there, Bool-cases, Option-cases,
}
use ctrl_gateway.Prelude.Members.{IsIn, Some-map, Some-elim, Some-All, IsIn-Some}
use ctrl_gateway.Policy.Inputs.{
  Endpoint, Tier, Config, RequestContext, find_tier, find_endpoint, endpoints_for_tier, known,
  tokens_needed,
}
use ctrl_gateway.Choice.Decisions.{Decision}
use ctrl_gateway.Choice.Windows.{Window, window_capacity, fits, least_window, redirect, window_ltb}

pub find_tier-IsIn :
    (n : String) (ts : List Tier) (t : Tier) → find_tier n ts ≡ some t → IsIn t ts × (t.name ≡ n)
unfolding find_tier
find_tier-IsIn n [] t h = absurd (ground arith)
find_tier-IsIn n (u ∷ ts) t h = elim (Bool-cases (str_eq u.name n)) [
  | inl e ↦
      let same : u ≡ t = ground (arith, h, e) in
      (here same, ap (λ x. x.name) (sym same) ∙ (eq_iff u.name n).0 e)
  | inr e ↦
      let (found, named) = find_tier-IsIn n ts t (ground (arith, h, e)) in (there found, named)
]

pub find_endpoint-IsIn :
    (n : String) (es : List Endpoint) (e : Endpoint)
    → find_endpoint n es ≡ some e
    → IsIn e es × (e.name ≡ n)
unfolding find_endpoint
find_endpoint-IsIn n [] t h = absurd (ground arith)
find_endpoint-IsIn n (u ∷ ts) t h = elim (Bool-cases (str_eq u.name n)) [
  | inl e ↦
      let same : u ≡ t = ground (arith, h, e) in
      (here same, ap (λ x. x.name) (sym same) ∙ (eq_iff u.name n).0 e)
  | inr e ↦
      let (found, named) = find_endpoint-IsIn n ts t (ground (arith, h, e)) in (there found, named)
]

-- A tier and an endpoint of the config, named by the decision, in whose window the request fits.
abbrev pub FitsIn : Config → RequestContext → String → String → Type 0
FitsIn conf ctx tier endpoint =
    Some
      (λ t.
        (t.name ≡ tier)
        × Some (λ e. (e.name ≡ endpoint) × (fits conf ctx t e ≡ true)) conf.endpoints)
      conf.tiers

pub fits-FitsIn :
    (conf : Config) (ctx : RequestContext) (t : Tier) (e : Endpoint)
    → IsIn t conf.tiers
    → IsIn e conf.endpoints
    → fits conf ctx t e ≡ true
    → FitsIn conf ctx t.name e.name
fits-FitsIn conf ctx t e tin ein h =
    Some-map conf.tiers
      (λ u same. (
        ap (λ x. x.name) same,
        Some-map conf.endpoints
            (λ f same'. (
              ap (λ x. x.name) same',
              ap (λ v. fits conf ctx v f) same ∙ (ap (λ g. fits conf ctx t g) same' ∙ h),
            ))
            ein,
      ))
      tin

pub known-IsIn : (es : List Endpoint) (ns : List String) → All (λ e. IsIn e es) (known es ns)
unfolding known
known-IsIn es [] = tt
known-IsIn es (n ∷ ns) = elim (Option-cases (find_endpoint n es)) [
  | inl e ↦ rw (e, known) (known-IsIn es ns)
  | inr (f, e) ↦ rw (e, known) ((find_endpoint-IsIn n es f e).0, known-IsIn es ns)
]

-- The tier and the endpoint that a window names, whose size it has and in which the request fits.
abbrev pub IsSized : Config → RequestContext → Window → Type 0
IsSized conf ctx (u, tier, endpoint) =
    Some
      (λ t.
        (t.name ≡ tier)
        × Some
            (λ e.
              (e.name ≡ endpoint)
              × (u ≡ window_capacity conf t e)
              × (tokens_needed ctx t ≤ window_capacity conf t e))
            (endpoints_for_tier conf t.name))
      conf.tiers

pub endpoints_for_tier-IsIn :
    (conf : Config) (n : String) → All (λ e. IsIn e conf.endpoints) (endpoints_for_tier conf n)
unfolding endpoints_for_tier
endpoints_for_tier-IsIn conf n = elim (Option-cases (find_tier n conf.tiers)) [
  | inl e ↦ rw (e, endpoints_for_tier) tt
  | inr (t, e) ↦ rw (e, endpoints_for_tier) (known-IsIn conf.endpoints t.endpoints)
]

pub fits-enough :
    (conf : Config) (ctx : RequestContext) (t : Tier) (e : Endpoint)
    → fits conf ctx t e ≡ true
    → tokens_needed ctx t ≤ window_capacity conf t e
unfolding fits
fits-enough conf ctx t e h = ground (arith, h)

pub fits-scarce :
    (conf : Config) (ctx : RequestContext) (t : Tier) (e : Endpoint)
    → fits conf ctx t e ≡ false
    → window_capacity conf t e < tokens_needed ctx t
unfolding fits
fits-scarce conf ctx t e h = ground (arith, h)

enough-fits :
    (conf : Config) (ctx : RequestContext) (t : Tier) (e : Endpoint)
    → tokens_needed ctx t ≤ window_capacity conf t e
    → fits conf ctx t e ≡ true
unfolding fits
enough-fits conf ctx t e h = ground (arith, h)

pub IsSized-FitsIn :
    (conf : Config) (ctx : RequestContext) (u : ℕ) (tier endpoint : String)
    → IsSized conf ctx (u, tier, endpoint)
    → FitsIn conf ctx tier endpoint
IsSized-FitsIn conf ctx u tier endpoint s =
    Some-map conf.tiers
      (λ t (named, es). (
        named,
        Some-elim (endpoints_for_tier conf t.name) es (λ e i (named', sized, fit).
            Some-elim (endpoints_for_tier conf t.name)
              (Some-All (endpoints_for_tier conf t.name) (endpoints_for_tier-IsIn conf t.name) i)
              (λ f _ (ein, same).
                IsIn-Some e conf.endpoints (subst (λ x. IsIn x conf.endpoints) same ein)
                  (named', enough-fits conf ctx t e fit))),
      ))
      s

pub redirect_place :
    (d : Decision) (w : Window) → ((redirect d w).tier ≡ w.1) × ((redirect d w).endpoint ≡ w.2)
unfolding redirect
redirect_place d (u, t, e) = ground (arith, eq_iff t d.tier, eq_iff e d.endpoint)

pub least_window-All :
    (P : Window → Type 0) (w : Window) (ws : List Window) → P w → All P ws → P (least_window w ws)
unfolding least_window
least_window-All P w [] p ps = p
least_window-All P w (v ∷ ws) p ps = elim (Bool-cases (window_ltb v w)) [
  | inl h ↦ rw (h, least_window) (least_window-All P v ws ps.0 ps.1)
  | inr h ↦ rw (h, least_window) (least_window-All P w ws p ps.1)
]

pub least_window-le :
    (w : Window) (ws : List Window) (u : ℕ)
    → u ≡ (least_window w ws).0
    → (u ≤ w.0) × All (λ v. u ≤ v.0) ws
unfolding least_window window_ltb
least_window-le w [] u q = (omega (arith, q), tt)
least_window-le w (v ∷ ws) u q = elim (Bool-cases (window_ltb v w)) [
  | inl h ↦
      let (below, rest) = least_window-le v ws u (rw (h, least_window) at q) in
      (ground (arith, h, below), (below, rest))
  | inr h ↦
      let (below, rest) = least_window-le w ws u (rw (h, least_window) at q) in
      (below, (ground (arith, h, below), rest))
]
