-- ===== src/Choice/Access.antt =====
-- What holds of the endpoint that a request is sent to.
use ctrl_gateway.Prelude.{
  ◌≡◌, refl, sym, subst, ◌⊎◌, inl, inr, String, Bool, true, not, ◌&&◌, Option, none, some, List, [],
  ◌∷◌, ◌++◌, map, arith, any, str_eq, Bool-cases, Option-cases,
}
use ctrl_gateway.Prelude.Dict.{Dict}
use ctrl_gateway.Policy.Inputs.{Config, RequestContext, find_tier}
use ctrl_gateway.Policy.Budget.{plan_allowed_endpoint}
use ctrl_gateway.Tenant.{TenantState, can_access_tier, highest_accessible_tier}
use ctrl_gateway.Choice.Decisions.{
  Decision, Refusal, tier_not_accessible, context_length_exceeded, Verdict, chosen, refused,
  tenant_access,
}
use ctrl_gateway.Choice.Windows.{ensure_context_capacity}
use ctrl_gateway.Choice.{
  Ask, is_compaction, move_to, check_access, inherit, translate, check_dispatch, start_decision,
  adjust, choose_endpoint, is_given,
}
use ctrl_gateway.Choice.Members.{FitsIn, IsSized-FitsIn}
use ctrl_gateway.Choice.Context.{ensure_cases}

highest_accessible_tier-lem :
    (st : TenantState) (ts : List String) (t : String)
    → highest_accessible_tier st ts ≡ some t
    → can_access_tier st t ≡ true
unfolding highest_accessible_tier
highest_accessible_tier-lem st [] t h = absurd (ground arith)
highest_accessible_tier-lem st (u ∷ ts) t h = elim (Bool-cases (can_access_tier st u)) [
  | inl y ↦
      let same : some u ≡ some t = rw (y, highest_accessible_tier) at h in
      subst (λ x. can_access_tier st x ≡ true) (ground (arith, same)) y
  | inr n ↦ highest_accessible_tier-lem st ts t (rw (n, highest_accessible_tier) at h)
]

module _ (st : TenantState) (conf : Config) (ctx : RequestContext) (states : Dict String) where
  -- The tenant has access to the tier of the decision.
  abbrev MayUse : Decision → Type 0
  MayUse d = can_access_tier st d.tier ≡ true

  check_access-MayUse : (d d' : Decision) → check_access st conf states d ≡ some d' → MayUse d'
  unfolding check_access move_to
  check_access-MayUse d d' h = elim (Bool-cases (can_access_tier st d.tier)) [
    | inl y ↦
        let same : some d ≡ some d' = rw (y, check_access) at h in
        let same' : d ≡ d' = ground (arith, same) in subst MayUse same' y
    | inr n ↦
        let names = map (λ t. t.name) conf.tiers in
        elim (Option-cases (highest_accessible_tier st names)) [
          | inl e ↦
              let gone : none ≡ some d' = rw (n, e, check_access) at h in
              absurd (ground (arith, gone))
          | inr (t, e) ↦
              let may : can_access_tier st t ≡ true = highest_accessible_tier-lem st names t e in
              elim (Bool-cases (str_eq t "")) [
                | inl y ↦
                    let gone : none ≡ some d' = rw (n, e, y, check_access) at h in
                    absurd (ground (arith, gone))
                | inr n' ↦
                    let moved = move_to conf states t (d.source ++ tenant_access ∷ []) in
                    let same : some moved ≡ some d' = rw (n, e, n', check_access) at h in
                    let same' : moved ≡ d' = ground (arith, same) in subst MayUse same' may
              ]
        ]
  ]

  inherit-MayUse :
      (pre_matched : Bool) (tier : Option String) (d : Decision)
      → MayUse d
      → MayUse (inherit st conf states pre_matched tier d)
  unfolding inherit move_to
  inherit-MayUse pre_matched none d h = h
  inherit-MayUse pre_matched (some t) d h =
      elim (Bool-cases (not pre_matched && not (any is_compaction d.source))) [
        | inr n ↦ rw (n, inherit) h
        | inl y ↦ elim (Option-cases (find_tier t conf.tiers)) [
          | inl e ↦ rw (y, e, inherit) h
          | inr (found, e) ↦ elim (Bool-cases (can_access_tier st t)) [
            | inl may ↦ rw (y, e, may, inherit) may
            | inr no_access ↦ rw (y, e, no_access, inherit) h
          ]
        ]
      ]

  -- The request may be sent where the decision says: to a tier of the tenant, in a window in which
  -- it fits, or to the tier that the config dedicates to translations.
  abbrev pub IsPermitted : Option String → Decision → Type 0
  IsPermitted dedicated d =
      ((can_access_tier st d.tier ≡ true) × FitsIn conf ctx d.tier d.endpoint)
      ⊎ (dedicated ≡ some d.tier)

  ensure-IsPermitted :
      (d d' : Decision) (dedicated : Option String)
      → MayUse d
      → ensure_context_capacity st conf ctx states d ≡ some d'
      → IsPermitted dedicated d'
  ensure-IsPermitted d d' dedicated may h = elim (ensure_cases st conf ctx states d d' h) [
    | inl (same, fit) ↦ inl (
        subst (λ x. (can_access_tier st x.tier ≡ true) × FitsIn conf ctx x.tier x.endpoint)
          (sym same) (may, fit))
    | inr (small, ((u, v, x), t, e, (may', closed, sized), smallest_)) ↦
        inl (rw t may', rw (t, e) (IsSized-FitsIn conf ctx u v x sized))
  ]

  translate-IsPermitted :
      (dedicated : Option String) (d : Decision)
      → IsPermitted dedicated d
      → IsPermitted dedicated (translate conf states dedicated d)
  unfolding translate move_to
  translate-IsPermitted none d h = h
  translate-IsPermitted (some t) d h = elim (Option-cases (find_tier t conf.tiers)) [
    | inl e ↦ rw (e, translate) h
    | inr (found, e) ↦ rw (e, translate) (inr refl)
  ]

  check_dispatch-lem :
      (allowed : List String) (d d' : Decision)
      → check_dispatch conf allowed d ≡ chosen d'
      → (d ≡ d') × (plan_allowed_endpoint allowed d'.endpoint ≡ true)
  unfolding check_dispatch
  check_dispatch-lem allowed d d' h = ground arith

  adjust-IsPermitted :
      (a : Ask) (d d' : Decision)
      → adjust st conf ctx states a d ≡ chosen d'
      → IsPermitted a.dedicated d' × (plan_allowed_endpoint a.allowed_models d'.endpoint ≡ true)
  unfolding adjust
  adjust-IsPermitted a d d' h = elim (Option-cases (check_access st conf states d)) [
    | inl e ↦
        let gone : refused tier_not_accessible ≡ chosen d' = rw (e, adjust) at h in
        absurd (ground (arith, gone))
    | inr (d1, e) ↦
        let d2 = inherit st conf states (is_given a.pre_routed) a.inherited d1 in
        elim (Option-cases (ensure_context_capacity st conf ctx states d2)) [
          | inl e' ↦
              let gone : refused context_length_exceeded ≡ chosen d' = rw (e, e', adjust) at h in
              absurd (ground (arith, gone))
          | inr (d3, e') ↦
              let sent : check_dispatch conf a.allowed_models (translate conf states a.dedicated d3)
                  ≡ chosen d' =
                rw (e, e', adjust) at h in
              let (same, allowed) = check_dispatch-lem a.allowed_models _ d' sent in
              let may =
                inherit-MayUse (is_given a.pre_routed) a.inherited d1
                  (check_access-MayUse d d1 e) in
              (
                subst (IsPermitted a.dedicated) same (
                    translate-IsPermitted a.dedicated d3
                      (ensure-IsPermitted d2 d3 a.dedicated may e')),
                allowed,
              )
        ]
  ]

Verdict-cases :
    (c : Verdict) → ((r : Refusal) × (c ≡ refused r)) ⊎ ((d : Decision) × (c ≡ chosen d))
Verdict-cases (refused r) = inl (r, refl)
Verdict-cases (chosen d) = inr (d, refl)

-- An endpoint that the handler chooses is one that the plan of the tenant allows; and the tenant has
-- access to its tier, and the request fits in its context window, unless the tier is the one that the
-- config dedicates to translations and the request is one.
pub choose_endpoint-IsPermitted :
    (st : TenantState) (conf : Config) (ctx : RequestContext) (aliases : List (String × String))
    (states : Dict String) (a : Ask) (d : Decision)
    → choose_endpoint st conf ctx aliases states a ≡ chosen d
    → IsPermitted st conf ctx states a.dedicated d
      × (plan_allowed_endpoint a.allowed_models d.endpoint ≡ true)
unfolding choose_endpoint
choose_endpoint-IsPermitted st conf ctx aliases states a d h =
    elim (Verdict-cases (start_decision st conf aliases states a)) [
      | inl (r, e) ↦
          let gone : refused r ≡ chosen d = rw (e, choose_endpoint) at h in
          absurd (ground (arith, gone))
      | inr (d0, e) ↦ adjust-IsPermitted st conf ctx states a d0 d (rw (e, choose_endpoint) at h)
    ]
