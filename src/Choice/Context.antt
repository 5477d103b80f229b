-- ===== src/Choice/Context.antt =====
-- The search for a context window that is large enough.
use ctrl_gateway.Prelude.{
  ℕ, ◌≡◌, ◌≤◌, ◌<◌, refl, sym, ap, ◌∙◌, ◌⊎◌, inl, inr, String, true, false, not, ◌&&◌, ◌||◌, none,
  some, List, [], ◌∷◌, ◌++◌, arith, ltb, All, All-append, Bool-cases, Option-cases,
}
use ctrl_gateway.Prelude.Dict.{Dict}
use ctrl_gateway.Policy.Inputs.{
  Endpoint, Tier, Config, RequestContext, find_tier, find_endpoint, endpoints_for_tier, is_open,
  tokens_needed,
}
use ctrl_gateway.Tenant.{TenantState, can_access_tier}
use ctrl_gateway.Choice.Decisions.{Decision}
use ctrl_gateway.Choice.Windows.{
  Window, fits, windows_of, windows, least_window, smallest, redirect, search_windows, redirect_to,
  current_max, window_capacity, ensure_context_capacity,
}
use ctrl_gateway.Prelude.Members.{IsIn, IsIn-Some, All-map, All-IsIn}
use ctrl_gateway.Choice.Members.{
  IsSized, fits-enough, fits-scarce, find_tier-IsIn, find_endpoint-IsIn, FitsIn, fits-FitsIn,
  redirect_place, least_window-All, least_window-le,
}

module _ (st : TenantState) (conf : Config) (ctx : RequestContext) (states : Dict String) where
  -- The tenant may use the tier, the endpoint is not open, and the window is the one of that tier and
  -- that endpoint, which it lists, and the request fits in it.
  abbrev pub IsUsable : Window → Type 0
  IsUsable (u, t, e) =
      (can_access_tier st t ≡ true) × (is_open states e ≡ false) × IsSized conf ctx (u, t, e)

  windows_of-IsUsable :
      (t : Tier) (es : List Endpoint)
      → can_access_tier st t.name ≡ true
      → IsIn t conf.tiers
      → All (λ e. IsIn e (endpoints_for_tier conf t.name)) es
      → All IsUsable (windows_of conf ctx states t es)
  unfolding windows_of
  windows_of-IsUsable t [] may tin ein = tt
  windows_of-IsUsable t (e ∷ es) may tin ein =
      elim (Bool-cases (not (is_open states e.name) && fits conf ctx t e)) [
        | inl h ↦
            rw (h, windows_of)
              (
                (
                  may,
                  ground (arith, h),
                  IsIn-Some t conf.tiers tin (
                    refl,
                    IsIn-Some e (endpoints_for_tier conf t.name) ein.0
                        (refl, refl, fits-enough conf ctx t e (ground (arith, h))),
                  ),
                ),
                windows_of-IsUsable t es may tin ein.1,
              )
        | inr h ↦ rw (h, windows_of) (windows_of-IsUsable t es may tin ein.1)
      ]

  windows-IsUsable :
      (current_max : ℕ) (ts : List Tier)
      → All (λ t. IsIn t conf.tiers) ts
      → All IsUsable (windows st conf ctx states current_max ts)
  unfolding windows
  windows-IsUsable current_max [] tin = tt
  windows-IsUsable current_max (t ∷ ts) tin =
      elim (Bool-cases
        (t.override_only || (ltb t.max_context current_max || not (can_access_tier st t.name)))) [
          | inl h ↦ rw (h, windows) (windows-IsUsable current_max ts tin.1)
          | inr h ↦
              rw (h, windows)
                (All-append IsUsable (windows_of conf ctx states t (endpoints_for_tier conf t.name))
                  _
                  (windows_of-IsUsable t (endpoints_for_tier conf t.name) (ground (arith, h)) tin.0
                    (All-IsIn (endpoints_for_tier conf t.name)))
                  (windows-IsUsable current_max ts tin.1))
        ]

  -- The endpoint is open, or the request needs more tokens than its window in the tier has.
  abbrev pub IsShut : Tier → Endpoint → Type 0
  IsShut t e = (is_open states e.name ≡ true) ⊎ (window_capacity conf t e < tokens_needed ctx t)

  shut :
      (t : Tier) (e : Endpoint)
      → (not (is_open states e.name) && fits conf ctx t e) ≡ false
      → IsShut t e
  shut t e h = elim (Bool-cases (is_open states e.name)) [
    | inl y ↦ inl y
    | inr n ↦ inr (fits-scarce conf ctx t e (ground (arith, h, n)))
  ]

  -- The tier is not searched, or whatever its endpoints that are not open and large enough give
  -- satisfies `P`.
  abbrev pub IsSearched : ℕ → (Window → Type 0) → Tier → Type 0
  IsSearched current P t =
      ((t.override_only || (ltb t.max_context current || not (can_access_tier st t.name))) ≡ true)
      ⊎ All (λ e. IsShut t e ⊎ P (window_capacity conf t e, t.name, e.name))
          (endpoints_for_tier conf t.name)

  windows_of-All :
      (P : Window → Type 0) (t : Tier) (es : List Endpoint) (ws : List Window)
      → All P (windows_of conf ctx states t es ++ ws)
      → All (λ e. IsShut t e ⊎ P (window_capacity conf t e, t.name, e.name)) es × All P ws
  unfolding windows_of
  windows_of-All P t [] ws h = (tt, h)
  windows_of-All P t (e ∷ es) ws h =
      elim (Bool-cases (not (is_open states e.name) && fits conf ctx t e)) [
        | inl y ↦
            let h' = rw (y, windows_of) at h in
            let (rest, after) = windows_of-All P t es ws h'.1 in ((inr h'.0, rest), after)
        | inr n ↦
            let (rest, after) = windows_of-All P t es ws (rw (n, windows_of) at h) in
            ((inl (shut t e n), rest), after)
      ]

  windows-IsSearched :
      (P : Window → Type 0) (current : ℕ) (ts : List Tier)
      → All P (windows st conf ctx states current ts)
      → All (IsSearched current P) ts
  unfolding windows
  windows-IsSearched P current [] h = tt
  windows-IsSearched P current (t ∷ ts) h =
      elim (Bool-cases
        (t.override_only || (ltb t.max_context current || not (can_access_tier st t.name)))) [
          | inl y ↦ (inl y, windows-IsSearched P current ts (rw (y, windows) at h))
          | inr n ↦
              let (here_, after) =
                windows_of-All P t (endpoints_for_tier conf t.name)
                  (windows st conf ctx states current ts) (rw (n, windows) at h) in
              (inr here_, windows-IsSearched P current ts after)
        ]

  -- The place of a decision is a usable window that is no larger than any other.
  abbrev pub IsSmallest : ℕ → Decision → Type 0
  IsSmallest current d =
      (w : Window) × (d.tier ≡ w.1)
      × (d.endpoint ≡ w.2)
      × IsUsable w
      × All (IsSearched current (λ v. w.0 ≤ v.0)) conf.tiers

  redirected :
      (current : ℕ) (ws : List Window) (d d' : Decision)
      → All IsUsable ws
      → ((P : Window → Type 0) → All P ws → All (IsSearched current P) conf.tiers)
      → redirect_to d (smallest ws) ≡ some d'
      → IsSmallest current d'
  unfolding redirect_to
  redirected current [] d d' u s h = absurd (ground arith)
  redirected current (w ∷ ws) d d' u s h =
      let same : redirect d (least_window w ws) ≡ d' = ground (arith, h) in
      let (t, e) = redirect_place d (least_window w ws) in
      (
        least_window w ws,
        ap (λ x. x.tier) (sym same) ∙ t,
        ap (λ x. x.endpoint) (sym same) ∙ e,
        least_window-All IsUsable w ws u.0 u.1,
        s (λ v. (least_window w ws).0 ≤ v.0) (least_window-le w ws (least_window w ws).0 refl),
      )

  search_windows-IsSmallest :
      (d d' : Decision)
      → search_windows st conf ctx states d ≡ some d'
      → IsSmallest (current_max conf d) d'
  unfolding search_windows
  search_windows-IsSmallest d d' h =
      redirected (current_max conf d) (windows st conf ctx states (current_max conf d) conf.tiers) d
        d' (windows-IsUsable (current_max conf d) conf.tiers (All-IsIn conf.tiers))
        (λ P. windows-IsSearched P (current_max conf d) conf.tiers) h

  -- The config has not the tier or the endpoint of the decision, or the request does not fit there.
  abbrev pub IsTooSmall : Decision → Type 0
  IsTooSmall d =
      (find_tier d.tier conf.tiers ≡ none)
      ⊎ ((t : Tier) × (find_tier d.tier conf.tiers ≡ some t)
          × ((find_endpoint d.endpoint conf.endpoints ≡ none)
              ⊎ ((p : Endpoint) × (find_endpoint d.endpoint conf.endpoints ≡ some p)
                  × (window_capacity conf t p < tokens_needed ctx t))))

  pub ensure_cases :
      (d d' : Decision)
      → ensure_context_capacity st conf ctx states d ≡ some d'
      → ((d' ≡ d) × FitsIn conf ctx d.tier d.endpoint)
        ⊎ (IsTooSmall d × IsSmallest (current_max conf d) d')
  unfolding ensure_context_capacity
  ensure_cases d d' h = elim (Option-cases (find_tier d.tier conf.tiers)) [
    | inl e ↦ inr (inl e, search_windows-IsSmallest d d' (rw (e, ensure_context_capacity) at h))
    | inr (t, e) ↦ elim (Option-cases (find_endpoint d.endpoint conf.endpoints)) [
      | inl e' ↦ inr (
        inr (t, e, inl e'),
        search_windows-IsSmallest d d' (rw (e, e', ensure_context_capacity) at h),
      )
      | inr (p, e') ↦ elim (Bool-cases (fits conf ctx t p)) [
        | inl y ↦
            let same : some d ≡ some d' = rw (e, e', y, ensure_context_capacity) at h in
            let (tin, tname) = find_tier-IsIn d.tier conf.tiers t e in
            let (pin, pname) = find_endpoint-IsIn d.endpoint conf.endpoints p e' in
            inl (ground (arith, same), rw (← tname, ← pname) (fits-FitsIn conf ctx t p tin pin y))
        | inr n ↦ inr (
          inr (t, e, inr (p, e', fits-scarce conf ctx t p n)),
          search_windows-IsSmallest d d' (rw (e, e', n, ensure_context_capacity) at h),
        )
      ]
    ]
  ]

  -- No endpoint of the tier that the search looks at is large enough.
  abbrev pub IsFull : ℕ → Tier → Type 0
  IsFull current t =
      ((t.override_only || (ltb t.max_context current || not (can_access_tier st t.name))) ≡ true)
      ⊎ All (IsShut t) (endpoints_for_tier conf t.name)

  IsFull-intro :
      (current : ℕ) (ws : List Window) (d : Decision)
      → ((P : Window → Type 0) → All P ws → All (IsSearched current P) conf.tiers)
      → redirect_to d (smallest ws) ≡ none
      → All (IsFull current) conf.tiers
  unfolding redirect_to
  IsFull-intro current [] d s h =
      All-map conf.tiers
        (λ t searched. elim searched [
          | inl y ↦ inl y
          | inr es ↦ inr (
              All-map (endpoints_for_tier conf t.name)
                (λ e found. elim found [ inl n ↦ n | inr no_window ↦ absurd no_window ]) es)
        ])
        (s (λ _. ⊥) tt)
  IsFull-intro current (w ∷ ws) d s h = absurd (ground arith)

  -- `_ensure_context_capacity` gives up only if the config has not the decision's tier or endpoint or
  -- the request does not fit there, and if no tier that the tenant may use, and that is neither an
  -- override nor smaller than the decision's, has an endpoint that is not open and in which the
  -- request fits. The tiers that are overrides or smaller are not looked at.
  pub exceeded_everywhere :
      (d : Decision)
      → ensure_context_capacity st conf ctx states d ≡ none
      → IsTooSmall d × All (IsFull (current_max conf d)) conf.tiers
  unfolding ensure_context_capacity search_windows
  exceeded_everywhere d h =
      let full : search_windows st conf ctx states d ≡ none
          → All (IsFull (current_max conf d)) conf.tiers =
        λ none_left.
          IsFull-intro (current_max conf d)
            (windows st conf ctx states (current_max conf d) conf.tiers) d
            (λ P. windows-IsSearched P (current_max conf d) conf.tiers) none_left in
      elim (Option-cases (find_tier d.tier conf.tiers)) [
        | inl e ↦ (inl e, full (rw (e, ensure_context_capacity) at h))
        | inr (t, e) ↦ elim (Option-cases (find_endpoint d.endpoint conf.endpoints)) [
          | inl e' ↦ (inr (t, e, inl e'), full (rw (e, e', ensure_context_capacity) at h))
          | inr (p, e') ↦ elim (Bool-cases (fits conf ctx t p)) [
            | inl y ↦
                let same : some d ≡ none = rw (e, e', y, ensure_context_capacity) at h in
                absurd (ground (arith, same))
            | inr n ↦ (
              inr (t, e, inr (p, e', fits-scarce conf ctx t p n)),
              full (rw (e, e', n, ensure_context_capacity) at h),
            )
          ]
        ]
      ]
