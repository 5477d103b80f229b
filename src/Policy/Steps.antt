-- ===== src/Policy/Steps.antt =====
-- The steps of `cost_first_route` of gateway/policy.py: escalation, tie-break and cost margin.
use ctrl_gateway.Prelude.{
  ℕ, ◌*◌, ◌≤◌, ◌≡◌, refl, ◌⊎◌, inl, inr, String, true, false, not, ◌&&◌, ◌||◌, Option, none, some,
  List, [], ◌∷◌, arith, All, Some, here, there, ltb, Bool-cases, Option-cases,
}
use ctrl_gateway.Prelude.Dict.{Dict}
use ctrl_gateway.Policy.Inputs.{Endpoint, Tier, Config, RequestContext, endpoints_for_tier, is_open}
use ctrl_gateway.Policy.{
  Reason, no_fit, arith as by_cost, arith_escalated_margin, escalation, escalation_fallback,
  RoutingDecision, Route, routed, no_tiers_configured, no_available_endpoints, Candidate, safe_tier,
  first_closed, fall_back, escalated_to, escalate_to_safe_tier, load_of, margin_below, lighter,
  tie_break, escalation_of, decide, abstain, choose,
}

abbrev pub OnRoute : (RoutingDecision → Type 0) → Route → Type 0
OnRoute P (routed d) = P d
OnRoute P no_tiers_configured = Unit
OnRoute P no_available_endpoints = Unit

-- The decision is for the endpoint, which is the tier's and whose breaker is not open; or, where every
-- breaker of the tier is open, for the fallback endpoint.
abbrev pub IsFallBack : Config → Dict String → Tier → Reason → RoutingDecision → Type 0
IsFallBack conf states t reason d =
    (d.tier ≡ t.name)
    × (((d.source ≡ escalation reason)
          × (is_open states d.endpoint ≡ false)
          × Some (λ e. e.name ≡ d.endpoint) (endpoints_for_tier conf t.name))
        ⊎ ((d.source ≡ escalation_fallback reason)
            × (d.endpoint ≡ conf.fallback_endpoint)
            × All (λ e. is_open states e.name ≡ true) (endpoints_for_tier conf t.name)))

-- The decision is the escalation for a reason, to the safe tier of the config.
abbrev pub IsEscalation : Config → Dict String → RoutingDecision → Type 0
IsEscalation conf states d =
    (reason : Reason) × (t : Tier) × (safe_tier conf ≡ some t) × IsFallBack conf states t reason d

OnRoute-map :
    (P Q : RoutingDecision → Type 0) (r : Route)
    → ((d : RoutingDecision) → P d → Q d)
    → OnRoute P r
    → OnRoute Q r
OnRoute-map P Q (routed d) f h = f d h
OnRoute-map P Q no_tiers_configured f h = tt
OnRoute-map P Q no_available_endpoints f h = tt

abbrev pub head_cost : List Candidate → ℕ
head_cost [] = 0
head_cost (a ∷ bs) = a.cost

-- What `first_closed` finds in the endpoints.
abbrev IsFirst : Dict String → List Endpoint → Option Endpoint → Type 0
IsFirst states es none = All (λ e. is_open states e.name ≡ true) es
IsFirst states es (some e) = (is_open states e.name ≡ false) × Some (λ x. x.name ≡ e.name) es

IsFirst-later :
    (states : Dict String) (x : Endpoint) (es : List Endpoint) (o : Option Endpoint)
    → is_open states x.name ≡ true
    → IsFirst states es o
    → IsFirst states (x ∷ es) o
IsFirst-later states x es none open_ h = (open_, h)
IsFirst-later states x es (some e) open_ h = (h.0, there h.1)

first_closed_lem :
    (states : Dict String) (es : List Endpoint) → IsFirst states es (first_closed states es)
unfolding first_closed
first_closed_lem states [] = tt
first_closed_lem states (x ∷ es) = elim (Bool-cases (is_open states x.name)) [
  | inl o ↦ rw o (IsFirst-later states x es (first_closed states es) o (first_closed_lem states es))
  | inr c ↦ rw c (c, here refl)
]

fall_back_lem :
    (conf : Config) (states : Dict String) (t : Tier) (reason : Reason) (a b : Option Endpoint)
    → IsFirst states (endpoints_for_tier conf t.name) a
    → OnRoute (IsFallBack conf states t reason) (fall_back conf t reason a b)
unfolding fall_back escalated_to
fall_back_lem conf states t reason (some e) b h = (refl, inl (refl, h.0, h.1))
fall_back_lem conf states t reason none (some e) h = (refl, inr (refl, refl, h))
fall_back_lem conf states t reason none none h = tt

escalation_lem :
    (conf : Config) (states : Dict String) (reason : Reason)
    → OnRoute (IsEscalation conf states) (escalate_to_safe_tier conf states reason)
unfolding escalate_to_safe_tier
escalation_lem conf states reason = elim (Option-cases (safe_tier conf)) [
  | inl e ↦ rw (e, escalate_to_safe_tier) tt
  | inr (t, e) ↦
      rw (e, escalate_to_safe_tier)
        (OnRoute-map (IsFallBack conf states t reason) (IsEscalation conf states) _
          (λ d h. (reason, t, e, h))
          (fall_back_lem conf states t reason _ _
            (first_closed_lem states (endpoints_for_tier conf t.name))))
]

module _ (sigmoid : ℕ → ℕ → ℕ) (conf : Config) (ctx : RequestContext) (states : Dict String) where
  -- A choice that costs no more than `a`, or, where loads count, at most 5 % more.
  abbrev pub NearlyAs : ℕ → ℕ → Type 0
  NearlyAs n m = (n ≤ m) ⊎ ((conf.prefer_lower_load ≡ true) × (n * 100 ≤ m * 105))

  nearly_trans : (x m n : ℕ) → NearlyAs x m → m ≤ n → NearlyAs x n
  nearly_trans x m n (inl a) b = inl (omega (arith, a, b))
  nearly_trans x m n (inr a) b = inr (a.0, omega (arith, a.1, b))

  lighter_lem :
      (P : Candidate → Type 0) (loads : Dict ℕ) (a : Candidate) (bs : List Candidate)
      → P a
      → All P bs
      → P (lighter sigmoid conf ctx states loads a bs)
        × NearlyAs (lighter sigmoid conf ctx states loads a bs).cost a.cost
  unfolding lighter
  lighter_lem P loads a [] p h = (p, inl (omega arith))
  lighter_lem P loads a (b ∷ bs) p h =
      let rest = lighter_lem P loads a bs p h.1 in
      elim (Bool-cases (ltb (a.cost * 105) (b.cost * 100))) [
        | inl over ↦ rw over (p, inl (omega arith))
        | inr fits ↦
            elim (Bool-cases (
              not (is_open states b.endpoint)
              && conf.prefer_lower_load
              && ltb (load_of sigmoid conf ctx states loads b.endpoint)
                  (load_of sigmoid conf ctx states loads a.endpoint))) [
                    | inl y ↦ rw (fits, y) (h.0, inr (ground arith, ground arith))
                    | inr n ↦ rw (fits, n) rest
                  ]
      ]

  tie_break_lem :
      (P : Candidate → Type 0) (loads : Dict ℕ) (a : Candidate) (bs : List Candidate)
      → P a
      → All P bs
      → P (tie_break sigmoid conf ctx states loads a bs)
        × NearlyAs (tie_break sigmoid conf ctx states loads a bs).cost a.cost
  unfolding tie_break
  tie_break_lem P loads a [] p h = (p, inl (omega arith))
  tie_break_lem P loads a (b ∷ bs) p h =
      elim (Bool-cases (
        (conf.prefer_healthier || conf.prefer_lower_load)
        && margin_below sigmoid conf ctx states 5 a b)) [
          | inl y ↦ rw y (lighter_lem P loads a (b ∷ bs) p h)
          | inr n ↦ rw n (p, inl (omega arith))
        ]

  -- The decision is for a candidate with `P`; one by cost alone costs nearly as little as `n`.
  abbrev pub IsChosen : (Candidate → Type 0) → ℕ → RoutingDecision → Type 0
  IsChosen P n d =
      (c : Candidate) × P c
      × (d.tier ≡ c.tier)
      × (d.endpoint ≡ c.endpoint)
      × (d.cost_usd ≡ c.cost)
      × (((d.source ≡ by_cost) × NearlyAs c.cost n) ⊎ (d.source ≡ arith_escalated_margin))

  abstain_lem :
      (P : Candidate → Type 0) (loads : Dict ℕ) (n : ℕ) (a : Candidate) (bs : List Candidate)
      → a.cost ≤ n
      → P a
      → All P bs
      → OnRoute (IsChosen P n) (abstain sigmoid conf ctx states loads a bs)
  unfolding abstain decide
  abstain_lem P loads n a [] le p h = (a, p, refl, refl, refl, inl (refl, inl le))
  abstain_lem P loads n a (b ∷ bs) le p h =
      elim (Bool-cases (
        ltb a.cost b.cost
        && margin_below sigmoid conf ctx states conf.cost_margin_abstain_pct a b)) [
          | inl y ↦ rw y (b, h.0, refl, refl, refl, inr refl)
          | inr far ↦
              let t = tie_break_lem P loads a (b ∷ bs) p h in
              rw far (
                tie_break sigmoid conf ctx states loads a (b ∷ bs),
                t.0,
                refl,
                refl,
                refl,
                inl (refl, nearly_trans _ a.cost n t.1 le),
              )
        ]

  abbrev pub Outcome : (Candidate → Type 0) → ℕ → RoutingDecision → Type 0
  Outcome P n d = IsEscalation conf states d ⊎ IsChosen P n d

  pub chosen_lem :
      (P : Candidate → Type 0) (loads : Dict ℕ) (n : ℕ) (l : List Candidate)
      → ((a : Candidate) (bs : List Candidate) → l ≡ a ∷ bs → a.cost ≤ n)
      → All P l
      → OnRoute (Outcome P n) (choose sigmoid conf ctx states loads l)
  unfolding choose
  chosen_lem P loads n [] low h =
      OnRoute-map (IsEscalation conf states) (Outcome P n) _ (λ d x. inl x)
        (escalation_lem conf states no_fit)
  chosen_lem P loads n (a ∷ bs) low h =
      elim (Option-cases (escalation_of sigmoid conf ctx states ctx.vertical_top2)) [
        | inl e ↦
            rw (e, choose)
              (OnRoute-map (IsChosen P n) (Outcome P n) _ (λ d x. inr x)
                (abstain_lem P loads n a bs (low a bs refl) h.0 h.1))
        | inr (reason, e) ↦
            rw (e, choose)
              (OnRoute-map (IsEscalation conf states) (Outcome P n) _ (λ d x. inl x)
                (escalation_lem conf states reason))
      ]
