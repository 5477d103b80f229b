-- ===== src/Policy/Qualified.antt =====
-- Which endpoints the loops of gateway/policy.py over the tiers and their endpoints consider.
use native.Mathlib.Nat.{mul-le-mul_right}
use ctrl_gateway.Prelude.{
  ℕ, ◌*◌, ◌-◌, ◌≤◌, ◌≡◌, ◌⊎◌, String, true, false, not, none, some, min, arith,
}
use ctrl_gateway.Prelude.Members.{IsIn, IsIn-Some, Some-any}
use ctrl_gateway.Prelude.Dict.{Dict}
use ctrl_gateway.Policy.Inputs.{
  Endpoint, Tier, Config, RequestContext, endpoints_for_tier, is_open, exceeds_context,
  tokens_needed,
}
use ctrl_gateway.Policy.{is_skipped, is_considered, fit_of}

-- The context window of an endpoint in a tier: its own, if it has one, but no more than the tier's.
abbrev own_context : Tier → Endpoint → ℕ
own_context t e = min t.max_context (elim e.max_context [ some m ↦ m | none ↦ t.max_context ])

module _ (sigmoid : ℕ → ℕ → ℕ) (conf : Config) (ctx : RequestContext) (states : Dict String) where
  -- The endpoint is one of the tier's, the tier is one of the config's and no override, it is not for
  -- images only or the request has one, its fit reaches the threshold, the breaker is not open, and
  -- the tokens of the request fit in the window less the reserve.
  pub record IsQualified (t : Tier) (e : Endpoint) : Type 0 where
    pub in_config : IsIn t conf.tiers
    pub in_tier : IsIn e (endpoints_for_tier conf t.name)
    pub ordinary : t.override_only ≡ false
    pub sees : (t.has_vision_endpoints ≡ false) ⊎ (ctx.has_image ≡ true)
    pub closed : is_open states e.name ≡ false
    pub fits_in : tokens_needed ctx t * 100 ≤ own_context t e * (100 - conf.context_reserve_pct)
    pub capable : conf.fit_threshold ≤ fit_of sigmoid conf ctx states t

  pub considered-IsQualified :
      (t : Tier) (e : Endpoint)
      → IsIn t conf.tiers
      → is_skipped sigmoid conf ctx states t ≡ false
      → IsIn e (endpoints_for_tier conf t.name)
      → is_considered sigmoid conf ctx states t e ≡ true
      → IsQualified t e
  unfolding is_skipped is_considered exceeds_context
  considered-IsQualified t e tin s ein c = record {
    in_config = tin;
    in_tier = ein;
    ordinary = ground (arith, s);
    sees = ground (arith, s);
    closed = ground (arith, c);
    fits_in = ground (arith, c);
    capable = ground (arith, s);
  }

  pub IsQualified-considered :
      (t : Tier) (e : Endpoint) → IsQualified t e → is_considered sigmoid conf ctx states t e ≡ true
  unfolding is_considered exceeds_context
  IsQualified-considered t e q = ground (arith, q.closed, q.fits_in)

  tier_window :
      (t : Tier) (m : ℕ)
      → tokens_needed ctx t * 100 ≤ min t.max_context m * (100 - conf.context_reserve_pct)
      → exceeds_context conf t.max_context (tokens_needed ctx t) ≡ false
  unfolding exceeds_context
  tier_window t m h =
      let below : min t.max_context m ≤ t.max_context = omega arith in
      let scaled : min t.max_context m * (100 - conf.context_reserve_pct)
          ≤ t.max_context * (100 - conf.context_reserve_pct) =
        mul-le-mul_right (100 - conf.context_reserve_pct) below in
      ground (arith, h, scaled)

  pub IsQualified-passes :
      (t : Tier) (e : Endpoint) → IsQualified t e → is_skipped sigmoid conf ctx states t ≡ false
  unfolding is_skipped
  IsQualified-passes t e q =
      let shut =
        Some-any (λ x. not (is_open states x.name)) (endpoints_for_tier conf t.name)
          (IsIn-Some e (endpoints_for_tier conf t.name) q.in_tier (ground (arith, q.closed))) in
      let window = tier_window t _ q.fits_in in
      ground (arith, q.ordinary, q.sees, shut, window, q.capable)
