-- ===== src/Dispatch/Rungs.antt =====
-- Which endpoints the ladder of `_forward_with_fallback` holds, and which it leaves out.
use ctrl_gateway.Prelude.{
  ◌≡◌, ◌≢◌, ◌⊎◌, String, true, false, List, ◌∷◌, ◌++◌, any, str_eq, All, Some,
}
use ctrl_gateway.Prelude.Members.{IsIn}
use ctrl_gateway.Prelude.Dict.{Dict}
use ctrl_gateway.Policy.Inputs.{is_open}
use ctrl_gateway.Dispatch.Fallback.{TierConfig, Routes, Rung, tier_endpoints}

-- No tier of these lists the endpoint.
abbrev pub NoneLists : String → List TierConfig → Type 0
NoneLists name ts = All (λ t. any (λ n. str_eq n name) t.endpoints ≡ false) ts

-- The first of the tiers that lists the endpoint has that name.
abbrev pub IsListing : String → List TierConfig → String → Type 0
IsListing name ts tier_name =
    (before : List TierConfig) × (t : TierConfig) × (after : List TierConfig) × (ts
      ≡ before ++ t ∷ after)
    × NoneLists name before
    × IsIn name t.endpoints
    × (t.name ≡ tier_name)

-- The name of an endpoint stands in the ladder.
abbrev pub IsRung : String → List Rung → Type 0
IsRung name cs = Some (λ c. c.0 ≡ name) cs

-- Why an endpoint is tried after the decision's, in a tier.
abbrev pub MayFollow : Routes → Rung → Dict String → Rung → Type 0
MayFollow conf decision states c =
    ((c.1 ≡ decision.1)
      × IsIn c.0 (tier_endpoints conf decision.1)
      × (c.0 ≢ decision.0)
      × (is_open states c.0 ≡ false))
    ⊎ ((c.0 ≡ conf.fallback_endpoint)
        × (conf.fallback_endpoint ≢ "")
        × IsListing conf.fallback_endpoint conf.tiers c.1)

-- The fallback endpoint stands in the ladder, or there is none, or no tier lists it, or the first that
-- does has no name.
abbrev pub HasFallback : Routes → List Rung → Type 0
HasFallback conf cs =
    IsRung conf.fallback_endpoint cs
    ⊎ ((conf.fallback_endpoint ≡ "")
        ⊎ (NoneLists conf.fallback_endpoint conf.tiers
            ⊎ IsListing conf.fallback_endpoint conf.tiers ""))

-- Each of the names is the decision's endpoint, or shows as open, or is in the list with its tier.
abbrev pub HasSiblings : Rung → Dict String → List Rung → List String → Type 0
HasSiblings decision states cs names =
    All (λ n. (n ≡ decision.0) ⊎ ((is_open states n ≡ true) ⊎ IsIn (n, decision.1) cs)) names

module _ (conf : Routes) (decision : Rung) (states : Dict String) where
  -- The decision first, then those that may follow it, none of them left out.
  abbrev pub IsLadder : List Rung → Type 0
  IsLadder cs =
      (rest : List Rung) × (cs ≡ decision ∷ rest)
      × All (MayFollow conf decision states) rest
      × HasSiblings decision states rest (tier_endpoints conf decision.1)
      × HasFallback conf cs
