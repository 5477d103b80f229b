-- ===== src/Dispatch/Fallback.antt =====
-- The ladder of endpoints that a request is tried at: `_forward_with_fallback` of gateway/app.py,
-- with `Config.tier` and `Config.endpoint` of gateway/config.py and `EndpointPool.get`.
use ctrl_gateway.Prelude.{
  ℕ, suc, ◌+◌, ◌≡◌, refl, String, Bool, true, false, not, ◌&&◌, Option, none, some, List, [], ◌∷◌,
  ◌++◌, any, str_eq, if◌then◌else◌,
}
use ctrl_gateway.Prelude.Int.{ℤ}
use ctrl_gateway.Prelude.Text.{Text}
use ctrl_gateway.Prelude.Dict
use ctrl_gateway.Prelude.Dict.{Dict}
use ctrl_gateway.Circuit
use ctrl_gateway.Policy.Inputs.{is_open}
use ctrl_gateway.Dispatch.{
  Client, Exchange, Gateway, Sent, received, blocked, breaker_open, upstream_error, http_error,
  completion, other, retryable, ask, send,
}

pub record EndpointConfig : Type 0 where
  pub name : String
  pub breaker : Circuit.Config

pub record TierConfig : Type 0 where
  pub name : String
  pub endpoints : List String

-- What the ladder reads of a config snapshot.
pub record Routes : Type 0 where
  pub endpoints : List EndpointConfig
  pub tiers : List TierConfig
  pub fallback_endpoint : String

-- `Config.endpoint`
unfoldable pub find_endpoint_config : String → List EndpointConfig → Option EndpointConfig
find_endpoint_config name [] = none
find_endpoint_config name (e ∷ es) =
    if str_eq e.name name then some e else find_endpoint_config name es

-- `Config.tier`
unfoldable pub find_tier_config : String → List TierConfig → Option TierConfig
find_tier_config name [] = none
find_tier_config name (t ∷ ts) = if str_eq t.name name then some t else find_tier_config name ts

-- `Config.tier_endpoints`, the names only
unfoldable pub configured : List EndpointConfig → List String → List String
unfolding find_endpoint_config
configured es [] = []
configured es (n ∷ ns) = elim (find_endpoint_config n es) [
  | none ↦ configured es ns
  | some e ↦ e.name ∷ configured es ns
]

unfoldable pub tier_endpoints : Routes → String → List String
unfolding find_tier_config configured
tier_endpoints conf name = elim (find_tier_config name conf.tiers) [
  | none ↦ []
  | some t ↦ configured conf.endpoints t.endpoints
]

-- An endpoint with the tier that it is tried in.
abbrev pub Rung : Type 0
Rung = String × String

-- The loop over the tier's endpoints.
unfoldable pub siblings : String → String → Dict String → List String → List Rung
unfolding is_open
siblings chosen tier_name states [] = []
siblings chosen tier_name states (n ∷ ns) =
    if not (str_eq n chosen) && not (is_open states n)
    then (n, tier_name) ∷ siblings chosen tier_name states ns
    else siblings chosen tier_name states ns

-- The name of the first tier that lists the endpoint, empty if none does.
unfoldable pub tier_listing : String → List TierConfig → String
tier_listing name [] = ""
tier_listing name (t ∷ ts) =
    if any (λ n. str_eq n name) t.endpoints then t.name else tier_listing name ts

-- The fallback endpoint, unless it is a candidate already.
unfoldable pub with_fallback : Routes → List Rung → List Rung
unfolding tier_listing
with_fallback conf cs =
    let name = conf.fallback_endpoint in
    let fb_tier = tier_listing name conf.tiers in
    if not (str_eq name "") && not (any (λ c. str_eq c.0 name) cs)
    then (if str_eq fb_tier "" then cs else cs ++ (name, fb_tier) ∷ [])
    else cs

unfoldable pub ladder : Routes → Rung → Dict String → List Rung
unfolding siblings tier_endpoints with_fallback
ladder conf decision states =
    with_fallback conf
      (decision ∷ siblings decision.0 decision.1 states (tier_endpoints conf decision.1))

-- What one round of the loop does: `continue` before the attempt, an error after which it goes on,
-- an error that it raises, or the return.
pub data Visit : Type 0 where
  skipped failed_over gave_up : Visit
  answered : ℤ → ℤ → Visit

pub data IsVisit (v : Visit) : Type 0 where
  was_skipped : v ≡ skipped → IsVisit v
  was_failed_over : v ≡ failed_over → IsVisit v
  was_gave_up : v ≡ gave_up → IsVisit v
  was_answered : (a b : ℤ) → v ≡ answered a b → IsVisit v

pub Visit-cases : (v : Visit) → IsVisit v
Visit-cases skipped = was_skipped refl
Visit-cases failed_over = was_failed_over refl
Visit-cases gave_up = was_gave_up refl
Visit-cases (answered a b) = was_answered a b refl

unfoldable pub conclude : Sent → Visit
unfolding retryable
conclude (received (completion tokens_in tokens_out)) = answered tokens_in tokens_out
conclude (received other) = failed_over
conclude (http_error status) = if retryable status then failed_over else gave_up
conclude blocked = failed_over
conclude breaker_open = failed_over
conclude upstream_error = failed_over

-- The body of `try`.
unfoldable pub try_endpoint :
    String → Option Text → Option Client → Exchange → Gateway → Visit × Gateway
unfolding conclude send
try_endpoint tenant none client x g = (failed_over, g)
try_endpoint tenant (some host) none x g = (failed_over, g)
try_endpoint tenant (some host) (some client) x g =
    let (sent, g') = send tenant client x host g in (conclude sent, g')

unfoldable pub try_if : Bool → String → Option Client → Exchange → Gateway → Visit × Gateway
unfolding try_endpoint
try_if false tenant client x g = (skipped, g)
try_if true tenant client x g = try_endpoint tenant x.host client x g

-- One round of the loop.
unfoldable pub visit : Routes → Dict Client → String → Rung → Exchange → Gateway → Visit × Gateway
unfolding find_endpoint_config find_tier_config ask try_if
visit conf pool tenant (name, tier_name) x g = elim (find_endpoint_config name conf.endpoints) [
  | none ↦ (skipped, g)
  | some e ↦ elim (find_tier_config tier_name conf.tiers) [
    | none ↦ (skipped, g)
    | some t ↦
        let (ok, reg) = ask name e.breaker x.asked_at g.registry in
        try_if ok tenant (Dict.lookup name pool) x (record g { registry = reg })
  ]
]

-- The answer with the endpoint, the tier and the number of attempts, or the error that is raised:
-- the one that ended the ladder, or the last one of those that did not.
pub data Forwarded : Type 0 where
  forwarded : Rung → ℕ → ℤ → ℤ → Forwarded
  raised exhausted : Forwarded

-- The loop; round `i` meets the exchange `world i`.
unfoldable pub forward :
    Routes
    → Dict Client
    → String
    → (ℕ → Exchange)
    → List Rung
    → ℕ
    → ℕ
    → Gateway
    → Forwarded × Gateway
unfolding visit
forward conf pool tenant world [] i attempts g = (exhausted, g)
forward conf pool tenant world (c ∷ cs) i attempts g =
    let (v, g') = visit conf pool tenant c (world i) g in
    elim v [
      | skipped ↦ forward conf pool tenant world cs (suc i) attempts g'
      | failed_over ↦ forward conf pool tenant world cs (suc i) (attempts + 1) g'
      | gave_up ↦ (raised, g')
      | answered a b ↦ (forwarded c (attempts + 1) a b, g')
    ]

-- `_forward_with_fallback`
unfoldable pub forward_with_fallback :
    Routes
    → Dict Client
    → String
    → (ℕ → Exchange)
    → Rung
    → Dict String
    → Gateway
    → Forwarded × Gateway
unfolding ladder forward
forward_with_fallback conf pool tenant world decision states g =
    forward conf pool tenant world (ladder conf decision states) 0 0 g
