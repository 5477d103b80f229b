-- ===== src/Dispatch/Rounds.antt =====
-- One round of the ladder of `_forward_with_fallback`, and what becomes of it.
use ctrl_gateway.Prelude.{
  ℕ, ◌<◌, ◌≤◌, ◌≡◌, ◌≢◌, refl, ap, ◌⊎◌, inl, inr, String, true, false, Option, none, some, arith,
  Bool-cases, Option-cases,
}
use ctrl_gateway.Prelude.Int.{ℤ}
use ctrl_gateway.Prelude.Text.{Text}
use ctrl_gateway.Prelude.Dict
use ctrl_gateway.Prelude.Dict.{Dict}
use ctrl_gateway.Circuit.Registry.{Registry}
use ctrl_gateway.Dispatch.{
  Client, completion, other, Exchange, Gateway, Sent, received, blocked, breaker_open,
  upstream_error, http_error, retryable, ask, send,
}
use ctrl_gateway.Dispatch.Fallback.{
  EndpointConfig, TierConfig, Routes, Rung, find_endpoint_config, find_tier_config, Visit, skipped,
  failed_over, gave_up, answered, conclude, try_endpoint, try_if, visit,
}

-- What a round does with its candidate: it passes it over, fails before the request, or sends it.
pub data Attempt : Type 0 where
  passed_over unsent : Attempt
  sent : Sent → Attempt

-- What becomes of the round: only a body that is a dict is an answer, and only an HTTP error that is
-- neither 408, 409, 429 nor 500 or more ends the ladder.
pub data IsJudged : Attempt → Visit → Type 0 where
  nothing_tried : IsJudged passed_over skipped
  not_sent : IsJudged unsent failed_over
  a_dict : (a b : ℤ) → IsJudged (sent (received (completion a b))) (answered a b)
  not_a_dict : IsJudged (sent (received other)) failed_over
  not_retryable :
      (status : ℕ)
      → status ≢ 408
      → status ≢ 409
      → status ≢ 429
      → status < 500
      → IsJudged (sent (http_error status)) gave_up
  may_retry :
      (status : ℕ)
      → (status ≡ 408) ⊎ ((status ≡ 409) ⊎ ((status ≡ 429) ⊎ (500 ≤ status)))
      → IsJudged (sent (http_error status)) failed_over
  is_blocked : IsJudged (sent blocked) failed_over
  is_refused : IsJudged (sent breaker_open) failed_over
  is_broken : IsJudged (sent upstream_error) failed_over

conclude-IsJudged : (s : Sent) → IsJudged (sent s) (conclude s)
unfolding conclude retryable
conclude-IsJudged (received (completion a b)) = a_dict a b
conclude-IsJudged (received other) = not_a_dict
conclude-IsJudged blocked = is_blocked
conclude-IsJudged breaker_open = is_refused
conclude-IsJudged upstream_error = is_broken
conclude-IsJudged (http_error status) = elim (Bool-cases (retryable status)) [
  | inl e ↦ rw (e, conclude) (may_retry status (ground (arith, e)))
  | inr e ↦
      rw (e, conclude)
        (not_retryable status (ground (arith, e)) (ground (arith, e)) (ground (arith, e))
          (ground (arith, e)))
]

module _ (conf : Routes) (pool : Dict Client) (tenant : String) where
  -- What the round with an endpoint of a tier does: it passes over what the config has not and what
  -- the breaker denies, fails where there is no URL or no client, and else sends the request.
  pub data IsAttempt (name tier_name : String) (x : Exchange) (g : Gateway)
      : Attempt → Gateway → Type 0 where
    unknown :
        (find_endpoint_config name conf.endpoints ≡ none)
          ⊎ (find_tier_config tier_name conf.tiers ≡ none)
        → IsAttempt name tier_name x g passed_over g
    denied :
        (e : EndpointConfig) (t : TierConfig) (reg : Registry)
        → find_endpoint_config name conf.endpoints ≡ some e
        → find_tier_config tier_name conf.tiers ≡ some t
        → ask name e.breaker x.asked_at g.registry ≡ (false, reg)
        → IsAttempt name tier_name x g passed_over (record g { registry = reg })
    prepared :
        (e : EndpointConfig) (t : TierConfig) (reg : Registry)
        → find_endpoint_config name conf.endpoints ≡ some e
        → find_tier_config tier_name conf.tiers ≡ some t
        → ask name e.breaker x.asked_at g.registry ≡ (true, reg)
        → (x.host ≡ none) ⊎ (Dict.lookup name pool ≡ none)
        → IsAttempt name tier_name x g unsent (record g { registry = reg })
    posted :
        (e : EndpointConfig) (t : TierConfig) (reg : Registry) (host : Text) (client : Client)
        (s : Sent) (g' : Gateway)
        → find_endpoint_config name conf.endpoints ≡ some e
        → find_tier_config tier_name conf.tiers ≡ some t
        → ask name e.breaker x.asked_at g.registry ≡ (true, reg)
        → x.host ≡ some host
        → Dict.lookup name pool ≡ some client
        → send tenant client x host (record g { registry = reg }) ≡ (s, g')
        → IsAttempt name tier_name x g (sent s) g'

  -- A round and what becomes of it.
  abbrev pub IsRound : Rung → Exchange → Gateway → Visit → Gateway → Type 0
  IsRound (name, tier_name) x g v g' =
      (a : Attempt) × IsAttempt name tier_name x g a g' × IsJudged a v

  tried-IsRound :
      (name tier_name : String) (x : Exchange) (g : Gateway) (e : EndpointConfig) (t : TierConfig)
      (reg : Registry) (host : Option Text) (client : Option Client)
      → find_endpoint_config name conf.endpoints ≡ some e
      → find_tier_config tier_name conf.tiers ≡ some t
      → ask name e.breaker x.asked_at g.registry ≡ (true, reg)
      → x.host ≡ host
      → Dict.lookup name pool ≡ client
      → let (v, g') = try_endpoint tenant host client x (record g { registry = reg }) in
        IsRound (name, tier_name) x g v g'
  unfolding try_endpoint
  tried-IsRound name tier_name x g e t reg none client fe ft ok h c =
      (unsent, prepared e t reg fe ft ok (inl h), not_sent)
  tried-IsRound name tier_name x g e t reg (some host) none fe ft ok h c =
      (unsent, prepared e t reg fe ft ok (inr c), not_sent)
  tried-IsRound name tier_name x g e t reg (some host) (some client) fe ft ok h c =
      let (s, g') = send tenant client x host (record g { registry = reg }) in
      (sent s, posted e t reg host client s g' fe ft ok h c refl, conclude-IsJudged s)

  pub visit-IsRound :
      (c : Rung) (x : Exchange) (g : Gateway)
      → let (v, g') = visit conf pool tenant c x g in IsRound c x g v g'
  unfolding visit try_if
  visit-IsRound (name, tier_name) x g =
      elim (Option-cases (find_endpoint_config name conf.endpoints)) [
        | inl fe ↦ rw (fe, visit) (passed_over, unknown (inl fe), nothing_tried)
        | inr (e, fe) ↦ elim (Option-cases (find_tier_config tier_name conf.tiers)) [
          | inl ft ↦ rw (fe, ft, visit) (passed_over, unknown (inr ft), nothing_tried)
          | inr (t, ft) ↦
              let (ok, reg) = ask name e.breaker x.asked_at g.registry in
              elim (Bool-cases ok) [
                | inl y ↦
                    rw (fe, ft, y, visit)
                      (tried-IsRound name tier_name x g e t reg x.host (Dict.lookup name pool) fe ft
                        (ap (λ b. (b, reg)) y) refl refl)
                | inr n ↦
                    rw (fe, ft, n, visit)
                      (passed_over, denied e t reg fe ft (ap (λ b. (b, reg)) n), nothing_tried)
              ]
        ]
      ]
