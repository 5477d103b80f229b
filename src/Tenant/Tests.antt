-- ===== src/Tenant/Tests.antt =====
-- A few tenants, and the theorems at inputs where their hypotheses hold.
use ctrl_gateway.Prelude.{◌+◌, ◌*◌, ◌≤◌, ◌≡◌, refl, none, some, [], ◌∷◌, arith}
use ctrl_gateway.Prelude.Dict
use ctrl_gateway.Prelude.Int.{pos, ◌+ℤ◌, ◌-ℤ◌, ◌*ℤ◌}
use ctrl_gateway.Usage.{Amounts}
use ctrl_gateway.Tenant.Bucket.{one_token, TokenBucket, new_bucket, consume, time_to_available}
use ctrl_gateway.Tenant.Rates.{admitted, last_of, bucket_bound}
use ctrl_gateway.Tenant.{
  Settings, TenantState, TenantManager, build_state, get_or_create, check_rate_limit, ModelLimits,
  can_access_tier, highest_accessible_tier,
}
use ctrl_gateway.Tenant.Manager.{allowed_checks}

program : Unit {0}
unfolding new_bucket consume time_to_available admitted build_state get_or_create check_rate_limit
    allowed_checks can_access_tier highest_accessible_tier Dict.lookup Dict.insert ◌+ℤ◌ ◌-ℤ◌ ◌*ℤ◌
program = tt

abbrev nothing : Settings
nothing = record {
  tier_access = none;
  budget_usd_per_day = none;
  rps_limit = none;
  concurrent_limit = none;
  tokens_per_min = none;
  daily_token_limit = none;
  target_success_probability = none;
  plan_id = none;
}

abbrev blocked : Settings
blocked = record nothing { tier_access = some []; rps_limit = some 0 }

abbrev manager : TenantManager
manager = record {
  defaults = record nothing { rps_limit = some 5; daily_token_limit = some (pos 1000) };
  preconfigured = ("bob", blocked) ∷ [];
  states = [];
}

abbrev alice : TenantState
alice =
    build_state manager.defaults "alice"
      (record manager.defaults { tier_access = some ("tier1" ∷ "tier2" ∷ []) }) 0

-- Two requests at once, then one for each fifth of a second.
burst : admitted (0 ∷ 0 ∷ 0 ∷ 100_000 ∷ 200_000 ∷ []) (new_bucket 5 (2 * one_token) 0) ≡ 3
unfolding program
burst = refl

bucket_bound_example :
    one_token * admitted (0 ∷ 0 ∷ 200_000 ∷ []) (new_bucket 5 (2 * one_token) 0) + 0 * 5
    ≤ 2 * one_token + last_of 0 (0 ∷ 0 ∷ 200_000 ∷ []) * 5
bucket_bound_example = bucket_bound (0 ∷ 0 ∷ 200_000 ∷ []) 5 (2 * one_token) 0 (omega arith)

abbrev drained : TokenBucket
drained = record { rate = 5; capacity = 10 * one_token; tokens = pos 0; last_refill = 7 }

announced_wait : time_to_available one_token (7 + 100_000) drained ≡ (500_000, 5)
unfolding program
announced_wait = refl

abbrev no_model : ModelLimits
no_model = record { model_token_limit = pos 0; model_usd_limit = pos 0; max_request_tokens = pos 0 }

abbrev request : Amounts
request = record { tokens_in = pos 20; tokens_out = pos 30; cost_usd = pos 1 }
