-- ===== src/Tenant.antt =====
-- Tenants and their limits: `TenantState` and `TenantManager` of gateway/tenant.py. The token bucket
-- is `Tenant.Bucket`. What gateway/memory.py answers (a user's row, a plan's quota, the ledger) is an
-- argument. A probability is a number of millionths, a USD amount as in `Usage`.
pub mod Bucket
pub mod Rates
mod Manager
mod Tests
use ctrl_gateway.Prelude.{
  ℕ, zero, ◌*◌, ◌+◌, String, Bool, true, false, not, Option, none, some, List, [], ◌∷◌, any, ltb,
  leb, ◌==◌, str_eq, if◌then◌else◌,
}
use ctrl_gateway.Prelude.Dict
use ctrl_gateway.Prelude.Dict.{Dict}
use ctrl_gateway.Prelude.Int.{ℤ, pos, negsuc, pos_part, ◌+ℤ◌, ◌-ℤ◌, ltb_ℤ}
use ctrl_gateway.Tenant.Bucket.{one_token, TokenBucket, new_bucket, consume, time_to_available}
use ctrl_gateway.Usage.{
  UsageRow, Limits, Amounts, Reason, max_request_tokens, daily_token_limit, daily_budget,
  model_token_limit, model_usd_limit, requests_per_second, tokens_per_minute, get_today_token_spend,
  get_today_cost_spend, reserve_usage,
}

-- A tenant's settings, each of which may be absent: the defaults, an override of the config file, or
-- a user's row. A key with the value `None` is an absent one.
pub record Settings : Type 0 where
  pub tier_access : Option (List String)
  pub budget_usd_per_day : Option ℤ
  pub rps_limit : Option ℕ
  pub concurrent_limit : Option ℕ
  pub tokens_per_min : Option ℤ
  pub daily_token_limit : Option ℤ
  pub target_success_probability : Option ℕ
  pub plan_id : Option String

-- A row of `plan_quotas`
pub record PlanQuota : Type 0 where
  pub daily_token_limit : ℤ
  pub daily_usd_limit : ℤ
  pub required_success_probability : ℕ
  pub allowed_models : List String

pub record TenantState : Type 0 where
  pub tenant_id : String
  pub tier_access : List String
  pub budget_usd_per_day : ℤ
  pub rps_limit : ℕ
  pub concurrent_limit : ℕ
  pub tokens_per_min : ℤ
  pub daily_token_limit : ℤ
  pub target_success_probability : ℕ
  pub plan_id : Option String
  pub bucket : TokenBucket

pub record TenantManager : Type 0 where
  pub defaults : Settings
  pub preconfigured : Dict Settings
  pub states : Dict TenantState

-- `_cfg_or_default`: the value of the settings if it is there, 0 or empty ones too, else that of the
-- defaults, else the given one.
abbrev pub cfg_or_default {ℓ} : {A : Type ℓ} → Option A → Option A → A → A
cfg_or_default (some v) default fallback = v
cfg_or_default none (some v) fallback = v
cfg_or_default none none fallback = fallback

-- `_build_state`
pub build_state : Settings → String → Settings → ℕ → TenantState
build_state defaults tenant_id cfg now =
    let rps = cfg_or_default cfg.rps_limit defaults.rps_limit 100 in
    record {
      tenant_id = tenant_id;
      tier_access = cfg_or_default cfg.tier_access defaults.tier_access [];
      budget_usd_per_day =
          cfg_or_default cfg.budget_usd_per_day defaults.budget_usd_per_day (pos 1_000_000);
      rps_limit = rps;
      concurrent_limit = cfg_or_default cfg.concurrent_limit defaults.concurrent_limit 20;
      tokens_per_min = cfg_or_default cfg.tokens_per_min defaults.tokens_per_min (pos 200_000);
      daily_token_limit = cfg_or_default cfg.daily_token_limit defaults.daily_token_limit (pos 0);
      target_success_probability =
          cfg_or_default cfg.target_success_probability defaults.target_success_probability 990_000;
      plan_id = cfg.plan_id;
      bucket = new_bucket rps (rps * 2 * one_token) now;
    }

abbrev pub either {ℓ} : {A : Type ℓ} → Option A → Option A → Option A
either (some v) o = some v
either none o = o

-- `{**a, **b}`: what `b` holds, else what `a` holds
abbrev pub merged : Settings → Settings → Settings
merged a b = record {
  tier_access = either b.tier_access a.tier_access;
  budget_usd_per_day = either b.budget_usd_per_day a.budget_usd_per_day;
  rps_limit = either b.rps_limit a.rps_limit;
  concurrent_limit = either b.concurrent_limit a.concurrent_limit;
  tokens_per_min = either b.tokens_per_min a.tokens_per_min;
  daily_token_limit = either b.daily_token_limit a.daily_token_limit;
  target_success_probability = either b.target_success_probability a.target_success_probability;
  plan_id = either b.plan_id a.plan_id;
}

pub is_nonzero : ℤ → Bool
is_nonzero (pos zero) = false
is_nonzero _ = true

-- The plan's quota over the merged settings, each limit that is not 0.
pub with_plan : Option PlanQuota → Settings → Settings
unfolding is_nonzero
with_plan none s = s
with_plan (some q) s = record s {
  daily_token_limit =
      if is_nonzero q.daily_token_limit then some q.daily_token_limit else s.daily_token_limit;
  budget_usd_per_day =
      if is_nonzero q.daily_usd_limit then some q.daily_usd_limit else s.budget_usd_per_day;
  target_success_probability =
      if q.required_success_probability == 0
      then s.target_success_probability
      else some q.required_success_probability;
}

-- The settings that a new state is built from: the config file's override alone, or else the
-- user's row over the defaults and the plan's quota over both.
pub effective : TenantManager → String → Settings → Option PlanQuota → Settings
unfolding with_plan
effective m tenant_id row plan = elim (Dict.lookup tenant_id m.preconfigured) [
  | some override ↦ merged m.defaults override
  | none ↦ with_plan plan (merged m.defaults row)
]

-- `get_or_create`, at the answers of `memory.get_or_create_user` and `get_tenant_plan_quota`
pub get_or_create :
    String → Settings → Option PlanQuota → ℕ → TenantManager → TenantState × TenantManager
unfolding build_state effective
get_or_create tenant_id row plan now m = elim (Dict.lookup tenant_id m.states) [
  | some st ↦ (st, m)
  | none ↦
      let st = build_state m.defaults tenant_id (effective m tenant_id row plan) now in
      (st, record m { states = Dict.insert tenant_id st m.states })
]

-- `reconfigure`
pub reconfigure : Settings → Dict Settings → TenantManager → TenantManager
reconfigure defaults preconfigured m = record {
  defaults = defaults;
  preconfigured = preconfigured;
  states = [];
}

-- `refresh`
pub refresh : String → Settings → Option PlanQuota → ℕ → TenantManager → TenantState × TenantManager
unfolding get_or_create
refresh tenant_id row plan now m =
    get_or_create tenant_id row plan now (record m { states = Dict.remove tenant_id m.states })

-- What the methods below raise; a wait is a fraction of microseconds.
pub data TenantError : Type 0 where
  budget_exceeded : TenantError
  rate_limited : ℕ × ℕ → TenantError

-- `check_rate_limit`: the wait is at least 0.05 seconds.
pub check_rate_limit : ℕ → ℕ → TenantState → Option TenantError × TenantState
unfolding consume time_to_available
check_rate_limit now later st =
    let (ok, b) = consume one_token now st.bucket in
    let (n, d) = time_to_available one_token later b in
    let st' : TenantState = record st { bucket = b } in
    if ok
    then (none, st')
    else (some (rate_limited (if ltb n (50_000 * d) then (50_000, 1) else (n, d))), st')

-- `check_budget`
pub check_budget : TenantState → ℤ → ℕ → List UsageRow → Option TenantError
check_budget st more now rows =
    if ltb_ℤ (pos 0) st.budget_usd_per_day
    then (if ltb_ℤ st.budget_usd_per_day (get_today_cost_spend st.tenant_id none now rows +ℤ more)
        then some budget_exceeded
        else none)
    else none

-- How `reserve_usage` tells the reasons apart by the words that they begin with.
abbrev pub error_of : Reason → TenantError
error_of daily_budget = budget_exceeded
error_of daily_token_limit = budget_exceeded
error_of model_token_limit = budget_exceeded
error_of model_usd_limit = budget_exceeded
error_of max_request_tokens = budget_exceeded
error_of requests_per_second = rate_limited (1_000_000, 1)
error_of tokens_per_minute = rate_limited (60_000_000, 1)

-- What a call says of the endpoint.
pub record ModelLimits : Type 0 where
  pub model_token_limit : ℤ
  pub model_usd_limit : ℤ
  pub max_request_tokens : ℤ

abbrev pub limits_of : TenantState → ModelLimits → Limits
limits_of st model = record {
  budget_limit_usd = st.budget_usd_per_day;
  rps_limit = pos st.rps_limit;
  token_limit_per_minute = st.tokens_per_min;
  daily_token_limit = st.daily_token_limit;
  model_token_limit = model.model_token_limit;
  model_usd_limit = model.model_usd_limit;
  max_request_tokens = model.max_request_tokens;
}

-- `reserve_usage` of the manager
pub reserve :
    TenantState
    → String
    → ModelLimits
    → Amounts
    → ℕ
    → ℕ
    → List UsageRow
    → Option TenantError × List UsageRow
reserve st endpoint model e now written rows =
    let (refused, rows') =
      reserve_usage st.tenant_id endpoint (limits_of st model) e now written rows in
    elim refused [ none ↦ (none, rows') | some reason ↦ (some (error_of reason), rows') ]

-- `remaining_tokens_today`; -1 is unlimited
pub remaining_tokens_today : TenantState → ℕ → List UsageRow → ℤ
remaining_tokens_today st now rows =
    if ltb_ℤ (pos 0) st.daily_token_limit
    then pos (pos_part (st.daily_token_limit -ℤ get_today_token_spend st.tenant_id none now rows))
    else negsuc 0

-- `remaining_model_tokens_today`, at the limit that the row of `model_token_limits` names
pub remaining_model_tokens_today : String → String → Option ℤ → ℕ → List UsageRow → ℤ
remaining_model_tokens_today tenant_id endpoint none now rows = negsuc 0
remaining_model_tokens_today tenant_id endpoint (some limit) now rows =
    if ltb_ℤ (pos 0) limit
    then pos (pos_part (limit -ℤ get_today_token_spend tenant_id (some endpoint) now rows))
    else negsuc 0

-- `allowed_models`; `none` is unrestricted
pub allowed_models : Option PlanQuota → Option (List String)
allowed_models none = none
allowed_models (some q) = elim q.allowed_models [ [] ↦ none | m ∷ ms ↦ some (m ∷ ms) ]

-- `can_access_tier`
unfoldable pub can_access_tier : TenantState → String → Bool
can_access_tier st tier = any (λ t. str_eq t tier) st.tier_access

-- `highest_accessible_tier`
unfoldable pub highest_accessible_tier : TenantState → List String → Option String
unfolding can_access_tier
highest_accessible_tier st [] = none
highest_accessible_tier st (t ∷ ts) =
    if can_access_tier st t then some t else highest_accessible_tier st ts
