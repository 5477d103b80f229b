-- ===== src/Tenant/Manager.antt =====
-- What the tenant manager's methods guarantee.
use ctrl_gateway.Prelude.{
  ℕ, ◌+◌, ◌≡◌, ◌≢◌, ◌↔◌, refl, String, Bool, true, false, Option, none, some, List, [], ◌∷◌, ◌++◌,
  arith, eq_iff, All, if◌then◌else◌, ◌==◌,
}
use ctrl_gateway.Prelude.Dict
use ctrl_gateway.Prelude.Int.{ℤ, pos, ◌+ℤ◌, ◌-ℤ◌, ◌*ℤ◌, ◌≤ℤ◌}
use ctrl_gateway.Usage.{UsageRow, exceeds, get_today_token_spend}
use ctrl_gateway.Tenant.Bucket.{TokenBucket, new_bucket, refilled}
use ctrl_gateway.Tenant.{
  Settings, PlanQuota, TenantState, TenantManager, build_state, effective, is_nonzero, with_plan,
  get_or_create, check_rate_limit, remaining_tokens_today, can_access_tier, highest_accessible_tier,
  cfg_or_default, either,
}

-- The first value that is there.
abbrev pub first_of {ℓ} : {A : Type ℓ} → List (Option A) → A → A
first_of [] fallback = fallback
first_of (some v ∷ os) fallback = v
first_of (none ∷ os) fallback = first_of os fallback

-- What the limits of a new state are, by precedence: `c` over the defaults `d`.
pub record HasLimits (st : TenantState) (c d : Settings) : Type 0 where
  pub tiers : st.tier_access ≡ first_of (c.tier_access ∷ d.tier_access ∷ []) []
  pub budget :
      st.budget_usd_per_day
      ≡ first_of (c.budget_usd_per_day ∷ d.budget_usd_per_day ∷ []) (pos 1_000_000)
  pub rps : st.rps_limit ≡ first_of (c.rps_limit ∷ d.rps_limit ∷ []) 100
  pub concurrent : st.concurrent_limit ≡ first_of (c.concurrent_limit ∷ d.concurrent_limit ∷ []) 20
  pub per_minute :
      st.tokens_per_min ≡ first_of (c.tokens_per_min ∷ d.tokens_per_min ∷ []) (pos 200_000)
  pub per_day :
      st.daily_token_limit ≡ first_of (c.daily_token_limit ∷ d.daily_token_limit ∷ []) (pos 0)
  pub target :
      st.target_success_probability
      ≡ first_of (c.target_success_probability ∷ d.target_success_probability ∷ []) 990_000

chain {ℓ} :
    {A : Type ℓ} (c d : Option A) (k : A)
    → cfg_or_default (either c d) d k ≡ first_of (c ∷ d ∷ []) k
chain (some v) d k = refl
chain none (some v) k = refl
chain none none k = refl

-- The same where a plan's limit may stand above both.
chain_plan {ℓ} :
    {A : Type ℓ} (b : Bool) (q : A) (c d : Option A) (k : A)
    → cfg_or_default (if b then some q else either c d) d k
      ≡ first_of ((if b then some q else c) ∷ d ∷ []) k
chain_plan true q c d k = refl
chain_plan false q c d k = chain c d k

chain_plan_not {ℓ} :
    {A : Type ℓ} (b : Bool) (q : A) (c d : Option A) (k : A)
    → cfg_or_default (if b then either c d else some q) d k
      ≡ first_of ((if b then c else some q) ∷ d ∷ []) k
chain_plan_not true q c d k = chain c d k
chain_plan_not false q c d k = refl

-- A tenant that the config file names, and that has no state yet, gets the limits of its override
-- where that has them, 0 and the empty list of tiers included, else those of the defaults. The
-- user's row and the plan play no part.
pub override_limits :
    (tenant_id : String) (row : Settings) (plan : Option PlanQuota) (now : ℕ) (m : TenantManager)
    (override : Settings)
    → Dict.lookup tenant_id m.states ≡ none
    → Dict.lookup tenant_id m.preconfigured ≡ some override
    → HasLimits (get_or_create tenant_id row plan now m).0 override m.defaults
unfolding get_or_create build_state effective
override_limits tenant_id row plan now m o new named =
    rw (new, get_or_create)
      (rw (named, effective)
        (record {
          tiers = chain o.tier_access m.defaults.tier_access _;
          budget = chain o.budget_usd_per_day m.defaults.budget_usd_per_day _;
          rps = chain o.rps_limit m.defaults.rps_limit _;
          concurrent = chain o.concurrent_limit m.defaults.concurrent_limit _;
          per_minute = chain o.tokens_per_min m.defaults.tokens_per_min _;
          per_day = chain o.daily_token_limit m.defaults.daily_token_limit _;
          target = chain o.target_success_probability m.defaults.target_success_probability _;
        }))

-- Any other tenant with no state yet gets the limits of its plan that are not 0, else those of its
-- user's row, else those of the defaults.
pub row_limits :
    (tenant_id : String) (row : Settings) (plan : Option PlanQuota) (now : ℕ) (m : TenantManager)
    → Dict.lookup tenant_id m.states ≡ none
    → Dict.lookup tenant_id m.preconfigured ≡ none
    → HasLimits (get_or_create tenant_id row plan now m).0 (with_plan plan row) m.defaults
unfolding get_or_create build_state effective with_plan
row_limits tenant_id row none now m new other =
    rw (new, get_or_create)
      (rw (other, effective)
        (record {
          tiers = chain row.tier_access m.defaults.tier_access _;
          budget = chain row.budget_usd_per_day m.defaults.budget_usd_per_day _;
          rps = chain row.rps_limit m.defaults.rps_limit _;
          concurrent = chain row.concurrent_limit m.defaults.concurrent_limit _;
          per_minute = chain row.tokens_per_min m.defaults.tokens_per_min _;
          per_day = chain row.daily_token_limit m.defaults.daily_token_limit _;
          target = chain row.target_success_probability m.defaults.target_success_probability _;
        }))
row_limits tenant_id row (some q) now m new other =
    rw (new, get_or_create)
      (rw (other, effective)
        (record {
          tiers = chain row.tier_access m.defaults.tier_access _;
          budget =
              chain_plan (is_nonzero q.daily_usd_limit) q.daily_usd_limit row.budget_usd_per_day
                m.defaults.budget_usd_per_day (pos 1_000_000);
          rps = chain row.rps_limit m.defaults.rps_limit _;
          concurrent = chain row.concurrent_limit m.defaults.concurrent_limit _;
          per_minute = chain row.tokens_per_min m.defaults.tokens_per_min _;
          per_day =
              chain_plan (is_nonzero q.daily_token_limit) q.daily_token_limit row.daily_token_limit
                m.defaults.daily_token_limit (pos 0);
          target =
              chain_plan_not (q.required_success_probability == 0) q.required_success_probability
                row.target_success_probability m.defaults.target_success_probability 990_000;
        }))

-- A state is built once: a second call returns it as it is, whatever the row, the plan and the time,
-- and no call touches the state of another tenant.
pub get_or_create_once :
    (tenant_id other : String) (row row' : Settings) (plan plan' : Option PlanQuota) (now later : ℕ)
    (m : TenantManager)
    → tenant_id ≢ other
    → ((get_or_create tenant_id row' plan' later (get_or_create tenant_id row plan now m).1).0
        ≡ (get_or_create tenant_id row plan now m).0)
      × (Dict.lookup other (get_or_create tenant_id row plan now m).1.states
          ≡ Dict.lookup other m.states)
unfolding get_or_create
get_or_create_once tenant_id other row row' plan plan' now later m ne = (
  grind (arith, Dict.lookup-insert_self),
  grind (arith, Dict.lookup-insert, eq_iff tenant_id other),
)

-- How many of the checks at the given times let the tenant through.
unfoldable pub allowed_checks : List (ℕ × ℕ) → TenantState → ℕ
allowed_checks [] st = 0
allowed_checks ((now, later) ∷ ts) st =
    let (error, st') = check_rate_limit now later st in
    elim error [ none ↦ 1 | some _ ↦ 0 ] + allowed_checks ts st'

refilled_empty :
    (now : ℕ) (b : TokenBucket)
    → b.rate ≡ 0
    → b.capacity ≡ 0
    → b.tokens ≡ pos 0
    → refilled now b ≡ pos 0
unfolding refilled ◌+ℤ◌ ◌*ℤ◌
refilled_empty now b r c e = ground arith

empty_refuses :
    (ts : List (ℕ × ℕ)) (st : TenantState)
    → st.bucket.rate ≡ 0
    → st.bucket.capacity ≡ 0
    → st.bucket.tokens ≡ pos 0
    → allowed_checks ts st ≡ 0
unfolding allowed_checks check_rate_limit
empty_refuses [] st r c e = refl
empty_refuses ((now, later) ∷ ts) st r c e =
    ground (arith, refilled_empty now st.bucket, empty_refuses ts (check_rate_limit now later st).1)

-- A tenant whose `rps_limit` is 0 is refused by every check of the rate limit, at whatever times.
pub zero_rps_refuses :
    (defaults cfg : Settings) (tenant_id : String) (start : ℕ) (ts : List (ℕ × ℕ))
    → cfg.rps_limit ≡ some 0
    → allowed_checks ts (build_state defaults tenant_id cfg start) ≡ 0
unfolding build_state new_bucket
zero_rps_refuses defaults cfg tenant_id start ts zero =
    empty_refuses ts _ (rw zero) (rw zero) (rw zero)

-- The tokens that the router sees as remaining agree with the guard of the ledger: under a daily
-- limit, a request for some tokens passes the guard exactly if it asks for no more than remain.
pub remaining_agrees :
    (st : TenantState) (n : ℤ) (now : ℕ) (rows : List UsageRow)
    → pos 1 ≤ℤ st.daily_token_limit
    → pos 1 ≤ℤ n
    → (n ≤ℤ remaining_tokens_today st now rows)
      ↔ (exceeds st.daily_token_limit (get_today_token_spend st.tenant_id none now rows) n ≡ false)
unfolding remaining_tokens_today ◌-ℤ◌ ◌+ℤ◌
remaining_agrees st n now rows limited some_tokens = ground arith

-- Among the candidates the first tier that the tenant may use is chosen.
pub highest_is_first :
    (st : TenantState) (before after : List String) (tier : String)
    → All (λ t. can_access_tier st t ≡ false) before
    → can_access_tier st tier ≡ true
    → highest_accessible_tier st (before ++ tier ∷ after) ≡ some tier
unfolding highest_accessible_tier
highest_is_first st [] after tier none_before ok = rw ok
highest_is_first st (t ∷ before) after tier none_before ok =
    rw (none_before.0) (highest_is_first st before after tier none_before.1 ok)
