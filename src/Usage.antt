-- ===== src/Usage.antt =====
-- The usage ledger that quotas are checked against: `reserve_usage`, `settle_reserved_usage`,
-- `_insert_usage` and the sums over `usage_counters` of gateway/memory.py.
-- Times are microseconds since the epoch; a USD amount is a whole number of some fixed small unit.
pub mod Totals
pub mod Quotas
pub mod Settlement
mod Windows
mod Tests
use ctrl_gateway.Prelude.{
  ℕ, ◌+◌, ◌/◌, String, Bool, true, false, ◌&&◌, not, Option, none, some, List, [], ◌∷◌, ◌++◌, leb,
  ◌==◌, str_eq, if◌then◌else◌,
}
use ctrl_gateway.Prelude.Int.{ℤ, pos, pos_part, ◌+ℤ◌, ◌-ℤ◌, ltb_ℤ}

abbrev pub second : ℕ
second = 1_000_000

abbrev pub minute : ℕ
minute = 60_000_000

-- `strftime("%Y%m%d")`: two times have the same text exactly if they are on the same UTC day.
abbrev pub period_day_of : ℕ → ℕ
period_day_of t = t / 86_400_000_000

-- A row of `usage_counters`.
pub record UsageRow : Type 0 where
  pub tenant_id : String
  pub endpoint_name : String
  pub ts : ℕ
  pub period_day : ℕ
  pub tokens_in : ℤ
  pub tokens_out : ℤ
  pub cost_usd : ℤ
  pub request_count : ℤ

-- `coalesce(sum(f), 0)` over the rows that pass the `where` tests.
unfoldable pub total : (UsageRow → Bool) → (UsageRow → ℤ) → List UsageRow → ℤ
total test f [] = pos 0
total test f (r ∷ rows) = (if test r then f r else pos 0) +ℤ total test f rows

abbrev pub tokens : UsageRow → ℤ
tokens r = r.tokens_in +ℤ r.tokens_out

abbrev pub on_day : String → ℕ → UsageRow → Bool
on_day tenant day r = str_eq r.tenant_id tenant && (r.period_day == day)

abbrev pub on_day_at : String → String → ℕ → UsageRow → Bool
on_day_at tenant endpoint day r =
    str_eq r.tenant_id tenant && (str_eq r.endpoint_name endpoint && (r.period_day == day))

-- `ts >= now - span`
abbrev pub since : String → ℕ → ℕ → UsageRow → Bool
since tenant span now r = str_eq r.tenant_id tenant && leb now (r.ts + span)

-- `get_today_token_spend`, with and without an endpoint
abbrev pub get_today_token_spend : String → Option String → ℕ → List UsageRow → ℤ
get_today_token_spend tenant none now rows = total (on_day tenant (period_day_of now)) tokens rows
get_today_token_spend tenant (some endpoint) now rows =
    total (on_day_at tenant endpoint (period_day_of now)) tokens rows

-- `get_today_cost_spend`; without an endpoint it is `get_today_spend`
abbrev pub get_today_cost_spend : String → Option String → ℕ → List UsageRow → ℤ
get_today_cost_spend tenant none now rows =
    total (on_day tenant (period_day_of now)) (λ r. r.cost_usd) rows
get_today_cost_spend tenant (some endpoint) now rows =
    total (on_day_at tenant endpoint (period_day_of now)) (λ r. r.cost_usd) rows

abbrev pub requests_since : String → ℕ → ℕ → List UsageRow → ℤ
requests_since tenant span now rows = total (since tenant span now) (λ r. r.request_count) rows

abbrev pub tokens_since : String → ℕ → ℕ → List UsageRow → ℤ
tokens_since tenant span now rows = total (since tenant span now) tokens rows

-- The limits of one call; 0 or less is unlimited.
pub record Limits : Type 0 where
  pub budget_limit_usd : ℤ
  pub rps_limit : ℤ
  pub token_limit_per_minute : ℤ
  pub daily_token_limit : ℤ
  pub model_token_limit : ℤ
  pub model_usd_limit : ℤ
  pub max_request_tokens : ℤ

-- What a request is expected to use, or used.
pub record Amounts : Type 0 where
  pub tokens_in : ℤ
  pub tokens_out : ℤ
  pub cost_usd : ℤ

-- The reason that a refusal names.
pub data Reason : Type 0 where
  max_request_tokens daily_token_limit daily_budget model_token_limit : Reason
  model_usd_limit requests_per_second tokens_per_minute : Reason

-- `max(0, n)`
abbrev pub at_least_zero : ℤ → ℤ
at_least_zero z = pos (pos_part z)

-- `_insert_usage`, at its own reading of the clock
unfoldable pub insert_usage : String → String → Amounts → ℤ → ℕ → List UsageRow → List UsageRow
insert_usage tenant endpoint a count now rows =
    rows
    ++ record {
      tenant_id = tenant;
      endpoint_name = endpoint;
      ts = now;
      period_day = period_day_of now;
      tokens_in = a.tokens_in;
      tokens_out = a.tokens_out;
      cost_usd = a.cost_usd;
      request_count = count;
    }
      ∷ []

-- `limit > 0 and spent + more > limit`
abbrev pub exceeds : ℤ → ℤ → ℤ → Bool
exceeds limit spent more = ltb_ℤ (pos 0) limit && ltb_ℤ limit (spent +ℤ more)

abbrev pub estimated_tokens : Amounts → ℤ
estimated_tokens e = at_least_zero e.tokens_in +ℤ at_least_zero e.tokens_out

-- The guards of `reserve_usage`, in their order: a test, and the reason if it is met.
abbrev pub guards : String → String → Limits → Amounts → ℕ → List UsageRow → List (Bool × Reason)
guards tenant endpoint l e now rows =
    let n = estimated_tokens e in
    (ltb_ℤ (pos 0) l.max_request_tokens && ltb_ℤ l.max_request_tokens n, max_request_tokens)
    ∷ (
      exceeds l.daily_token_limit (get_today_token_spend tenant none now rows) n,
      daily_token_limit,
    )
    ∷ (
      exceeds l.budget_limit_usd (get_today_cost_spend tenant none now rows) e.cost_usd,
      daily_budget,
    )
    ∷ (
      exceeds l.model_token_limit (get_today_token_spend tenant (some endpoint) now rows) n,
      model_token_limit,
    )
    ∷ (
      exceeds l.model_usd_limit (get_today_cost_spend tenant (some endpoint) now rows) e.cost_usd,
      model_usd_limit,
    )
    ∷ (
      ltb_ℤ (pos 0) l.rps_limit && not (ltb_ℤ (requests_since tenant second now rows) l.rps_limit),
      requests_per_second,
    )
    ∷ (exceeds l.token_limit_per_minute (tokens_since tenant minute now rows) n, tokens_per_minute)
    ∷ []

-- Each guard returns at once if its test is met.
unfoldable pub first_met : List (Bool × Reason) → Option Reason
first_met [] = none
first_met ((met, reason) ∷ rest) = if met then some reason else first_met rest

unfoldable pub refusal : String → String → Limits → Amounts → ℕ → List UsageRow → Option Reason
unfolding first_met
refusal tenant endpoint l e now rows = first_met (guards tenant endpoint l e now rows)

-- `reserve_usage`, one transaction: the refusal, if any, and the rows after it. `now` is read at
-- its start and `written` by the insertion.
unfoldable pub reserve_usage :
    String → String → Limits → Amounts → ℕ → ℕ → List UsageRow → Option Reason × List UsageRow
unfolding insert_usage
reserve_usage tenant endpoint l e now written rows = elim (refusal tenant endpoint l e now rows) [
  | some reason ↦ (some reason, rows)
  | none ↦ (
    none,
    insert_usage tenant endpoint
        (record {
          tokens_in = at_least_zero e.tokens_in;
          tokens_out = at_least_zero e.tokens_out;
          cost_usd = at_least_zero e.cost_usd;
        })
        (pos 1) written rows,
  )
]

-- `settle_reserved_usage`
unfoldable pub settle_reserved_usage :
    String → String → Amounts → Amounts → Bool → ℕ → List UsageRow → List UsageRow
unfolding insert_usage
settle_reserved_usage tenant endpoint reserved actual completed now rows =
    let difference : (ℤ → ℤ → ℤ) = λ a r. at_least_zero a -ℤ at_least_zero r in
    if completed
    then insert_usage tenant endpoint
        (record {
          tokens_in = difference actual.tokens_in reserved.tokens_in;
          tokens_out = difference actual.tokens_out reserved.tokens_out;
          cost_usd = difference actual.cost_usd reserved.cost_usd;
        })
        (pos 0) now rows
    else insert_usage tenant endpoint
        (record {
          tokens_in = pos 0 -ℤ at_least_zero reserved.tokens_in;
          tokens_out = pos 0 -ℤ at_least_zero reserved.tokens_out;
          cost_usd = pos 0 -ℤ at_least_zero reserved.cost_usd;
        })
        (pos 0 -ℤ pos 1) now rows
