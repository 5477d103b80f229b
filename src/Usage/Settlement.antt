-- ===== src/Usage/Settlement.antt =====
-- A reservation and its settlement together: `reserve_usage`, then `settle_reserved_usage`.
use ctrl_gateway.Prelude.{
  ℕ, ◌≡◌, refl, String, Bool, true, false, none, some, List, [], ◌∷◌, ◌++◌, arith, eq_iff,
}
use ctrl_gateway.Prelude.Int.{ℤ, pos, ◌+ℤ◌, int_laws}
use ctrl_gateway.Usage.{
  period_day_of, UsageRow, total, tokens, on_day, on_day_at, get_today_token_spend,
  get_today_cost_spend, Limits, Amounts, at_least_zero, reserve_usage, settle_reserved_usage,
}
use ctrl_gateway.Usage.Totals.{total-snoc, total-append, booked, reserved_rows}

-- Two rows that pass a sum's test, with other rows between them, add their two values.
net :
    (test : UsageRow → Bool) (f : UsageRow → ℤ) (rows others : List UsageRow) (r s : UsageRow)
    {change : ℤ}
    → test r ≡ true
    → test s ≡ true
    → f r +ℤ f s ≡ change
    → total test f (((rows ++ r ∷ []) ++ others) ++ s ∷ [])
      ≡ total test f (rows ++ others) +ℤ change
net test f rows others r s pr ps e =
    rw (← e)
      (rw (total-snoc, total-append, total-snoc, total-append) (rw (pr, ps) (omega int_laws)))

-- What a settled request adds to the tenant's day and to that of its endpoint.
pub record IsSettled (tenant endpoint : String) (now : ℕ) (rows before : List UsageRow)
    (used : Amounts) : Type 0 where
  pub day_tokens :
      get_today_token_spend tenant none now rows
      ≡ get_today_token_spend tenant none now before +ℤ (used.tokens_in +ℤ used.tokens_out)
  pub day_usd :
      get_today_cost_spend tenant none now rows
      ≡ get_today_cost_spend tenant none now before +ℤ used.cost_usd
  pub model_tokens :
      get_today_token_spend tenant (some endpoint) now rows
      ≡ get_today_token_spend tenant (some endpoint) now before
        +ℤ (used.tokens_in +ℤ used.tokens_out)
  pub model_usd :
      get_today_cost_spend tenant (some endpoint) now rows
      ≡ get_today_cost_spend tenant (some endpoint) now before +ℤ used.cost_usd

-- What counts of a request: nothing if it failed, else what it used, negative amounts as 0.
abbrev pub counted : Bool → Amounts → Amounts
counted true a = record {
  tokens_in = at_least_zero a.tokens_in;
  tokens_out = at_least_zero a.tokens_out;
  cost_usd = at_least_zero a.cost_usd;
}
counted false a = record { tokens_in = pos 0; tokens_out = pos 0; cost_usd = pos 0 }

on_day_self :
    (tenant : String) (day : ℕ) (r : UsageRow)
    → r.tenant_id ≡ tenant
    → r.period_day ≡ day
    → on_day tenant day r ≡ true
on_day_self tenant day r e f = ground (arith, eq_iff r.tenant_id tenant)

on_day_at_self :
    (tenant endpoint : String) (day : ℕ) (r : UsageRow)
    → r.tenant_id ≡ tenant
    → r.endpoint_name ≡ endpoint
    → r.period_day ≡ day
    → on_day_at tenant endpoint day r ≡ true
on_day_at_self tenant endpoint day r e g f =
    ground (arith, eq_iff r.tenant_id tenant, eq_iff r.endpoint_name endpoint)

-- The sums over a reservation's row and a settling row `s` on the same day.
rows-IsSettled :
    (tenant endpoint : String) (e : Amounts) (written : ℕ) (rows others : List UsageRow)
    (s : UsageRow) (used : Amounts)
    → s.period_day ≡ period_day_of written
    → s.tenant_id ≡ tenant
    → s.endpoint_name ≡ endpoint
    → tokens (booked tenant endpoint e written) +ℤ tokens s ≡ used.tokens_in +ℤ used.tokens_out
    → at_least_zero e.cost_usd +ℤ s.cost_usd ≡ used.cost_usd
    → IsSettled tenant endpoint written
        (((rows ++ booked tenant endpoint e written ∷ []) ++ others) ++ s ∷ [])
        (rows ++ others)
        used
rows-IsSettled tenant endpoint e written rows others s used day st se ts cs =
    let r : UsageRow = booked tenant endpoint e written in
    let d = period_day_of written in
    let p : on_day tenant d r ≡ true = on_day_self tenant d r refl refl in
    let p' : on_day tenant d s ≡ true = on_day_self tenant d s st day in
    let q : on_day_at tenant endpoint d r ≡ true =
      on_day_at_self tenant endpoint d r refl refl refl in
    let q' : on_day_at tenant endpoint d s ≡ true = on_day_at_self tenant endpoint d s st se day in
    record {
      day_tokens = net (on_day tenant d) tokens rows others r s p p' ts;
      day_usd = net (on_day tenant d) (λ x. x.cost_usd) rows others r s p p' cs;
      model_tokens = net (on_day_at tenant endpoint d) tokens rows others r s q q' ts;
      model_usd = net (on_day_at tenant endpoint d) (λ x. x.cost_usd) rows others r s q q' cs;
    }

module _ (tenant endpoint : String) (l : Limits) (e actual : Amounts) (now written settled : ℕ)
    (rows others : List UsageRow) where
  -- A request that is reserved and settled on one day adds to that day's sums, of its tenant and of
  -- its endpoint, exactly what it used, or nothing if it failed, whatever other rows came between.
  pub settle-reserve :
      (completed : Bool)
      → (reserve_usage tenant endpoint l e now written rows).0 ≡ none
      → period_day_of settled ≡ period_day_of written
      → IsSettled tenant endpoint written
          (settle_reserved_usage tenant endpoint e actual completed settled
            ((reserve_usage tenant endpoint l e now written rows).1 ++ others))
          (rows ++ others)
          (counted completed actual)
  unfolding settle_reserved_usage
  settle-reserve true h same = rw (reserved_rows tenant endpoint l e now written rows h) (
      rows-IsSettled tenant endpoint e written rows others _ _ same refl refl (omega int_laws)
        (omega int_laws))
  settle-reserve false h same = rw (reserved_rows tenant endpoint l e now written rows h) (
      rows-IsSettled tenant endpoint e written rows others _ _ same refl refl (omega int_laws)
        (omega int_laws))
