-- ===== src/Usage/Totals.antt =====
-- Sums over the ledger after an insertion.
use ctrl_gateway.Prelude.{ap, none, ℕ, ◌≡◌, String, Bool, List, [], ◌∷◌, ◌++◌, arith, if◌then◌else◌}
use ctrl_gateway.Prelude.Int.{pos_part, neg_part, ℤ, pos, ◌+ℤ◌, int_laws, eq_of_parts}
use ctrl_gateway.Usage.{
  UsageRow, total, Limits, Amounts, period_day_of, at_least_zero, reserve_usage,
}

zero-+ℤ : (a : ℤ) → pos 0 +ℤ a ≡ a
zero-+ℤ a = omega int_laws

+ℤ-zero : (a : ℤ) → a +ℤ pos 0 ≡ a
+ℤ-zero a = omega int_laws

-- What one row adds to a sum.
abbrev pub share : (UsageRow → Bool) → (UsageRow → ℤ) → UsageRow → ℤ
share test f r = if test r then f r else pos 0

pub total-snoc :
    (test : UsageRow → Bool) (f : UsageRow → ℤ) (rows : List UsageRow) (r : UsageRow)
    → total test f (rows ++ r ∷ []) ≡ total test f rows +ℤ share test f r
unfolding total
total-snoc test f [] r = omega int_laws
total-snoc test f (x ∷ rows) r = rw (total-snoc test f rows r) (omega int_laws)

-- The row of a reservation.
abbrev pub booked : String → String → Amounts → ℕ → UsageRow
booked tenant endpoint e written = record {
  tenant_id = tenant;
  endpoint_name = endpoint;
  ts = written;
  period_day = period_day_of written;
  tokens_in = at_least_zero e.tokens_in;
  tokens_out = at_least_zero e.tokens_out;
  cost_usd = at_least_zero e.cost_usd;
  request_count = pos 1;
}

pub reserved_rows :
    (tenant endpoint : String) (l : Limits) (e : Amounts) (now written : ℕ) (rows : List UsageRow)
    → (reserve_usage tenant endpoint l e now written rows).0 ≡ none
    → (reserve_usage tenant endpoint l e now written rows).1
      ≡ rows ++ booked tenant endpoint e written ∷ []
unfolding reserve_usage
reserved_rows tenant endpoint l e now written rows h = ground arith

pub total-append :
    (test : UsageRow → Bool) (f : UsageRow → ℤ) (rows others : List UsageRow)
    → total test f (rows ++ others) ≡ total test f rows +ℤ total test f others
unfolding total
total-append test f [] others = omega int_laws
total-append test f (x ∷ rows) others = rw (total-append test f rows others) (omega int_laws)

pub cancel : (a b c d : ℤ) → c +ℤ d ≡ pos 0 → a +ℤ pos 0 +ℤ b +ℤ c +ℤ d ≡ a +ℤ b
cancel a b c d e = eq_of_parts _ _ (omega (int_laws, ap pos_part e, ap neg_part e))
