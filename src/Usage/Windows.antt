-- ===== src/Usage/Windows.antt =====
-- A release outside the window of its reservation, in the sums of the last second and minute.
use ctrl_gateway.Prelude.{
  ℕ, ◌+◌, ◌≤◌, ◌<◌, ◌≡◌, String, Bool, true, false, none, List, [], ◌∷◌, ◌++◌, arith, eq_iff,
}
use ctrl_gateway.Prelude.Int.{ℤ, pos, ◌+ℤ◌, int_laws}
use ctrl_gateway.Usage.{
  UsageRow, total, tokens, since, requests_since, tokens_since, Limits, Amounts, estimated_tokens,
  reserve_usage, settle_reserved_usage,
}
use ctrl_gateway.Usage.Totals.{total-snoc, total-append, booked, reserved_rows, cancel}

-- Of two rows only the second passes the test of a sum.
one_sided :
    (test : UsageRow → Bool) (f : UsageRow → ℤ) (rows others : List UsageRow) (r s : UsageRow)
    (more : ℤ)
    → test r ≡ false
    → test s ≡ true
    → f s +ℤ more ≡ pos 0
    → total test f (((rows ++ r ∷ []) ++ others) ++ s ∷ []) +ℤ more ≡ total test f (rows ++ others)
one_sided test f rows others r s more pr ps e =
    rw (total-snoc, total-append, total-snoc, total-append)
      (rw (pr, ps) (cancel (total test f rows) (total test f others) (f s) more e))

module _ (tenant endpoint : String) (l : Limits) (e actual : Amounts) (checked written settled : ℕ)
    (rows others : List UsageRow) where
  -- A request that fails after its reservation has left a window, seen at a time when the release is
  -- in the window, makes the window's sums smaller by one request and by the reserved tokens than the
  -- requests in it: the limit admits that much more.
  pub late_release_widens_window :
      (span now : ℕ)
      → (reserve_usage tenant endpoint l e checked written rows).0 ≡ none
      → written + span < now
      → now ≤ settled + span
      → (requests_since tenant span now (
              settle_reserved_usage tenant endpoint e actual false settled
                ((reserve_usage tenant endpoint l e checked written rows).1 ++ others))
            +ℤ pos 1
          ≡ requests_since tenant span now (rows ++ others))
        × (tokens_since tenant span now (
                settle_reserved_usage tenant endpoint e actual false settled
                  ((reserve_usage tenant endpoint l e checked written rows).1 ++ others))
              +ℤ estimated_tokens e
            ≡ tokens_since tenant span now (rows ++ others))
  unfolding settle_reserved_usage
  late_release_widens_window span now h gone here =
      rw (reserved_rows tenant endpoint l e checked written rows h) (
        one_sided (since tenant span now) (λ r. r.request_count) rows others
            (booked tenant endpoint e written) _ (pos 1) (ground (arith, eq_iff tenant tenant))
            (ground (arith, eq_iff tenant tenant)) (omega int_laws),
        one_sided (since tenant span now) tokens rows others (booked tenant endpoint e written) _
            (estimated_tokens e) (ground (arith, eq_iff tenant tenant))
            (ground (arith, eq_iff tenant tenant)) (omega int_laws),
      )
