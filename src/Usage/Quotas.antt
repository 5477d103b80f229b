-- ===== src/Usage/Quotas.antt =====
-- What `reserve_usage` guarantees: the quotas hold after a reservation, and a refusal names a quota
-- that the request would have broken.
use native.Mathlib.Nat.{le_refl}
use ctrl_gateway.Prelude.{
  ℕ, ◌≡◌, refl, ◌⊎◌, inl, inr, String, Bool, true, false, not, ◌&&◌, none, some, List, [], ◌∷◌,
  ◌++◌, arith, Bool-cases, All, subst,
}
use ctrl_gateway.Prelude.Int.{ℤ, pos, ◌+ℤ◌, ◌≤ℤ◌, ltb_ℤ, int_laws}
use ctrl_gateway.Usage.{
  second, minute, UsageRow, total, tokens, get_today_token_spend, get_today_cost_spend,
  requests_since, tokens_since, Limits, Amounts, Reason, max_request_tokens, daily_token_limit,
  daily_budget, model_token_limit, model_usd_limit, requests_per_second, tokens_per_minute,
  at_least_zero, estimated_tokens, exceeds, guards, first_met, refusal, reserve_usage,
}
use ctrl_gateway.Usage.Totals.{booked, reserved_rows, share, total-snoc}

-- A limit that is 0 or less is no limit.
abbrev pub Within : ℤ → ℤ → Type 0
Within limit amount = (limit ≤ℤ pos 0) ⊎ (amount ≤ℤ limit)

-- Every quota that the ledger decides holds for the tenant and the endpoint at `now`.
pub record IsWithin (tenant endpoint : String) (l : Limits) (now : ℕ) (rows : List UsageRow)
    : Type 0 where
  pub daily_tokens : Within l.daily_token_limit (get_today_token_spend tenant none now rows)
  pub daily_usd : Within l.budget_limit_usd (get_today_cost_spend tenant none now rows)
  pub model_tokens :
      Within l.model_token_limit (get_today_token_spend tenant (some endpoint) now rows)
  pub model_usd : Within l.model_usd_limit (get_today_cost_spend tenant (some endpoint) now rows)
  pub requests : Within l.rps_limit (requests_since tenant second now rows)
  pub tokens_a_minute : Within l.token_limit_per_minute (tokens_since tenant minute now rows)

-- A request for `more` would push a limited amount over its limit.
abbrev pub Over : ℤ → ℤ → ℤ → Type 0
Over limit spent more = (pos 1 ≤ℤ limit) × (limit +ℤ pos 1 ≤ℤ spent +ℤ more)

share_le :
    (test : UsageRow → Bool) (f : UsageRow → ℤ) (r : UsageRow) (more : ℤ)
    → pos 0 ≤ℤ more
    → f r ≤ℤ more
    → share test f r ≤ℤ more
share_le test f r more nonneg le = elim (Bool-cases (test r)) [
  | inl e ↦ rw e le
  | inr e ↦ rw e nonneg
]

-- A guard that passed, and a row that adds no more than was asked for, leave the quota kept.
kept :
    (test : UsageRow → Bool) (f : UsageRow → ℤ) (rows : List UsageRow) (r : UsageRow)
    (limit more : ℤ)
    → Within limit (total test f rows +ℤ more)
    → pos 0 ≤ℤ more
    → f r ≤ℤ more
    → Within limit (total test f (rows ++ r ∷ []))
kept test f rows r limit more (inl free) nonneg le = inl free
kept test f rows r limit more (inr room) nonneg le =
    rw (total-snoc test f rows r) (inr (omega (int_laws, share_le test f r more nonneg le)))

exceeds-Within :
    (limit spent more : ℤ) → exceeds limit spent more ≡ false → Within limit (spent +ℤ more)
exceeds-Within limit spent more h = ground arith

exceeds-Over : (limit spent more : ℤ) → exceeds limit spent more ≡ true → Over limit spent more
unfolding ◌+ℤ◌
exceeds-Over limit spent more h = ground arith

exceeds_alone-Over :
    (limit more : ℤ) → (ltb_ℤ (pos 0) limit && ltb_ℤ limit more) ≡ true → Over limit (pos 0) more
unfolding ◌+ℤ◌
exceeds_alone-Over limit more h = ground arith

reached-Over :
    (limit spent : ℤ)
    → (ltb_ℤ (pos 0) limit && not (ltb_ℤ spent limit)) ≡ true
    → Over limit spent (pos 1)
unfolding ◌+ℤ◌
reached-Over limit spent h = ground arith

reached-Within :
    (limit spent : ℤ)
    → (ltb_ℤ (pos 0) limit && not (ltb_ℤ spent limit)) ≡ false
    → Within limit (spent +ℤ pos 1)
unfolding ◌+ℤ◌
reached-Within limit spent h = ground arith

first_met-none : (gs : List (Bool × Reason)) → first_met gs ≡ none → All (λ g. g.0 ≡ false) gs
unfolding first_met
first_met-none [] h = tt
first_met-none ((met, reason) ∷ gs) h = elim (Bool-cases met) [
  | inl e ↦ absurd (ground arith)
  | inr e ↦ (e, first_met-none gs (ground arith))
]

first_met-some :
    (P : Reason → Type 0) (gs : List (Bool × Reason)) (reason : Reason)
    → All (λ g. g.0 ≡ true → P g.1) gs
    → first_met gs ≡ some reason
    → P reason
unfolding first_met
first_met-some P [] reason all h = cc
first_met-some P ((true, r) ∷ gs) reason all h =
    let same : r ≡ reason = ground arith in subst P same (all.0 refl)
first_met-some P ((false, r) ∷ gs) reason all h = first_met-some P gs reason all.1 h

at_least_zero-le : (z : ℤ) → pos 0 ≤ℤ z → at_least_zero z ≤ℤ z
at_least_zero-le z h = ground arith

estimated_nonneg : (e : Amounts) → pos 0 ≤ℤ estimated_tokens e
estimated_nonneg e = omega int_laws

module _ (tenant endpoint : String) (l : Limits) (e : Amounts) (now : ℕ)
    (rows : List UsageRow) where
  -- The condition under which the request breaks the quota that a reason names.
  abbrev pub Breaks : Reason → Type 0
  Breaks max_request_tokens = Over l.max_request_tokens (pos 0) (estimated_tokens e)
  Breaks daily_token_limit =
      Over l.daily_token_limit (get_today_token_spend tenant none now rows) (estimated_tokens e)
  Breaks daily_budget =
      Over l.budget_limit_usd (get_today_cost_spend tenant none now rows) e.cost_usd
  Breaks model_token_limit =
      Over l.model_token_limit (get_today_token_spend tenant (some endpoint) now rows)
        (estimated_tokens e)
  Breaks model_usd_limit =
      Over l.model_usd_limit (get_today_cost_spend tenant (some endpoint) now rows) e.cost_usd
  Breaks requests_per_second = Over l.rps_limit (requests_since tenant second now rows) (pos 1)
  Breaks tokens_per_minute =
      Over l.token_limit_per_minute (tokens_since tenant minute now rows) (estimated_tokens e)

  guards-Breaks : All (λ g. g.0 ≡ true → Breaks g.1) (guards tenant endpoint l e now rows)
  guards-Breaks = (
    exceeds_alone-Over l.max_request_tokens (estimated_tokens e),
    (
      exceeds-Over _ _ _,
      (
        exceeds-Over _ _ _,
        (exceeds-Over _ _ _, (exceeds-Over _ _ _, (reached-Over _ _, (exceeds-Over _ _ _, tt)))),
      ),
    ),
  )

  -- A refused reservation leaves the ledger as it is, and its reason names a quota that is set and
  -- that the request would have pushed over its limit.
  pub refused-Breaks :
      (written : ℕ) (reason : Reason)
      → (reserve_usage tenant endpoint l e now written rows).0 ≡ some reason
      → ((reserve_usage tenant endpoint l e now written rows).1 ≡ rows) × Breaks reason
  unfolding reserve_usage refusal
  refused-Breaks written reason h =
      let refused : refusal tenant endpoint l e now rows ≡ some reason = ground arith in
      (
        ground arith,
        first_met-some Breaks (guards tenant endpoint l e now rows) reason guards-Breaks refused,
      )

  -- After a reservation every quota that the ledger decides holds at the time of the check, whatever
  -- the ledger was before, if the estimated cost is not negative.
  pub reserved-IsWithin :
      (written : ℕ)
      → pos 0 ≤ℤ e.cost_usd
      → (reserve_usage tenant endpoint l e now written rows).0 ≡ none
      → IsWithin tenant endpoint l now (reserve_usage tenant endpoint l e now written rows).1
  unfolding reserve_usage refusal
  reserved-IsWithin written nonneg h =
      let passed : refusal tenant endpoint l e now rows ≡ none = ground arith in
      let all = first_met-none (guards tenant endpoint l e now rows) passed in
      let row : UsageRow = booked tenant endpoint e written in
      let n = estimated_tokens e in
      let (_, (days, (usd, (models, (model_usd, (rps, (tpm, _))))))) = all in
      rw (reserved_rows tenant endpoint l e now written rows h) (record {
        daily_tokens =
            kept _ tokens rows row _ n (exceeds-Within _ _ _ days) (estimated_nonneg e) (le_refl _);
        daily_usd =
            kept _ (λ r. r.cost_usd) rows row _ e.cost_usd (exceeds-Within _ _ _ usd) nonneg
              (at_least_zero-le e.cost_usd nonneg);
        model_tokens =
            kept _ tokens rows row _ n (exceeds-Within _ _ _ models) (estimated_nonneg e)
              (le_refl _);
        model_usd =
            kept _ (λ r. r.cost_usd) rows row _ e.cost_usd (exceeds-Within _ _ _ model_usd) nonneg
              (at_least_zero-le e.cost_usd nonneg);
        requests =
            kept _ (λ r. r.request_count) rows row _ (pos 1) (reached-Within _ _ rps) (omega arith)
              (le_refl _);
        tokens_a_minute =
            kept _ tokens rows row _ n (exceeds-Within _ _ _ tpm) (estimated_nonneg e) (le_refl _);
      })
