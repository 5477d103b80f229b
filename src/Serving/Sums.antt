-- ===== src/Serving/Sums.antt =====
-- The sums over a ledger after a reservation, the rows of others and a settlement.
use ctrl_gateway.Prelude.{
  ℕ, ◌≡◌, refl, ap, ◌∙◌, inl, inr, String, Bool, none, some, List, [], ◌∷◌, ◌++◌, arith, str_eq,
  eq_iff, Bool-cases, if◌then◌else◌,
}
use ctrl_gateway.Prelude.Int.{ℤ, pos, ◌+ℤ◌, int_laws}
use ctrl_gateway.Usage.{
  period_day_of, UsageRow, total, tokens, on_day, on_day_at, get_today_token_spend,
  get_today_cost_spend, Amounts,
}
use ctrl_gateway.Usage.Totals.{total-snoc, total-append, share}
use ctrl_gateway.Serving.{no_amounts}

-- The day's sums of a tenant, and of each of its endpoints, are those of `before` with the use of
-- one endpoint added.
pub record IsCharged (tenant endpoint : String) (now : ℕ) (rows before : List UsageRow)
    (used : Amounts) : Type 0 where
  pub day_tokens :
      get_today_token_spend tenant none now rows
      ≡ get_today_token_spend tenant none now before +ℤ (used.tokens_in +ℤ used.tokens_out)
  pub day_usd :
      get_today_cost_spend tenant none now rows
      ≡ get_today_cost_spend tenant none now before +ℤ used.cost_usd
  pub model_tokens :
      (k : String)
      → get_today_token_spend tenant (some k) now rows
        ≡ get_today_token_spend tenant (some k) now before
          +ℤ (if str_eq endpoint k then used.tokens_in +ℤ used.tokens_out else pos 0)
  pub model_usd :
      (k : String)
      → get_today_cost_spend tenant (some k) now rows
        ≡ get_today_cost_spend tenant (some k) now before
          +ℤ (if str_eq endpoint k then used.cost_usd else pos 0)

-- A row of the tenant, of the endpoint and of the day.
abbrev pub IsRow : String → String → ℕ → UsageRow → Type 0
IsRow tenant endpoint d r =
    (r.tenant_id ≡ tenant) × (r.endpoint_name ≡ endpoint) × (r.period_day ≡ d)

-- Rows added before and after those of others.
add_two :
    (test : UsageRow → Bool) (f : UsageRow → ℤ) (rows others : List UsageRow) (r s : UsageRow)
    {change : ℤ}
    → share test f r +ℤ share test f s ≡ change
    → total test f (((rows ++ r ∷ []) ++ others) ++ s ∷ [])
      ≡ total test f (rows ++ others) +ℤ change
add_two test f rows others r s e =
    rw (← e) (rw (total-snoc, total-append, total-snoc, total-append) (omega int_laws))

add_third :
    (test : UsageRow → Bool) (f : UsageRow → ℤ) (rows before : List UsageRow) (t : UsageRow)
    {change : ℤ}
    → total test f rows ≡ total test f before +ℤ pos 0
    → share test f t ≡ change
    → total test f (rows ++ t ∷ []) ≡ total test f before +ℤ change
add_third test f rows before t e e' = rw (total-snoc, e, e') (omega int_laws)

share_day :
    (tenant endpoint : String) (d : ℕ) (r : UsageRow) (f : UsageRow → ℤ)
    → IsRow tenant endpoint d r
    → share (on_day tenant d) f r ≡ f r
share_day tenant endpoint d r f h = ground (arith, h, eq_iff r.tenant_id tenant)

share_at :
    (tenant endpoint k : String) (d : ℕ) (r : UsageRow) (f : UsageRow → ℤ)
    → IsRow tenant endpoint d r
    → share (on_day_at tenant k d) f r ≡ (if str_eq endpoint k then f r else pos 0)
share_at tenant endpoint k d r f h =
    let placed : str_eq r.endpoint_name k ≡ str_eq endpoint k = ap (λ n. str_eq n k) h.1 in
    ground (arith, h.0, h.2, placed, eq_iff r.tenant_id tenant)

-- The shares of a reservation and its settlement.
module _ (tenant endpoint : String) (d : ℕ) (r s : UsageRow) (hr : IsRow tenant endpoint d r)
    (hs : IsRow tenant endpoint d s) where
  pair_day :
      (f : UsageRow → ℤ) {used : ℤ}
      → f r +ℤ f s ≡ used
      → share (on_day tenant d) f r +ℤ share (on_day tenant d) f s ≡ used
  pair_day f e = rw (share_day tenant endpoint d r f hr, share_day tenant endpoint d s f hs) e

  pair_at :
      (f : UsageRow → ℤ) (k : String) {used : ℤ}
      → f r +ℤ f s ≡ used
      → share (on_day_at tenant k d) f r +ℤ share (on_day_at tenant k d) f s
        ≡ (if str_eq endpoint k then used else pos 0)
  unfolding ◌+ℤ◌
  pair_at f k e =
      rw (share_at tenant endpoint k d r f hr, share_at tenant endpoint k d s f hs)
        (elim (Bool-cases (str_eq endpoint k)) [ inl y ↦ rw y e | inr n ↦ rw n refl ])

abbrev pub cost : UsageRow → ℤ
cost r = r.cost_usd

-- A reservation and a second row at the same endpoint.
pub settled-IsCharged :
    (tenant endpoint : String) (written : ℕ) (rows others : List UsageRow) (r s : UsageRow)
    (used : Amounts)
    → IsRow tenant endpoint (period_day_of written) r
    → IsRow tenant endpoint (period_day_of written) s
    → tokens r +ℤ tokens s ≡ used.tokens_in +ℤ used.tokens_out
    → cost r +ℤ cost s ≡ used.cost_usd
    → IsCharged tenant endpoint written
        (((rows ++ r ∷ []) ++ others) ++ s ∷ [])
        (rows ++ others)
        used
settled-IsCharged tenant endpoint written rows others r s used hr hs ts cs =
    let d = period_day_of written in
    record {
      day_tokens =
          add_two (on_day tenant d) tokens rows others r s
            (pair_day tenant endpoint d r s hr hs tokens ts);
      day_usd =
          add_two (on_day tenant d) cost rows others r s
            (pair_day tenant endpoint d r s hr hs cost cs);
      model_tokens = λ k.
          add_two (on_day_at tenant k d) tokens rows others r s
            (pair_at tenant endpoint d r s hr hs tokens k ts);
      model_usd = λ k.
          add_two (on_day_at tenant k d) cost rows others r s
            (pair_at tenant endpoint d r s hr hs cost k cs);
    }

if_zero : (b : Bool) → (if b then pos 0 else pos 0) ≡ pos 0
if_zero b = ground arith

-- A reservation that is released, and a row at the endpoint that answered.
pub moved-IsCharged :
    (tenant endpoint actual : String) (written : ℕ) (rows before : List UsageRow) (t : UsageRow)
    (used : Amounts)
    → IsCharged tenant endpoint written rows before no_amounts
    → IsRow tenant actual (period_day_of written) t
    → tokens t ≡ used.tokens_in +ℤ used.tokens_out
    → cost t ≡ used.cost_usd
    → IsCharged tenant actual written (rows ++ t ∷ []) before used
unfolding ◌+ℤ◌
moved-IsCharged tenant endpoint actual written rows before t used h ht ts cs =
    let d = period_day_of written in
    record {
      day_tokens =
          add_third (on_day tenant d) tokens rows before t h.day_tokens
            (share_day tenant actual d t tokens ht ∙ ts);
      day_usd =
          add_third (on_day tenant d) cost rows before t h.day_usd
            (share_day tenant actual d t cost ht ∙ cs);
      model_tokens = λ k.
          add_third (on_day_at tenant k d) tokens rows before t
            (h.model_tokens k
              ∙ ap (λ z. get_today_token_spend tenant (some k) written before +ℤ z)
                  (if_zero (str_eq endpoint k)))
            (share_at tenant actual k d t tokens ht
              ∙ ap (λ z. if str_eq actual k then z else pos 0) ts);
      model_usd = λ k.
          add_third (on_day_at tenant k d) cost rows before t
            (h.model_usd k
              ∙ ap (λ z. get_today_cost_spend tenant (some k) written before +ℤ z)
                  (if_zero (str_eq endpoint k)))
            (share_at tenant actual k d t cost ht
              ∙ ap (λ z. if str_eq actual k then z else pos 0) cs);
    }
