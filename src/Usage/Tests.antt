-- ===== src/Usage/Tests.antt =====
-- Reservations and settlements on a small ledger, and the theorems at inputs where their
-- hypotheses hold.
use ctrl_gateway.Prelude.{ℕ, ◌+◌, ◌≡◌, refl, false, none, some, List, [], ◌++◌, arith}
use ctrl_gateway.Prelude.Int.{pos, ◌+ℤ◌, ◌-ℤ◌}
use ctrl_gateway.Usage.{
  UsageRow, total, Limits, Amounts, daily_token_limit, daily_budget, insert_usage, first_met,
  refusal, reserve_usage, settle_reserved_usage,
}
use ctrl_gateway.Usage.Quotas.{IsWithin, reserved-IsWithin}

program : Unit {0}
unfolding total first_met refusal insert_usage reserve_usage settle_reserved_usage ◌+ℤ◌ ◌-ℤ◌
program = tt

abbrev limits : Limits
limits = record {
  budget_limit_usd = pos 100;
  rps_limit = pos 2;
  token_limit_per_minute = pos 5000;
  daily_token_limit = pos 1000;
  model_token_limit = pos 0;
  model_usd_limit = pos 0;
  max_request_tokens = pos 900;
}

abbrev small : Amounts
small = record { tokens_in = pos 300; tokens_out = pos 200; cost_usd = pos 10 }

abbrev used : Amounts
used = record { tokens_in = pos 300; tokens_out = pos 150; cost_usd = pos 9 }

abbrev noon : ℕ
noon = 43_200_000_000

abbrev one_row : List UsageRow
one_row = (reserve_usage "alice" "intel" limits small noon (noon + 5) []).1

reserved : (reserve_usage "alice" "intel" limits small noon (noon + 5) []).0 ≡ none
unfolding program
reserved = refl

-- The second request meets the limit exactly, the third is refused.
third_refused :
    (reserve_usage "alice" "intel" limits small
      (noon + 20)
      (noon + 25)
      (reserve_usage "alice" "intel" limits small (noon + 10) (noon + 15) one_row).1).0
    ≡ some daily_token_limit
unfolding program
third_refused = refl

reserved-IsWithin_example : IsWithin "alice" "intel" limits noon one_row
reserved-IsWithin_example =
    reserved-IsWithin "alice" "intel" limits small noon [] (noon + 5) (omega arith) reserved

abbrev costly : Amounts
costly = record small { cost_usd = pos 200 }

costly_refused :
    (reserve_usage "alice" "intel" limits costly noon (noon + 5) []).0 ≡ some daily_budget
unfolding program
costly_refused = refl

abbrev after_release : List UsageRow
after_release =
    settle_reserved_usage "alice" "intel" small used false (noon + 9_000_000) (one_row ++ [])

-- Three requests in one second under a limit of two, after the release of an old one.
third_in_a_second :
    (reserve_usage "alice" "intel"
      (record limits { daily_token_limit = pos 0 })
      small
      (noon + 9_500_000)
      (noon + 9_500_001)
      (reserve_usage "alice" "intel"
        (record limits { daily_token_limit = pos 0 })
        small
        (noon + 9_400_000)
        (noon + 9_400_001)
        (reserve_usage "alice" "intel"
          (record limits { daily_token_limit = pos 0 })
          small
          (noon + 9_300_000)
          (noon + 9_300_001)
          after_release).1).1).0
    ≡ none
unfolding program
third_in_a_second = refl
