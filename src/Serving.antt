-- ===== src/Serving.antt =====
-- The end of `chat_completions` of gateway/app.py, from the reservation to the answer: the usage is
-- reserved, the request is forwarded or streamed, and the reservation is settled. Prices are
-- nanodollars, costs picodollars. `meanwhile` holds the rows that other requests write to the
-- ledger between the reservation and the settlement.
mod Sums
mod Charges
mod Tests
use ctrl_gateway.Prelude.{
  ℕ, ◌+◌, ◌*◌, String, Bool, true, false, not, ◌&&◌, Option, none, some, List, [], ◌∷◌, ◌++◌, leb,
  ltb, str_eq, if◌then◌else◌,
}
use ctrl_gateway.Prelude.Int.{ℤ, pos, ◌+ℤ◌, ◌*ℤ◌}
use ctrl_gateway.Prelude.Dict
use ctrl_gateway.Prelude.Dict.{Dict}
use ctrl_gateway.Policy.Inputs.{Pricing}
use ctrl_gateway.Usage.{UsageRow, Limits, Amounts, Reason, reserve_usage, settle_reserved_usage}
use ctrl_gateway.Dispatch.{Client, Exchange, Gateway}
use ctrl_gateway.Dispatch.Fallback.{
  Routes, Forwarded, forwarded, raised, exhausted, forward_with_fallback,
}

-- What the handler knows when it reserves. `now`, `written` and `settled` are the clock readings of
-- the reservation, its row and the rows of the settlement.
pub record Call : Type 0 where
  pub tenant : String
  pub endpoint : String
  pub tier : String
  pub limits : Limits
  pub estimate : Amounts
  pub now : ℕ
  pub written : ℕ
  pub settled : ℕ

-- How the call ends: the quota refuses it, the upstream fails (with the status of the answer), or
-- it is served.
pub data Ending : Type 0 where
  over_quota : Reason → Ending
  upstream_failed : ℕ → Ending
  served_by : String → Ending

-- `_actual_endpoint_cost`
unfoldable pub actual_endpoint_cost : Dict Pricing → String → ℤ → ℤ → ℤ
actual_endpoint_cost prices endpoint tokens_in tokens_out = elim (Dict.lookup endpoint prices) [
  | none ↦ pos 0
  | some p ↦
      pos (p.fixed_per_request * 1000)
      +ℤ (tokens_in *ℤ pos p.in_per_1k_tokens)
      +ℤ (tokens_out *ℤ pos p.out_per_1k_tokens)
]

abbrev pub no_amounts : Amounts
no_amounts = record { tokens_in = pos 0; tokens_out = pos 0; cost_usd = pos 0 }

-- What the upstream's `usage` comes to.
unfoldable pub usage_of : Dict Pricing → String → ℤ → ℤ → Amounts
unfolding actual_endpoint_cost
usage_of prices endpoint tokens_in tokens_out = record {
  tokens_in = tokens_in;
  tokens_out = tokens_out;
  cost_usd = actual_endpoint_cost prices endpoint tokens_in tokens_out;
}

-- One call of `settle_usage` with what the handler reserved.
unfoldable pub settle_call : Call → Amounts → Bool → List UsageRow → List UsageRow
settle_call call actual completed rows =
    settle_reserved_usage call.tenant call.endpoint call.estimate actual completed call.settled rows

-- The settlement of a request that an endpoint answered. Where that is not the one that the handler
-- reserved for, the reservation is released and the usage booked to the one that answered.
unfoldable pub settle_answered : Call → String → Amounts → List UsageRow → List UsageRow
unfolding settle_call
settle_answered call actual_endpoint actual rows =
    if str_eq actual_endpoint call.endpoint
    then settle_call call actual true rows
    else settle_reserved_usage call.tenant actual_endpoint no_amounts actual true call.settled
        (settle_call call no_amounts true rows)

-- The branch of a request that is not streamed, after the ladder.
unfoldable pub finish_json :
    Dict Pricing → Call → Forwarded → List UsageRow → Ending × List UsageRow
unfolding settle_call settle_answered usage_of
finish_json prices call (forwarded (endpoint, tier) attempts tokens_in tokens_out) rows = (
  served_by endpoint,
  settle_answered call endpoint (usage_of prices endpoint tokens_in tokens_out) rows,
)
finish_json prices call raised rows = (upstream_failed 502, settle_call call no_amounts false rows)
finish_json prices call exhausted rows =
    (upstream_failed 502, settle_call call no_amounts false rows)

-- A stream as the handler sees it: the error before the first chunk, with the status if it is an
-- `EndpointHTTPError`, or whether it came to its end and the usage that a chunk reported.
pub data Stream : Type 0 where
  refused : Option ℕ → Stream
  streamed : Bool → Option (ℤ × ℤ) → Stream

-- `e.status if isinstance(e, EndpointHTTPError) and 400 <= e.status < 500 else 502`
unfoldable pub refusal_status : Option ℕ → ℕ
refusal_status none = 502
refusal_status (some status) = if leb 400 status && ltb status 500 then status else 502

-- What a stream that came to its end used: what it reported, else the estimate.
unfoldable pub stream_usage : Dict Pricing → Call → Option (ℤ × ℤ) → Amounts
unfolding usage_of
stream_usage prices call none = call.estimate
stream_usage prices call (some (tokens_in, tokens_out)) =
    usage_of prices call.endpoint tokens_in tokens_out

-- The branch of a streamed request.
unfoldable pub finish_stream : Dict Pricing → Call → Stream → List UsageRow → Ending × List UsageRow
unfolding settle_call refusal_status stream_usage
finish_stream prices call (refused status) rows =
    (upstream_failed (refusal_status status), settle_call call no_amounts false rows)
finish_stream prices call (streamed response_ok reported) rows = (
  served_by call.endpoint,
  settle_call call (if response_ok then stream_usage prices call reported else no_amounts)
      response_ok rows,
)

-- The reservation, and what is done once it is made.
unfoldable pub after_reservation :
    Call
    → (List UsageRow → Ending × List UsageRow)
    → List UsageRow
    → Option Reason × List UsageRow
    → Ending × List UsageRow
after_reservation call finish meanwhile (some reason, rows) = (over_quota reason, rows)
after_reservation call finish meanwhile (none, rows) = finish (rows ++ meanwhile)

unfoldable pub reserve_for : Call → List UsageRow → Option Reason × List UsageRow
reserve_for call rows =
    reserve_usage call.tenant call.endpoint call.limits call.estimate call.now call.written rows

-- A request that the quota refuses reaches no endpoint.
unfoldable pub gateway_after : Option Reason → Gateway → Gateway → Gateway
gateway_after (some reason) before after = before
gateway_after none before after = after

unfoldable pub serve_json :
    Routes
    → Dict Client
    → Dict Pricing
    → (ℕ → Exchange)
    → Dict String
    → Gateway
    → Call
    → List UsageRow
    → List UsageRow
    → (Ending × List UsageRow) × Gateway
unfolding after_reservation reserve_for finish_json gateway_after
serve_json conf pool prices world states g call meanwhile rows =
    let (answer, g') =
      forward_with_fallback conf pool call.tenant world (call.endpoint, call.tier) states g in
    let reservation = reserve_for call rows in
    (
      after_reservation call (finish_json prices call answer) meanwhile reservation,
      gateway_after reservation.0 g g',
    )

unfoldable pub serve_stream :
    Dict Pricing → Stream → Call → List UsageRow → List UsageRow → Ending × List UsageRow
unfolding after_reservation reserve_for finish_stream
serve_stream prices stream call meanwhile rows =
    after_reservation call (finish_stream prices call stream) meanwhile (reserve_for call rows)
