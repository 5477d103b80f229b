-- ===== src/Serving/Charges.antt =====
-- What a request leaves in the ledger, whichever way it ends.
use ctrl_gateway.Prelude.{
  ℕ, ◌≡◌, refl, sym, subst, inl, inr, String, Bool, true, false, Option, none, some, List, [], ◌∷◌,
  ◌++◌, arith, str_eq, eq_iff, Bool-cases,
}
use ctrl_gateway.Prelude.Int.{int_laws}
use ctrl_gateway.Prelude.Dict.{Dict}
use ctrl_gateway.Policy.Inputs.{Pricing}
use ctrl_gateway.Usage.{
  period_day_of, UsageRow, Limits, Amounts, Reason, reserve_usage, settle_reserved_usage,
}
use ctrl_gateway.Usage.Totals.{booked, reserved_rows}
use ctrl_gateway.Usage.Settlement.{counted}
use ctrl_gateway.Dispatch.{Client, Exchange, Gateway}
use ctrl_gateway.Dispatch.Fallback.{
  Routes, Forwarded, forwarded, raised, exhausted, forward_with_fallback,
}
use ctrl_gateway.Serving.{
  Call, Ending, over_quota, no_amounts, usage_of, settle_call, settle_answered, finish_json, Stream,
  refused, streamed, stream_usage, finish_stream, after_reservation, reserve_for, serve_json,
  serve_stream,
}
use ctrl_gateway.Serving.Sums.{IsCharged, settled-IsCharged, moved-IsCharged}

-- The rows of a call between its reservation and its settlement.
abbrev open_rows : Call → List UsageRow → List UsageRow → List UsageRow
open_rows call meanwhile rows =
    (rows ++ booked call.tenant call.endpoint call.estimate call.written ∷ []) ++ meanwhile

settle_call-IsCharged :
    (call : Call) (actual : Amounts) (completed : Bool) (meanwhile rows : List UsageRow)
    → period_day_of call.settled ≡ period_day_of call.written
    → IsCharged call.tenant call.endpoint call.written
        (settle_call call actual completed (open_rows call meanwhile rows))
        (rows ++ meanwhile)
        (counted completed actual)
unfolding settle_call settle_reserved_usage
settle_call-IsCharged call actual true meanwhile rows same =
    settled-IsCharged call.tenant call.endpoint call.written rows meanwhile
      (booked call.tenant call.endpoint call.estimate call.written) _ (counted true actual)
      (refl, refl, refl) (refl, refl, same) (omega int_laws) (omega int_laws)
settle_call-IsCharged call actual false meanwhile rows same =
    settled-IsCharged call.tenant call.endpoint call.written rows meanwhile
      (booked call.tenant call.endpoint call.estimate call.written) _ (counted false actual)
      (refl, refl, refl) (refl, refl, same) (omega int_laws) (omega int_laws)

settle_answered-IsCharged :
    (call : Call) (endpoint : String) (actual : Amounts) (meanwhile rows : List UsageRow)
    → period_day_of call.settled ≡ period_day_of call.written
    → IsCharged call.tenant endpoint call.written
        (settle_answered call endpoint actual (open_rows call meanwhile rows))
        (rows ++ meanwhile)
        (counted true actual)
unfolding settle_answered
settle_answered-IsCharged call endpoint actual meanwhile rows same =
    elim (Bool-cases (str_eq endpoint call.endpoint)) [
      | inl e ↦ rw e (
          subst
            (λ n.
              IsCharged call.tenant n call.written
                (settle_call call actual true (open_rows call meanwhile rows)) (rows ++ meanwhile)
                (counted true actual))
            (sym ((eq_iff endpoint call.endpoint).0 e))
            (settle_call-IsCharged call actual true meanwhile rows same))
      | inr e ↦
          let released = settle_call-IsCharged call no_amounts true meanwhile rows same in
          rw e (
            unfold settle_reserved_usage in
            moved-IsCharged call.tenant call.endpoint endpoint call.written _ (rows ++ meanwhile) _
              (counted true actual) released (refl, refl, same) (omega int_laws) (omega int_laws))
    ]

-- Which endpoint is charged for the result of the ladder, and what.
abbrev pub json_bill : Dict Pricing → Call → Forwarded → String × Amounts
json_bill prices call (forwarded (endpoint, tier) attempts tokens_in tokens_out) =
    (endpoint, counted true (usage_of prices endpoint tokens_in tokens_out))
json_bill prices call raised = (call.endpoint, no_amounts)
json_bill prices call exhausted = (call.endpoint, no_amounts)

-- The same for a stream: the usage it reported, at the prices of its endpoint, or the estimate if it
-- reported none, and nothing for one that failed.
abbrev pub stream_bill : Dict Pricing → Call → Stream → String × Amounts
stream_bill prices call (refused status) = (call.endpoint, no_amounts)
stream_bill prices call (streamed false reported) = (call.endpoint, no_amounts)
stream_bill prices call (streamed true none) = (call.endpoint, counted true call.estimate)
stream_bill prices call (streamed true (some (tokens_in, tokens_out))) =
    (call.endpoint, counted true (usage_of prices call.endpoint tokens_in tokens_out))

-- The ledger after a call: as it was if the quota refuses it, else with the bill added and nothing
-- left of the reservation.
abbrev pub IsBilled :
    Call
    → List UsageRow
    → List UsageRow
    → String × Amounts
    → Option Reason
    → Ending × List UsageRow
    → Type 0
IsBilled call meanwhile rows bill (some reason) ended = ended ≡ (over_quota reason, rows)
IsBilled call meanwhile rows bill none ended =
    IsCharged call.tenant bill.0 call.written ended.1 (rows ++ meanwhile) bill.1

refused_rows :
    (tenant endpoint : String) (l : Limits) (e : Amounts) (now written : ℕ) (rows : List UsageRow)
    (reason : Reason)
    → (reserve_usage tenant endpoint l e now written rows).0 ≡ some reason
    → (reserve_usage tenant endpoint l e now written rows).1 ≡ rows
unfolding reserve_usage
refused_rows tenant endpoint l e now written rows reason h = ground arith

after_reservation-IsCharged :
    (call : Call) (finish : List UsageRow → Ending × List UsageRow) (meanwhile rows : List UsageRow)
    (bill : String × Amounts) (reservation : Option Reason × List UsageRow)
    → (reservation.0 ≡ none
        → reservation.1 ≡ rows ++ booked call.tenant call.endpoint call.estimate call.written ∷ [])
    → ((reason : Reason) → reservation.0 ≡ some reason → reservation.1 ≡ rows)
    → IsCharged call.tenant bill.0 call.written
        (finish (open_rows call meanwhile rows)).1
        (rows ++ meanwhile)
        bill.1
    → IsBilled call meanwhile rows bill reservation.0
        (after_reservation call finish meanwhile reservation)
unfolding after_reservation
after_reservation-IsCharged call finish meanwhile rows bill (none, rs) made refusal h =
    rw (made refl) h
after_reservation-IsCharged call finish meanwhile rows bill (some reason, rs) made refusal h =
    rw (refusal reason refl) refl

after_reservation-IsBilled :
    (call : Call) (finish : List UsageRow → Ending × List UsageRow) (meanwhile rows : List UsageRow)
    (bill : String × Amounts)
    → IsCharged call.tenant bill.0 call.written
        (finish (open_rows call meanwhile rows)).1
        (rows ++ meanwhile)
        bill.1
    → IsBilled call meanwhile rows bill
        (reserve_for call rows).0
        (after_reservation call finish meanwhile (reserve_for call rows))
after_reservation-IsBilled call finish meanwhile rows bill h =
    after_reservation-IsCharged call finish meanwhile rows bill (reserve_for call rows)
      (unfold reserve_for in
        reserved_rows call.tenant call.endpoint call.limits call.estimate call.now call.written
          rows)
      (unfold reserve_for in
        refused_rows call.tenant call.endpoint call.limits call.estimate call.now call.written rows)
      h

finish_json-IsCharged :
    (prices : Dict Pricing) (call : Call) (answer : Forwarded) (meanwhile rows : List UsageRow)
    → period_day_of call.settled ≡ period_day_of call.written
    → IsCharged call.tenant
        (json_bill prices call answer).0
        call.written
        (finish_json prices call answer (open_rows call meanwhile rows)).1
        (rows ++ meanwhile)
        (json_bill prices call answer).1
unfolding finish_json
finish_json-IsCharged prices call (forwarded (endpoint, tier) n a b) meanwhile rows same =
    settle_answered-IsCharged call endpoint (usage_of prices endpoint a b) meanwhile rows same
finish_json-IsCharged prices call raised meanwhile rows same =
    settle_call-IsCharged call no_amounts false meanwhile rows same
finish_json-IsCharged prices call exhausted meanwhile rows same =
    settle_call-IsCharged call no_amounts false meanwhile rows same

finish_stream-IsCharged :
    (prices : Dict Pricing) (call : Call) (stream : Stream) (meanwhile rows : List UsageRow)
    → period_day_of call.settled ≡ period_day_of call.written
    → IsCharged call.tenant
        (stream_bill prices call stream).0
        call.written
        (finish_stream prices call stream (open_rows call meanwhile rows)).1
        (rows ++ meanwhile)
        (stream_bill prices call stream).1
unfolding finish_stream stream_usage
finish_stream-IsCharged prices call (refused status) meanwhile rows same =
    settle_call-IsCharged call no_amounts false meanwhile rows same
finish_stream-IsCharged prices call (streamed true none) meanwhile rows same =
    settle_call-IsCharged call call.estimate true meanwhile rows same
finish_stream-IsCharged prices call (streamed true (some (a, b))) meanwhile rows same =
    settle_call-IsCharged call (usage_of prices call.endpoint a b) true meanwhile rows same
finish_stream-IsCharged prices call (streamed false reported) meanwhile rows same =
    settle_call-IsCharged call no_amounts false meanwhile rows same

-- Whichever way a request that is not streamed ends, its reservation leaves nothing behind: one that
-- the quota refuses does not change the ledger; any other, settled on the day of its reservation,
-- adds to the day's sums of the tenant, and of the endpoint that answered, what that endpoint
-- reported at its prices, negative amounts as 0, or nothing if the ladder failed; and the sums of every other endpoint,
-- the one that was reserved for included, stay what other requests make them.
pub serve_json-IsBilled :
    (conf : Routes) (pool : Dict Client) (prices : Dict Pricing) (world : ℕ → Exchange)
    (states : Dict String) (g : Gateway) (call : Call) (meanwhile rows : List UsageRow)
    → period_day_of call.settled ≡ period_day_of call.written
    → let answer =
        (forward_with_fallback conf pool call.tenant world (call.endpoint, call.tier) states g).0 in
      IsBilled call meanwhile rows
        (json_bill prices call answer)
        (reserve_for call rows).0
        (serve_json conf pool prices world states g call meanwhile rows).0
unfolding serve_json
serve_json-IsBilled conf pool prices world states g call meanwhile rows same =
    let answer =
      (forward_with_fallback conf pool call.tenant world (call.endpoint, call.tier) states g).0 in
    after_reservation-IsBilled call (finish_json prices call answer) meanwhile rows
      (json_bill prices call answer) (finish_json-IsCharged prices call answer meanwhile rows same)

-- The same of a streamed request: its endpoint is charged the usage that the stream reported, at the
-- prices of the endpoint, or the estimate of the reservation if it reported none, negative amounts as
-- 0, and nothing if the stream was refused or failed before its end.
pub serve_stream-IsBilled :
    (prices : Dict Pricing) (stream : Stream) (call : Call) (meanwhile rows : List UsageRow)
    → period_day_of call.settled ≡ period_day_of call.written
    → IsBilled call meanwhile rows
        (stream_bill prices call stream)
        (reserve_for call rows).0
        (serve_stream prices stream call meanwhile rows)
unfolding serve_stream
serve_stream-IsBilled prices stream call meanwhile rows same =
    after_reservation-IsBilled call (finish_stream prices call stream) meanwhile rows
      (stream_bill prices call stream)
      (finish_stream-IsCharged prices call stream meanwhile rows same)
