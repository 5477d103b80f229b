-- ===== src/Circuit/Restart.antt =====
-- What survives a restart of the gateway: the persisted row controls the next breaker as the row
-- in memory controls the old one.
use ctrl_gateway.Prelude.{ℕ, ◌≡◌, String, List, [], ◌∷◌, arith}
use ctrl_gateway.Prelude.Dict
use ctrl_gateway.Prelude.Dict.{Dict}
use ctrl_gateway.Circuit.{
  Row, Breaker, get_breaker_state, load_state, allow, record_success, record_failure, Event, asked,
  succeeded, failed, step, run,
}
use ctrl_gateway.Circuit.Invariant.{IsValid, step-IsValid}

-- The table's row agrees with the row in memory on all that decides an answer.
pub record IsPersisted (b : Breaker) : Type 0 where
  pub state : (get_breaker_state b.endpoint_name b.table).state ≡ b.row.state
  pub failures :
      (get_breaker_state b.endpoint_name b.table).consecutive_failures ≡ b.row.consecutive_failures
  pub opened_at : (get_breaker_state b.endpoint_name b.table).opened_at ≡ b.row.opened_at
  pub probes :
      (get_breaker_state b.endpoint_name b.table).half_open_probes_remaining
      ≡ b.row.half_open_probes_remaining

-- What the table returns after a write of the breaker's row.
get-set_breaker_state :
    (k : String) (r : Row) (d : Dict Row) → get_breaker_state k (Dict.insert k r d) ≡ r
unfolding get_breaker_state
get-set_breaker_state k r d = rw (Dict.lookup-insert_self k r d, get_breaker_state)

step-IsPersisted : (e : Event) (b : Breaker) → IsValid b → IsPersisted b → IsPersisted (step e b)
unfolding step allow record_success record_failure
step-IsPersisted (asked now) b v h = grind (arith, get-set_breaker_state)
step-IsPersisted (succeeded now w) b v h = grind (arith, get-set_breaker_state)
step-IsPersisted (failed now) b v h = grind (arith, get-set_breaker_state)

run-IsPersisted :
    (es : List Event) (b : Breaker) → IsValid b → IsPersisted b → IsPersisted (run es b)
unfolding run
run-IsPersisted [] b v h = h
run-IsPersisted (e ∷ es) b v h =
    run-IsPersisted es (step e b) (step-IsValid e b v) (step-IsPersisted e b v h)

-- A new process: the breaker is built again from the table.
abbrev pub restart : ℕ → Breaker → Breaker
restart now b = load_state b.endpoint_name b.config now b.table

restart_same_answer :
    (now : ℕ) (b : Breaker) → IsPersisted b → (allow now (restart now b)).0 ≡ (allow now b).0
unfolding allow load_state
restart_same_answer now b h = grind (arith, h.state, h.probes, h.opened_at)

-- After any events on a breaker that started valid and persisted, a restart of the gateway does not
-- change the answer to the next request.
pub restart_keeps_answer :
    (es : List Event) (now : ℕ) (b : Breaker)
    → IsValid b
    → IsPersisted b
    → (allow now (restart now (run es b))).0 ≡ (allow now (run es b)).0
restart_keeps_answer es now b v h = restart_same_answer now (run es b) (run-IsPersisted es b v h)
