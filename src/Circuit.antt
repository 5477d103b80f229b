-- ===== src/Circuit.antt =====
-- The circuit breaker of an endpoint: gateway/circuit.py, with the two functions of
-- gateway/memory.py that keep its row (`get_breaker_state`, `set_breaker_state`).
-- A time is a number of microseconds; each operation takes the clock readings that it makes.
mod Invariant
mod Probes
mod Restart
pub mod Registry
mod Tests
use ctrl_gateway.Prelude.{
  ℕ, suc, ◌+◌, String, Bool, true, false, Option, none, some, List, [], ◌∷◌, leb, if◌then◌else◌,
}
use ctrl_gateway.Prelude.Int.{ℤ, pos, ◌-ℤ◌, ltb_ℤ}
use ctrl_gateway.Prelude.Dict.{Dict, lookup, insert}

pub data State : Type 0 where
  closed opened half_open : State

-- `BreakerConfig`
pub record Config : Type 0 where
  pub failure_threshold : ℕ
  pub open_duration : ℕ
  pub half_open_max_probes : ℤ

-- A row of the table `breakers`. The breaker keeps one in memory, too: a key that its dict lacks
-- reads as the default of `.get`, which is `none` or 0.
pub record Row : Type 0 where
  pub state : State
  pub consecutive_failures : ℕ
  pub opened_at : Option ℕ
  pub last_failure_at : Option ℕ
  pub last_success_at : Option ℕ
  pub half_open_probes_remaining : ℤ

abbrev pub fresh : Row
fresh = record {
  state = closed;
  consecutive_failures = 0;
  opened_at = none;
  last_failure_at = none;
  last_success_at = none;
  half_open_probes_remaining = pos 0;
}

unfoldable pub get_breaker_state : String → Dict Row → Row
get_breaker_state name table = elim (lookup name table) [ none ↦ fresh | some row ↦ row ]

-- Updates the row of the endpoint, or inserts it.
unfoldable pub set_breaker_state : String → Row → Dict Row → Dict Row
set_breaker_state = insert

-- One breaker beside the table where it persists its state.
pub record Breaker : Type 0 where
  pub endpoint_name : String
  pub config : Config
  pub row : Row
  pub table : Dict Row

-- `elapsed >= open_duration_seconds`
abbrev pub elapsed : Config → ℕ → ℕ → Bool
elapsed c opened_at now = leb (opened_at + c.open_duration) now

-- Memory and table get the same row.
unfoldable pub save : Breaker → Row → Breaker
unfolding set_breaker_state
save b r = record b { row = r; table = set_breaker_state b.endpoint_name r b.table }

-- `_load_state`: the row that a new breaker starts from, and what it writes back.
unfoldable pub load_state : String → Config → ℕ → Dict Row → Breaker
unfolding get_breaker_state save
load_state name c now table =
    let r = get_breaker_state name table in
    let b : Breaker = record { endpoint_name = name; config = c; row = r; table = table } in
    let expired : Breaker =
      save b
        (record r { state = half_open; half_open_probes_remaining = c.half_open_max_probes }) in
    elim r.state [
      | opened ↦ elim r.opened_at [ none ↦ b | some t ↦ if elapsed c t now then expired else b ]
      | closed ↦ b
      | half_open ↦ b
    ]

-- `allow`
unfoldable pub allow : ℕ → Breaker → Bool × Breaker
unfolding save
allow now b =
    let r = b.row in
    let c = b.config in
    elim r.state [
      | closed ↦ (true, b)
      | opened ↦ elim r.opened_at [
        | none ↦ (false, b)
        | some t ↦
            if elapsed c t now
            then (
              ltb_ℤ (pos 0) c.half_open_max_probes,
              save b (record r {
                state = half_open;
                half_open_probes_remaining = c.half_open_max_probes -ℤ pos 1;
              }),
            )
            else (false, b)
      ]
      | half_open ↦
          if ltb_ℤ (pos 0) r.half_open_probes_remaining
          then (
            true,
            save b
                (record r { half_open_probes_remaining = r.half_open_probes_remaining -ℤ pos 1 }),
          )
          else (false, b)
    ]

-- `record_success`, which reads the clock for the memory and again for the table
unfoldable pub record_success : ℕ → ℕ → Breaker → Breaker
unfolding set_breaker_state
record_success now written b = record b {
  row = record fresh { last_failure_at = b.row.last_failure_at; last_success_at = some now };
  table =
      set_breaker_state b.endpoint_name (record fresh { last_success_at = some written }) b.table;
}

-- `record_failure`. The row that it writes has no `last_success_at`; below the threshold it has no
-- `opened_at` and no probes either.
unfoldable pub record_failure : ℕ → Breaker → Breaker
unfolding set_breaker_state
record_failure now b =
    let r = b.row in
    let cf = r.consecutive_failures + 1 in
    let trip : Row = record {
      state = opened;
      consecutive_failures = cf;
      opened_at = some now;
      last_failure_at = some now;
      last_success_at = r.last_success_at;
      half_open_probes_remaining = pos 0;
    } in
    if leb b.config.failure_threshold cf
    then record b {
      row = trip;
      table = set_breaker_state b.endpoint_name (record trip { last_success_at = none }) b.table;
    }
    else record b {
      row = record r { consecutive_failures = cf; last_failure_at = some now };
      table =
          set_breaker_state b.endpoint_name
            (record fresh {
              state = r.state;
              consecutive_failures = cf;
              last_failure_at = some now;
            })
            b.table;
    }

-- What a client of the breaker does, in any order.
pub data Event : Type 0 where
  asked : ℕ → Event
  succeeded : ℕ → ℕ → Event
  failed : ℕ → Event

unfoldable pub step : Event → Breaker → Breaker
step (asked now) b = (allow now b).1
step (succeeded now written) b = record_success now written b
step (failed now) b = record_failure now b

pub run : List Event → Breaker → Breaker
run [] b = b
run (e ∷ es) b = run es (step e b)
