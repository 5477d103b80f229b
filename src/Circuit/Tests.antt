-- ===== src/Circuit/Tests.antt =====
-- Runs of one breaker, and the theorems at inputs where their hypotheses hold.
use ctrl_gateway.Prelude.{◌+◌, ◌≤◌, ◌≡◌, ◌↔◌, refl, some, [], ◌∷◌, ◌++◌, arith}
use ctrl_gateway.Prelude.Int.{pos, ◌-ℤ◌}
use ctrl_gateway.Prelude.Dict
use ctrl_gateway.Circuit.{
  opened, half_open, Config, fresh, Breaker, get_breaker_state, load_state, allow, record_success,
  record_failure, asked, succeeded, failed, step, run,
}
use ctrl_gateway.Circuit.Invariant.{IsValid, failures, run-IsValid, trips_at_threshold}
use ctrl_gateway.Circuit.Probes.{admitted, opened_admits}
use ctrl_gateway.Circuit.Restart.{IsPersisted, restart, restart_keeps_answer}
use ctrl_gateway.Circuit.Registry.{Registry}

program : Unit {0}
unfolding Dict.lookup Dict.insert load_state allow record_success record_failure step run admitted
    ◌-ℤ◌
program = tt

abbrev config : Config
config = record { failure_threshold = 3; open_duration = 60; half_open_max_probes = pos 1 }

abbrev start : Breaker
start = record { endpoint_name = "intel"; config = config; row = fresh; table = [] }

abbrev tripped : Breaker
tripped = record start {
  row = record fresh { state = opened; consecutive_failures = 3; opened_at = some 30 };
}

abbrev probing : Breaker
probing = record tripped {
  row = record fresh {
    state = half_open;
    consecutive_failures = 3;
    opened_at = some 30;
    half_open_probes_remaining = pos 1;
  };
}

third_failure_opens : (run (failures (10 ∷ 20 ∷ 30 ∷ [])) start).row.state ≡ opened
unfolding program
third_failure_opens = refl

one_probe : admitted (40 ∷ 89 ∷ 90 ∷ 91 ∷ 500 ∷ []) tripped ≡ 1
unfolding program
one_probe = refl

start-IsValid : IsValid start
start-IsValid = (omega arith, (omega arith, refl, refl))

start-IsPersisted : IsPersisted start
unfolding get_breaker_state Dict.lookup
start-IsPersisted = record { state = refl; failures = refl; opened_at = refl; probes = refl }

run-IsValid_example :
    IsValid (run (failed 1 ∷ failed 2 ∷ failed 3 ∷ asked 70 ∷ succeeded 71 72 ∷ []) start)
run-IsValid_example =
    run-IsValid (failed 1 ∷ failed 2 ∷ failed 3 ∷ asked 70 ∷ succeeded 71 72 ∷ []) start
      start-IsValid

trips_at_threshold_example :
    ((run (failures (10 ∷ 20 ∷ 30 ∷ [])) start).row.state ≡ opened) ↔ (3 ≤ 0 + 3)
trips_at_threshold_example = trips_at_threshold (10 ∷ 20 ∷ 30 ∷ []) start start-IsValid refl

opened_admits_example :
    (admitted (40 ∷ 89 ∷ []) tripped ≡ 0) × (admitted ((40 ∷ 89 ∷ []) ++ 90 ∷ 91 ∷ []) tripped ≤ 1)
opened_admits_example =
    opened_admits (40 ∷ 89 ∷ []) (90 ∷ 91 ∷ []) tripped 30 refl refl (omega arith)

restart_keeps_answer_example :
    (allow 100 (restart 100 (run (failures (10 ∷ 20 ∷ 30 ∷ [])) start))).0
    ≡ (allow 100 (run (failures (10 ∷ 20 ∷ 30 ∷ [])) start)).0
restart_keeps_answer_example =
    restart_keeps_answer (failures (10 ∷ 20 ∷ 30 ∷ [])) 100 start start-IsValid start-IsPersisted

abbrev empty : Registry
empty = record { breakers = []; table = [] }
