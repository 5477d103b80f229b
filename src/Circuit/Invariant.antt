-- ===== src/Circuit/Invariant.antt =====
-- The invariant of a breaker, and when it trips.
use ctrl_gateway.Prelude.{
  ℕ, ◌+◌, ◌≤◌, ◌<◌, ◌≡◌, ◌≢◌, refl, ◌↔◌, none, List, [], ◌∷◌, arith, leb, length, Bool-cases, inl,
  inr,
}
use ctrl_gateway.Prelude.Int.{pos}
use ctrl_gateway.Circuit.{
  State, closed, opened, half_open, Config, Row, Breaker, allow, record_success, record_failure,
  Event, asked, succeeded, failed, step, run,
}

-- A closed breaker is below the threshold and holds no trace of an earlier trip; any other has
-- reached the threshold and knows when it opened.
abbrev ValidAt : State → Config → Row → Type 0
ValidAt closed c r =
    (r.consecutive_failures < c.failure_threshold)
    × (r.opened_at ≡ none)
    × (r.half_open_probes_remaining ≡ pos 0)
ValidAt opened c r = (c.failure_threshold ≤ r.consecutive_failures) × (r.opened_at ≢ none)
ValidAt half_open c r = (c.failure_threshold ≤ r.consecutive_failures) × (r.opened_at ≢ none)

abbrev pub IsValid : Breaker → Type 0
IsValid b = (0 < b.config.failure_threshold) × ValidAt b.row.state b.config b.row

allow-IsValid : (now : ℕ) (b : Breaker) → IsValid b → IsValid (allow now b).1
unfolding allow
allow-IsValid now b h = ground arith

record_success-IsValid : (now w : ℕ) (b : Breaker) → IsValid b → IsValid (record_success now w b)
unfolding record_success
record_success-IsValid now w b h = (h.0, (h.0, refl, refl))

record_failure-IsValid : (now : ℕ) (b : Breaker) → IsValid b → IsValid (record_failure now b)
unfolding record_failure
record_failure-IsValid now b h = ground arith

pub step-IsValid : (e : Event) (b : Breaker) → IsValid b → IsValid (step e b)
unfolding step
step-IsValid (asked now) b h = allow-IsValid now b h
step-IsValid (succeeded now w) b h = record_success-IsValid now w b h
step-IsValid (failed now) b h = record_failure-IsValid now b h

-- From a valid breaker, whatever happens to it in whatever order, it stays valid.
pub run-IsValid : (es : List Event) (b : Breaker) → IsValid b → IsValid (run es b)
unfolding run
run-IsValid [] b h = h
run-IsValid (e ∷ es) b h = run-IsValid es (step e b) (step-IsValid e b h)

abbrev pub failures : List ℕ → List Event
failures [] = []
failures (t ∷ ts) = failed t ∷ failures ts

open_stays :
    (ts : List ℕ) (b : Breaker)
    → IsValid b
    → b.row.state ≡ opened
    → (run (failures ts) b).row.state ≡ opened
unfolding run step record_failure
open_stays [] b h e = e
open_stays (t ∷ ts) b h e =
    open_stays ts (record_failure t b) (record_failure-IsValid t b h) (ground arith)

-- A closed breaker opens with the failure that brings the count of consecutive failures to the
-- threshold, and not before.
pub trips_at_threshold :
    (ts : List ℕ) (b : Breaker)
    → IsValid b
    → b.row.state ≡ closed
    → ((run (failures ts) b).row.state ≡ opened)
      ↔ (b.config.failure_threshold ≤ b.row.consecutive_failures + length ts)
unfolding run step record_failure
trips_at_threshold [] b h e = ground arith
trips_at_threshold (t ∷ ts) b h e =
    elim (Bool-cases (leb b.config.failure_threshold (b.row.consecutive_failures + 1))) [
      | inl trip ↦ (
        λ _. ground arith,
        λ _. open_stays ts (record_failure t b) (record_failure-IsValid t b h) (ground arith),
      )
      | inr below ↦ ground (
        arith,
        trips_at_threshold ts (record_failure t b) (record_failure-IsValid t b h) (ground arith),
      )
    ]
