-- ===== src/Circuit/Probes.antt =====
-- How many requests a breaker that has tripped lets through.
use ctrl_gateway.Prelude.{
  ℕ, ◌+◌, ◌-◌, ◌≤◌, ◌<◌, ◌≡◌, refl, some, List, [], ◌∷◌, ◌++◌, arith, length, min, if◌then◌else◌,
  All,
}
use ctrl_gateway.Prelude.Int.{ℤ, pos, pos_part, ◌-ℤ◌}
use ctrl_gateway.Circuit.{opened, half_open, Breaker, allow}

-- How many of the questions at the given times `allow` answers with `True`.
unfoldable pub admitted : List ℕ → Breaker → ℕ
admitted [] b = 0
admitted (t ∷ ts) b = let (ok, b') = allow t b in (if ok then 1 else 0) + admitted ts b'

pos_part_pred : (z : ℤ) → pos_part (z -ℤ pos 1) ≡ pos_part z - 1
unfolding ◌-ℤ◌
pos_part_pred z = ground arith

-- A half-open breaker lets through exactly as many requests as it has probes left, whenever they
-- come: without a recorded result no time that passes gives it another probe.
pub half_open_admits :
    (ts : List ℕ) (b : Breaker)
    → b.row.state ≡ half_open
    → admitted ts b ≡ min (length ts) (pos_part b.row.half_open_probes_remaining)
unfolding admitted allow
half_open_admits [] b h = omega arith
half_open_admits (t ∷ ts) b h =
    ground
      (arith, half_open_admits ts (allow t b).1, pos_part_pred b.row.half_open_probes_remaining)

opened_admits-le :
    (ts : List ℕ) (b : Breaker)
    → b.row.state ≡ opened
    → admitted ts b ≤ pos_part b.config.half_open_max_probes
unfolding admitted allow
opened_admits-le [] b h = omega arith
opened_admits-le (t ∷ ts) b h = ground (
  arith,
  opened_admits-le ts b,
  half_open_admits ts (allow t b).1,
  pos_part_pred b.config.half_open_max_probes,
)

refuses_early :
    (ts : List ℕ) (b : Breaker) (opened_at : ℕ)
    → b.row.state ≡ opened
    → b.row.opened_at ≡ some opened_at
    → All (λ t. t < opened_at + b.config.open_duration) ts
    → admitted ts b ≡ 0
unfolding admitted allow
refuses_early [] b o h e early = refl
refuses_early (t ∷ ts) b o h e early = ground (arith, refuses_early ts b o h e early.1)

-- An open breaker refuses every request that comes before its duration has passed, and, however
-- many come later, lets through at most the configured number of probes until a result is recorded.
pub opened_admits :
    (early late : List ℕ) (b : Breaker) (opened_at : ℕ)
    → b.row.state ≡ opened
    → b.row.opened_at ≡ some opened_at
    → All (λ t. t < opened_at + b.config.open_duration) early
    → (admitted early b ≡ 0) × (admitted (early ++ late) b ≤ pos_part b.config.half_open_max_probes)
opened_admits early late b o h e all_early =
    (refuses_early early b o h e all_early, opened_admits-le (early ++ late) b h)
