-- ===== src/Tenant/Rates.antt =====
-- How much a token bucket lets through, and how long a refused caller has to wait.
use native.Mathlib.Nat.{le_trans}
use ctrl_gateway.Prelude.{
  ℕ, ◌+◌, ◌-◌, ◌*◌, ◌≤◌, ◌<◌, ◌≡◌, refl, true, false, List, [], ◌∷◌, arith, subst, ltb, Bool-cases,
  inl, inr, if◌then◌else◌,
}
use ctrl_gateway.Prelude.Int.{pos, ◌+ℤ◌, ◌-ℤ◌, ◌*ℤ◌}
use ctrl_gateway.Tenant.Bucket.{
  one_token, TokenBucket, new_bucket, refilled, consume, time_to_available,
}

-- A refill some time after the last one, from an amount that is not negative.
pub refilled_after :
    (wait n : ℕ) (b : TokenBucket)
    → b.tokens ≡ pos n
    → refilled (b.last_refill + wait) b
      ≡ pos (if ltb (n + wait * b.rate) b.capacity then n + wait * b.rate else b.capacity)
unfolding refilled ◌+ℤ◌ ◌*ℤ◌
refilled_after wait n b e = ground arith

-- The same at any later time, bounded by what was there and what time added.
refilled_at :
    (t n : ℕ) (b : TokenBucket)
    → b.tokens ≡ pos n
    → b.last_refill ≤ t
    → (k : ℕ) × (refilled t b ≡ pos k) × (k + b.last_refill * b.rate ≤ n + t * b.rate)
refilled_at t n b e le =
    subst (λ u. (k : ℕ) × (refilled u b ≡ pos k) × (k + b.last_refill * b.rate ≤ n + u * b.rate))
      (let at : b.last_refill + (t - b.last_refill) ≡ t = omega arith in at)
      (_, refilled_after (t - b.last_refill) n b e, bound (t - b.last_refill))
  where
    bound :
        (w : ℕ)
        → (if ltb (n + w * b.rate) b.capacity then n + w * b.rate else b.capacity)
            + b.last_refill * b.rate
          ≤ n + (b.last_refill + w) * b.rate
    bound w = ground arith

-- Requests for one token each at the given times.
unfoldable pub admitted : List ℕ → TokenBucket → ℕ
admitted [] b = 0
admitted (t ∷ ts) b = let (ok, b') = consume one_token t b in (if ok then 1 else 0) + admitted ts b'

abbrev pub IsOrdered : ℕ → List ℕ → Type 0
IsOrdered t [] = Unit
IsOrdered t (u ∷ us) = (t ≤ u) × IsOrdered u us

abbrev pub last_of : ℕ → List ℕ → ℕ
last_of t [] = t
last_of t (u ∷ us) = last_of u us

-- A call whose refilled amount is known and not negative.
pub consume_of :
    (wanted now k : ℕ) (b : TokenBucket)
    → refilled now b ≡ pos k
    → consume wanted now b ≡ (
        if ltb k wanted
        then (false, record b { tokens = pos k; last_refill = now })
        else (true, record b { tokens = pos (k - wanted); last_refill = now }))
unfolding consume ◌-ℤ◌
consume_of wanted now k b e = rw (e, consume) (ground arith)

le_of_not-lt : (k : ℕ) → ltb k one_token ≡ false → one_token ≤ k
le_of_not-lt k h = ground arith

-- The bound over a list of calls: what was taken is at most what was there and what time added.
-- Products with the rate are kept apart, so that both sides stay sums.
admitted_from :
    (ts : List ℕ) (n : ℕ) (b : TokenBucket)
    → b.tokens ≡ pos n
    → IsOrdered b.last_refill ts
    → one_token * admitted ts b + b.last_refill * b.rate ≤ n + last_of b.last_refill ts * b.rate
unfolding admitted
admitted_from [] n b e o = omega arith
admitted_from (t ∷ ts) n b e o =
    let (k, filled, gain) = refilled_at t n b e o.0 in
    rw (consume_of one_token t k b filled) (elim (Bool-cases (ltb k one_token)) [
      | inl few ↦ rw few (
          omega (arith, admitted_from ts k (record b { tokens = pos k; last_refill = t }) refl o.1))
      | inr enough ↦ rw enough (
          omega (
            arith,
            le_of_not-lt k enough,
            admitted_from ts (k - one_token)
                (record b { tokens = pos (k - one_token); last_refill = t }) refl o.1,
          ))
    ])

-- However requests come, in the order of their times, a bucket lets through at most what it held
-- and what its rate adds until the last of them, in tokens.
pub bucket_bound :
    (ts : List ℕ) (rate capacity start : ℕ)
    → IsOrdered start ts
    → one_token * admitted ts (new_bucket rate capacity start) + start * rate
      ≤ capacity + last_of start ts * rate
unfolding new_bucket
bucket_bound ts rate capacity start o =
    admitted_from ts capacity (new_bucket rate capacity start) refl o

-- What `time_to_available` announces covers the deficit.
announced :
    (wanted now w k : ℕ) (b : TokenBucket)
    → refilled now b ≡ pos k
    → 0 < b.rate
    → (time_to_available wanted now b).0 ≤ w * (time_to_available wanted now b).1
    → wanted ≤ k + w * b.rate
unfolding time_to_available ◌-ℤ◌
announced wanted now w k b e positive h = let h' = rw (e, time_to_available) at h in ground arith

enough_by : (k rate n v w : ℕ) → k ≤ n + v * rate → k + w * rate ≤ n + (v + w) * rate
enough_by k rate n v w h = omega arith

if_fits : (x c : ℕ) → (if ltb x c then x else c) ≤ x
if_fits x c = ground arith

passes : (x c wanted : ℕ) → wanted ≤ x → wanted ≤ c → ltb (if ltb x c then x else c) wanted ≡ false
passes x c wanted h g = ground arith

-- With a positive rate, whoever waits for the time that `time_to_available` announces gets the
-- tokens, if the bucket can hold so many and nobody else takes from it.
pub waited_enough :
    (wanted v w n : ℕ) (b : TokenBucket)
    → b.tokens ≡ pos n
    → 0 < b.rate
    → wanted ≤ b.capacity
    → (time_to_available wanted (b.last_refill + v) b).0
      ≤ w * (time_to_available wanted (b.last_refill + v) b).1
    → (consume wanted (b.last_refill + (v + w)) b).0 ≡ true
waited_enough wanted v w n b e positive fits waited =
    let first = refilled_after v n b e in
    let k_le = if_fits (n + v * b.rate) b.capacity in
    let have = announced wanted (b.last_refill + v) w _ b first positive waited in
    let total : wanted ≤ n + (v + w) * b.rate = le_trans have (enough_by _ b.rate n v w k_le) in
    rw (consume_of wanted _ _ b (refilled_after (v + w) n b e))
      (rw (passes (n + (v + w) * b.rate) b.capacity wanted total fits))
