-- ===== src/Tenant/Bucket.antt =====
-- `_TokenBucket` of gateway/tenant.py. Times are microseconds and amounts are millionths of a
-- token, so that a refill, elapsed time by tokens per second, is a whole number.
use ctrl_gateway.Prelude.{ℕ, ◌*◌, Bool, true, false, ◌==◌, if◌then◌else◌}
use ctrl_gateway.Prelude.Int.{ℤ, pos, pos_part, sub_ℕ, ◌+ℤ◌, ◌-ℤ◌, ◌*ℤ◌, ltb_ℤ}

abbrev pub one_token : ℕ
one_token = 1_000_000

pub record TokenBucket : Type 0 where
  pub rate : ℕ
  pub capacity : ℕ
  pub tokens : ℤ
  pub last_refill : ℕ

unfoldable pub new_bucket : ℕ → ℕ → ℕ → TokenBucket
new_bucket rate capacity now = record {
  rate = rate;
  capacity = capacity;
  tokens = pos capacity;
  last_refill = now;
}

-- `min(self.capacity, self.tokens + elapsed * self.rate)`; the clock may have gone back.
unfoldable pub refilled : ℕ → TokenBucket → ℤ
refilled now b =
    let filled = b.tokens +ℤ sub_ℕ now b.last_refill *ℤ pos b.rate in
    if ltb_ℤ filled (pos b.capacity) then filled else pos b.capacity

-- `consume`
unfoldable pub consume : ℕ → ℕ → TokenBucket → Bool × TokenBucket
unfolding refilled
consume wanted now b =
    let current = refilled now b in
    if ltb_ℤ current (pos wanted)
    then (false, record b { tokens = current; last_refill = now })
    else (true, record b { tokens = current -ℤ pos wanted; last_refill = now })

-- `time_to_available`, in microseconds, as a numerator and a denominator: the deficit over
-- `max(rate, 1e-9)`.
unfoldable pub time_to_available : ℕ → ℕ → TokenBucket → ℕ × ℕ
unfolding refilled
time_to_available wanted now b =
    let current = refilled now b in
    let deficit = pos_part (pos wanted -ℤ current) in
    if ltb_ℤ current (pos wanted)
    then (if b.rate == 0 then (deficit * 1_000_000_000, 1) else (deficit, b.rate))
    else (0, 1)
