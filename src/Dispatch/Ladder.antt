-- ===== src/Dispatch/Ladder.antt =====
-- When the ladder of `_forward_with_fallback` ends, and how.
use ctrl_gateway.Prelude.{
  ℕ, suc, ◌+◌, ◌≡◌, refl, ap, subst, String, List, [], ◌∷◌, ◌++◌, arith, length,
}
use ctrl_gateway.Prelude.Dict.{Dict}
use ctrl_gateway.Dispatch.{Client, Exchange, Gateway}
use ctrl_gateway.Dispatch.Fallback.{
  Routes, Rung, ladder, Visit, skipped, failed_over, gave_up, answered, Visit-cases, was_skipped,
  was_failed_over, was_gave_up, was_answered, visit, Forwarded, forwarded, raised, exhausted,
  forward, forward_with_fallback,
}
use ctrl_gateway.Dispatch.Rounds.{IsRound, visit-IsRound}

module _ (conf : Routes) (pool : Dict Client) (tenant : String) (world : ℕ → Exchange) where
  -- Rounds at the candidates, from round `i` on, after none of which the ladder ends, how many of them
  -- fail, and the state after them.
  pub data IsPassed : List Rung → ℕ → Gateway → ℕ → Gateway → Type 0 where
    at_end : (i : ℕ) (g : Gateway) → IsPassed [] i g 0 g
    skips :
        (c : Rung) (cs : List Rung) (i : ℕ) (g h g' : Gateway) (k : ℕ)
        → IsRound conf pool tenant c (world i) g skipped h
        → IsPassed cs (suc i) h k g'
        → IsPassed (c ∷ cs) i g k g'
    fails :
        (c : Rung) (cs : List Rung) (i : ℕ) (g h g' : Gateway) (k : ℕ)
        → IsRound conf pool tenant c (world i) g failed_over h
        → IsPassed cs (suc i) h k g'
        → IsPassed (c ∷ cs) i g (suc k) g'

  -- The round at `c` is the first one that ends the ladder, and it does `v`, after `failures`.
  pub record EndsAt (cs : List Rung) (i : ℕ) (g : Gateway) (c : Rung) (v : Visit) (g' : Gateway)
      (failures : ℕ) : Type 0 where
    pub before : List Rung
    pub after : List Rung
    pub middle : Gateway
    pub place : cs ≡ before ++ c ∷ after
    pub passed : IsPassed before i g failures middle
    pub ends : IsRound conf pool tenant c (world (i + length before)) middle v g'

  -- Why the ladder has the result.
  abbrev pub IsReason : List Rung → ℕ → ℕ → Gateway → Forwarded → Gateway → Type 0
  IsReason cs i n g (forwarded c m a b) g' =
      (k : ℕ) × (m ≡ n + k + 1) × EndsAt cs i g c (answered a b) g' k
  IsReason cs i n g raised g' = (c : Rung) × (k : ℕ) × EndsAt cs i g c gave_up g' k
  IsReason cs i n g exhausted g' = (k : ℕ) × IsPassed cs i g k g'

  ends_here :
      (c : Rung) (cs : List Rung) (i : ℕ) (g : Gateway) (v : Visit) (g' : Gateway)
      → IsRound conf pool tenant c (world i) g v g'
      → EndsAt (c ∷ cs) i g c v g' 0
  ends_here c cs i g v g' r =
      let start : i ≡ i + 0 = omega arith in
      record {
        before = [];
        after = cs;
        middle = g;
        place = refl;
        passed = at_end i g;
        ends = subst (λ j. IsRound conf pool tenant c (world j) g v g') start r;
      }

  ends_later :
      (c d : Rung) (cs : List Rung) (i : ℕ) (g h g' : Gateway) (v : Visit) (k m : ℕ)
      → ((bs : List Rung) (end_ : Gateway)
          → IsPassed bs (suc i) h k end_
          → IsPassed (c ∷ bs) i g m end_)
      → EndsAt cs (suc i) h d v g' k
      → EndsAt (c ∷ cs) i g d v g' m
  ends_later c d cs i g h g' v k m more e =
      let shift : suc i + length (e.before) ≡ i + suc (length e.before) = omega arith in
      record {
        before = c ∷ e.before;
        after = e.after;
        middle = e.middle;
        place = ap (◌∷◌ c) e.place;
        passed = more e.before e.middle e.passed;
        ends = subst (λ j. IsRound conf pool tenant d (world j) e.middle v g') shift e.ends;
      }

  IsReason-skip :
      (c : Rung) (cs : List Rung) (i n : ℕ) (g h : Gateway) (r : Forwarded) (g' : Gateway)
      → IsRound conf pool tenant c (world i) g skipped h
      → IsReason cs (suc i) n h r g'
      → IsReason (c ∷ cs) i n g r g'
  IsReason-skip c cs i n g h (forwarded d m a b) g' s (k, total, e) = (
    k,
    total,
    ends_later c d cs i g h g' (answered a b) k k (λ bs z p. skips c bs i g h z k s p) e,
  )
  IsReason-skip c cs i n g h raised g' s (d, k, e) =
      (d, k, ends_later c d cs i g h g' gave_up k k (λ bs z p. skips c bs i g h z k s p) e)
  IsReason-skip c cs i n g h exhausted g' s (k, p) = (k, skips c cs i g h g' k s p)

  IsReason-fail :
      (c : Rung) (cs : List Rung) (i n : ℕ) (g h : Gateway) (r : Forwarded) (g' : Gateway)
      → IsRound conf pool tenant c (world i) g failed_over h
      → IsReason cs (suc i) (n + 1) h r g'
      → IsReason (c ∷ cs) i n g r g'
  IsReason-fail c cs i n g h (forwarded d m a b) g' s (k, total, e) = (
    suc k,
    omega (arith, total),
    ends_later c d cs i g h g' (answered a b) k (suc k) (λ bs z p. fails c bs i g h z k s p) e,
  )
  IsReason-fail c cs i n g h raised g' s (d, k, e) = (
    d,
    suc k,
    ends_later c d cs i g h g' gave_up k (suc k) (λ bs z p. fails c bs i g h z k s p) e,
  )
  IsReason-fail c cs i n g h exhausted g' s (k, p) = (suc k, fails c cs i g h g' k s p)

  forward-IsReason :
      (cs : List Rung) (i n : ℕ) (g : Gateway)
      → let (r, g') = forward conf pool tenant world cs i n g in IsReason cs i n g r g'
  unfolding forward
  forward-IsReason [] i n g = (0, at_end i g)
  forward-IsReason (c ∷ cs) i n g =
      let (v, h) = visit conf pool tenant c (world i) g in
      let round = visit-IsRound conf pool tenant c (world i) g in
      let as_ : (w : Visit) → v ≡ w → IsRound conf pool tenant c (world i) g w h =
        λ w e. subst (λ u. IsRound conf pool tenant c (world i) g u h) e round in
      elim (Visit-cases v) [
        | was_skipped e ↦
            rw (e, forward)
              (IsReason-skip c cs i n g h _ _ (as_ skipped e) (forward-IsReason cs (suc i) n h))
        | was_failed_over e ↦
            rw (e, forward)
              (IsReason-fail c cs i n g h _ _ (as_ failed_over e)
                (forward-IsReason cs (suc i) (n + 1) h))
        | was_gave_up e ↦ rw (e, forward) (c, 0, ends_here c cs i g gave_up h (as_ gave_up e))
        | was_answered a b e ↦
            rw (e, forward)
              (0, omega arith, ends_here c cs i g (answered a b) h (as_ (answered a b) e))
      ]

-- The ladder takes the candidates in order, each in one round. It returns the first answer that is a
-- dict, with the number of rounds that failed before plus one; it raises at the first HTTP error whose
-- status is not 408, 409, 429 nor 500 or more; and where it runs out of candidates, no round did
-- either. A round passes over an endpoint that the config has not, or whose tier it has not, or that
-- the breaker denies; it fails where there is no URL or no client, where the request is blocked,
-- refused by the breaker or broken, where the HTTP error is one of the others, and where the body is
-- no dict.
pub forward_with_fallback-IsReason :
    (conf : Routes) (pool : Dict Client) (tenant : String) (world : ℕ → Exchange) (decision : Rung)
    (states : Dict String) (g : Gateway)
    → let (r, g') = forward_with_fallback conf pool tenant world decision states g in
      IsReason conf pool tenant world (ladder conf decision states) 0 0 g r g'
unfolding forward_with_fallback
forward_with_fallback-IsReason conf pool tenant world decision states g =
    forward-IsReason conf pool tenant world (ladder conf decision states) 0 0 g
