-- ===== src/Reviews/Order.antt =====
-- The order in which gateway/memory.py's `dequeue_review` takes the rows.
use ctrl_gateway.Prelude.{
  ℕ, ◌+◌, ltb, ◌≡◌, ◌≢◌, refl, ◌⊎◌, inl, inr, true, false, not, ◌&&◌, ◌||◌, Option, none, some,
  List, [], ◌∷◌, arith, ◌==◌, all, Some, here, there, if◌then◌else◌, Bool-cases,
}
use ctrl_gateway.Reviews.{
  QueueRow, in_progress, is_pending, comes_before, first_pending, update_row, started,
  dequeue_review,
}

comes_before_trans :
    (a b c : QueueRow) → comes_before a b ≡ true → comes_before b c ≡ true → comes_before a c ≡ true
unfolding comes_before
comes_before_trans a b c h k = ground (arith, h, k)

comes_before_total : (a b : QueueRow) → comes_before a b ≡ false → comes_before b a ≡ true
unfolding comes_before
comes_before_total a b h = ground (arith, h)

comes_before_refl : (a : QueueRow) → comes_before a a ≡ true
unfolding comes_before
comes_before_refl a = ground arith

-- The row comes before every pending row of the queue.
abbrev IsBeforeAll : QueueRow → List QueueRow → Type 0
IsBeforeAll r q = all (λ s. not (is_pending s) || comes_before r s) q ≡ true

IsBeforeAll-trans :
    (a b : QueueRow) (q : List QueueRow)
    → comes_before a b ≡ true
    → IsBeforeAll b q
    → IsBeforeAll a q
IsBeforeAll-trans a b [] h k = refl
IsBeforeAll-trans a b (s ∷ q) h k =
    ground (arith, IsBeforeAll-trans a b q h, comes_before_trans a b s h, k)

abbrev IsFirst : List QueueRow → Option QueueRow → Type 0
IsFirst q none = all (λ s. not (is_pending s)) q ≡ true
IsFirst q (some r) = (is_pending r ≡ true) × Some (λ x. x ≡ r) q × IsBeforeAll r q

alone :
    (r : QueueRow) (q : List QueueRow) → all (λ s. not (is_pending s)) q ≡ true → IsBeforeAll r q
alone r [] h = refl
alone r (s ∷ q) h = ground (arith, alone r q, h)

chosen-IsFirst :
    (r : QueueRow) (rs : List QueueRow) (o : Option QueueRow)
    → IsFirst rs o
    → IsFirst (r ∷ rs) (
        if is_pending r
        then elim o [ none ↦ some r | some b ↦ if comes_before r b then some r else some b ]
        else o)
chosen-IsFirst r rs none h = elim (Bool-cases (is_pending r)) [
  | inl k ↦ rw k (k, here refl, ground (arith, alone r rs h, comes_before_refl r))
  | inr k ↦ rw k (ground (arith, h, k))
]
chosen-IsFirst r rs (some b) h = elim (Bool-cases (is_pending r)) [
  | inl k ↦ elim (Bool-cases (comes_before r b)) [
    | inl c ↦
        rw (k, c)
          (k, here refl, ground (arith, IsBeforeAll-trans r b rs c h.2, comes_before_refl r))
    | inr c ↦ rw (k, c) (h.0, there h.1, ground (arith, h.2, comes_before_total r b c))
  ]
  | inr k ↦ rw k (h.0, there h.1, ground (arith, h.2, k))
]

first_pending-IsFirst : (q : List QueueRow) → IsFirst q (first_pending q)
unfolding first_pending
first_pending-IsFirst [] = refl
first_pending-IsFirst (r ∷ rs) = chosen-IsFirst r rs (first_pending rs) (first_pending-IsFirst rs)

-- The second queue is the first one with every row of the id put in progress since now, with one
-- attempt more, and every other row, and the order, as they were.
abbrev pub IsTaken : ℕ → ℕ → List QueueRow → List QueueRow → Type 0
IsTaken now id [] [] = Unit
IsTaken now id [] (s' ∷ q') = ⊥
IsTaken now id (s ∷ q) [] = ⊥
IsTaken now id (s ∷ q) (s' ∷ q') =
    (((s.id ≢ id) × (s' ≡ s))
      ⊎ ((s.id ≡ id)
          × (s'.id ≡ id)
          × (s'.status ≡ in_progress)
          × (s'.attempts ≡ s.attempts + 1)
          × (s'.started_at ≡ some now)
          × (s'.priority ≡ s.priority)
          × (s'.ts_queued ≡ s.ts_queued)))
    × IsTaken now id q q'

-- What one step of the queue is to be: when it gives no row, no row is pending; otherwise the row is a
-- pending one of the queue, no pending row has a higher priority or, with the same priority, an
-- earlier time, and the rows of its id are taken.
abbrev pub IsNext : ℕ → List QueueRow → Option (QueueRow × List QueueRow) → Type 0
IsNext now q none = all (λ s. not (is_pending s)) q ≡ true
IsNext now q (some (r, q')) =
    (is_pending r ≡ true)
    × Some (λ x. x ≡ r) q
    × (all
          (λ s. not (
            is_pending s
            && (ltb r.priority s.priority
                || (s.priority == r.priority && ltb s.ts_queued r.ts_queued))))
          q
        ≡ true)
    × IsTaken now r.id q q'

updated-IsTaken :
    (now id : ℕ) (q : List QueueRow) → IsTaken now id q (update_row id (started now) q)
unfolding update_row
updated-IsTaken now id [] = tt
updated-IsTaken now id (s ∷ q) = elim (Bool-cases (s.id == id)) [
  | inl h ↦
      let same : s.id ≡ id = ground (arith, h) in
      rw h (inr (same, same, refl, refl, refl, refl, refl), updated-IsTaken now id q)
  | inr h ↦
      let other : s.id ≢ id = ground (arith, h) in
      rw h (inl (other, refl), updated-IsTaken now id q)
]

IsBeforeAll-none_better :
    (r : QueueRow) (q : List QueueRow)
    → IsBeforeAll r q
    → all
        (λ s. not (
          is_pending s
          && (ltb r.priority s.priority
              || (s.priority == r.priority && ltb s.ts_queued r.ts_queued))))
        q
      ≡ true
unfolding comes_before
IsBeforeAll-none_better r [] h = refl
IsBeforeAll-none_better r (s ∷ q) h = ground (arith, IsBeforeAll-none_better r q, h)

dequeued-IsNext :
    (now : ℕ) (q : List QueueRow) (o : Option QueueRow)
    → IsFirst q o
    → IsNext now q (elim o [ none ↦ none | some r ↦ some (r, update_row r.id (started now) q) ])
dequeued-IsNext now q none h = h
dequeued-IsNext now q (some r) h =
    (h.0, h.1, IsBeforeAll-none_better r q h.2, updated-IsTaken now r.id q)

-- Taking the next review gives nothing only when no row is pending; otherwise it gives a pending row of
-- the queue such that no pending row has a higher priority, or the same priority and an earlier time,
-- and puts every row of its id in progress since now with one attempt more, and no other row changes.
pub dequeue_review-IsNext : (now : ℕ) (q : List QueueRow) → IsNext now q (dequeue_review now q)
unfolding dequeue_review
dequeue_review-IsNext now q = dequeued-IsNext now q (first_pending q) (first_pending-IsFirst q)
