-- ===== src/Reviews/Batches.antt =====
-- What a batch of gateway/reviewer.py leaves of its items.
use ctrl_gateway.Prelude.{
  all-head, all-tail, ℕ, zero, suc, ◌≤◌, ◌≡◌, refl, sym, subst, ◌⊎◌, inl, inr, Bool, true, false,
  not, ◌||◌, Option, none, some, List, [], ◌∷◌, arith, ◌==◌, all, keep, length, Some, here, there,
  if◌then◌else◌, Bool-cases, Option-cases,
}
use ctrl_gateway.Reviews.{
  Status, pending, in_progress, done, failed, ReviewError, decision_not_found, per_request_cap,
  ssrf_blocked, http_status, parse_error, timeout, exception, invalid_labels, persist_error,
  QueueRow, stored, update_row, complete_review, fail_all, labels, no_array, fenced, garbage, pad,
  parse_labels, Reply, over_cap, blocked, bad_status, timed_out, raised, answered, persist,
  drop_unknown, known, settle, none_known, process_batch,
}

abbrev pub is_settled : QueueRow → Bool
is_settled r = elim r.status [ pending ↦ false | in_progress ↦ false | done ↦ true | failed ↦ true ]

-- Every row of the id is done or failed.
abbrev pub settles : ℕ → List QueueRow → Bool
settles id q = all (λ r. not (r.id == id) || is_settled r) q

abbrev IsEnd : Status → Type 0
IsEnd s = (s ≡ done) ⊎ (s ≡ failed)

complete_settles :
    (id : ℕ) (s : Status) (e : Option ReviewError) (q : List QueueRow)
    → IsEnd s
    → settles id (complete_review id s e q) ≡ true
unfolding complete_review update_row
complete_settles id s e [] h = refl
complete_settles id s e (r ∷ rs) h = ground (arith, complete_settles id s e rs h)

complete_keeps :
    (j id : ℕ) (s : Status) (e : Option ReviewError) (q : List QueueRow)
    → IsEnd s
    → settles j q ≡ true
    → settles j (complete_review id s e q) ≡ true
unfolding complete_review update_row
complete_keeps j id s e [] h k = refl
complete_keeps j id s e (r ∷ rs) h k = ground (arith, complete_keeps j id s e rs h)

fail_all_keeps :
    (j : ℕ) (items : List QueueRow) (e : ReviewError) (q : List QueueRow)
    → settles j q ≡ true
    → settles j (fail_all items e q) ≡ true
unfolding fail_all
fail_all_keeps j [] e q h = h
fail_all_keeps j (r ∷ rs) e q h =
    fail_all_keeps j rs e (complete_review r.id failed (some e) q)
      (complete_keeps j r.id failed (some e) q (inr refl) h)

fail_all-settles :
    (items : List QueueRow) (i : QueueRow) (e : ReviewError) (q : List QueueRow)
    → Some (λ r. r ≡ i) items
    → settles i.id (fail_all items e q) ≡ true
unfolding fail_all
fail_all-settles [] i e q s = elim s [ ]
fail_all-settles (r ∷ rs) i e q (here p) =
    fail_all_keeps i.id rs e (complete_review r.id failed (some e) q) (
      subst (λ x. settles x.id (complete_review r.id failed (some e) q) ≡ true) p
        (complete_settles r.id failed (some e) q (inr refl)))
fail_all-settles (r ∷ rs) i e q (there s) =
    fail_all-settles rs i e (complete_review r.id failed (some e) q) s

length-pad : {L : Type 0} (e : L) (n : ℕ) (ls : List L) → length (pad e n ls) ≡ n
unfolding pad
length-pad e zero ls = refl
length-pad e (suc n) [] = omega (arith, length-pad e n [])
length-pad e (suc n) (l ∷ ls) = omega (arith, length-pad e n ls)

Some-keep :
    {A : Type 0} (p : A → Bool) (x : A) (xs : List A)
    → Some (λ y. y ≡ x) xs
    → p x ≡ true
    → Some (λ y. y ≡ x) (keep p xs)
Some-keep p x [] s h = elim s [ ]
Some-keep p x (y ∷ ys) (here e) h = rw (subst (λ z. p z ≡ true) (sym e) h) (here e)
Some-keep p x (y ∷ ys) (there s) h = elim (Bool-cases (p y)) [
  | inl k ↦ rw k (there (Some-keep p x ys s h))
  | inr k ↦ rw k (Some-keep p x ys s h)
]

is_empty-Some :
    {A : Type 0} {P : A → Type 0} (xs : List A)
    → Some P xs
    → elim xs [ [] ↦ true | _ ∷ _ ↦ false ] ≡ false
is_empty-Some [] s = elim s [ ]
is_empty-Some (x ∷ xs) s = refl

module _ {L : Type 0} (empty : L) (is_valid : L → Option Bool) (stores : ℕ → L → Bool)
    (has_decision : ℕ → Bool) where
  abbrev answers : L → Bool
  answers l = elim (is_valid l) [ none ↦ false | some v ↦ true ]

  -- The test of the labels answers, and a fenced array is as long as there are items.
  abbrev pub IsUsable : ℕ → Reply L → Type 0
  IsUsable n over_cap = Unit
  IsUsable n blocked = Unit
  IsUsable n bad_status = Unit
  IsUsable n timed_out = Unit
  IsUsable n raised = Unit
  IsUsable n (answered (labels ls)) = all answers (pad empty n ls) ≡ true
  IsUsable n (answered no_array) = Unit
  IsUsable n (answered (fenced ls)) = (n ≤ length ls) × (all answers ls ≡ true)
  IsUsable n (answered garbage) = Unit

  stored-settles :
      (v : Bool) (l : L) (r : QueueRow) (q : List QueueRow)
      → settles r.id (stored stores v l r q) ≡ true
  stored-settles v l r q = ground (
    arith,
    complete_settles r.id failed (some invalid_labels) q (inr refl),
    complete_settles r.id done none q (inl refl),
    complete_settles r.id failed (some persist_error) q (inr refl),
  )

  stored_keeps :
      (j : ℕ) (v : Bool) (l : L) (r : QueueRow) (q : List QueueRow)
      → settles j q ≡ true
      → settles j (stored stores v l r q) ≡ true
  stored_keeps j v l r q h = ground (
    arith,
    complete_keeps j r.id failed (some invalid_labels) q (inr refl) h,
    complete_keeps j r.id done none q (inl refl) h,
    complete_keeps j r.id failed (some persist_error) q (inr refl) h,
  )

  persist_keeps :
      (j : ℕ) (ls : List L) (items q : List QueueRow)
      → settles j q ≡ true
      → settles j (persist empty is_valid stores has_decision ls items q) ≡ true
  unfolding persist
  persist_keeps j [] items q h = h
  persist_keeps j (l ∷ ls) [] q h = h
  persist_keeps j (l ∷ ls) (r ∷ rs) q h = elim (Option-cases (is_valid l)) [
    | inl n ↦ rw (n, persist) h
    | inr (v, n) ↦
        rw (n, persist) (persist_keeps j ls rs (stored stores v l r q) (stored_keeps j v l r q h))
  ]

  persist-settles :
      (ls : List L) (items : List QueueRow) (i : QueueRow) (q : List QueueRow)
      → Some (λ r. r ≡ i) items
      → length items ≤ length ls
      → all answers ls ≡ true
      → settles i.id (persist empty is_valid stores has_decision ls items q) ≡ true
  unfolding persist
  persist-settles ls [] i q s h k = elim s [ ]
  persist-settles [] (r ∷ rs) i q s h k = absurd (omega (arith, h))
  persist-settles (l ∷ ls) (r ∷ rs) i q s h k = elim (Option-cases (is_valid l)) [
    | inl n ↦ absurd (ground (arith, n, all-head answers l ls k))
    | inr (v, n) ↦
        rw (n, persist)
          (elim s [
            | here p ↦ persist_keeps i.id ls rs (stored stores v l r q) (
                subst (λ x. settles x.id (stored stores v l r q) ≡ true) p (stored-settles v l r q))
            | there s' ↦
                persist-settles ls rs i (stored stores v l r q) s' (omega (arith, h))
                  (all-tail answers l ls k)
          ])
  ]

  settle-settles :
      (items : List QueueRow) (reply : Reply L) (i : QueueRow) (q : List QueueRow)
      → Some (λ r. r ≡ i) items
      → has_decision i.decision_id ≡ true
      → IsUsable (length (known empty is_valid stores has_decision items)) reply
      → settles i.id (settle empty is_valid stores has_decision items reply q) ≡ true
  unfolding settle parse_labels
  settle-settles items over_cap i q s k h = fail_all-settles items i per_request_cap q s
  settle-settles items blocked i q s k h = fail_all-settles items i ssrf_blocked q s
  settle-settles items bad_status i q s k h = fail_all-settles items i http_status q s
  settle-settles items timed_out i q s k h = fail_all-settles items i timeout q s
  settle-settles items raised i q s k h = fail_all-settles items i exception q s
  settle-settles items (answered no_array) i q s k h = fail_all-settles items i parse_error q s
  settle-settles items (answered garbage) i q s k h = fail_all-settles items i parse_error q s
  settle-settles items (answered (labels ls)) i q s k h =
      persist-settles _ (known empty is_valid stores has_decision items) i q
        (Some-keep _ i items s k)
        (omega
          (arith, length-pad empty (length (known empty is_valid stores has_decision items)) ls))
        h
  settle-settles items (answered (fenced ls)) i q s k h =
      persist-settles ls (known empty is_valid stores has_decision items) i q
        (Some-keep _ i items s k) h.0 h.1

  drop_keeps :
      (j : ℕ) (items q : List QueueRow)
      → settles j q ≡ true
      → settles j (drop_unknown empty is_valid stores has_decision items q) ≡ true
  unfolding drop_unknown
  drop_keeps j [] q h = h
  drop_keeps j (r ∷ rs) q h =
      drop_keeps j rs
        (if has_decision r.decision_id
          then q
          else complete_review r.id failed (some decision_not_found) q)
        (ground (arith, complete_keeps j r.id failed (some decision_not_found) q (inr refl) h))

  drop_settles :
      (items : List QueueRow) (i : QueueRow) (q : List QueueRow)
      → Some (λ r. r ≡ i) items
      → has_decision i.decision_id ≡ false
      → settles i.id (drop_unknown empty is_valid stores has_decision items q) ≡ true
  unfolding drop_unknown
  drop_settles [] i q s k = elim s [ ]
  drop_settles (r ∷ rs) i q (here p) k = drop_keeps i.id rs _ (
      rw (subst (λ x. has_decision x.decision_id ≡ false) (sym p) k) (
        subst (λ x. settles x.id (complete_review r.id failed (some decision_not_found) q) ≡ true) p
          (complete_settles r.id failed (some decision_not_found) q (inr refl))))
  drop_settles (r ∷ rs) i q (there s) k = drop_settles rs i _ s k

  settle_keeps :
      (j : ℕ) (items : List QueueRow) (reply : Reply L) (q : List QueueRow)
      → settles j q ≡ true
      → settles j (settle empty is_valid stores has_decision items reply q) ≡ true
  unfolding settle parse_labels
  settle_keeps j items over_cap q h = fail_all_keeps j items per_request_cap q h
  settle_keeps j items blocked q h = fail_all_keeps j items ssrf_blocked q h
  settle_keeps j items bad_status q h = fail_all_keeps j items http_status q h
  settle_keeps j items timed_out q h = fail_all_keeps j items timeout q h
  settle_keeps j items raised q h = fail_all_keeps j items exception q h
  settle_keeps j items (answered no_array) q h = fail_all_keeps j items parse_error q h
  settle_keeps j items (answered garbage) q h = fail_all_keeps j items parse_error q h
  settle_keeps j items (answered (labels ls)) q h =
      persist_keeps j _ (known empty is_valid stores has_decision items) q h
  settle_keeps j items (answered (fenced ls)) q h =
      persist_keeps j ls (known empty is_valid stores has_decision items) q h

  -- Whatever becomes of the request of a batch, when the test of the labels raises for none of them,
  -- and a fenced array has at least as many labels as there are items whose decision is found, the
  -- rows of every item of the batch end done or failed.
  pub batch_settles :
      (items : List QueueRow) (reply : Reply L) (i : QueueRow) (q : List QueueRow)
      → Some (λ r. r ≡ i) items
      → IsUsable (length (known empty is_valid stores has_decision items)) reply
      → settles i.id (process_batch empty is_valid stores has_decision items reply q) ≡ true
  unfolding process_batch
  batch_settles items reply i q s h = elim (Bool-cases (has_decision i.decision_id)) [
    | inl k ↦
        rw
          (is_empty-Some (known empty is_valid stores has_decision items)
            (Some-keep (λ r. has_decision r.decision_id) i items s k))
          (settle-settles items reply i _ s k h)
    | inr k ↦ elim (Bool-cases (none_known empty is_valid stores has_decision items)) [
      | inl n ↦ rw n (drop_settles items i q s k)
      | inr n ↦ rw n (settle_keeps i.id items reply _ (drop_settles items i q s k))
    ]
  ]
