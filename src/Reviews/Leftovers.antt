-- ===== src/Reviews/Leftovers.antt =====
-- The items that a batch of gateway/reviewer.py leaves alone.
use ctrl_gateway.Prelude.{
  all-head, all-tail, ℕ, ◌≡◌, refl, ◌∙◌, inl, inr, Bool, true, not, ◌||◌, Option, none, some, List,
  [], ◌∷◌, arith, ◌==◌, all, keep, take, length, Bool-cases, Option-cases,
}
use ctrl_gateway.Reviews.{
  Status, done, failed, ReviewError, decision_not_found, invalid_labels, persist_error, QueueRow,
  stored, update_row, complete_review, fenced, parse_labels, answered, persist, drop_unknown, known,
  settle, none_known, process_batch,
}

-- The rows of the id.
abbrev rows : ℕ → List QueueRow → List QueueRow
rows j q = keep (λ r. r.id == j) q

complete_leaves :
    (j id : ℕ) (s : Status) (e : Option ReviewError) (q : List QueueRow)
    → not (id == j) ≡ true
    → rows j (complete_review id s e q) ≡ rows j q
unfolding complete_review update_row
complete_leaves j id s e [] h = refl
complete_leaves j id s e (r ∷ rs) h = ground (arith, complete_leaves j id s e rs h)

module _ {L : Type 0} (empty : L) (is_valid : L → Option Bool) (stores : ℕ → L → Bool)
    (has_decision : ℕ → Bool) where
  stored_leaves :
      (j : ℕ) (v : Bool) (l : L) (r : QueueRow) (q : List QueueRow)
      → not (r.id == j) ≡ true
      → rows j (stored stores v l r q) ≡ rows j q
  stored_leaves j v l r q h = ground (
    arith,
    complete_leaves j r.id failed (some invalid_labels) q h,
    complete_leaves j r.id done none q h,
    complete_leaves j r.id failed (some persist_error) q h,
  )

  persist_leaves :
      (j : ℕ) (ls : List L) (items q : List QueueRow)
      → all (λ r. not (r.id == j)) (take (length ls) items) ≡ true
      → rows j (persist empty is_valid stores has_decision ls items q) ≡ rows j q
  unfolding persist
  persist_leaves j [] items q h = refl
  persist_leaves j (l ∷ ls) [] q h = refl
  persist_leaves j (l ∷ ls) (r ∷ rs) q h = elim (Option-cases (is_valid l)) [
    | inl n ↦ rw (n, persist) refl
    | inr (v, n) ↦
        rw (n, persist)
          (persist_leaves j ls rs (stored stores v l r q)
              (all-tail (λ x. not (x.id == j)) r (take (length ls) rs) h)
            ∙ stored_leaves j v l r q (all-head (λ x. not (x.id == j)) r (take (length ls) rs) h))
  ]

  drop_leaves :
      (j : ℕ) (items q : List QueueRow)
      → all (λ r. has_decision r.decision_id || not (r.id == j)) items ≡ true
      → rows j (drop_unknown empty is_valid stores has_decision items q) ≡ rows j q
  unfolding drop_unknown
  drop_leaves j [] q h = refl
  drop_leaves j (r ∷ rs) q h =
      drop_leaves j rs _ (all-tail (λ x. has_decision x.decision_id || not (x.id == j)) r rs h)
      ∙ ground (
        arith,
        all-head (λ x. has_decision x.decision_id || not (x.id == j)) r rs h,
        complete_leaves j r.id failed (some decision_not_found) q,
      )

  -- When the answer is a fenced array, the rows of an id that no item of an unknown decision and no
  -- item up to the array's length has are left as they are: an item past the array's end stays in
  -- progress.
  pub short_reply :
      (items : List QueueRow) (ls : List L) (j : ℕ) (q : List QueueRow)
      → all (λ r. has_decision r.decision_id || not (r.id == j)) items ≡ true
      → all
          (λ r. not (r.id == j))
          (take (length ls) (known empty is_valid stores has_decision items))
        ≡ true
      → keep
          (λ r. r.id == j)
          (process_batch empty is_valid stores has_decision items (answered (fenced ls)) q)
        ≡ keep (λ r. r.id == j) q
  unfolding process_batch settle parse_labels
  short_reply items ls j q h k =
      elim (Bool-cases (none_known empty is_valid stores has_decision items)) [
        | inl n ↦ rw n (drop_leaves j items q h)
        | inr n ↦ rw n (
            persist_leaves j ls (known empty is_valid stores has_decision items) _ k
            ∙ drop_leaves j items q h)
      ]
