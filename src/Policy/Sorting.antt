-- ===== src/Policy/Sorting.antt =====
-- The sort of the candidates by cost.
use ctrl_gateway.Prelude.{
  ℕ, ◌≤◌, Bool, true, false, List, [], ◌∷◌, arith, All, ltb, if◌then◌else◌, Bool-cases, inl, inr,
}
use ctrl_gateway.Policy.{insert_by, sort_by}

module _ {ℓ} {C : Type ℓ} (cost : C → ℕ) where
  abbrev pub IsSorted : List C → Type ℓ
  IsSorted [] = Unit
  IsSorted (x ∷ xs) = All (λ y. cost x ≤ cost y) xs × IsSorted xs

  module _ {κ} (P : C → Type κ) where
    All-insert_by : (x : C) (xs : List C) → P x → All P xs → All P (insert_by cost x xs)
    unfolding insert_by
    All-insert_by x [] p h = (p, tt)
    All-insert_by x (y ∷ ys) p h = elim (Bool-cases (ltb (cost y) (cost x))) [
      | inl b ↦ rw b (h.0, All-insert_by x ys p h.1)
      | inr b ↦ rw b (p, h)
    ]

    -- Sorting keeps what holds of every element, and
    pub All-sort_by : (xs : List C) → All P xs → All P (sort_by cost xs)
    unfolding sort_by
    All-sort_by [] h = tt
    All-sort_by (x ∷ xs) h = All-insert_by x (sort_by cost xs) h.0 (All-sort_by xs h.1)

    unplace :
        (b : Bool) (x y : C) (ys : List C)
        → (All P (insert_by cost x ys) → P x × All P ys)
        → All P (if b then y ∷ insert_by cost x ys else x ∷ y ∷ ys)
        → P x × (P y × All P ys)
    unplace true x y ys inner h = let rest = inner h.1 in (rest.0, (h.0, rest.1))
    unplace false x y ys inner h = h

    All-uninsert_by : (x : C) (xs : List C) → All P (insert_by cost x xs) → P x × All P xs
    unfolding insert_by
    All-uninsert_by x [] h = h
    All-uninsert_by x (y ∷ ys) h = unplace (ltb (cost y) (cost x)) x y ys (All-uninsert_by x ys) h

    -- loses no element.
    pub All-unsort_by : (xs : List C) → All P (sort_by cost xs) → All P xs
    unfolding sort_by
    All-unsort_by [] h = tt
    All-unsort_by (x ∷ xs) h =
        let parts = All-uninsert_by x (sort_by cost xs) h in (parts.0, All-unsort_by xs parts.1)

  at_least_trans :
      (n m : ℕ) (xs : List C) → n ≤ m → All (λ y. m ≤ cost y) xs → All (λ y. n ≤ cost y) xs
  at_least_trans n m [] le h = tt
  at_least_trans n m (x ∷ xs) le h = (omega (arith, le, h.0), at_least_trans n m xs le h.1)

  insert_by-IsSorted : (x : C) (xs : List C) → IsSorted xs → IsSorted (insert_by cost x xs)
  unfolding insert_by
  insert_by-IsSorted x [] h = (tt, tt)
  insert_by-IsSorted x (y ∷ ys) h = elim (Bool-cases (ltb (cost y) (cost x))) [
    | inl b ↦
        rw b (
          All-insert_by (λ z. cost y ≤ cost z) x ys (ground arith) h.0,
          insert_by-IsSorted x ys h.1,
        )
    | inr b ↦ rw b ((ground arith, at_least_trans (cost x) (cost y) ys (ground arith) h.0), h)
  ]

  pub sort_by-IsSorted : (xs : List C) → IsSorted (sort_by cost xs)
  unfolding sort_by
  sort_by-IsSorted [] = tt
  sort_by-IsSorted (x ∷ xs) = insert_by-IsSorted x (sort_by cost xs) (sort_by-IsSorted xs)
