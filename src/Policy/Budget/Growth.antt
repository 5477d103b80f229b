-- ===== src/Policy/Budget/Growth.antt =====
-- The loop of `budget_aware_route` of gateway/policy.py that builds the cascade.
use ctrl_gateway.Prelude.{
  ℕ, zero, suc, ◌≤◌, ◌<◌, ◌≡◌, refl, sym, ◌∙◌, ap, ◌⊎◌, inl, inr, Bool, true, false, Option, none,
  some, List, [], ◌∷◌, ◌++◌, arith, All, All-append, take, length, length-append, keep, Bool-cases,
}
use ctrl_gateway.Policy.Candidates.{IsAll}
use ctrl_gateway.Policy.Budget.{BudgetAwareCandidate, meets, grow}

pub All-keep {ℓ κ} :
    {A : Type ℓ} (P : A → Type κ) (p : A → Bool) (xs : List A)
    → All P xs
    → All (λ x. P x × (p x ≡ true)) (keep p xs)
All-keep P p [] h = tt
All-keep P p (x ∷ xs) h = elim (Bool-cases (p x)) [
  | inl y ↦ rw y ((h.0, y), All-keep P p xs h.1)
  | inr n ↦ rw n (All-keep P p xs h.1)
]

-- What the loop returns meets the target, is longer than what it started from, and extends it by
-- a prefix of the candidates, and nothing shorter meets the target.
pub record IsShortest (target : ℕ) (start chain : List BudgetAwareCandidate) : Type 0 where
  pub meets_target : meets target chain ≡ true
  pub is_longer : length start < length chain
  pub begins : take (length start) chain ≡ start
  pub none_shorter :
      (j : ℕ) → length start < j → j < length chain → meets target (take j chain) ≡ false

IsAll-map :
    {A : Type 0} (P Q : A → Type 0) (o : Option A) → ((a : A) → P a → Q a) → IsAll P o → IsAll Q o
IsAll-map P Q none f h = tt
IsAll-map P Q (some a) f h = f a h

abbrev pub WhenNone : {A : Type 0} → Type 0 → Option A → Type 0
WhenNone Q none = Q
WhenNone Q (some a) = Unit

WhenNone-map : {A : Type 0} (P Q : Type 0) (o : Option A) → (P → Q) → WhenNone P o → WhenNone Q o
WhenNone-map P Q none f h = f h
WhenNone-map P Q (some a) f h = tt

dec_eq : (j k : ℕ) → (j ≡ k) ⊎ ((j < k) ⊎ (k < j))
dec_eq j k = omega arith

module _ (target : ℕ) where
  pub grow-All :
      (P : BudgetAwareCandidate → Type 0) (chain cs : List BudgetAwareCandidate)
      → All P chain
      → All P cs
      → IsAll (All P) (grow target chain cs)
  unfolding grow
  grow-All P chain [] a b = tt
  grow-All P chain (c ∷ cs) a b =
      let longer = All-append P chain (c ∷ []) a (b.0, tt) in
      elim (Bool-cases (meets target (chain ++ c ∷ []))) [
        | inl y ↦ rw y longer
        | inr n ↦ rw n (grow-All P (chain ++ c ∷ []) cs longer b.1)
      ]

  take_append : (xs ys : List BudgetAwareCandidate) → take (length xs) (xs ++ ys) ≡ xs
  take_append [] ys = refl
  take_append (x ∷ xs) ys = ap (λ l. x ∷ l) (take_append xs ys)

  take-take : (n m : ℕ) (xs : List BudgetAwareCandidate) → n ≤ m → take n (take m xs) ≡ take n xs
  take-take zero m xs h = refl
  take-take (suc n) zero xs h = ground arith
  take-take (suc n) (suc m) [] h = refl
  take-take (suc n) (suc m) (x ∷ xs) h = ap (λ l. x ∷ l) (take-take n m xs (omega (arith, h)))

  extends :
      (chain : List BudgetAwareCandidate) (c : BudgetAwareCandidate) (r : List BudgetAwareCandidate)
      → meets target (chain ++ c ∷ []) ≡ false
      → IsShortest target (chain ++ c ∷ []) r
      → IsShortest target chain r
  extends chain c r n s = record {
    meets_target = s.meets_target;
    is_longer = omega (arith, s.is_longer, length-append chain (c ∷ []));
    begins =
        sym (
          take-take (length chain) (length (chain ++ c ∷ [])) r
            (omega (arith, length-append chain (c ∷ []))))
        ∙ ap (take (length chain)) s.begins
        ∙ take_append chain (c ∷ []);
    none_shorter = λ j a b. elim (dec_eq j (length (chain ++ c ∷ []))) [
      | inl e ↦ ap (λ k. meets target (take k r)) e ∙ ap (meets target) s.begins ∙ n
      | inr d ↦ s.none_shorter j (omega (arith, a, d, length-append chain (c ∷ []))) b
    ];
  }

  pub grow-IsShortest :
      (chain cs : List BudgetAwareCandidate)
      → IsAll (IsShortest target chain) (grow target chain cs)
  unfolding grow
  grow-IsShortest chain [] = tt
  grow-IsShortest chain (c ∷ cs) = elim (Bool-cases (meets target (chain ++ c ∷ []))) [
    | inl y ↦ rw y (record {
      meets_target = y;
      is_longer = omega (arith, length-append chain (c ∷ []));
      begins = take_append chain (c ∷ []);
      none_shorter = λ j a b. ground (arith, length-append chain (c ∷ []));
    })
    | inr n ↦ rw n (
        IsAll-map (IsShortest target (chain ++ c ∷ [])) (IsShortest target chain) _
          (λ r s. extends chain c r n s) (grow-IsShortest (chain ++ c ∷ []) cs))
  ]

  snoc_append :
      (xs : List BudgetAwareCandidate) (c : BudgetAwareCandidate) (ys : List BudgetAwareCandidate)
      → (xs ++ c ∷ []) ++ ys ≡ xs ++ c ∷ ys
  snoc_append [] c ys = refl
  snoc_append (x ∷ xs) c ys = ap (λ l. x ∷ l) (snoc_append xs c ys)

  -- What holds when the loop ends without a chain: the last chain, of every candidate, does not do.
  abbrev pub IsUnmet : List BudgetAwareCandidate → List BudgetAwareCandidate → Type 0
  IsUnmet chain cs = (cs ≡ []) ⊎ (meets target (chain ++ cs) ≡ false)

  pub grow-IsUnmet :
      (chain cs : List BudgetAwareCandidate) → WhenNone (IsUnmet chain cs) (grow target chain cs)
  unfolding grow
  grow-IsUnmet chain [] = inl refl
  grow-IsUnmet chain (c ∷ cs) = elim (Bool-cases (meets target (chain ++ c ∷ []))) [
    | inl y ↦ rw y tt
    | inr n ↦ rw n (
        WhenNone-map (IsUnmet (chain ++ c ∷ []) cs) (IsUnmet chain (c ∷ cs)) _
          (λ u. elim u [
            | inl e ↦ inr (ap (λ l. meets target (chain ++ c ∷ l)) e ∙ n)
            | inr f ↦ inr (sym (ap (meets target) (snoc_append chain c cs)) ∙ f)
          ])
          (grow-IsUnmet (chain ++ c ∷ []) cs))
  ]
