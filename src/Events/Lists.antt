-- ===== src/Events/Lists.antt =====
-- Lists read from their ends, for the ring of gateway/events.py.
use ctrl_gateway.Prelude.{
  ℕ, zero, suc, ◌+◌, ◌-◌, ◌≤◌, ◌≡◌, refl, sym, ap, ◌∙◌, inl, inr, Bool, true, false, List, [], ◌∷◌,
  ◌++◌, arith, leb, ltb, keep, take, drop, length, length-append, length-drop, Bool-cases,
}
use ctrl_gateway.Events.{push, reversed}

-- The last members of a list.
abbrev pub last : {A : Type 0} → ℕ → List A → List A
last n xs = drop (length xs - n) xs

drop-append :
    {A : Type 0} (n : ℕ) (xs ys : List A) → n ≤ length xs → drop n (xs ++ ys) ≡ drop n xs ++ ys
drop-append zero xs ys h = refl
drop-append (suc n) [] ys h = absurd (omega (arith, h))
drop-append (suc n) (x ∷ xs) ys h = drop-append n xs ys (omega (arith, h))

pub drop_nil : {A : Type 0} (k : ℕ) → drop {A = A} k [] ≡ []
drop_nil zero = refl
drop_nil (suc k) = refl

suc_add : (n m : ℕ) → suc n + m ≡ suc (n + m)
suc_add n m = omega arith

drop-drop : {A : Type 0} (m n : ℕ) (xs : List A) → drop m (drop n xs) ≡ drop (n + m) xs
drop-drop m zero xs = ap (λ k. drop k xs) (omega arith)
drop-drop m (suc n) [] = rw (drop_nil m, drop_nil (suc n + m)) refl
drop-drop m (suc n) (x ∷ xs) = rw (suc_add n m) (drop-drop m n xs)

longer :
    {A : Type 0} (n : ℕ) (x : A) (xs : List A)
    → ltb n (length (last n xs ++ (x ∷ []))) ≡ true
    → n ≤ length xs
longer n x xs e =
    ground (arith, e, length-append (last n xs) (x ∷ []), length-drop (length xs - n) xs)

shorter :
    {A : Type 0} (n : ℕ) (x : A) (xs : List A)
    → ltb n (length (last n xs ++ (x ∷ []))) ≡ false
    → length xs + 1 ≤ n
shorter n x xs e =
    ground (arith, e, length-append (last n xs) (x ∷ []), length-drop (length xs - n) xs)

pub push-last :
    {A : Type 0} (n : ℕ) (x : A) (xs : List A) → push n x (last n xs) ≡ last n (xs ++ (x ∷ []))
unfolding push
push-last n x xs =
    let together : drop (length xs - n) xs ++ (x ∷ []) ≡ drop (length xs - n) (xs ++ (x ∷ [])) =
      sym (drop-append (length xs - n) xs (x ∷ []) (omega arith)) in
    elim (Bool-cases (ltb n (length (last n xs ++ (x ∷ []))))) [
      | inl e ↦
          let long : n ≤ length xs = longer n x xs e in
          rw e (
            ap (drop 1) together
            ∙ drop-drop 1 (length xs - n) (xs ++ (x ∷ []))
            ∙ ap (λ k. drop k (xs ++ (x ∷ []))) (omega (arith, long, length-append xs (x ∷ []))))
      | inr e ↦
          let short : length xs + 1 ≤ n = shorter n x xs e in
          rw e (
            together
            ∙ ap (λ k. drop k (xs ++ (x ∷ []))) (omega (arith, short, length-append xs (x ∷ []))))
    ]

pub append_assoc : {A : Type 0} (xs ys zs : List A) → (xs ++ ys) ++ zs ≡ xs ++ (ys ++ zs)
append_assoc [] ys zs = refl
append_assoc (x ∷ xs) ys zs = ap (◌∷◌ x) (append_assoc xs ys zs)

pub append_nil : {A : Type 0} (xs : List A) → xs ++ [] ≡ xs
append_nil [] = refl
append_nil (x ∷ xs) = ap (◌∷◌ x) (append_nil xs)

pub take_nil : {A : Type 0} (k : ℕ) → take {A = A} k [] ≡ []
take_nil zero = refl
take_nil (suc k) = refl

reversed-append : {A : Type 0} (xs ys : List A) → reversed (xs ++ ys) ≡ reversed ys ++ reversed xs
unfolding reversed
reversed-append [] ys = sym (append_nil (reversed ys))
reversed-append (x ∷ xs) ys =
    ap (λ zs. zs ++ (x ∷ [])) (reversed-append xs ys)
    ∙ append_assoc (reversed ys) (reversed xs) (x ∷ [])

reversed-reversed : {A : Type 0} (xs : List A) → reversed (reversed xs) ≡ xs
unfolding reversed
reversed-reversed [] = refl
reversed-reversed (x ∷ xs) =
    reversed-append (reversed xs) (x ∷ []) ∙ ap (◌∷◌ x) (reversed-reversed xs)

length-reversed : {A : Type 0} (xs : List A) → length (reversed xs) ≡ length xs
unfolding reversed
length-reversed [] = refl
length-reversed (x ∷ xs) = omega (arith, length-append (reversed xs) (x ∷ []), length-reversed xs)

take-append : {A : Type 0} (n : ℕ) (xs ys : List A) → n ≤ length xs → take n (xs ++ ys) ≡ take n xs
take-append zero xs ys h = refl
take-append (suc n) [] ys h = absurd (omega (arith, h))
take-append (suc n) (x ∷ xs) ys h = ap (◌∷◌ x) (take-append n xs ys (omega (arith, h)))

take_all : {A : Type 0} (n : ℕ) (xs : List A) → length xs ≤ n → take n xs ≡ xs
take_all zero [] h = refl
take_all zero (x ∷ xs) h = absurd (omega (arith, h))
take_all (suc n) [] h = refl
take_all (suc n) (x ∷ xs) h = ap (◌∷◌ x) (take_all n xs (omega (arith, h)))

left_long : (m n : ℕ) → n ≤ m → suc (m - n) ≡ suc m - n
left_long m n h = omega (arith, h)

left_short : (m n : ℕ) → suc m ≤ n → 0 ≡ suc m - n
left_short m n h = omega (arith, h)

pub reversed-take : {A : Type 0} (n : ℕ) (xs : List A) → reversed (take n (reversed xs)) ≡ last n xs
unfolding reversed
reversed-take n [] = rw (take_nil n, drop_nil (0 - n)) refl
reversed-take n (x ∷ xs) = elim (Bool-cases (leb n (length xs))) [
  | inl e ↦
      let h : n ≤ length xs = ground (arith, e) in
      ap reversed (take-append n (reversed xs) (x ∷ []) (omega (arith, h, length-reversed xs)))
      ∙ reversed-take n xs
      ∙ ap (λ k. drop k (x ∷ xs)) (left_long (length xs) n h)
  | inr e ↦
      let h : length (x ∷ xs) ≤ n = ground (arith, e) in
      ap reversed (take_all n (reversed (x ∷ xs)) (omega (arith, h, length-reversed (x ∷ xs))))
      ∙ reversed-reversed (x ∷ xs)
      ∙ ap (λ k. drop k (x ∷ xs)) (left_short (length xs) n h)
]

keep-append :
    {A : Type 0} (p : A → Bool) (xs ys : List A) → keep p (xs ++ ys) ≡ keep p xs ++ keep p ys
keep-append p [] ys = refl
keep-append p (x ∷ xs) ys = elim (Bool-cases (p x)) [
  | inl e ↦ rw e (ap (◌∷◌ x) (keep-append p xs ys))
  | inr e ↦ rw e (keep-append p xs ys)
]

pub keep-reversed :
    {A : Type 0} (p : A → Bool) (xs : List A) → keep p (reversed xs) ≡ reversed (keep p xs)
unfolding reversed
keep-reversed p [] = refl
keep-reversed p (x ∷ xs) = keep-append p (reversed xs) (x ∷ []) ∙ elim (Bool-cases (p x)) [
  | inl e ↦ rw e (ap (λ zs. zs ++ (x ∷ [])) (keep-reversed p xs))
  | inr e ↦ rw e (append_nil _ ∙ keep-reversed p xs)
]
