-- ===== src/Prelude/Members.antt =====
-- Members of lists.
use ctrl_gateway.Prelude.{
  ◌≡◌, refl, sym, subst, inl, inr, String, Bool, true, List, [], ◌∷◌, arith, any, str_eq, eq_iff,
  All, Some, here, there, Bool-cases,
}

-- A member of a list.
abbrev pub IsIn {ℓ} : {A : Type ℓ} → A → List A → Type ℓ
IsIn x xs = Some (λ y. y ≡ x) xs

pub Some-map {ℓ κ} :
    {A : Type ℓ} {P Q : A → Type κ} (xs : List A) → ((x : A) → P x → Q x) → Some P xs → Some Q xs
Some-map [] f s = elim s [ ]
Some-map (x ∷ xs) f (here p) = here (f x p)
Some-map (x ∷ xs) f (there s) = there (Some-map xs f s)

pub All-map {ℓ κ} :
    {A : Type ℓ} {P Q : A → Type κ} (xs : List A) → ((x : A) → P x → Q x) → All P xs → All Q xs
All-map [] f h = tt
All-map (x ∷ xs) f h = (f x h.0, All-map xs f h.1)

-- What holds of some member.
pub Some-elim {ℓ κ μ} :
    {A : Type ℓ} {Q : A → Type κ} {R : Type μ} (xs : List A)
    → Some Q xs
    → ((x : A) → IsIn x xs → Q x → R)
    → R
Some-elim [] s k = elim s [ ]
Some-elim (x ∷ xs) (here q) k = k x (here refl) q
Some-elim (x ∷ xs) (there s) k = Some-elim xs s (λ y i q. k y (there i) q)

pub IsIn-Some {ℓ} :
    {A : Type ℓ} {Q : A → Type ℓ} (x : A) (xs : List A) → IsIn x xs → Q x → Some Q xs
IsIn-Some {Q = Q} x xs i q = Some-map xs (λ y same. subst Q (sym same) q) i

pub Some-All {ℓ κ μ} :
    {A : Type ℓ} {P : A → Type κ} {Q : A → Type μ} (xs : List A)
    → All P xs
    → Some Q xs
    → Some (λ x. P x × Q x) xs
Some-All [] h s = elim s [ ]
Some-All (x ∷ xs) h (here q) = here (h.0, q)
Some-All (x ∷ xs) h (there s) = there (Some-All xs h.1 s)

pub All-IsIn {ℓ} : {A : Type ℓ} (xs : List A) → All (λ x. IsIn x xs) xs
All-IsIn [] = tt
All-IsIn (x ∷ xs) = (here refl, All-map xs (λ y. there) (All-IsIn xs))

pub any-IsIn :
    (name : String) (ms : List String) → any (λ m. str_eq m name) ms ≡ true → IsIn name ms
any-IsIn name [] h = absurd (ground arith)
any-IsIn name (m ∷ ms) h = elim (Bool-cases (str_eq m name)) [
  | inl e ↦ here ((eq_iff m name).0 e)
  | inr e ↦ there (any-IsIn name ms (ground (arith, h, e)))
]

pub Some-any {ℓ} :
    {A : Type ℓ} (p : A → Bool) (xs : List A) → Some (λ x. p x ≡ true) xs → any p xs ≡ true
Some-any p [] s = elim s [ ]
Some-any p (x ∷ xs) (here q) = ground (arith, q)
Some-any p (x ∷ xs) (there s) = ground (arith, Some-any p xs s)
