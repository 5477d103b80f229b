-- ===== src/Transcoder/Splits.antt =====
-- The frames that the buffer of gateway/transcoder.py's encoder is split into.
use ctrl_gateway.Prelude.{
  ℕ, ◌≡◌, refl, ap, ◌∙◌, subst, inl, inr, false, ◌&&◌, List, [], ◌∷◌, ◌++◌, arith, ◌==◌, length,
  if◌then◌else◌, Bool-cases,
}
use ctrl_gateway.Prelude.Text.{Text}
use ctrl_gateway.Transcoder.{onto_first, split_frames}

abbrev pub split_both : Text → Text → List Text × Text
split_both xs ys = let f = split_frames xs in let g = split_frames (f.1 ++ ys) in (f.0 ++ g.0, g.1)

pub append_assoc : {A : Type 0} (xs ys zs : List A) → (xs ++ ys) ++ zs ≡ xs ++ (ys ++ zs)
append_assoc [] ys zs = refl
append_assoc (x ∷ xs) ys zs = ap (◌∷◌ x) (append_assoc xs ys zs)

pub append_nil : {A : Type 0} (xs : List A) → xs ++ [] ≡ xs
append_nil [] = refl
append_nil (x ∷ xs) = ap (◌∷◌ x) (append_nil xs)

no_cons : {A : Type 0} (x : A) (xs : List A) → x ∷ xs ≡ [] → ⊥
no_cons x xs h = omega (arith, ap length h)

all_left : (xs : Text) → (split_frames xs).0 ≡ [] → (split_frames xs).1 ≡ xs
unfolding split_frames
all_left [] h = refl
all_left (c ∷ []) h = refl
all_left (c ∷ d ∷ s) h = elim (Bool-cases (c == 10 && d == 10)) [
  | inl e ↦ absurd (
      no_cons [] (split_frames s).0 (
        subst
          (λ b.
            (if b
              then ([] ∷ (split_frames s).0, (split_frames s).1)
              else onto_first c (split_frames (d ∷ s)).0 (split_frames (d ∷ s)).1).0
            ≡ [])
          e h))
  | inr e ↦ rw e (
      onto (split_frames (d ∷ s)).0 (split_frames (d ∷ s)).1 (all_left (d ∷ s)) (
        subst
          (λ b.
            (if b
              then ([] ∷ (split_frames s).0, (split_frames s).1)
              else onto_first c (split_frames (d ∷ s)).0 (split_frames (d ∷ s)).1).0
            ≡ [])
          e h))
]
  where
    onto :
        (fs : List Text) (rest : Text)
        → (fs ≡ [] → rest ≡ d ∷ s)
        → (onto_first c fs rest).0 ≡ []
        → (onto_first c fs rest).1 ≡ c ∷ d ∷ s
    onto [] rest ih k = ap (◌∷◌ c) (ih refl)
    onto (f ∷ fs) rest ih k = absurd (no_cons (c ∷ f) fs k)

onto_both :
    (c d : ℕ) (s ys : Text) (fs : List Text) (rest : Text)
    → (fs ≡ [] → rest ≡ d ∷ s)
    → (c == 10 && d == 10) ≡ false
    → onto_first c (fs ++ (split_frames (rest ++ ys)).0) (split_frames (rest ++ ys)).1 ≡ (
      (onto_first c fs rest).0 ++ (split_frames ((onto_first c fs rest).1 ++ ys)).0,
      (split_frames ((onto_first c fs rest).1 ++ ys)).1,
    )
unfolding split_frames
onto_both c d s ys [] rest ih e = rw (ih refl) (rw (e, split_frames) refl)
onto_both c d s ys (f ∷ fs) rest ih e = refl

pub split-append : (xs ys : Text) → split_frames (xs ++ ys) ≡ split_both xs ys
unfolding split_frames
split-append [] ys = refl
split-append (c ∷ []) ys = refl
split-append (c ∷ d ∷ s) ys = elim (Bool-cases (c == 10 && d == 10)) [
  | inl e ↦ rw e (ap (λ r. ([] ∷ r.0, r.1)) (split-append s ys))
  | inr e ↦ rw e (
      ap (λ r. onto_first c r.0 r.1) (split-append (d ∷ s) ys)
      ∙ onto_both c d s ys (split_frames (d ∷ s)).0 (split_frames (d ∷ s)).1 (all_left (d ∷ s)) e)
]
