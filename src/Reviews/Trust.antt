-- ===== src/Reviews/Trust.antt =====
-- What reaches the trainer's pool through gateway/memory.py's `store_review_result`, and what
-- `_valid_labels` of gateway/reviewer.py lets through.
use ctrl_gateway.Prelude.{
  ℕ, ◌*◌, ◌≤◌, ◌≡◌, refl, subst, ◌⊎◌, inl, inr, Bool, true, false, not, ◌&&◌, ◌||◌, Option, none,
  some, String, arith, leb, eq_iff, max, if◌then◌else◌, OnSome, Bool-cases,
}
use ctrl_gateway.Reviews.Labels.{
  Value, missing, other, unhashable, flag, number, word, Answer, not_an_object, answer, Labels,
  Verdict, type_error, refused, valid, to_flag, valid_flags, valid_complexity, valid_labels, agrees,
  agree_count, all_fields_agree, human_reviewed, flywheel, CuratedSample, store_review_result,
}

-- The answer that says the labels.
abbrev pub to_answer : Labels → Answer
to_answer l =
    answer (word l.vertical) (number l.complexity) (flag l.code) (flag l.math) (flag l.reasoning)
      (flag l.long_output)

abbrev pub OnValid : (Labels → Type 0) → Verdict → Type 0
OnValid P type_error = Unit
OnValid P refused = Unit
OnValid P (valid l) = P l

abbrev IsInRange : Labels → Type 0
IsInRange l = (1 ≤ l.complexity) × (l.complexity ≤ 5)

to_flag_cases :
    (a : Value) → (to_flag a ≡ none) ⊎ ((w : Bool) × (flag w ≡ a) × (to_flag a ≡ some w))
to_flag_cases missing = inl refl
to_flag_cases other = inl refl
to_flag_cases unhashable = inl refl
to_flag_cases (number n) = inl refl
to_flag_cases (word s) = inl refl
to_flag_cases (flag w) = inr (w, refl, refl)

-- What the test has let through: the labels that the answer says, in range.
abbrev pub IsTyped : (String → Bool) → Answer → Labels → Type 0
IsTyped verticals a l =
    (to_answer l ≡ a) × (verticals l.vertical ≡ true) × (1 ≤ l.complexity) × (l.complexity ≤ 5)

valid_flags-OnValid :
    (verticals : String → Bool) (v : String) (n : ℕ) (a b c d : Value)
    → verticals v ≡ true
    → 1 ≤ n
    → n ≤ 5
    → OnValid
        (IsTyped verticals (answer (word v) (number n) a b c d))
        (valid_flags v n (to_flag a) (to_flag b) (to_flag c) (to_flag d))
unfolding valid_flags
valid_flags-OnValid verticals v n a b c d h h1 h5 = elim (to_flag_cases a) [
  | inl e ↦ rw e tt
  | inr (w, ew, e) ↦ elim (to_flag_cases b) [
    | inl f ↦ rw (e, f) tt
    | inr (x, ex, f) ↦ elim (to_flag_cases c) [
      | inl g ↦ rw (e, f, g) tt
      | inr (y, ey, g) ↦ elim (to_flag_cases d) [
        | inl k ↦ rw (e, f, g, k) tt
        | inr (z, ez, k) ↦ rw (e, f, g, k) (cc (ew, ex, ey, ez), h, h1, h5)
      ]
    ]
  ]
]

valid_complexity-OnValid :
    (verticals : String → Bool) (v : String) (n a b c d : Value)
    → verticals v ≡ true
    → OnValid (IsTyped verticals (answer (word v) n a b c d)) (valid_complexity v n a b c d)
valid_complexity-OnValid verticals v missing a b c d h = tt
valid_complexity-OnValid verticals v other a b c d h = tt
valid_complexity-OnValid verticals v unhashable a b c d h = tt
valid_complexity-OnValid verticals v (flag x) a b c d h = tt
valid_complexity-OnValid verticals v (word s) a b c d h = tt
valid_complexity-OnValid verticals v (number n) a b c d h = elim (Bool-cases (leb 1 n && leb n 5)) [
  | inl e ↦
      rw e (valid_flags-OnValid verticals v n a b c d h (ground (arith, e)) (ground (arith, e)))
  | inr e ↦ rw e tt
]

-- Labels that pass the test are those that the answer says: the vertical is one of the config, the
-- complexity is from 1 to 5, and every flag is a Boolean.
pub valid_labels-IsTyped :
    (verticals : String → Bool) (a : Answer)
    → OnValid (IsTyped verticals a) (valid_labels verticals a)
unfolding valid_labels
valid_labels-IsTyped verticals not_an_object = tt
valid_labels-IsTyped verticals (answer missing n a b c d) = tt
valid_labels-IsTyped verticals (answer other n a b c d) = tt
valid_labels-IsTyped verticals (answer unhashable n a b c d) = tt
valid_labels-IsTyped verticals (answer (flag x) n a b c d) = tt
valid_labels-IsTyped verticals (answer (number k) n a b c d) = tt
valid_labels-IsTyped verticals (answer (word v) n a b c d) = elim (Bool-cases (verticals v)) [
  | inl e ↦ rw e (valid_complexity-OnValid verticals v n a b c d e)
  | inr e ↦ rw e tt
]

abbrev labels_of : String → ℕ → Bool → Bool → Bool → Bool → Labels
labels_of v n w x y z = record {
  vertical = v;
  complexity = n;
  code = w;
  math = x;
  reasoning = y;
  long_output = z;
}

agrees-eq : (a b : Bool) → agrees a b ≡ true → a ≡ b
agrees-eq true true h = refl
agrees-eq false false h = refl
agrees-eq true false h = absurd (ground (arith, h))
agrees-eq false true h = absurd (ground (arith, h))

labels_of-eq :
    (v v' : String) (n n' : ℕ) (w w' x x' y y' z z' : Bool)
    → v ≡ v'
    → n ≡ n'
    → w ≡ w'
    → x ≡ x'
    → y ≡ y'
    → z ≡ z'
    → labels_of v n w x y z ≡ labels_of v' n' w' x' y' z'
labels_of-eq v v' n n' w w' x x' y y' z z' ev en ew ex ey ez = cc (ev, en, ew, ex, ey, ez)

all_fields_agree-eq : (l r : Labels) → all_fields_agree l r ≡ true → l ≡ r
unfolding all_fields_agree
all_fields_agree-eq l r h =
    labels_of-eq l.vertical r.vertical l.complexity r.complexity l.code r.code l.math r.math
      l.reasoning r.reasoning l.long_output r.long_output
      ((eq_iff l.vertical r.vertical).0 (ground (arith, h))) (ground (arith, h))
      (agrees-eq l.code r.code (ground (arith, h))) (agrees-eq l.math r.math (ground (arith, h)))
      (agrees-eq l.reasoning r.reasoning (ground (arith, h)))
      (agrees-eq l.long_output r.long_output (ground (arith, h)))

agree_count-all : (l r : Labels) → all_fields_agree l r ≡ true → agree_count l r ≡ 6
unfolding all_fields_agree agree_count
agree_count-all l r h = ground (arith, h)

-- Why a sample may be in the pool: a human said that the decision was wrong, or the reviewer and the
-- router agree in every field at enough confidence.
abbrev pub IsEarned : Bool → Labels → Labels → ℕ → ℕ → CuratedSample → Type 0
IsEarned human labels router_labels confidence min_trust c =
    ((c.source ≡ human_reviewed) × (human ≡ true) × (4800 ≤ c.trust_score))
    ⊎ ((c.source ≡ flywheel)
        × (labels ≡ router_labels)
        × (min_trust ≤ confidence)
        × (c.trust_score ≡ 6 * confidence))

abbrev pooled : Bool → Bool → Bool → ℕ → Labels → ℕ → Option CuratedSample
pooled passes human known id l trust =
    if passes
    then (if known
        then some (record {
          decision_id = id;
          labels = l;
          trust_score = if human then max trust 4800 else trust;
          source = if human then human_reviewed else flywheel;
        })
        else none)
    else none

pooled-IsEarned :
    (agree enough human known truncated : Bool) (id trust : ℕ) (l r : Labels)
    (confidence min_trust : ℕ)
    → (agree ≡ true → enough ≡ true → (l ≡ r) × (min_trust ≤ confidence) × (trust ≡ 6 * confidence))
    → OnSome
        (λ c.
          (truncated ≡ false)
          × (c.decision_id ≡ id)
          × (c.labels ≡ l)
          × IsEarned human l r confidence min_trust c)
        (pooled ((agree && enough || human) && not truncated) human known id l trust)
pooled-IsEarned agree enough human known truncated id trust l r confidence min_trust h =
    elim (Bool-cases ((agree && enough || human) && not truncated)) [
      | inr e ↦ rw e tt
      | inl e ↦ elim (Bool-cases known) [
        | inr k ↦ rw (e, k) tt
        | inl k ↦ elim (Bool-cases human) [
          | inl m ↦ rw (e, k, m) (ground (arith, e), refl, refl, inl (refl, refl, omega arith))
          | inr m ↦
              let hs = h (ground (arith, e, m)) (ground (arith, e, m)) in
              rw (e, k, m) (ground (arith, e), refl, refl, inr (refl, hs.0, hs.1, hs.2))
        ]
      ]
    ]

enough_trust :
    (l r : Labels) (confidence min_trust : ℕ)
    → all_fields_agree l r ≡ true
    → leb (6 * min_trust) (agree_count l r * confidence) ≡ true
    → min_trust ≤ confidence
enough_trust l r confidence min_trust a e =
    let k : leb (6 * min_trust) (6 * confidence) ≡ true =
      subst (λ n. leb (6 * min_trust) (n * confidence) ≡ true) (agree_count-all l r a) e in
    ground (arith, k)

-- A review puts a sample into the trainer's pool only when the prompt was not truncated; the sample
-- has the reviewer's labels; and either a human marked the decision as wrong, and the sample has a
-- trust of at least 0.8, or the reviewer's labels are the router's, the router's confidence is at
-- least the minimum, and the trust is the confidence.
pub curated-IsEarned :
    (has_decision human_correction : ℕ → Bool) (id : ℕ) (l r : Labels) (truncated : Bool)
    (confidence min_trust : ℕ)
    → OnSome
        (λ c.
          (truncated ≡ false)
          × (c.decision_id ≡ id)
          × (c.labels ≡ l)
          × IsEarned (human_correction id) l r confidence min_trust c)
        (store_review_result has_decision human_correction id l r truncated confidence min_trust).1
unfolding store_review_result
curated-IsEarned has_decision human_correction id l r truncated confidence min_trust =
    let trust = agree_count l r * confidence in
    pooled-IsEarned (all_fields_agree l r) (leb (6 * min_trust) trust) (human_correction id)
      (has_decision id) truncated id trust l r confidence min_trust
      (λ a e. (
        all_fields_agree-eq l r a,
        enough_trust l r confidence min_trust a e,
        rw (agree_count-all l r a) refl,
      ))
