-- ===== src/Swarm/Chunks.antt =====
-- The chunks of `_split_into_chunks` of gateway/swarm.py: their lengths, and what they hold.
use ctrl_gateway.Prelude.{
  ℕ, ◌+◌, ◌≤◌, ◌≡◌, refl, sym, ◌∙◌, ap, inl, inr, not, ◌&&◌, List, [], ◌∷◌, ◌++◌, arith, ltb, leb,
  ◌==◌, max, keep, length, length-append, All, if◌then◌else◌, Bool-cases,
}
use mathlib.Core.List.{append-nil, append_assoc}
use ctrl_gateway.Prelude.Text.{Text, is_space, strip_left, strip_right, strip}
use ctrl_gateway.Swarm.{
  paragraphs_from, paragraphs, is_empty, joined, chunks_from, split_into_chunks,
}

length-strip_left-le : (s : Text) → length (strip_left s) ≤ length s
unfolding strip_left
length-strip_left-le [] = omega arith
length-strip_left-le (c ∷ s) = elim (Bool-cases (is_space c)) [
  | inl y ↦ rw y (omega (arith, length-strip_left-le s))
  | inr n ↦ rw n (omega arith)
]

-- The last step of `strip_right`
abbrev trail : ℕ → Text → Text
trail c [] = if is_space c then [] else c ∷ []
trail c (d ∷ r) = c ∷ d ∷ r

strip_right-cons : (c : ℕ) (s : Text) → strip_right (c ∷ s) ≡ trail c (strip_right s)
unfolding strip_right
strip_right-cons c s = ground arith

length-trail-le : (c : ℕ) (s : Text) → length (trail c s) ≤ length s + 1
length-trail-le c [] = elim (Bool-cases (is_space c)) [
  | inl y ↦ rw y (omega arith)
  | inr n ↦ rw n (omega arith)
]
length-trail-le c (d ∷ r) = omega arith

length-strip_right-le : (s : Text) → length (strip_right s) ≤ length s
unfolding strip_right
length-strip_right-le [] = omega arith
length-strip_right-le (c ∷ s) =
    rw (strip_right-cons c s)
      (omega (arith, length-trail-le c (strip_right s), length-strip_right-le s))

length-strip-le : (s : Text) → length (strip s) ≤ length s
unfolding strip
length-strip-le s = omega (arith, length-strip_left-le s, length-strip_right-le (strip_left s))

length-joined-le : (a b : Text) → length (joined a b) ≤ length a + length b + 2
unfolding joined
length-joined-le [] b = omega arith
length-joined-le (c ∷ cs) b = omega (arith, length-append {0} (c ∷ cs) (10 ∷ 10 ∷ b))

-- The characters that are not white space.
abbrev pub ink : Text → Text
ink s = keep (λ c. not (is_space c)) s

abbrev pub all_ink : List Text → Text
all_ink [] = []
all_ink (s ∷ ss) = ink s ++ all_ink ss

ink-append : (a b : Text) → ink (a ++ b) ≡ ink a ++ ink b
ink-append [] b = refl
ink-append (c ∷ a) b = elim (Bool-cases (is_space c)) [
  | inl y ↦ rw y (ink-append a b)
  | inr n ↦ rw n (ap (◌∷◌ c) (ink-append a b))
]

ink-strip_left : (s : Text) → ink (strip_left s) ≡ ink s
unfolding strip_left
ink-strip_left [] = refl
ink-strip_left (c ∷ s) = elim (Bool-cases (is_space c)) [
  | inl y ↦ rw y (ink-strip_left s)
  | inr n ↦ rw n (rw n refl)
]

ink-trail : (c : ℕ) (s : Text) → ink (trail c s) ≡ ink (c ∷ s)
ink-trail c [] = elim (Bool-cases (is_space c)) [ inl y ↦ rw y refl | inr n ↦ rw n (rw n refl) ]
ink-trail c (d ∷ r) = refl

ink-strip_right : (s : Text) → ink (strip_right s) ≡ ink s
unfolding strip_right
ink-strip_right [] = refl
ink-strip_right (c ∷ s) =
    ap ink (strip_right-cons c s) ∙ ink-trail c (strip_right s) ∙ elim (Bool-cases (is_space c)) [
      | inl y ↦ rw y (ink-strip_right s)
      | inr n ↦ rw n (ap (◌∷◌ c) (ink-strip_right s))
    ]

ink-strip : (s : Text) → ink (strip s) ≡ ink s
unfolding strip
ink-strip s = ink-strip_right (strip_left s) ∙ ink-strip_left s

ink-joined : (a b : Text) → ink (joined a b) ≡ ink a ++ ink b
unfolding joined
ink-joined [] b = refl
ink-joined (c ∷ cs) b = ink-append (c ∷ cs) (10 ∷ 10 ∷ b)

ink-paragraphs_from : (cur s : Text) → all_ink (paragraphs_from cur s) ≡ ink cur ++ ink s
unfolding paragraphs_from
ink-paragraphs_from cur [] = refl
ink-paragraphs_from cur (x ∷ []) = append-nil _ ∙ ink-append cur (x ∷ [])
ink-paragraphs_from cur (x ∷ y ∷ s) = elim (Bool-cases (x == 10 && y == 10)) [
  | inl b ↦
      let breaks : x ≡ 10 = ground (arith, b) in
      let breaks' : y ≡ 10 = ground (arith, b) in
      rw (b, ink-paragraphs_from [] s, breaks, breaks') refl
  | inr b ↦ rw b (
      ink-paragraphs_from (cur ++ x ∷ []) (y ∷ s)
      ∙ ap (λ l. l ++ ink (y ∷ s)) (ink-append cur (x ∷ []))
      ∙ append_assoc (ink cur) (ink (x ∷ [])) (ink (y ∷ s))
      ∙ ap (λ l. ink cur ++ l) (sym (ink-append (x ∷ []) (y ∷ s))))
]

ink-chunks_from :
    (m : ℕ) (cur : Text) (ps : List Text) → all_ink (chunks_from m cur ps) ≡ ink cur ++ all_ink ps
unfolding chunks_from
ink-chunks_from m cur [] = last (strip cur) (ink-strip cur)
  where
    last :
        (t : Text) → ink t ≡ ink cur → all_ink (if is_empty t then [] else t ∷ []) ≡ ink cur ++ []
    last [] e = e ∙ sym (append-nil _)
    last (c ∷ t) e = ap (λ l. l ++ []) e
ink-chunks_from m cur (p ∷ ps) = elim (Bool-cases (ltb m (length cur + length p + 2))) [
  | inl over ↦ rw over (flush cur (ink-chunks_from m p ps))
  | inr fits ↦ rw fits (
      ink-chunks_from m (joined cur p) ps
      ∙ ap (λ l. l ++ all_ink ps) (ink-joined cur p)
      ∙ append_assoc (ink cur) (ink p) (all_ink ps))
]
  where
    flush :
        (c : Text)
        → all_ink (chunks_from m p ps) ≡ ink p ++ all_ink ps
        → all_ink (if is_empty c then chunks_from m p ps else strip c ∷ chunks_from m p ps)
          ≡ ink c ++ (ink p ++ all_ink ps)
    flush [] rest = rest
    flush (x ∷ xs) rest =
        ap (λ l. l ++ all_ink (chunks_from m p ps)) (ink-strip (x ∷ xs))
        ∙ ap (λ l. ink (x ∷ xs) ++ l) rest

-- Cutting a text into chunks loses no character but white space, and keeps the order.
pub ink-split_into_chunks :
    (text : Text) (max_chars : ℕ) → all_ink (split_into_chunks text max_chars) ≡ ink text
unfolding split_into_chunks paragraphs
ink-split_into_chunks text m = elim (Bool-cases (leb (length text) m)) [
  | inl short ↦ rw short (append-nil _)
  | inr long ↦
      rw long (ink-chunks_from m [] (paragraphs_from [] text) ∙ ink-paragraphs_from [] text)
]

chunks_from-le :
    (m n : ℕ) (cur : Text) (ps : List Text)
    → length cur ≤ max m n
    → All (λ p. length p ≤ n) ps
    → All (λ c. length c ≤ max m n) (chunks_from m cur ps)
unfolding chunks_from
chunks_from-le m n cur [] h k = elim (Bool-cases (is_empty (strip cur))) [
  | inl y ↦ rw y tt
  | inr y ↦ rw y (omega (arith, length-strip-le cur, h), tt)
]
chunks_from-le m n cur (p ∷ ps) h k = elim (Bool-cases (ltb m (length cur + length p + 2))) [
  | inl over ↦
      let fresh = chunks_from-le m n p ps (omega (arith, k.0)) k.1 in
      elim (Bool-cases (is_empty cur)) [
        | inl y ↦ rw (over, y) fresh
        | inr y ↦ rw (over, y) (omega (arith, length-strip-le cur, h), fresh)
      ]
  | inr fits ↦
      rw fits
        (chunks_from-le m n (joined cur p) ps (ground (arith, fits, length-joined-le cur p)) k.1)
]

-- No chunk is longer than the longest paragraph, or than the limit where that is larger.
pub length-chunks-le :
    (text : Text) (max_chars n : ℕ)
    → All (λ p. length p ≤ n) (paragraphs text)
    → All (λ c. length c ≤ max max_chars n) (split_into_chunks text max_chars)
unfolding split_into_chunks
length-chunks-le text m n h = elim (Bool-cases (leb (length text) m)) [
  | inl short ↦ rw short (ground arith, tt)
  | inr long ↦ rw long (chunks_from-le m n [] (paragraphs text) (omega arith) h)
]
