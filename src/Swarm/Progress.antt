-- ===== src/Swarm/Progress.antt =====
-- The rounds of `_topological_layers` of gateway/swarm.py get stuck on a cycle only.
use ctrl_gateway.Prelude.{
  ℕ, zero, suc, ◌+◌, ◌≤◌, ◌<◌, ◌≡◌, refl, sym, ◌∙◌, subst, ◌⊎◌, inl, inr, String, Bool, true, false,
  not, ◌||◌, Option, none, some, List, [], ◌∷◌, ◌++◌, arith, all, keep, length, All, OnSome, Some,
  here, there, str_eq, eq_iff, Bool-cases, Option-cases,
}
use ctrl_gateway.Prelude.Dict
use ctrl_gateway.Prelude.Dict.{Dict, pop_keys}
use ctrl_gateway.Prelude.Keys.{lookup-pop_keys}
use ctrl_gateway.Swarm.{
  SubTask, has_id, is_in, is_ready, values, ids, push_layer, layers, by_id, topological_layers,
}
use ctrl_gateway.Swarm.Schedule.{
  IsSchedule, IsIndex, All-pop_keys, All-keep, values_lem, IsIndex-pop_keys, length-round-lt,
  layers-round, layers-IsSchedule,
}
use ctrl_gateway.Swarm.Layers.{by_id-IsIndex, length-by_id-lt, All-index_into}

all_of {ℓ} : {A : Type ℓ} (p : A → Bool) (xs : List A) → All (λ x. p x ≡ true) xs → all p xs ≡ true
all_of p [] h = refl
all_of p (x ∷ xs) h = ground (arith, all_of p xs h.1, h.0)

is_in-append : (xs ys : List String) (k : String) → is_in (xs ++ ys) k ≡ (is_in xs k || is_in ys k)
is_in-append [] ys k = refl
is_in-append (x ∷ xs) ys k = ground (arith, is_in-append xs ys k)

le_or_lt : (a b : ℕ) → (a ≤ b) ⊎ (b < a)
le_or_lt a b = omega arith

below :
    (rank : String → ℕ) (n m : ℕ) (d : Dict SubTask)
    → n ≤ m
    → All (λ x. m ≤ rank x.1.id) d
    → All (λ x. n ≤ rank x.1.id) d
below rank n m [] le h = tt
below rank n m (x ∷ xs) le h = (omega (arith, le, h.0), below rank n m xs le h.1)

-- A subtask that passes the test makes the layer non-empty.
nonempty_layer :
    (p : SubTask → Bool) (t : SubTask) (d : Dict SubTask)
    → Some (λ x. x.1 ≡ t) d
    → p t ≡ true
    → (u : SubTask) × (us : List SubTask) × (keep p (values d) ≡ u ∷ us)
nonempty_layer p t [] s h = elim s [ ]
nonempty_layer p t (x ∷ xs) (here e) h =
    (x.1, keep p (values xs), rw (subst (λ z. p z ≡ true) (sym e) h))
nonempty_layer p t (x ∷ xs) (there s) h = elim (Bool-cases (p x.1)) [
  | inl y ↦ (x.1, keep p (values xs), rw y)
  | inr n ↦ rw n (nonempty_layer p t xs s h)
]

ranked_member {ℓ} :
    (P : SubTask → Type ℓ) (t : SubTask) (d : Dict SubTask)
    → All (λ x. P x.1) d
    → Some (λ x. x.1 ≡ t) d
    → P t
ranked_member P t [] h s = elim s [ ]
ranked_member P t (x ∷ xs) h (here e) = subst P e h.0
ranked_member P t (x ∷ xs) h (there s) = ranked_member P t xs h.1 s

module _ (rank : String → ℕ) (index : Dict SubTask) where
  -- A known dependency has a smaller rank.
  abbrev pub IsRanked : SubTask → Type 0
  IsRanked t = All (λ d. (has_id index d ≡ false) ⊎ (rank d < rank t.id)) t.depends_on

  -- What is known is done or remains.
  abbrev Covers : List String → Dict SubTask → Type 0
  Covers done rest =
      (d : String) → has_id index d ≡ true → (is_in done d ≡ true) ⊎ (has_id rest d ≡ true)

  least :
      (e : String × SubTask) (es : Dict SubTask)
      → (t : SubTask) × Some (λ x. x.1 ≡ t) (e ∷ es) × All (λ x. rank t.id ≤ rank x.1.id) (e ∷ es)
  least e [] = (e.1, here refl, (omega arith, tt))
  least e (f ∷ fs) =
      let (t, s, h) = least f fs in
      elim (le_or_lt (rank e.1.id) (rank t.id)) [
        | inl le ↦
            (e.1, here refl, (omega arith, below rank (rank e.1.id) (rank t.id) (f ∷ fs) le h))
        | inr lt ↦ (t, there s, (omega (arith, lt), h))
      ]

  least_lookup :
      (n : ℕ) (d : String) (u : SubTask) (rest : Dict SubTask)
      → All (λ x. n ≤ rank x.1.id) rest
      → All (λ x. x.0 ≡ x.1.id) rest
      → Dict.lookup d rest ≡ some u
      → n ≤ rank d
  unfolding Dict.lookup
  least_lookup n d u [] h k e = ground arith
  least_lookup n d u ((j, w) ∷ rest) h k e = elim (Bool-cases (str_eq j d)) [
    | inl y ↦ subst (λ z. n ≤ rank z) (sym k.0 ∙ (eq_iff j d).0 y) h.0
    | inr m ↦ least_lookup n d u rest h.1 k.1 (ground (arith, m, e))
  ]

  dep_done :
      (done : List String) (rest : Dict SubTask) (n : ℕ) (d : String)
      → Covers done rest
      → All (λ x. n ≤ rank x.1.id) rest
      → All (λ x. x.0 ≡ x.1.id) rest
      → (has_id index d ≡ false) ⊎ (rank d < n)
      → (is_in done d || not (has_id index d)) ≡ true
  dep_done done rest n d c low k (inl e) = ground (arith, e)
  dep_done done rest n d c low k (inr lt) = elim (Bool-cases (has_id index d)) [
    | inr e ↦ ground (arith, e)
    | inl e ↦ elim (c d e) [
      | inl y ↦ ground (arith, y)
      | inr y ↦ elim (Option-cases (Dict.lookup d rest)) [
        | inl z ↦ ground (arith, z, y)
        | inr (u, z) ↦ absurd (omega (arith, least_lookup n d u rest low k z, lt))
      ]
    ]
  ]

  deps_done :
      (done : List String) (rest : Dict SubTask) (n : ℕ) (ds : List String)
      → Covers done rest
      → All (λ x. n ≤ rank x.1.id) rest
      → All (λ x. x.0 ≡ x.1.id) rest
      → All (λ d. (has_id index d ≡ false) ⊎ (rank d < n)) ds
      → All (λ d. (is_in done d || not (has_id index d)) ≡ true) ds
  deps_done done rest n [] c low k h = tt
  deps_done done rest n (d ∷ ds) c low k h =
      (dep_done done rest n d c low k h.0, deps_done done rest n ds c low k h.1)

  -- A subtask of the least rank is ready.
  some_ready :
      (done : List String) (e : String × SubTask) (es : Dict SubTask)
      → IsIndex (e ∷ es)
      → All (λ x. IsRanked x.1) (e ∷ es)
      → Covers done (e ∷ es)
      → (u : SubTask) × (us : List SubTask) × (keep (is_ready index done) (values (e ∷ es))
          ≡ u ∷ us)
  unfolding is_ready
  some_ready done e es h r c =
      let (t, s, low) = least e es in
      nonempty_layer (is_ready index done) t (e ∷ es) s (
        all_of _ t.depends_on (
          deps_done done (e ∷ es) (rank t.id) t.depends_on c low h.keyed
            (ranked_member IsRanked t (e ∷ es) r s)))

  Covers-round :
      (done : List String) (rest : Dict SubTask) (l : List SubTask)
      → Covers done rest
      → Covers (done ++ ids l) (pop_keys (ids l) rest)
  Covers-round done rest l c d e =
      ground (arith, c d e, is_in-append done (ids l) d, lookup-pop_keys d (ids l) rest)

  push_some :
      (l : List SubTask) (o : Option (List (List SubTask)))
      → (ls : List (List SubTask)) × (o ≡ some ls)
      → (ls : List (List SubTask)) × (push_layer l o ≡ some ls)
  unfolding push_layer
  push_some l none h = ground (arith, h.1)
  push_some l (some ls) h = (l ∷ ls, refl)

  layers_progress :
      (guard : ℕ) (done : List String) (rest : Dict SubTask)
      → length rest < guard
      → IsIndex rest
      → All (λ x. IsRanked x.1) rest
      → Covers done rest
      → (ls : List (List SubTask)) × (layers guard index done rest ≡ some ls)
  unfolding layers
  layers_progress zero done rest lt h r c = absurd (omega arith)
  layers_progress (suc guard) done [] lt h r c = ([], refl)
  layers_progress (suc guard) done (e ∷ es) lt h r c =
      let (u, us, q) = some_ready done e es h r c in
      let found =
        subst (All (λ x. Dict.lookup x.id (e ∷ es) ≡ some x)) q
          (All-keep _ (is_ready index done) (values (e ∷ es)) (values_lem (e ∷ es) h)) in
      let fewer = length-round-lt (e ∷ es) u us found.0 in
      rw (layers-round guard index done e es, q)
        (push_some (u ∷ us) _ (
          layers_progress guard (done ++ ids (u ∷ us)) (pop_keys (ids (u ∷ us)) (e ∷ es))
            (omega (arith, fewer, lt)) (IsIndex-pop_keys (ids (u ∷ us)) (e ∷ es) h)
            (All-pop_keys (λ x. IsRanked x.1) (ids (u ∷ us)) (e ∷ es) r)
            (Covers-round done (e ∷ es) (u ∷ us) c)))

by_id_ranked : (P : SubTask → Type 0) (ts : List SubTask) → All P ts → All (λ x. P x.1) (by_id ts)
unfolding by_id
by_id_ranked P ts h = All-index_into (λ x. P x.1) [] ts tt h

outcome_IsSchedule :
    (index : Dict SubTask) (ts : List SubTask) (o : Option (List (List SubTask)))
    → (ls : List (List SubTask)) × (o ≡ some ls)
    → OnSome (IsSchedule index []) o
    → IsSchedule index [] (elim o [ none ↦ ts ∷ [] | some ls ↦ ls ])
outcome_IsSchedule index ts none h s = ground (arith, h.1)
outcome_IsSchedule index ts (some ls) h s = s

-- Where the dependencies have no cycle, which a rank that falls along each of them shows, the layers
-- are a schedule: every dependency of a subtask that is known stands in an earlier layer.
pub acyclic-IsSchedule :
    (rank : String → ℕ) (ts : List SubTask)
    → All (λ t. All (λ d. (has_id (by_id ts) d ≡ false) ⊎ (rank d < rank t.id)) t.depends_on) ts
    → IsSchedule (by_id ts) [] (topological_layers ts)
unfolding topological_layers
acyclic-IsSchedule rank ts h =
    outcome_IsSchedule (by_id ts) ts _
      (layers_progress rank (by_id ts) (length ts + 1) [] (by_id ts) (length-by_id-lt ts)
        (by_id-IsIndex ts) (by_id_ranked (IsRanked rank (by_id ts)) ts h) (λ d e. inr e))
      (layers-IsSchedule (length ts + 1) (by_id ts) [] (by_id ts))
