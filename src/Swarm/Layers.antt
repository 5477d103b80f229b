-- ===== src/Swarm/Layers.antt =====
-- The layers of `_topological_layers` of gateway/swarm.py hold every subtask.
use ctrl_gateway.Prelude.{
  ℕ, zero, suc, ◌+◌, ◌≤◌, ◌<◌, ◌≡◌, refl, sym, ◌∙◌, subst, ◌⊎◌, inl, inr, String, Bool, true, false,
  Option, none, some, List, [], ◌∷◌, arith, keep, length, All, OnSome, Some, here, there, str_eq,
  eq_iff, Bool-cases,
}
use ctrl_gateway.Prelude.Dict
use ctrl_gateway.Prelude.Dict.{Dict, pop_keys}
use ctrl_gateway.Prelude.Keys.{IsDistinct, IsDistinct-insert, lookup-pop_keys}
use ctrl_gateway.Swarm.{
  SubTask, is_in, is_ready, values, ids, push_layer, layers, index_into, by_id, topological_layers,
}
use ctrl_gateway.Swarm.Schedule.{
  IsIndex, All-keep, values_lem, IsIndex-pop_keys, length-round-lt, round, layers-round,
}

-- A subtask stands in one of the layers.
abbrev pub Holds : SubTask → List (List SubTask) → Type 0
Holds t ls = Some (λ l. Some (λ u. u ≡ t) l) ls

absent :
    (p : SubTask → Bool) (k : String) (d : Dict SubTask)
    → All (λ e. e.0 ≡ e.1.id) d
    → Dict.lookup k d ≡ none
    → is_in (ids (keep p (values d))) k ≡ false
unfolding Dict.lookup
absent p k [] h n = refl
absent p k ((j, w) ∷ d) h n = ground (arith, absent p k d h.1, h.0)

in_layer :
    (p : SubTask → Bool) (k : String) (t : SubTask) (d : Dict SubTask)
    → IsIndex d
    → Dict.lookup k d ≡ some t
    → is_in (ids (keep p (values d))) k ≡ true
    → Some (λ u. u ≡ t) (keep p (values d))
unfolding Dict.lookup
in_layer p k t [] h e y = ground arith
in_layer p k t ((j, w) ∷ d) h e y = elim (Bool-cases (str_eq j k)) [
  | inl same ↦ elim (Bool-cases (p w)) [
    | inl y' ↦ rw y' (here (ground (arith, same, e)))
    | inr n' ↦
        absurd
          (ground (arith, n', same, y, absent p k d h.keyed.1, h.distinct.0, eq_iff j k, h.keyed.0))
  ]
  | inr other ↦ elim (Bool-cases (p w)) [
    | inl y' ↦ rw y' (
        there (
          in_layer p k t d (record { distinct = h.distinct.1; keyed = h.keyed.1 })
            (ground (arith, other, e)) (ground (arith, y, y', other, h.keyed.0))))
    | inr n' ↦ rw n' (
        in_layer p k t d (record { distinct = h.distinct.1; keyed = h.keyed.1 })
          (ground (arith, other, e)) (ground (arith, y, n')))
  ]
]

push_complete :
    (t : SubTask) (l : List SubTask) (o : Option (List (List SubTask)))
    → Some (λ u. u ≡ t) l ⊎ OnSome (Holds t) o
    → OnSome (Holds t) (push_layer l o)
unfolding push_layer
push_complete t l none h = tt
push_complete t l (some ls) (inl h) = here h
push_complete t l (some ls) (inr h) = there h

round_complete :
    (guard : ℕ) (index : Dict SubTask) (done : List String) (remaining : Dict SubTask) (k : String)
    (t : SubTask) (p : SubTask → Bool) (l : List SubTask)
    → ((done' : List String) (rest : Dict SubTask)
        → length rest < guard
        → IsIndex rest
        → Dict.lookup k rest ≡ some t
        → OnSome (Holds t) (layers guard index done' rest))
    → length remaining < suc guard
    → IsIndex remaining
    → Dict.lookup k remaining ≡ some t
    → keep p (values remaining) ≡ l
    → OnSome (Holds t) (round guard index done remaining l)
round_complete guard index done remaining k t p [] ih lt h e q = tt
round_complete guard index done remaining k t p (u ∷ us) ih lt h e q =
    let found =
      subst (All (λ x. Dict.lookup x.id remaining ≡ some x)) q
        (All-keep _ p (values remaining) (values_lem remaining h)) in
    let fewer = length-round-lt remaining u us found.0 in
    push_complete t (u ∷ us) _ (elim (Bool-cases (is_in (ids (u ∷ us)) k)) [
      | inl y ↦ inl (
          subst (Some (λ x. x ≡ t)) q
            (in_layer p k t remaining h e (subst (λ z. is_in (ids z) k ≡ true) (sym q) y)))
      | inr n ↦ inr (
          ih _ _ (omega (arith, fewer, lt)) (IsIndex-pop_keys (ids (u ∷ us)) remaining h)
            (lookup-pop_keys k (ids (u ∷ us)) remaining ∙ rw n e))
    ])

layers_complete :
    (guard : ℕ) (index : Dict SubTask) (done : List String) (remaining : Dict SubTask) (k : String)
    (t : SubTask)
    → length remaining < guard
    → IsIndex remaining
    → Dict.lookup k remaining ≡ some t
    → OnSome (Holds t) (layers guard index done remaining)
unfolding Dict.lookup
layers_complete zero index done remaining k t lt h e = absurd (omega arith)
layers_complete (suc guard) index done [] k t lt h e = ground arith
layers_complete (suc guard) index done (x ∷ xs) k t lt h e =
    rw (layers-round guard index done x xs) (
      round_complete guard index done (x ∷ xs) k t (is_ready index done) _
        (λ done' rest a b c. layers_complete guard index done' rest k t a b c) lt h e refl)

All-insert {κ} :
    (P : String × SubTask → Type κ) (k : String) (t : SubTask) (d : Dict SubTask)
    → P (k, t)
    → All P d
    → All P (Dict.insert k t d)
unfolding Dict.insert
All-insert P k t [] p h = (p, tt)
All-insert P k t ((j, w) ∷ d) p h = elim (Bool-cases (str_eq j k)) [
  | inl y ↦ rw y (p, h.1)
  | inr n ↦ rw n (h.0, All-insert P k t d p h.1)
]

pub All-index_into {κ} :
    (P : String × SubTask → Type κ) (d : Dict SubTask) (ts : List SubTask)
    → All P d
    → All (λ t. P (t.id, t)) ts
    → All P (index_into d ts)
unfolding index_into
All-index_into P d [] h k = h
All-index_into P d (t ∷ ts) h k =
    All-index_into P (Dict.insert t.id t d) ts (All-insert P t.id t d k.0 h) k.1

index_into-IsDistinct :
    (d : Dict SubTask) (ts : List SubTask) → IsDistinct d → IsDistinct (index_into d ts)
unfolding index_into
index_into-IsDistinct d [] h = h
index_into-IsDistinct d (t ∷ ts) h =
    index_into-IsDistinct (Dict.insert t.id t d) ts (IsDistinct-insert t.id t d h)

All-keyed : (ts : List SubTask) → All (λ t. ◌≡◌ {A = String} t.id t.id) ts
All-keyed [] = tt
All-keyed (t ∷ ts) = (refl, All-keyed ts)

pub by_id-IsIndex : (ts : List SubTask) → IsIndex (by_id ts)
unfolding by_id
by_id-IsIndex ts = record {
  distinct = index_into-IsDistinct [] ts tt;
  keyed = All-index_into (λ e. e.0 ≡ e.1.id) [] ts tt (All-keyed ts);
}

length-insert-le :
    (k : String) (t : SubTask) (d : Dict SubTask) → length (Dict.insert k t d) ≤ length d + 1
unfolding Dict.insert
length-insert-le k t [] = omega arith
length-insert-le k t ((j, w) ∷ d) = ground (arith, length-insert-le k t d)

length-index_into-le :
    (d : Dict SubTask) (ts : List SubTask) → length (index_into d ts) ≤ length d + length ts
unfolding index_into
length-index_into-le d [] = omega arith
length-index_into-le d (t ∷ ts) =
    omega (arith, length-index_into-le (Dict.insert t.id t d) ts, length-insert-le t.id t d)

pub length-by_id-lt : (ts : List SubTask) → length (by_id ts) < length ts + 1
unfolding by_id
length-by_id-lt ts = omega (arith, length-index_into-le [] ts)

-- No two subtasks have the same id.
abbrev pub IsUnique : List SubTask → Type 0
IsUnique [] = Unit
IsUnique (t ∷ ts) = (is_in (ids ts) t.id ≡ false) × IsUnique ts

lookup-index_into_other :
    (k : String) (d : Dict SubTask) (ts : List SubTask)
    → is_in (ids ts) k ≡ false
    → Dict.lookup k (index_into d ts) ≡ Dict.lookup k d
unfolding index_into
lookup-index_into_other k d [] n = refl
lookup-index_into_other k d (t ∷ ts) n =
    lookup-index_into_other k (Dict.insert t.id t d) ts (ground arith)
    ∙ ground (arith, Dict.lookup-insert t.id k t d, n)

lookup-index_into :
    (t : SubTask) (d : Dict SubTask) (ts : List SubTask)
    → IsUnique ts
    → Some (λ u. u ≡ t) ts
    → Dict.lookup t.id (index_into d ts) ≡ some t
unfolding index_into
lookup-index_into t d [] u s = elim s [ ]
lookup-index_into t d (x ∷ xs) u (here e) =
    subst (λ z. Dict.lookup z.id (index_into (Dict.insert x.id x d) xs) ≡ some z) e
      (lookup-index_into_other x.id (Dict.insert x.id x d) xs u.0
        ∙ Dict.lookup-insert_self x.id x d)
lookup-index_into t d (x ∷ xs) u (there s) = lookup-index_into t (Dict.insert x.id x d) xs u.1 s

outcome-Holds :
    (t : SubTask) (ts : List SubTask) (o : Option (List (List SubTask)))
    → Some (λ u. u ≡ t) ts
    → OnSome (Holds t) o
    → Holds t (elim o [ none ↦ ts ∷ [] | some ls ↦ ls ])
outcome-Holds t ts none s h = here s
outcome-Holds t ts (some ls) s h = h

-- Where no two subtasks have the same id, every subtask stands in a layer: the rounds end before
-- the guard does, and none is lost.
pub nothing_lost :
    (ts : List SubTask) (t : SubTask)
    → IsUnique ts
    → Some (λ u. u ≡ t) ts
    → Some (λ l. Some (λ u. u ≡ t) l) (topological_layers ts)
unfolding topological_layers by_id
nothing_lost ts t u s = outcome-Holds t ts (layers (length ts + 1) (by_id ts) [] (by_id ts)) s (
    layers_complete (length ts + 1) (by_id ts) [] (by_id ts) t.id t (length-by_id-lt ts)
      (by_id-IsIndex ts) (lookup-index_into t [] ts u s))
