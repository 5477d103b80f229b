-- ===== src/Swarm/Schedule.antt =====
-- The loop of `_topological_layers` of gateway/swarm.py: what its layers respect, and what they hold.
use ctrl_gateway.Prelude.{
  ℕ, zero, suc, ◌<◌, ◌≡◌, ◌⊎◌, inl, inr, String, Bool, true, false, Option, none, some, List, [],
  ◌∷◌, ◌++◌, arith, all, keep, length, All, OnSome, str_eq, eq_iff, Bool-cases,
}
use ctrl_gateway.Prelude.Dict
use ctrl_gateway.Prelude.Dict.{Dict, pop_keys}
use ctrl_gateway.Prelude.Keys.{
  IsDistinct, IsDistinct-pop_keys, length-remove-lt, length-pop_keys-le,
}
use ctrl_gateway.Swarm.{SubTask, has_id, is_in, is_ready, values, ids, push_layer, layers}

-- Every dependency is done or unknown, layer by layer.
abbrev pub IsSchedule : Dict SubTask → List String → List (List SubTask) → Type 0
IsSchedule index done [] = Unit
IsSchedule index done (l ∷ ls) =
    All (λ t. All (λ d. (is_in done d ≡ true) ⊎ (has_id index d ≡ false)) t.depends_on) l
    × IsSchedule index (done ++ ids l) ls

-- Each key is the id of its subtask, and stands once.
pub record IsIndex (d : Dict SubTask) : Type 0 where
  pub distinct : IsDistinct d
  pub keyed : All (λ e. e.0 ≡ e.1.id) d

each_passes : {A : Type 0} (p : A → Bool) (xs : List A) → all p xs ≡ true → All (λ x. p x ≡ true) xs
each_passes p [] h = tt
each_passes p (x ∷ xs) h = (ground arith, each_passes p xs (ground arith))

pub All-imp {ℓ κ μ} :
    {A : Type ℓ} (P : A → Type κ) (Q : A → Type μ) (xs : List A)
    → ((x : A) → P x → Q x)
    → All P xs
    → All Q xs
All-imp P Q [] f h = tt
All-imp P Q (x ∷ xs) f h = (f x h.0, All-imp P Q xs f h.1)

All-keep-true : {A : Type 0} (p : A → Bool) (xs : List A) → All (λ x. p x ≡ true) (keep p xs)
All-keep-true p [] = tt
All-keep-true p (x ∷ xs) = elim (Bool-cases (p x)) [
  | inl y ↦ rw y (y, All-keep-true p xs)
  | inr n ↦ rw n (All-keep-true p xs)
]

pub All-keep {κ} :
    {A : Type 0} (P : A → Type κ) (p : A → Bool) (xs : List A) → All P xs → All P (keep p xs)
All-keep P p [] h = tt
All-keep P p (x ∷ xs) h = elim (Bool-cases (p x)) [
  | inl y ↦ rw y (h.0, All-keep P p xs h.1)
  | inr n ↦ rw n (All-keep P p xs h.1)
]

ready_lem :
    (index : Dict SubTask) (done : List String) (t : SubTask)
    → is_ready index done t ≡ true
    → All (λ d. (is_in done d ≡ true) ⊎ (has_id index d ≡ false)) t.depends_on
unfolding is_ready
ready_lem index done t h =
    All-imp _ _ t.depends_on (λ d e. ground arith) (each_passes _ t.depends_on h)

-- What a round does with its ready subtasks.
abbrev pub round :
    ℕ → Dict SubTask → List String → Dict SubTask → List SubTask → Option (List (List SubTask))
round guard index done remaining [] = none
round guard index done remaining (t ∷ ts) =
    push_layer (t ∷ ts)
      (layers guard index (done ++ ids (t ∷ ts)) (pop_keys (ids (t ∷ ts)) remaining))

pub layers-round :
    (guard : ℕ) (index : Dict SubTask) (done : List String) (e : String × SubTask)
    (es : Dict SubTask)
    → layers (suc guard) index done (e ∷ es)
      ≡ round guard index done (e ∷ es) (keep (is_ready index done) (values (e ∷ es)))
unfolding layers
layers-round guard index done e es = ground arith

push_lem :
    (index : Dict SubTask) (done : List String) (l : List SubTask)
    (o : Option (List (List SubTask)))
    → All (λ t. All (λ d. (is_in done d ≡ true) ⊎ (has_id index d ≡ false)) t.depends_on) l
    → OnSome (IsSchedule index (done ++ ids l)) o
    → OnSome (IsSchedule index done) (push_layer l o)
unfolding push_layer
push_lem index done l none h r = tt
push_lem index done l (some ls) h r = (h, r)

round-IsSchedule :
    (guard : ℕ) (index : Dict SubTask) (done : List String) (remaining : Dict SubTask)
    (l : List SubTask)
    → ((done' : List String) (rest : Dict SubTask)
        → OnSome (IsSchedule index done') (layers guard index done' rest))
    → All (λ t. All (λ d. (is_in done d ≡ true) ⊎ (has_id index d ≡ false)) t.depends_on) l
    → OnSome (IsSchedule index done) (round guard index done remaining l)
round-IsSchedule guard index done remaining [] ih h = tt
round-IsSchedule guard index done remaining (t ∷ ts) ih h =
    push_lem index done (t ∷ ts) _ h (ih _ _)

-- The layers respect the dependencies.
pub layers-IsSchedule :
    (guard : ℕ) (index : Dict SubTask) (done : List String) (remaining : Dict SubTask)
    → OnSome (IsSchedule index done) (layers guard index done remaining)
unfolding layers
layers-IsSchedule zero index done remaining = tt
layers-IsSchedule (suc guard) index done [] = tt
layers-IsSchedule (suc guard) index done (e ∷ es) = rw (layers-round guard index done e es) (
    round-IsSchedule guard index done (e ∷ es) _
      (λ done' rest. layers-IsSchedule guard index done' rest)
      (All-imp _ _ _ (ready_lem index done)
        (All-keep-true (is_ready index done) (values (e ∷ es)))))

-- The entry of a subtask is found by its id.
pub values_lem : (d : Dict SubTask) → IsIndex d → All (λ t. Dict.lookup t.id d ≡ some t) (values d)
unfolding Dict.lookup
values_lem [] h = tt
values_lem ((k, t) ∷ d) h =
    let rest = values_lem d (record { distinct = h.distinct.1; keyed = h.keyed.1 }) in
    (
      ground (arith, h.keyed.0, eq_iff k t.id),
      All-imp _ _ (values d) (λ u e. ground (arith, eq_iff k u.id, h.distinct.0)) rest,
    )

All-remove {κ} :
    (P : String × SubTask → Type κ) (k : String) (d : Dict SubTask)
    → All P d
    → All P (Dict.remove k d)
unfolding Dict.remove
All-remove P k [] h = tt
All-remove P k ((j, w) ∷ d) h = elim (Bool-cases (str_eq j k)) [
  | inl y ↦ rw y (All-remove P k d h.1)
  | inr n ↦ rw n (h.0, All-remove P k d h.1)
]

pub All-pop_keys {κ} :
    (P : String × SubTask → Type κ) (ks : List String) (d : Dict SubTask)
    → All P d
    → All P (pop_keys ks d)
unfolding pop_keys
All-pop_keys P [] d h = h
All-pop_keys P (k ∷ ks) d h = All-pop_keys P ks (Dict.remove k d) (All-remove P k d h)

pub IsIndex-pop_keys : (ks : List String) (d : Dict SubTask) → IsIndex d → IsIndex (pop_keys ks d)
IsIndex-pop_keys ks d h = record {
  distinct = IsDistinct-pop_keys ks d h.distinct;
  keyed = All-pop_keys (λ e. e.0 ≡ e.1.id) ks d h.keyed;
}

-- A round leaves fewer subtasks.
pub length-round-lt :
    (d : Dict SubTask) (t : SubTask) (ts : List SubTask)
    → Dict.lookup t.id d ≡ some t
    → length (pop_keys (ids (t ∷ ts)) d) < length d
unfolding pop_keys
length-round-lt d t ts h =
    omega (arith, length-pop_keys-le (ids ts) (Dict.remove t.id d), length-remove-lt t.id d t h)
