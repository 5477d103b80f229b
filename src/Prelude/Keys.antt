-- ===== src/Prelude/Keys.antt =====
-- Dictionaries: keys, lookups and sizes under their operations.
use ctrl_gateway.Prelude.{
  ◌≤◌, ◌<◌, ◌≡◌, refl, inl, inr, String, none, some, List, [], ◌∷◌, ◌++◌, arith, str_eq, eq_iff,
  any, length, Bool-cases, if◌then◌else◌,
}
use ctrl_gateway.Prelude.Dict
use ctrl_gateway.Prelude.Dict.{Dict, pop_keys}

module _ {ℓ} {W : Type ℓ} where
  -- No key stands twice.
  abbrev pub IsDistinct : Dict W → Type ℓ
  IsDistinct [] = Unit
  IsDistinct ((k, w) ∷ d) = (Dict.lookup k d ≡ none) × IsDistinct d

  pub lookup-snoc :
      (j k : String) (w : W) (d : Dict W)
      → Dict.lookup j (d ++ (k, w) ∷ [])
        ≡ elim (Dict.lookup j d) [ none ↦ if str_eq k j then some w else none | some v ↦ some v ]
  unfolding Dict.lookup
  lookup-snoc j k w [] = ground arith
  lookup-snoc j k w ((i, v) ∷ d) = ground (arith, lookup-snoc j k w d)

  pub IsDistinct-remove : (k : String) (d : Dict W) → IsDistinct d → IsDistinct (Dict.remove k d)
  unfolding Dict.remove
  IsDistinct-remove k [] h = tt
  IsDistinct-remove k ((j, w) ∷ d) h = elim (Bool-cases (str_eq j k)) [
    | inl e ↦ rw e (IsDistinct-remove k d h.1)
    | inr e ↦ rw e (ground (arith, Dict.lookup-remove k j d, h.0), IsDistinct-remove k d h.1)
  ]

  pub IsDistinct-insert :
      (k : String) (w : W) (d : Dict W) → IsDistinct d → IsDistinct (Dict.insert k w d)
  unfolding Dict.insert Dict.lookup
  IsDistinct-insert k w [] h = (refl, tt)
  IsDistinct-insert k w ((j, v) ∷ d) h = elim (Bool-cases (str_eq j k)) [
    | inl e ↦ rw e (ground (arith, eq_iff j k, h.0), h.1)
    | inr e ↦ rw e (
      ground (arith, Dict.lookup-insert k j w d, eq_iff j k, eq_iff k j, h.0),
      IsDistinct-insert k w d h.1,
    )
  ]

  pub IsDistinct-snoc :
      (k : String) (w : W) (d : Dict W)
      → Dict.lookup k d ≡ none
      → IsDistinct d
      → IsDistinct (d ++ (k, w) ∷ [])
  unfolding Dict.lookup
  IsDistinct-snoc k w [] new h = (refl, tt)
  IsDistinct-snoc k w ((j, v) ∷ d) new h = (
    rw (lookup-snoc, h.0) (ground (arith, eq_iff j k, eq_iff k j)),
    IsDistinct-snoc k w d (ground arith) h.1,
  )

  pub remove_gone : (k : String) (d : Dict W) → Dict.lookup k (Dict.remove k d) ≡ none
  remove_gone k d = ground (arith, Dict.lookup-remove k k d, eq_iff k k)

  pub length-remove-le : (k : String) (d : Dict W) → length (Dict.remove k d) ≤ length d
  unfolding Dict.remove
  length-remove-le k [] = omega arith
  length-remove-le k (e ∷ d) = ground (arith, length-remove-le k d)

  pub length-remove-lt :
      (k : String) (d : Dict W) (w : W)
      → Dict.lookup k d ≡ some w
      → length (Dict.remove k d) < length d
  unfolding Dict.lookup Dict.remove
  length-remove-lt k [] v h = cc
  length-remove-lt k ((j, w) ∷ d) v h = ground (arith, length-remove-le k d, length-remove-lt k d v)

  -- A write to a key that is there keeps the number of entries.
  pub length-insert_old :
      (k : String) (v w : W) (d : Dict W)
      → Dict.lookup k d ≡ some v
      → length (Dict.insert k w d) ≡ length d
  unfolding Dict.lookup Dict.insert
  length-insert_old k v w [] h = cc
  length-insert_old k v w ((j, u) ∷ d) h = ground (arith, length-insert_old k v w d)

  pub lookup-pop_keys :
      (j : String) (ks : List String) (d : Dict W)
      → Dict.lookup j (pop_keys ks d) ≡ (if any (λ k. str_eq k j) ks then none else Dict.lookup j d)
  unfolding pop_keys
  lookup-pop_keys j [] d = refl
  lookup-pop_keys j (k ∷ ks) d =
      ground (arith, lookup-pop_keys j ks (Dict.remove k d), Dict.lookup-remove k j d)

  pub IsDistinct-pop_keys :
      (ks : List String) (d : Dict W) → IsDistinct d → IsDistinct (pop_keys ks d)
  unfolding pop_keys
  IsDistinct-pop_keys [] d h = h
  IsDistinct-pop_keys (k ∷ ks) d h =
      IsDistinct-pop_keys ks (Dict.remove k d) (IsDistinct-remove k d h)

  pub length-pop_keys-le : (ks : List String) (d : Dict W) → length (pop_keys ks d) ≤ length d
  unfolding pop_keys
  length-pop_keys-le [] d = omega arith
  length-pop_keys-le (k ∷ ks) d =
      omega (arith, length-pop_keys-le ks (Dict.remove k d), length-remove-le k d)
