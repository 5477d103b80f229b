-- ===== src/ToolCache/Keys.antt =====
-- Ordered dictionaries: keys, lookups and sizes under the operations of the cache.
use ctrl_gateway.Prelude.{
  ℕ, suc, ◌≤◌, ◌≡◌, refl, ◌⊎◌, inl, inr, String, Bool, false, none, some, [], ◌∷◌, ◌++◌, arith, ltb,
  str_eq, eq_iff, any, length, length-append, Bool-cases, Option-cases,
}
use ctrl_gateway.Prelude.Dict
use ctrl_gateway.Prelude.Dict.{Dict}
use ctrl_gateway.Prelude.Keys.{
  IsDistinct, lookup-snoc, IsDistinct-remove, IsDistinct-snoc, remove_gone, length-remove-lt,
}
use ctrl_gateway.ToolCache.{move_to_end, keys_where, evict_lru}

module _ {ℓ} {W : Type ℓ} where
  pub IsDistinct-move_to_end :
      (k : String) (d : Dict W) → IsDistinct d → IsDistinct (move_to_end k d)
  unfolding move_to_end
  IsDistinct-move_to_end k d h = elim (Option-cases (Dict.lookup k d)) [
    | inl e ↦ rw (e, move_to_end) h
    | inr (w, e) ↦
        rw (e, move_to_end)
          (IsDistinct-snoc k w (Dict.remove k d) (remove_gone k d) (IsDistinct-remove k d h))
  ]

  -- Moving an entry changes the order only.
  pub lookup-move_to_end :
      (j k : String) (d : Dict W) → Dict.lookup j (move_to_end k d) ≡ Dict.lookup j d
  unfolding move_to_end
  lookup-move_to_end j k d = elim (Option-cases (Dict.lookup k d)) [
    | inl e ↦ rw (e, move_to_end)
    | inr (w, e) ↦
        rw (e, move_to_end) (rw (lookup-snoc, Dict.lookup-remove) (ground (arith, eq_iff k j)))
  ]

  pub move_to_end_appended :
      (k : String) (w : W) (d : Dict W)
      → Dict.lookup k d ≡ some w
      → move_to_end k d ≡ Dict.remove k d ++ (k, w) ∷ []
  unfolding move_to_end
  move_to_end_appended k w d e = rw (move_to_end, e)

  pub length-move_to_end-le : (k : String) (d : Dict W) → length (move_to_end k d) ≤ length d
  unfolding move_to_end
  length-move_to_end-le k d = elim (Option-cases (Dict.lookup k d)) [
    | inl e ↦ rw (e, move_to_end) (omega arith)
    | inr (w, e) ↦
        rw (e, move_to_end)
          (omega
            (arith, length-append {ℓ} (Dict.remove k d) ((k, w) ∷ []), length-remove-lt k d w e))
  ]

  key_gone :
      (p : W → Bool) (j : String) (d : Dict W)
      → Dict.lookup j d ≡ none
      → any (λ k. str_eq k j) (keys_where p d) ≡ false
  unfolding keys_where Dict.lookup
  key_gone p j [] h = refl
  key_gone p j ((k, w) ∷ d) h = ground (arith, key_gone p j d)

  -- A key is among those that a test selects exactly if its entry passes.
  pub any-keys_where :
      (p : W → Bool) (j : String) (d : Dict W)
      → IsDistinct d
      → any (λ k. str_eq k j) (keys_where p d)
        ≡ elim (Dict.lookup j d) [ none ↦ false | some w ↦ p w ]
  unfolding keys_where Dict.lookup
  any-keys_where p j [] h = ground arith
  any-keys_where p j ((k, w) ∷ d) h =
      ground (arith, any-keys_where p j d h.1, key_gone p j d, eq_iff k j, h.0)

  pub length-evict_lru-le : (n : ℕ) (d : Dict W) → length (evict_lru n d) ≤ n
  unfolding evict_lru
  length-evict_lru-le n [] = omega arith
  length-evict_lru-le n (e ∷ d) = ground (arith, length-evict_lru-le n d)

  pub IsDistinct-evict_lru : (n : ℕ) (d : Dict W) → IsDistinct d → IsDistinct (evict_lru n d)
  unfolding evict_lru
  IsDistinct-evict_lru n [] h = h
  IsDistinct-evict_lru n (e ∷ d) h = elim (Bool-cases (ltb n (suc (length d)))) [
    | inl more ↦ rw more (IsDistinct-evict_lru n d h.1)
    | inr fits ↦ rw fits h
  ]

  -- Eviction keeps an entry as it is or drops it.
  pub lookup-evict_lru :
      (j : String) (n : ℕ) (d : Dict W)
      → IsDistinct d
      → (Dict.lookup j (evict_lru n d) ≡ none) ⊎ (Dict.lookup j (evict_lru n d) ≡ Dict.lookup j d)
  unfolding evict_lru Dict.lookup
  lookup-evict_lru j n [] h = inl refl
  lookup-evict_lru j n ((k, w) ∷ d) h = ground (arith, lookup-evict_lru j n d h.1, eq_iff k j, h.0)

  -- The newest entry is never evicted from a cache that may hold one.
  pub lookup-evict_lru_last :
      (k : String) (w : W) (n : ℕ) (d : Dict W)
      → Dict.lookup k d ≡ none
      → 1 ≤ n
      → Dict.lookup k (evict_lru n (d ++ (k, w) ∷ [])) ≡ some w
  unfolding evict_lru Dict.lookup
  lookup-evict_lru_last k w n [] new room = ground (arith, eq_iff k k)
  lookup-evict_lru_last k w n ((j, v) ∷ d) new room =
      ground (arith, lookup-evict_lru_last k w n d, lookup-snoc k k w d, eq_iff k k)
