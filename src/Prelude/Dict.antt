-- ===== src/Prelude/Dict.antt =====
-- Python's `dict` with texts for keys, as an association list in insertion order: a write to a key
-- that is there keeps its place, a new key goes to the end.
use ctrl_gateway.Prelude.{
  String, ◌≡◌, refl, true, false, Option, none, some, List, [], ◌∷◌, arith, str_eq, eq_iff,
  if◌then◌else◌,
}

abbrev pub Dict {ℓ} : Type ℓ → Type ℓ
Dict V = List (String × V)

module _ {ℓ} {V : Type ℓ} where
  -- `d.get(k)`
  unfoldable pub lookup : String → Dict V → Option V
  lookup k [] = none
  lookup k ((j, v) ∷ d) = if str_eq j k then some v else lookup k d

  -- `d[k] = v`
  unfoldable pub insert : String → V → Dict V → Dict V
  insert k v [] = (k, v) ∷ []
  insert k v ((j, w) ∷ d) = if str_eq j k then (k, v) ∷ d else (j, w) ∷ insert k v d

  -- `d.pop(k, None)`
  unfoldable pub remove : String → Dict V → Dict V
  remove k [] = []
  remove k ((j, w) ∷ d) = if str_eq j k then remove k d else (j, w) ∷ remove k d

  -- `for k in keys: d.pop(k, None)`
  unfoldable pub pop_keys : List String → Dict V → Dict V
  pop_keys [] d = d
  pop_keys (k ∷ ks) d = pop_keys ks (remove k d)

  pub lookup-insert :
      (k j : String) (v : V) (d : Dict V)
      → lookup j (insert k v d) ≡ (if str_eq k j then some v else lookup j d)
  unfolding lookup insert
  lookup-insert k j v [] = refl
  lookup-insert k j v ((i, w) ∷ d) =
      ground (arith, eq_iff k j, eq_iff i k, eq_iff i j, lookup-insert k j v d)

  pub lookup-remove :
      (k j : String) (d : Dict V)
      → lookup j (remove k d) ≡ (if str_eq k j then none else lookup j d)
  unfolding lookup remove
  lookup-remove k j [] = ground arith
  lookup-remove k j ((i, w) ∷ d) =
      ground (arith, eq_iff k j, eq_iff i k, eq_iff i j, lookup-remove k j d)

  pub lookup-insert_self : (k : String) (v : V) (d : Dict V) → lookup k (insert k v d) ≡ some v
  lookup-insert_self k v d = ground (arith, eq_iff k k, lookup-insert k k v d)

  pub remove-insert_self : (k : String) (v : V) (d : Dict V) → remove k (insert k v d) ≡ remove k d
  unfolding insert remove
  remove-insert_self k v [] = ground (arith, eq_iff k k)
  remove-insert_self k v ((i, w) ∷ d) =
      ground (arith, eq_iff k k, eq_iff i k, remove-insert_self k v d)

  pub lookup-insert_here :
      (name k : String) (v : V) (d : Dict V)
      → str_eq name k ≡ true
      → lookup k (insert name v d) ≡ some v
  lookup-insert_here name k v d e = rw e at (lookup-insert name k v d)

  pub lookup-insert_away :
      (name k : String) (v : V) (d : Dict V)
      → str_eq name k ≡ false
      → lookup k (insert name v d) ≡ lookup k d
  lookup-insert_away name k v d e = rw e at (lookup-insert name k v d)
