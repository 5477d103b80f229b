-- ===== src/ToolCache/Entries.antt =====
-- The invariant of the cache: its size, its keys, and what its entries say of their keys.
use ctrl_gateway.Prelude.{
  ℕ, ◌+◌, ◌≤◌, ◌≡◌, refl, String, Option, none, some, List, arith, length, Bool-cases, inl, inr,
  str_eq,
}
use ctrl_gateway.Prelude.Dict
use ctrl_gateway.Prelude.Dict.{Dict, pop_keys}
use ctrl_gateway.Prelude.Text.{Text}
use ctrl_gateway.ToolCache.{
  CacheEntry, ToolCache, ToolCall, init, expired, bypass_match, get_entry, get, set, invalidate,
  keys_where,
}
use ctrl_gateway.Prelude.Keys.{
  IsDistinct, IsDistinct-remove, IsDistinct-insert, length-remove-le, length-insert_old,
  IsDistinct-pop_keys, length-pop_keys-le,
}
use ctrl_gateway.ToolCache.Keys

pub record IsValid {V : Type 0} (c : ToolCache V) : Type 0 where
  pub room : 1 ≤ c.max_entries
  pub bounded : length c.entries ≤ c.max_entries
  pub distinct : IsDistinct c.entries

pub init-IsValid :
    {V : Type 0} (n ttl : ℕ) (per_tool : Dict ℕ) (bypass : List Text)
    → IsValid (init {V = V} n ttl per_tool bypass)
unfolding init
init-IsValid n ttl per_tool bypass = record {
  room = omega arith;
  bounded = omega arith;
  distinct = tt;
}

module _ {A V : Type 0} (make_key : ToolCall A → String) (items : A → List (Text × Text)) where
  get_entry-IsValid :
      (c : ToolCache V) (key : String) (o : Option (CacheEntry V)) (now : ℕ)
      → Dict.lookup key c.entries ≡ o
      → IsValid c
      → IsValid (get_entry make_key items c key o now).1
  unfolding get_entry
  get_entry-IsValid c key none now e h = record {
    room = h.room;
    bounded = h.bounded;
    distinct = h.distinct;
  }
  get_entry-IsValid c key (some v) now e h = elim (Bool-cases (expired now v)) [
    | inl old ↦ rw old (record {
      room = h.room;
      bounded = omega (arith, h.bounded, length-remove-le key c.entries);
      distinct = IsDistinct-remove key c.entries h.distinct;
    })
    | inr fresh ↦ rw fresh (record {
      room = h.room;
      bounded = omega (
        arith,
        h.bounded,
        Keys.length-move_to_end-le key (Dict.insert key (record v { hits = v.hits + 1 }) c.entries),
        length-insert_old key v (record v { hits = v.hits + 1 }) c.entries e,
      );
      distinct = Keys.IsDistinct-move_to_end key _ (IsDistinct-insert key _ c.entries h.distinct);
    })
  ]

  -- A lookup keeps the invariant.
  pub get-IsValid :
      (call : ToolCall A) (now : ℕ) (c : ToolCache V)
      → IsValid c
      → IsValid (get make_key items call now c).1
  unfolding get
  get-IsValid call now c h = elim (Bool-cases (bypass_match make_key items c call.arguments)) [
    | inl b ↦ rw b (record { room = h.room; bounded = h.bounded; distinct = h.distinct })
    | inr b ↦ rw b (get_entry-IsValid c (make_key call) _ now refl h)
  ]

  -- Storing keeps the invariant: never more entries than the maximum, never a key twice.
  pub set-IsValid :
      (call : ToolCall A) (value : V) (ttl : Option ℕ) (now swept created : ℕ) (c : ToolCache V)
      → IsValid c
      → IsValid (set make_key items call value ttl now swept created c).1
  unfolding set
  set-IsValid call value ttl now swept created c h =
      elim (Bool-cases (bypass_match make_key items c call.arguments)) [
        | inl b ↦ rw b h
        | inr b ↦ rw b (record {
          room = h.room;
          bounded = Keys.length-evict_lru-le c.max_entries _;
          distinct = Keys.IsDistinct-evict_lru c.max_entries _ (
              Keys.IsDistinct-move_to_end (make_key call) _ (
                IsDistinct-insert (make_key call) _ _ (
                  IsDistinct-pop_keys (keys_where (expired swept) c.entries) c.entries
                    h.distinct)));
        })
      ]

  -- Invalidation keeps the invariant.
  pub invalidate-IsValid :
      (tool : Option String) (c : ToolCache V)
      → IsValid c
      → IsValid (invalidate make_key items tool c).1
  unfolding invalidate
  invalidate-IsValid none c h = record { room = h.room; bounded = omega arith; distinct = tt }
  invalidate-IsValid (some tool) c h = record {
    room = h.room;
    bounded = omega (
      arith,
      h.bounded,
      length-pop_keys-le (keys_where (λ e. str_eq e.tool_name tool) c.entries) c.entries,
    );
    distinct =
        IsDistinct-pop_keys (keys_where (λ e. str_eq e.tool_name tool) c.entries) c.entries
          h.distinct;
  }
