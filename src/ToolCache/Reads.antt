-- ===== src/ToolCache/Reads.antt =====
-- What a lookup returns after the other operations, and how it is counted.
use ctrl_gateway.Prelude.{
  sym, ap, ◌∙◌, ℕ, ◌+◌, ◌*◌, ◌<◌, ◌≡◌, ◌≢◌, refl, ◌⊎◌, inl, inr, String, true, false, Option, none,
  some, List, [], ◌∷◌, ◌++◌, arith, max, str_eq, eq_iff, if◌then◌else◌, Bool-cases, Option-cases,
}
use ctrl_gateway.Prelude.Dict
use ctrl_gateway.Prelude.Dict.{Dict, pop_keys}
use ctrl_gateway.Prelude.Text.{Text}
use ctrl_gateway.ToolCache.{
  CacheEntry, ToolCache, ToolCall, one_second, ttl_for, expired, bypass_match, get_entry, get,
  new_entry, live, with_new, set, invalidate, keys_where,
}
use ctrl_gateway.Prelude.Keys.{IsDistinct-insert, remove_gone, lookup-pop_keys, IsDistinct-pop_keys}
use ctrl_gateway.ToolCache.Keys
use ctrl_gateway.ToolCache.Entries.{IsValid, get-IsValid, set-IsValid, invalidate-IsValid}

pub data Operation (A V : Type 0) : Type 0 where
  read : ToolCall A → ℕ → Operation A V
  store : ToolCall A → V → Option ℕ → ℕ → ℕ → ℕ → Operation A V
  drop_tool : Option String → Operation A V

module _ {A V : Type 0} (make_key : ToolCall A → String) (items : A → List (Text × Text)) where
  unfoldable pub apply : Operation A V → ToolCache V → ToolCache V
  apply (read call now) c = (get make_key items call now c).1
  apply (store call value ttl now swept created) c =
      (set make_key items call value ttl now swept created c).1
  apply (drop_tool tool) c = (invalidate make_key items tool c).1

  unfoldable pub after : List (Operation A V) → ToolCache V → ToolCache V
  after [] c = c
  after (o ∷ os) c = after os (apply o c)

  apply-IsValid : (o : Operation A V) (c : ToolCache V) → IsValid c → IsValid (apply o c)
  unfolding apply
  apply-IsValid (read call now) c h = get-IsValid make_key items call now c h
  apply-IsValid (store call value ttl now swept created) c h =
      set-IsValid make_key items call value ttl now swept created c h
  apply-IsValid (drop_tool tool) c h = invalidate-IsValid make_key items tool c h

  -- Whatever is read, stored and invalidated, in whatever order, a valid cache stays valid: it never
  -- holds more entries than its maximum, nor one key twice.
  pub after-IsValid :
      (os : List (Operation A V)) (c : ToolCache V) → IsValid c → IsValid (after os c)
  unfolding after
  after-IsValid [] c h = h
  after-IsValid (o ∷ os) c h = after-IsValid os (apply o c) (apply-IsValid o c h)

  -- What a lookup returns for an entry that may be there.
  abbrev value_at : ℕ → Option (CacheEntry V) → Option V
  value_at now none = none
  value_at now (some e) = if expired now e then none else some e.value

  entry_at :
      (call : ToolCall A) (now : ℕ) (c : ToolCache V) (o : Option (CacheEntry V))
      → (get_entry make_key items c (make_key call) o now).0 ≡ value_at now o
  unfolding get_entry
  entry_at call now c none = refl
  entry_at call now c (some e) = ground arith

  get-value_at :
      (call : ToolCall A) (now : ℕ) (c : ToolCache V)
      → bypass_match make_key items c call.arguments ≡ false
      → (get make_key items call now c).0 ≡ value_at now (Dict.lookup (make_key call) c.entries)
  unfolding get
  get-value_at call now c b = rw b (entry_at call now c _)

  live_value :
      (now : ℕ) (v : V) (o : Option (CacheEntry V))
      → value_at now o ≡ some v
      → (e : CacheEntry V) × (o ≡ some e) × (e.value ≡ v) × (now < e.expires_at)
  live_value now v none h = ground arith
  live_value now v (some e) h = elim (Bool-cases (expired now e)) [
    | inl old ↦ ground arith
    | inr fresh ↦ (e, refl, ground arith, ground arith)
  ]

  none_bypassed :
      (call : ToolCall A) (now : ℕ) (c : ToolCache V)
      → bypass_match make_key items c call.arguments ≡ true
      → (get make_key items call now c).0 ≡ none
  unfolding get
  none_bypassed call now c b = rw b refl

  -- A value that a lookup returns is that of an entry under the call's key which has not expired, and
  -- the call did not bypass the cache.
  pub hit_is_live :
      (call : ToolCall A) (now : ℕ) (c : ToolCache V) (v : V)
      → (get make_key items call now c).0 ≡ some v
      → (bypass_match make_key items c call.arguments ≡ false)
        × ((e : CacheEntry V) × (Dict.lookup (make_key call) c.entries ≡ some e)
            × (e.value ≡ v)
            × (now < e.expires_at))
  hit_is_live call now c v h = elim (Bool-cases (bypass_match make_key items c call.arguments)) [
    | inl b ↦ ground (arith, none_bypassed call now c b)
    | inr b ↦ (b, live_value now v _ (sym (get-value_at call now c b) ∙ h))
  ]

  appended :
      (k : String) (e : CacheEntry V) (d : Dict (CacheEntry V))
      → with_new make_key items k e d ≡ Dict.remove k d ++ (k, e) ∷ []
  appended k e d =
      Keys.move_to_end_appended k e (Dict.insert k e d) (Dict.lookup-insert_self k e d)
      ∙ ap (λ x. x ++ (k, e) ∷ []) (Dict.remove-insert_self k e d)

  -- What a key holds once `set` stored a value under it.
  stored :
      (call : ToolCall A) (value : V) (ttl : Option ℕ) (now swept created : ℕ) (c : ToolCache V)
      → IsValid c
      → bypass_match make_key items c call.arguments ≡ false
      → Dict.lookup
          (make_key call)
          (set make_key items call value ttl now swept created c).1.entries
        ≡ some (new_entry make_key items call value ttl now created c)
  unfolding set
  stored call value ttl now swept created c h b =
      rw
        (
          b,
          appended (make_key call) (new_entry make_key items call value ttl now created c)
              (live make_key items swept c),
        )
        (Keys.lookup-evict_lru_last (make_key call) _ c.max_entries _
          (remove_gone (make_key call) (live make_key items swept c)) h.room)

  bypass-set :
      (call : ToolCall A) (value : V) (ttl : Option ℕ) (now swept created : ℕ) (c : ToolCache V)
      (args : A)
      → bypass_match make_key items (set make_key items call value ttl now swept created c).1 args
        ≡ bypass_match make_key items c args
  unfolding set bypass_match
  bypass-set call value ttl now swept created c args =
      ground (arith, bypass_match make_key items c call.arguments)

  -- In a valid cache, a call that is not bypassed finds the value stored for it until the time to live
  -- that `set` gave it is over, at least a second later.
  pub get-set :
      (call : ToolCall A) (value : V) (ttl : Option ℕ) (now swept created later : ℕ)
      (c : ToolCache V)
      → IsValid c
      → bypass_match make_key items c call.arguments ≡ false
      → later
        < now
          + one_second
            * max 1 (elim ttl [ some t ↦ t | none ↦ ttl_for make_key items c call.tool_name ])
      → (get make_key items call later (set make_key items call value ttl now swept created c).1).0
        ≡ some value
  get-set call value ttl now swept created later c h b early =
      get-value_at call later (set make_key items call value ttl now swept created c).1
        (bypass-set call value ttl now swept created c call.arguments ∙ b)
      ∙ rw (stored call value ttl now swept created c h b) (ground (arith, early))

  others_kept :
      (call : ToolCall A) (value : V) (ttl : Option ℕ) (now swept created : ℕ) (c : ToolCache V)
      (j : String)
      → IsValid c
      → make_key call ≢ j
      → (Dict.lookup j (set make_key items call value ttl now swept created c).1.entries ≡ none)
        ⊎ (Dict.lookup j (set make_key items call value ttl now swept created c).1.entries
            ≡ Dict.lookup j c.entries)
  unfolding set
  others_kept call value ttl now swept created c j h n =
      elim (Bool-cases (bypass_match make_key items c call.arguments)) [
        | inl b ↦ rw b (inr refl)
        | inr b ↦
            rw b
              (elim (Keys.lookup-evict_lru j c.max_entries
                (with_new make_key items (make_key call)
                  (new_entry make_key items call value ttl now created c)
                  (live make_key items swept c))
                (Keys.IsDistinct-move_to_end (make_key call) _ (
                  IsDistinct-insert (make_key call) _ _ (
                    IsDistinct-pop_keys (keys_where (expired swept) c.entries) c.entries
                      h.distinct)))) [
                        | inl gone ↦ inl gone
                        | inr kept ↦
                            rw kept rw
                              (Keys.lookup-move_to_end, Dict.lookup-insert, lookup-pop_keys)
                              (ground (arith, eq_iff (make_key call) j))
                      ])
      ]

  -- In a valid cache, storing for one call never changes the value another key returns: it is found
  -- as before or, when its entry was evicted, missed.
  pub get-set_other :
      (call other : ToolCall A) (value : V) (ttl : Option ℕ) (now swept created later : ℕ)
      (c : ToolCache V)
      → IsValid c
      → make_key call ≢ make_key other
      → ((get make_key items other later
            (set make_key items call value ttl now swept created c).1).0
          ≡ none)
        ⊎ ((get make_key items other later
              (set make_key items call value ttl now swept created c).1).0
            ≡ (get make_key items other later c).0)
  get-set_other call other value ttl now swept created later c h n =
      elim (Bool-cases (bypass_match make_key items c other.arguments)) [
        | inl b ↦ inl (
            none_bypassed other later _
              (bypass-set call value ttl now swept created c other.arguments ∙ b))
        | inr b ↦
            rw
              (
                get-value_at other later (set make_key items call value ttl now swept created c).1
                    (bypass-set call value ttl now swept created c other.arguments ∙ b),
                get-value_at other later c b,
              )
              (elim (others_kept call value ttl now swept created c (make_key other) h n) [
                | inl gone ↦ inl (ap (value_at later) gone)
                | inr kept ↦ inr (ap (value_at later) kept)
              ])
      ]

  -- In a valid cache, invalidating a tool removes exactly the entries of that tool: a key holds what it
  -- held before, unless that was an entry of the tool.
  pub lookup-invalidate :
      (tool : String) (c : ToolCache V) (k : String)
      → IsValid c
      → Dict.lookup k (invalidate make_key items (some tool) c).1.entries
        ≡ elim (Dict.lookup k c.entries) [
          | none ↦ none
          | some e ↦ if str_eq e.tool_name tool then none else some e
        ]
  unfolding invalidate
  lookup-invalidate tool c k h =
      rw
        (lookup-pop_keys, Keys.any-keys_where (λ e. str_eq e.tool_name tool) k c.entries h.distinct)
        (elim (Option-cases (Dict.lookup k c.entries)) [ inl e ↦ rw e | inr (v, e) ↦ rw e refl ])

  -- Every lookup is counted once: as a hit if it returns a value, and as a miss otherwise.
  pub get_counts :
      (call : ToolCall A) (now : ℕ) (c : ToolCache V)
      → ((v : V) × ((get make_key items call now c).0 ≡ some v)
          × ((get make_key items call now c).1.stats.hits ≡ c.stats.hits + 1)
          × ((get make_key items call now c).1.stats.misses ≡ c.stats.misses))
        ⊎ (((get make_key items call now c).0 ≡ none)
            × ((get make_key items call now c).1.stats.hits ≡ c.stats.hits)
            × ((get make_key items call now c).1.stats.misses ≡ c.stats.misses + 1))
  unfolding get get_entry
  get_counts call now c = elim (Bool-cases (bypass_match make_key items c call.arguments)) [
    | inl b ↦ rw b (inr (refl, refl, refl))
    | inr b ↦ elim (Option-cases (Dict.lookup (make_key call) c.entries)) [
      | inl e ↦ rw (b, e, get_entry) (inr (refl, refl, refl))
      | inr (v, e) ↦ elim (Bool-cases (expired now v)) [
        | inl old ↦ rw (b, e, get_entry, old) (inr (refl, refl, refl))
        | inr fresh ↦ rw (b, e, get_entry, fresh) (inl (v.value, refl, refl, refl))
      ]
    ]
  ]
