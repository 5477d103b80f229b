-- ===== src/ToolCache.antt =====
-- The cache of tool responses: gateway/tool_cache.py. Times are microseconds. The arguments of a
-- call are abstract: `items` gives the pairs `(str(k), str(v))` of their items, and `make_key` stands
-- for `_stable_hash`, which digests their JSON text.
mod Keys
mod Entries
mod Reads
mod Tests
use ctrl_gateway.Prelude.{
  ℕ, suc, ◌+◌, ◌-◌, ◌*◌, String, Bool, true, false, not, ◌||◌, Option, none, some, List, [], ◌∷◌,
  ◌++◌, map, max, leb, ltb, str_eq, any, keep, take, length, if◌then◌else◌,
}
use ctrl_gateway.Prelude.Dict
use ctrl_gateway.Prelude.Dict.{Dict, pop_keys}
use ctrl_gateway.Prelude.Int.{ℤ, sub_ℕ}
use ctrl_gateway.Prelude.Text.{Text, text_eq, contains, lower}

abbrev pub one_second : ℕ
one_second = 1_000_000

pub record CacheEntry (V : Type 0) : Type 0 where
  pub key : String
  pub value : V
  pub expires_at : ℕ
  pub created_at : ℕ
  pub tool_name : String
  pub tenant_id : Option String
  pub hits : ℕ

pub record CacheStats : Type 0 where
  pub hits : ℕ
  pub misses : ℕ
  pub sets : ℕ
  pub evictions : ℕ
  pub expirations : ℕ
  pub size : ℕ
  pub max_size : ℕ

-- The entries stand in the order of their last use, the oldest first.
pub record ToolCache (V : Type 0) : Type 0 where
  pub max_entries : ℕ
  pub default_ttl_seconds : ℕ
  pub per_tool_ttl_seconds : Dict ℕ
  pub bypass_keys : List Text
  pub entries : Dict (CacheEntry V)
  pub stats : CacheStats

-- `OrderedDict.move_to_end`
pub move_to_end {ℓ} : {W : Type ℓ} → String → Dict W → Dict W
move_to_end k d = elim (Dict.lookup k d) [ none ↦ d | some w ↦ Dict.remove k d ++ (k, w) ∷ [] ]

-- `[k for k, w in d.items() if p(w)]`
pub keys_where {ℓ} : {W : Type ℓ} → (W → Bool) → Dict W → List String
keys_where p d = map (λ e. e.0) (keep (λ e. p e.1) d)

-- `while len(d) > n: d.popitem(last=False)`
pub evict_lru {ℓ} : {W : Type ℓ} → ℕ → Dict W → Dict W
evict_lru n [] = []
evict_lru n (e ∷ d) = if ltb n (length (e ∷ d)) then evict_lru n d else e ∷ d

abbrev pub no_stats : ℕ → CacheStats
no_stats size = record {
  hits = 0;
  misses = 0;
  sets = 0;
  evictions = 0;
  expirations = 0;
  size = 0;
  max_size = size;
}

-- `__init__`
pub init : {V : Type 0} → ℕ → ℕ → Dict ℕ → List Text → ToolCache V
init max_entries ttl per_tool bypass = record {
  max_entries = max 1 max_entries;
  default_ttl_seconds = max 1 ttl;
  per_tool_ttl_seconds = per_tool;
  bypass_keys = map lower bypass;
  entries = [];
  stats = no_stats (max 1 max_entries);
}

abbrev pub expired : {V : Type 0} → ℕ → CacheEntry V → Bool
expired now e = leb e.expires_at now

-- What a call is looked up by.
pub record ToolCall (A : Type 0) : Type 0 where
  pub tool_name : String
  pub arguments : A
  pub tenant_id : Option String

module _ {A V : Type 0} (make_key : ToolCall A → String) (items : A → List (Text × Text)) where
  -- `_ttl_for`
  pub ttl_for : ToolCache V → String → ℕ
  ttl_for c tool = elim (Dict.lookup tool c.per_tool_ttl_seconds) [
    | none ↦ c.default_ttl_seconds
    | some ttl ↦ ttl
  ]

  -- `_bypass_match`
  pub bypass_match : ToolCache V → A → Bool
  bypass_match c args =
      any
        (λ item.
          any (contains (lower item.0)) c.bypass_keys
          || any (contains (lower item.1)) c.bypass_keys)
        (items args)

  -- `get`, past the bypass and at the entry of the key
  pub get_entry : ToolCache V → String → Option (CacheEntry V) → ℕ → Option V × ToolCache V
  get_entry c key none now =
      (none, record c { stats = record (c.stats) { misses = c.stats.misses + 1 } })
  get_entry c key (some e) now =
      if expired now e
      then (
        none,
        record c {
          entries = Dict.remove key c.entries;
          stats = record (c.stats) {
            misses = c.stats.misses + 1;
            expirations = c.stats.expirations + 1;
          };
        },
      )
      else (
        some e.value,
        record c {
          entries = move_to_end key (Dict.insert key (record e { hits = e.hits + 1 }) c.entries);
          stats = record (c.stats) { hits = c.stats.hits + 1 };
        },
      )

  -- `get`
  pub get : ToolCall A → ℕ → ToolCache V → Option V × ToolCache V
  unfolding get_entry
  get call now c =
      if bypass_match c call.arguments
      then (none, record c { stats = record (c.stats) { misses = c.stats.misses + 1 } })
      else get_entry c (make_key call) (Dict.lookup (make_key call) c.entries) now

  -- The entry that `set` stores.
  abbrev pub new_entry : ToolCall A → V → Option ℕ → ℕ → ℕ → ToolCache V → CacheEntry V
  new_entry call value ttl now created c = record {
    key = make_key call;
    value = value;
    expires_at =
        now + one_second * max 1 (elim ttl [ some t ↦ t | none ↦ ttl_for c call.tool_name ]);
    created_at = created;
    tool_name = call.tool_name;
    tenant_id = call.tenant_id;
    hits = 0;
  }

  -- What `set` leaves of the entries: `_evict_expired` at its own time, the new entry at the end,
  -- `_evict_lru_if_needed`.
  abbrev pub live : ℕ → ToolCache V → Dict (CacheEntry V)
  live swept c = pop_keys (keys_where (expired swept) c.entries) c.entries

  abbrev pub with_new : String → CacheEntry V → Dict (CacheEntry V) → Dict (CacheEntry V)
  with_new key e d = move_to_end key (Dict.insert key e d)

  -- `set`; the clock is read for the expiry, for the sweep and for the entry
  pub set : ToolCall A → V → Option ℕ → ℕ → ℕ → ℕ → ToolCache V → Option String × ToolCache V
  set call value ttl now swept created c =
      let key = make_key call in
      let kept = live swept c in
      let grown = with_new key (new_entry call value ttl now created c) kept in
      let entries' = evict_lru c.max_entries grown in
      if bypass_match c call.arguments then (none, c) else (
        some key,
        record c {
          entries = entries';
          stats = record (c.stats) {
            expirations = c.stats.expirations + length (keys_where (expired swept) c.entries);
            evictions = c.stats.evictions + (length grown - length entries');
            sets = c.stats.sets + 1;
            size = length entries';
          };
        },
      )

  -- `invalidate`
  pub invalidate : Option String → ToolCache V → ℕ × ToolCache V
  invalidate none c =
      (length c.entries, record c { entries = []; stats = record (c.stats) { size = 0 } })
  invalidate (some tool) c =
      let gone = keys_where (λ e. str_eq e.tool_name tool) c.entries in
      let entries' = pop_keys gone c.entries in
      (
        length gone,
        record c { entries = entries'; stats = record (c.stats) { size = length entries' } },
      )

-- `stats`: the counters, and the hit rate as a numerator and a denominator.
pub stats_of : {V : Type 0} → ToolCache V → CacheStats × (ℕ × ℕ)
stats_of c =
    let lookups = c.stats.hits + c.stats.misses in
    (
      record (c.stats) { size = length c.entries },
      if ltb 0 lookups then (c.stats.hits, lookups) else (0, 1),
    )

-- An entry of `snapshot`: its key, tool, tenant, age, time to live and hits.
pub snapshot :
    {V : Type 0} → ℕ → ℕ → ToolCache V → List (String × String × Option String × ℤ × ℕ × ℕ)
snapshot limit now c =
    map
      (λ kv.
        let e = kv.1 in
        (e.key, e.tool_name, e.tenant_id, sub_ℕ now e.created_at, e.expires_at - now, e.hits))
      (take limit c.entries)
