-- ===== src/ToolCache/Tests.antt =====
-- A cache of two entries, and the theorems at inputs where their hypotheses hold.
use ctrl_gateway.Prelude.{
  ℕ, ◌+◌, ◌*◌, ◌<◌, ◌≡◌, ◌≢◌, refl, String, false, Option, none, some, List, [], ◌∷◌, arith, max,
  eq_iff,
}
use ctrl_gateway.Prelude.Dict
use ctrl_gateway.Prelude.Dict.{pop_keys}
use ctrl_gateway.Prelude.Text.{Text, codes, contains, lower, starts_with}
use ctrl_gateway.ToolCache.{
  ToolCache, ToolCall, one_second, init, ttl_for, bypass_match, get_entry, get, set, invalidate,
  move_to_end, keys_where, evict_lru,
}
use ctrl_gateway.ToolCache.Entries.{IsValid, init-IsValid}
use ctrl_gateway.ToolCache.Reads.{read, store, drop_tool, after, apply, after-IsValid}

program : Unit {0}
unfolding init ttl_for bypass_match get_entry get set invalidate move_to_end pop_keys evict_lru
    Dict.lookup Dict.insert Dict.remove contains starts_with lower keys_where
program = tt

abbrev call_key : ToolCall String → String
call_key call = call.arguments

abbrev shown : String → List (Text × Text)
shown arguments = (codes "query", codes arguments) ∷ []

abbrev call : String → ToolCall String
call arguments = record { tool_name = "search"; arguments = arguments; tenant_id = none }

abbrev empty : ToolCache String
empty = init 2 300 [] (codes "TIME" ∷ [])

abbrev empty-IsValid : IsValid empty
empty-IsValid = init-IsValid 2 300 [] (codes "TIME" ∷ [])

abbrev put : String → String → ToolCache String → ToolCache String
put arguments value c = (set call_key shown (call arguments) value none 0 0 0 c).1

-- Reading an entry keeps it from eviction: the other one goes.
lru :
    (get call_key shown
      (call "b")
      5
      (put "c" "3" ((get call_key shown (call "a") 5 (put "b" "2" (put "a" "1" empty))).1))).0
    ≡ none
unfolding program
lru = refl

kept :
    (get call_key shown
      (call "a")
      5
      (put "c" "3" ((get call_key shown (call "a") 5 (put "b" "2" (put "a" "1" empty))).1))).0
    ≡ some "1"
unfolding program
kept = refl

too_late : (get call_key shown (call "a") (300 * one_second) (put "a" "1" empty)).0 ≡ none
unfolding program
too_late = refl

-- A call that names the time is not cached.
bypassed : put "the time now" "1" empty ≡ empty
unfolding program
bypassed = refl

dropped : (invalidate call_key shown (some "search") (put "b" "2" (put "a" "1" empty))).0 ≡ 2
unfolding program
dropped = refl

abbrev one_entry : ToolCache String
one_entry = after call_key shown (store (call "a") "1" none 0 0 0 ∷ []) empty

abbrev one_entry-IsValid : IsValid one_entry
one_entry-IsValid =
    after-IsValid call_key shown (store (call "a") "1" none 0 0 0 ∷ []) empty empty-IsValid

after-IsValid_example : IsValid (
    after call_key shown
      (store (call "a") "1" none 0 0 0
        ∷ read (call "a") 4
        ∷ store (call "b") "2" none 5 5 5
        ∷ drop_tool none
        ∷ [])
      empty)
after-IsValid_example =
    after-IsValid call_key shown
      (store (call "a") "1" none 0 0 0
        ∷ read (call "a") 4
        ∷ store (call "b") "2" none 5 5 5
        ∷ drop_tool none
        ∷ [])
      empty empty-IsValid

first_read : (get call_key shown (call "a") 5 (put "a" "1" empty)).0 ≡ some "1"
unfolding program
first_read = refl

plain : bypass_match call_key shown one_entry "a" ≡ false
unfolding program after apply
plain = refl

abbrev nine : Option ℕ
nine = some 9

early :
    7
    < 0
      + one_second
        * max 1 (elim nine [ some t ↦ t | none ↦ ttl_for call_key shown one_entry "search" ])
early = omega arith

abbrev first : String
first = "a"

abbrev second : String
second = "b"

differ : second ≢ first
differ = ground (arith, eq_iff second first)
