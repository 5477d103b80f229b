-- ===== src/Circuit/Registry.antt =====
-- `BreakerRegistry`: the breakers of all endpoints over the one table where they persist.
use ctrl_gateway.Prelude.{
  ℕ, ◌≡◌, ◌≢◌, ◌∙◌, refl, String, Option, none, some, List, map, arith, eq_iff,
}
use ctrl_gateway.Prelude.Dict
use ctrl_gateway.Prelude.Dict.{Dict}
use ctrl_gateway.Circuit.{
  State, Config, Row, Breaker, load_state, allow, record_success, record_failure, get_breaker_state,
  Event, asked, succeeded, failed, step,
}

-- What the registry holds of a breaker; the table is shared.
pub record Entry : Type 0 where
  pub config : Config
  pub row : Row

pub record Registry : Type 0 where
  pub breakers : Dict Entry
  pub table : Dict Row

abbrev pub breaker_of : String → Entry → Dict Row → Breaker
breaker_of name e table = record {
  endpoint_name = name;
  config = e.config;
  row = e.row;
  table = table;
}

abbrev pub put_back : Registry → Breaker → Registry
put_back reg b = record {
  breakers = Dict.insert b.endpoint_name (record { config = b.config; row = b.row }) reg.breakers;
  table = b.table;
}

-- The two branches of `get`: a breaker on its first use, or the old one with the config of the call.
unfoldable pub obtain : String → Config → ℕ → Dict Row → Option Entry → Breaker
obtain name config now table none = load_state name config now table
obtain name config now table (some e) = breaker_of name (record e { config = config }) table

-- `get`
unfoldable pub get : String → Config → ℕ → Registry → Breaker × Registry
unfolding obtain
get name config now reg =
    let b = obtain name config now reg.table (Dict.lookup name reg.breakers) in (b, put_back reg b)

-- `all_states`
pub all_states : Registry → List (String × State)
all_states reg = map (λ entry. (entry.0, entry.1.row.state)) reg.breakers

-- A client gets the breaker of an endpoint and uses it once. The registry holds the same object.
unfoldable pub serve : String → Config → ℕ → Event → Registry → Registry
unfolding get
serve name config now e reg = let (b, reg') = get name config now reg in put_back reg' (step e b)

-- What the registry and the table know of an endpoint.
unfoldable pub entry_of : String → Registry → Option Entry
entry_of name reg = Dict.lookup name reg.breakers

pub row_of : String → Registry → Row
row_of name reg = get_breaker_state name reg.table

name_of_load :
    (name : String) (c : Config) (now : ℕ) (d : Dict Row)
    → (load_state name c now d).endpoint_name ≡ name
unfolding load_state
name_of_load name c now d = ground arith

pub name_of_step : (e : Event) (b : Breaker) → (step e b).endpoint_name ≡ b.endpoint_name
unfolding step allow record_success record_failure
name_of_step (asked now) b = ground arith
name_of_step (succeeded now w) b = ground arith
name_of_step (failed now) b = ground arith

-- Each operation writes the row of its own endpoint only.
load_state-other :
    (name other : String) (c : Config) (now : ℕ) (d : Dict Row)
    → name ≢ other
    → Dict.lookup other (load_state name c now d).table ≡ Dict.lookup other d
unfolding load_state
load_state-other name other c now d ne = grind (arith, Dict.lookup-insert, eq_iff name other)

step-other :
    (e : Event) (b : Breaker) (other : String)
    → b.endpoint_name ≢ other
    → Dict.lookup other (step e b).table ≡ Dict.lookup other b.table
unfolding step allow record_success record_failure
step-other (asked now) b other ne = grind (arith, Dict.lookup-insert, eq_iff b.endpoint_name other)
step-other (succeeded now w) b other ne =
    grind (arith, Dict.lookup-insert, eq_iff b.endpoint_name other)
step-other (failed now) b other ne = grind (arith, Dict.lookup-insert, eq_iff b.endpoint_name other)

pub obtain-name :
    (name : String) (c : Config) (now : ℕ) (d : Dict Row) (e : Option Entry)
    → (obtain name c now d e).endpoint_name ≡ name
unfolding obtain
obtain-name name c now d none = name_of_load name c now d
obtain-name name c now d (some e) = refl

obtain-other :
    (name other : String) (c : Config) (now : ℕ) (d : Dict Row) (e : Option Entry)
    → name ≢ other
    → Dict.lookup other (obtain name c now d e).table ≡ Dict.lookup other d
unfolding obtain
obtain-other name other c now d none ne = load_state-other name other c now d ne
obtain-other name other c now d (some e) ne = refl

get_breaker_state-of :
    (k : String) (d d' : Dict Row)
    → Dict.lookup k d ≡ Dict.lookup k d'
    → get_breaker_state k d ≡ get_breaker_state k d'
unfolding get_breaker_state
get_breaker_state-of k d d' e = ground arith

-- What happens at one endpoint changes neither the breaker nor the persisted row of another.
pub serve_independent :
    (name other : String) (c : Config) (now : ℕ) (e : Event) (reg : Registry)
    → name ≢ other
    → (entry_of other (serve name c now e reg) ≡ entry_of other reg)
      × (row_of other (serve name c now e reg) ≡ row_of other reg)
serve_independent name other c now e reg ne =
    let found = Dict.lookup name reg.breakers in
    let b = obtain name c now reg.table found in
    let named : b.endpoint_name ≡ name = obtain-name name c now reg.table found in
    let same : Dict.lookup other (step e b).table ≡ Dict.lookup other b.table =
      step-other e b other (rw named ne) in
    let same' : Dict.lookup other b.table ≡ Dict.lookup other reg.table =
      obtain-other name other c now reg.table found ne in
    (
      unfold serve get entry_of in
          grind (arith, Dict.lookup-insert, name_of_step, named, eq_iff name other),
      unfold serve get row_of in get_breaker_state-of other _ _ (same ∙ same'),
    )
