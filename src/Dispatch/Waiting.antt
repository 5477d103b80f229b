-- ===== src/Dispatch/Waiting.antt =====
-- The registry's breaker of an endpoint that has tripped, under questions and results.
use ctrl_gateway.Prelude.{
  ℕ, ◌≤◌, ◌≡◌, ◌≢◌, refl, sym, subst, ◌∙◌, ◌⊎◌, inl, inr, String, true, false, some, arith, str_eq,
  eq_iff, Bool-cases,
}
use ctrl_gateway.Prelude.Int.{pos, pos_part, ◌-ℤ◌}
use ctrl_gateway.Prelude.Dict
use ctrl_gateway.Prelude.Dict.{Dict}
use ctrl_gateway.Circuit
use ctrl_gateway.Circuit.{State, closed, opened, half_open, Row, Breaker, allow, Event, asked, step}
use ctrl_gateway.Circuit.Registry.{
  Entry, Registry, breaker_of, entry_of, obtain, get, serve, name_of_step, serve_independent,
}
use ctrl_gateway.Dispatch.{ask}

-- A breaker that has tripped and has at most one probe left.
abbrev pub IsTripped : Row → Type 0
IsTripped r =
    (r.state ≡ opened) ⊎ ((r.state ≡ half_open) × (pos_part r.half_open_probes_remaining ≤ 1))

-- It has no probe left.
abbrev pub IsSpent : Row → Type 0
IsSpent r = (r.state ≡ half_open) × (pos_part r.half_open_probes_remaining ≡ 0)

allow-IsTripped :
    (t : ℕ) (b : Breaker)
    → b.config.half_open_max_probes ≡ pos 1
    → IsTripped b.row
    → IsTripped (allow t b).1.row × ((allow t b).0 ≡ true → IsSpent (allow t b).1.row)
unfolding allow ◌-ℤ◌
allow-IsTripped t b one h = ground arith

allow_lem :
    (t : ℕ) (b : Breaker) → IsSpent b.row → ((allow t b).0 ≡ false) × ((allow t b).1.row ≡ b.row)
unfolding allow
allow_lem t b h = ground arith

-- A question to a breaker that the registry holds.
ask-entry :
    (name : String) (c : Circuit.Config) (t : ℕ) (reg : Registry) (e : Entry)
    → entry_of name reg ≡ some e
    → let b = breaker_of name (record e { config = c }) reg.table in
      ((ask name c t reg).0 ≡ (allow t b).0)
      × (entry_of name (ask name c t reg).1
          ≡ some (record { config = (allow t b).1.config; row = (allow t b).1.row }))
unfolding ask get obtain entry_of step
ask-entry name c t reg e h =
    let b = breaker_of name (record e { config = c }) reg.table in
    rw h (refl, rw (name_of_step (asked t) b) (Dict.lookup-insert_self name _ _))

allow_config : (t : ℕ) (b : Breaker) → (allow t b).1.config ≡ b.config
unfolding allow
allow_config t b = ground arith

-- The registry holds a tripped breaker of the endpoint.
abbrev pub Waits : String → Registry → Type 0
Waits name reg = (e : Entry) × (entry_of name reg ≡ some e) × IsTripped e.row

abbrev pub Denies : String → Registry → Type 0
Denies name reg = (e : Entry) × (entry_of name reg ≡ some e) × IsSpent e.row

ask_waiting :
    (name : String) (c : Circuit.Config) (t : ℕ) (reg : Registry)
    → c.half_open_max_probes ≡ pos 1
    → Waits name reg
    → Waits name (ask name c t reg).1
      × ((ask name c t reg).0 ≡ true → Denies name (ask name c t reg).1)
ask_waiting name c t reg one (e, h, tripped) =
    let b = breaker_of name (record e { config = c }) reg.table in
    let (same, held) = ask-entry name c t reg e h in
    let (waits, spent) = allow-IsTripped t b one tripped in
    ((_, held, waits), λ yes. (_, held, spent (sym same ∙ yes)))

pub ask_denied :
    (name : String) (c : Circuit.Config) (t : ℕ) (reg : Registry)
    → Denies name reg
    → ((ask name c t reg).0 ≡ false) × Denies name (ask name c t reg).1
ask_denied name c t reg (e, h, spent) =
    let b = breaker_of name (record e { config = c }) reg.table in
    let (same, held) = ask-entry name c t reg e h in
    let (denied, row) = allow_lem t b spent in (same ∙ denied, (_, held, rw row spent))

pub Denies-Waits : (name : String) (reg : Registry) → Denies name reg → Waits name reg
Denies-Waits name reg (e, h, spent) = (e, h, inr (spent.0, omega (arith, spent.1)))

-- Another endpoint's requests do not matter.
pub ask_elsewhere :
    (name other : String) (c : Circuit.Config) (t : ℕ) (reg : Registry)
    → name ≢ other
    → Waits other reg
    → Waits other (ask name c t reg).1
unfolding ask serve step
ask_elsewhere name other c t reg ne (e, h, tripped) =
    (e, (serve_independent name other c t (asked t) reg ne).0 ∙ h, tripped)

pub serve_elsewhere :
    (name other : String) (c : Circuit.Config) (t : ℕ) (ev : Event) (reg : Registry)
    → name ≢ other
    → Waits other reg
    → Waits other (serve name c t ev reg)
serve_elsewhere name other c t ev reg ne (e, h, tripped) =
    (e, (serve_independent name other c t ev reg ne).0 ∙ h, tripped)

-- A question about any endpoint, asked while `name` waits.
pub ask_round :
    (k name : String) (c : Circuit.Config) (t : ℕ) (reg : Registry)
    → (k ≡ name → c.half_open_max_probes ≡ pos 1)
    → Waits name reg
    → Waits name (ask k c t reg).1
      × (k ≡ name → (ask k c t reg).0 ≡ true → Denies name (ask k c t reg).1)
ask_round k name c t reg one w = elim (Bool-cases (str_eq k name)) [
  | inl e ↦
      let same : k ≡ name = (eq_iff k name).0 e in
      let (waits, denies) =
        ask_waiting k c t reg (one same) (subst (λ n. Waits n reg) (sym same) w) in
      (
        subst (λ n. Waits n (ask k c t reg).1) same waits,
        λ _ yes. subst (λ n. Denies n (ask k c t reg).1) same (denies yes),
      )
  | inr e ↦
      let differ : k ≢ name = ground (arith, e, eq_iff k name) in
      (ask_elsewhere k name c t reg differ w, λ same. absurd (differ same))
]
