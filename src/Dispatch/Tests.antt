-- ===== src/Dispatch/Tests.antt =====
-- Runs of the ladder, and the theorems at inputs where their hypotheses hold.
use ctrl_gateway.Prelude.{
  ℕ, zero, suc, ◌≡◌, ◌⊎◌, refl, String, true, false, none, some, List, [], ◌∷◌, arith, eq_iff, Some,
  Bool, ◌&&◌, ◌==◌, str_eq,
}
use ctrl_gateway.Prelude.Int.{pos, ◌-ℤ◌}
use ctrl_gateway.Prelude.Text.{codes, text_eq}
use ctrl_gateway.Prelude.Dict
use ctrl_gateway.Prelude.Dict.{Dict}
use ctrl_gateway.Policy.Inputs.{is_open}
use ctrl_gateway.Circuit
use ctrl_gateway.Circuit.{
  opened, fresh, get_breaker_state, load_state, allow, record_success, record_failure, step,
}
use ctrl_gateway.Circuit.Registry.{entry_of, get, serve, obtain}
use ctrl_gateway.Firewall
use ctrl_gateway.Firewall.Checks.{IsPermit}
use ctrl_gateway.Dispatch.{
  Client, Exchange, Gateway, responded, completion, blocked, retryable, is_local_host,
  check_firewall, ask, note, note_failure, note_success, single_response, post, send, health_check,
}
use ctrl_gateway.Dispatch.Fallback.{
  Routes, find_endpoint_config, find_tier_config, configured, tier_endpoints, siblings,
  tier_listing, with_fallback, ladder, conclude, try_endpoint, try_if, visit, forwarded, forward,
  forward_with_fallback,
}
use ctrl_gateway.Dispatch.Ladder.{IsReason, forward_with_fallback-IsReason}
use ctrl_gateway.Dispatch.Recovery.{Asked}
use ctrl_gateway.Dispatch.Guard.{IsReached, send_permits}
use ctrl_gateway.Dispatch.Pool.{
  Pool, IsKeyed, StandsAt, IsIn, rebuild, rebuild_all, rebuild_one, renew, dropped, rebuild-IsKeyed,
}

program : Unit {0}
unfolding Dict.lookup Dict.insert is_open get_breaker_state load_state allow record_success
    record_failure step ◌-ℤ◌ get serve obtain entry_of retryable is_local_host check_firewall ask
    note note_failure note_success single_response post send health_check find_endpoint_config
    find_tier_config configured tier_endpoints siblings tier_listing with_fallback ladder conclude
    try_endpoint try_if visit forward forward_with_fallback
program = tt

abbrev config : Circuit.Config
config = record { failure_threshold = 3; open_duration = 60; half_open_max_probes = pos 1 }

-- Two endpoints in a tier and a fallback in another.
abbrev conf : Routes
conf = record {
  endpoints =
      record { name = "a"; breaker = config }
      ∷ record { name = "b"; breaker = config }
      ∷ record { name = "c"; breaker = config }
      ∷ [];
  tiers =
      record { name = "t0"; endpoints = "a" ∷ "b" ∷ [] }
      ∷ record { name = "t1"; endpoints = "c" ∷ [] }
      ∷ [];
  fallback_endpoint = "c";
}

abbrev pool : Dict Client
pool =
    ("a", record { name = "a"; breaker = config })
    ∷ ("b", record { name = "b"; breaker = config })
    ∷ ("c", record { name = "c"; breaker = config })
    ∷ []

abbrev idle : Gateway
idle = record {
  registry = record { breakers = []; table = [] };
  firewall = none;
  posts = [];
  reached = [];
}

-- The breaker of "a" opened at 30.
abbrev tripped : Gateway
tripped = record idle {
  registry = record {
    breakers =
        (
          "a",
          record {
            config = config;
            row = record fresh { state = opened; consecutive_failures = 3; opened_at = some 30 };
          },
        )
        ∷ [];
    table = [];
  };
}

abbrev exchange : ℕ → Exchange
exchange zero = record {
  host = some (codes "a.example");
  answer = responded 503 none;
  redirects = [];
  asked_at = 100;
  sent_at = 101;
  ended_at = 102;
  written_at = 103;
}
exchange (suc i) = record {
  host = some (codes "b.example");
  answer = responded 200 (some (completion (pos 12) (pos 5)));
  redirects = [];
  asked_at = 110;
  sent_at = 111;
  ended_at = 112;
  written_at = 113;
}

three_rungs : ladder conf ("a", "t0") [] ≡ ("a", "t0") ∷ ("b", "t0") ∷ ("c", "t1") ∷ []
unfolding program
three_rungs = refl

second_answers :
    (forward_with_fallback conf pool "acme" exchange ("a", "t0") [] idle).0
    ≡ forwarded ("b", "t0") 2 (pos 12) (pos 5)
unfolding program
second_answers = refl

-- The tripped endpoint counts as the first attempt, but gets no request.
probe_is_lost :
    (forward_with_fallback conf pool "acme" exchange ("a", "t0") [] tripped).1.posts ≡ "b" ∷ []
unfolding program
probe_is_lost = refl

forward_with_fallback-IsReason_example :
    let (r, g) = forward_with_fallback conf pool "acme" exchange ("a", "t0") [] idle in
    IsReason conf pool "acme" exchange (ladder conf ("a", "t0") []) 0 0 idle r g
forward_with_fallback-IsReason_example =
    forward_with_fallback-IsReason conf pool "acme" exchange ("a", "t0") [] idle

abbrev requests : List Asked
requests =
    record { tenant = "acme"; decision = ("a", "t0"); breaker_states = []; world = exchange } ∷ []

abbrev enforcer : Firewall.Enforcer
enforcer = record {
  enabled = true;
  default_action = Firewall.block;
  rules = record { pattern = codes "a.example"; action = Firewall.allow; tenant_id = "*" } ∷ [];
  checks_total = 0;
  blocks_total = 0;
}

abbrev client_a : Client
client_a = record { name = "a"; breaker = config }

abbrev guarded : Gateway
guarded = record idle { firewall = some enforcer }

far_host : is_local_host (codes "a.example") ≡ false
unfolding is_local_host text_eq
far_host = refl

-- A redirect reaches a host that no rule allows.
redirected :
    (send "acme" client_a
      (record (exchange 0) { redirects = codes "evil.example" ∷ [] })
      (codes "localhost")
      guarded).1.reached
    ≡ codes "localhost" ∷ codes "evil.example" ∷ []
unfolding program text_eq
redirected = refl

-- The health check reaches a host that no rule allows.
health_unguarded :
    health_check (record (exchange 0) { host = some (codes "b.example") }) guarded
    ≡ (false, record guarded { reached = codes "b.example" ∷ [] })
unfolding program
health_unguarded = refl

send_permits_example :
    let (s, g) = send "acme" client_a (exchange 0) (codes "a.example") guarded in
    ((g.reached ≡ []) × (g.posts ≡ []) × (g.registry ≡ guarded.registry) × (s ≡ blocked))
    ⊎ (IsReached client_a (exchange 0) (codes "a.example") guarded g
        × Some (IsPermit (codes "a.example") "acme") enforcer.rules)
send_permits_example =
    send_permits "acme" client_a (exchange 0) (codes "a.example") guarded enforcer refl refl refl
      far_host

-- Endpoints whose config is a number.
abbrev Numbered : Type 0
Numbered = String × ℕ

abbrev same_config : Numbered → Numbered → Bool
same_config (n, a) (m, b) = str_eq n m && (a == b)

same_config_sound : (x y : Numbered) → same_config x y ≡ true → x ≡ y
same_config_sound (n, a) (m, b) h = ground (arith, h, eq_iff n m)

abbrev two_clients : Pool Numbered (λ e. e.0) same_config
two_clients = record {
  clients =
      ("a", record { serial = 0; cfg = ("a", 1); enforcer = none })
      ∷ ("b", record { serial = 1; cfg = ("b", 1); enforcer = none })
      ∷ [];
  firewall = none;
  next = 2;
  closed_clients = [];
}

abbrev new_config : List Numbered
new_config = ("a", 1) ∷ ("c", 7) ∷ []

closes_b : (rebuild Numbered (λ e. e.0) same_config new_config two_clients).closed_clients ≡ 1 ∷ []
unfolding program rebuild rebuild_all rebuild_one renew dropped
closes_b = refl

b_is_there :
    Dict.lookup "b" two_clients.clients
    ≡ some (record { serial = 1; cfg = ("b", 1); enforcer = none })
unfolding Dict.lookup
b_is_there = refl

rebuild-IsKeyed_example :
    let pool' = rebuild Numbered (λ e. e.0) same_config new_config two_clients in
    IsKeyed Numbered (λ e. e.0) same_config pool'.clients
    × (StandsAt Numbered
          (λ e. e.0)
          same_config
          "b"
          (record { serial = 1; cfg = ("b", 1); enforcer = none })
          pool'.clients
        ⊎ IsIn Numbered (λ e. e.0) same_config 1 pool'.closed_clients)
rebuild-IsKeyed_example =
    rebuild-IsKeyed Numbered (λ e. e.0) same_config new_config two_clients "b"
      (record { serial = 1; cfg = ("b", 1); enforcer = none }) same_config_sound b_is_there
