-- ===== src/Events/Tests.antt =====
-- A small bus, and the theorems at inputs where their hypotheses hold.
use ctrl_gateway.Prelude.{
  ℕ, ◌≡◌, refl, arith, true, false, String, Option, none, some, List, [], ◌∷◌, map, keep,
}
use ctrl_gateway.Events.{
  routing, Event, is_wanted, push, put_nowait, publish, notify, subscribe, Step, publishes,
  notifies, subscribes, gets, step, run, event_bus, collect, reversed, recent,
}
use ctrl_gateway.Events.Lists.{last}
use ctrl_gateway.Events.History.{published, recent-run, recent_none_asked}

program : Unit {0}
unfolding push put_nowait publish notify subscribe step run collect reversed recent
program = tt

abbrev event : ℕ → Option String → Event
event id tenant = record { id = id; source = routing; type = "status"; tenant_id = tenant }

abbrev steps : List Step
steps =
    subscribes 1
    ∷ publishes true (event 1 none)
    ∷ publishes true (event 2 (some "a"))
    ∷ notifies
    ∷ notifies
    ∷ publishes false (event 3 (some "b"))
    ∷ publishes true (event 4 (some "a"))
    ∷ gets 0
    ∷ notifies
    ∷ []

abbrev ids : List Event → List ℕ
ids evs = map (λ ev. ev.id) evs

last_three : ids (run steps (event_bus 3)).ring ≡ 2 ∷ 3 ∷ 4 ∷ []
unfolding program
last_three = refl

-- The second event found the queue full, and the third came without a loop.
heard : map (λ q. ids q.items) (run steps (event_bus 3)).subscribers ≡ (4 ∷ []) ∷ []
unfolding program
heard = refl

of_tenant : ids (recent 5 none (some "a") (run steps (event_bus 3))) ≡ 2 ∷ 4 ∷ []
unfolding program
of_tenant = refl

one_too_many : ids (recent 0 none none (run steps (event_bus 3))) ≡ 4 ∷ []
unfolding program
one_too_many = refl

recent-run_example :
    recent 1 (some routing) (some "a") (run steps (event_bus 3))
    ≡ last 1 (keep (is_wanted (some routing) (some "a")) (last 3 (published steps)))
recent-run_example = recent-run 3 1 (some routing) (some "a") steps (omega arith)

recent_none_asked_example :
    recent 0 none none (run steps (event_bus 3)) ≡ recent 1 none none (run steps (event_bus 3))
recent_none_asked_example = recent_none_asked none none (run steps (event_bus 3))
