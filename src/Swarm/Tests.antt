-- ===== src/Swarm/Tests.antt =====
-- Plans and texts, and the theorems at inputs where their hypotheses hold.
use ctrl_gateway.Prelude.{
  ℕ, ◌≤◌, ◌<◌, ◌≡◌, ◌⊎◌, inl, inr, refl, arith, String, true, false, ◌&&◌, none, some, List, [],
  ◌∷◌, ◌==◌, length, All, Some, here, there, str_eq, if◌then◌else◌,
}
use ctrl_gateway.Prelude.Dict
use ctrl_gateway.Prelude.Dict.{pop_keys}
use ctrl_gateway.Prelude.Text.{Text, codes, strip_left, strip_right, strip}
use ctrl_gateway.Swarm.{
  SubTask, SwarmConfig, auto, SwarmContext, triggered, swarm_cost, swarm_cap, cost_check,
  should_swarm, index_into, by_id, has_id, is_ready, push_layer, layers, topological_layers,
  paragraphs_from, paragraphs, joined, chunks_from, split_into_chunks, tier_of, number_chunks,
  chunk_decompose, plan_ids,
}
use ctrl_gateway.Swarm.Schedule.{IsSchedule}
use ctrl_gateway.Swarm.Layers.{IsUnique, nothing_lost}
use ctrl_gateway.Swarm.Progress.{acyclic-IsSchedule}
use ctrl_gateway.Swarm.Chunks.{ink, all_ink, ink-split_into_chunks}

program : Unit {0}
unfolding swarm_cost swarm_cap cost_check should_swarm index_into by_id is_ready push_layer layers
    topological_layers paragraphs_from paragraphs joined chunks_from split_into_chunks tier_of
    number_chunks chunk_decompose plan_ids Dict.lookup Dict.insert Dict.remove pop_keys strip_left
    strip_right strip
program = tt

abbrev task : String → List String → SubTask
task id deps = record { id = id; prompt = codes "do"; target_tier = "tier0"; depends_on = deps }

abbrev plan : List SubTask
plan = task "c" ("a" ∷ "b" ∷ []) ∷ task "a" [] ∷ task "b" ("a" ∷ "gone" ∷ []) ∷ []

three_layers :
    topological_layers plan
    ≡ (task "a" [] ∷ [])
      ∷ (task "b" ("a" ∷ "gone" ∷ []) ∷ [])
      ∷ (task "c" ("a" ∷ "b" ∷ []) ∷ [])
      ∷ []
unfolding program
three_layers = refl

-- A cycle is run in one layer.
cycle :
    topological_layers (task "a" ("b" ∷ []) ∷ task "b" ("a" ∷ []) ∷ [])
    ≡ (task "a" ("b" ∷ []) ∷ task "b" ("a" ∷ []) ∷ []) ∷ []
unfolding program
cycle = refl

-- A given id that equals the one made for a duplicate: two subtasks are called `x-2`, and the first
-- of them is in no layer.
abbrev suffix_two : String → ℕ → String
suffix_two s i = if str_eq s "x" && i == 2 then "x-2" else s

same_ids : plan_ids suffix_two 0 [] ("x-2" ∷ "x" ∷ "x" ∷ []) ≡ "x-2" ∷ "x" ∷ "x-2" ∷ []
unfolding program
same_ids = refl

one_lost :
    topological_layers (task "x-2" ("y" ∷ []) ∷ task "x" [] ∷ task "x-2" [] ∷ [])
    ≡ (task "x-2" [] ∷ task "x" [] ∷ []) ∷ []
unfolding program
one_lost = refl

abbrev config : SwarmConfig
config = record {
  mode = auto;
  trigger_tiers = "tier4" ∷ [];
  min_complexity = 4;
  max_swarm_cost_usd = none;
  estimated_cost_usd = none;
  estimated_cost_multiplier = 750_000;
}

abbrev coding : SwarmContext
coding = record { complexity = 5; code = true; reasoning = false; long_output = false }

swarms : should_swarm coding (some config) "tier4" 1000 ≡ triggered
unfolding program
swarms = refl

abbrev text : Text
text = codes "one two\n\nthree\n\n\nfour"

cut : split_into_chunks text 11 ≡ codes "one two" ∷ codes "three" ∷ codes "four" ∷ []
unfolding program
cut = refl

abbrev rank : String → ℕ
rank s = if str_eq s "a" then 0 else if str_eq s "b" then 1 else 2

plan_ranked :
    All (λ t. All (λ d. (has_id (by_id plan) d ≡ false) ⊎ (rank d < rank t.id)) t.depends_on) plan
unfolding program
plan_ranked = (
  ((inr (omega arith)), (inr (omega arith), tt)),
  (tt, ((inr (omega arith), (inl refl, tt)), tt)),
)

acyclic-IsSchedule_example : IsSchedule (by_id plan) [] (topological_layers plan)
acyclic-IsSchedule_example = acyclic-IsSchedule rank plan plan_ranked

abbrev plan-IsUnique : IsUnique plan
plan-IsUnique = (refl, (refl, (refl, tt)))

nothing_lost_example : Some (λ l. Some (λ u. u ≡ task "a" []) l) (topological_layers plan)
nothing_lost_example = nothing_lost plan (task "a" []) plan-IsUnique (there (here refl))

ink-split_into_chunks_example : all_ink (split_into_chunks text 12) ≡ ink text
ink-split_into_chunks_example = ink-split_into_chunks text 12

short_paragraphs : All (λ p. length p ≤ 7) (paragraphs text)
unfolding program
short_paragraphs = omega arith
