-- ===== src/Swarm.antt =====
-- The swarm of gateway/swarm.py: when it is entered, how a request is cut into chunks, and the layers in
-- which dependent subtasks run. Costs are microdollars, and factors millionths.
mod Schedule
mod Progress
mod Layers
mod Chunks
mod Tests
use ctrl_gateway.Prelude.{
  ℕ, zero, suc, ◌+◌, ◌-◌, ◌*◌, ◌%◌, String, Bool, true, false, not, ◌&&◌, ◌||◌, Option, none, some,
  List, [], ◌∷◌, ◌++◌, map, ltb, leb, min, ◌==◌, any, all, keep, length, str_eq, if◌then◌else◌,
}
use ctrl_gateway.Prelude.Dict
use ctrl_gateway.Prelude.Dict.{Dict, pop_keys}
use ctrl_gateway.Prelude.Text.{Text, strip}

pub record SubTask : Type 0 where
  pub id : String
  pub prompt : Text
  pub target_tier : String
  pub depends_on : List String

pub data Mode : Type 0 where
  off : Mode
  always : Mode
  auto : Mode
  other : Mode

pub record SwarmConfig : Type 0 where
  pub mode : Mode
  pub trigger_tiers : List String
  pub min_complexity : ℕ
  pub max_swarm_cost_usd : Option ℕ
  pub estimated_cost_usd : Option ℕ
  pub estimated_cost_multiplier : ℕ

pub record SwarmContext : Type 0 where
  pub complexity : ℕ
  pub code : Bool
  pub reasoning : Bool
  pub long_output : Bool

pub data SwarmDecision : Type 0 where
  not_configured swarm_off low_complexity other_tier no_flag over_cap not_cheaper triggered :
      SwarmDecision

abbrev pub one_million : ℕ
one_million = 1_000_000

-- The two estimates in millionths of a microdollar: of the swarm, and what it may cost.
pub swarm_cost : SwarmConfig → ℕ → ℕ
swarm_cost c cost = elim c.estimated_cost_usd [
  | some e ↦ e * one_million
  | none ↦ cost * c.estimated_cost_multiplier
]

pub swarm_cap : SwarmConfig → ℕ → ℕ
swarm_cap c cost = elim c.max_swarm_cost_usd [ some m ↦ m * one_million | none ↦ cost * 800_000 ]

-- The cost check of `should_swarm`
pub cost_check : SwarmConfig → ℕ → SwarmDecision
cost_check c cost =
    if ltb (swarm_cap c cost) (swarm_cost c cost)
    then over_cap
    else if ltb 0 cost && leb (cost * one_million) (swarm_cost c cost)
    then not_cheaper
    else triggered

-- `should_swarm`, for the tier and the cost of the cost-first decision
pub should_swarm : SwarmContext → Option SwarmConfig → String → ℕ → SwarmDecision
should_swarm ctx none tier cost = not_configured
should_swarm ctx (some c) tier cost = elim c.mode [
  | off ↦ swarm_off
  | always ↦ if ltb ctx.complexity 4 then low_complexity else cost_check c cost
  | auto ↦
      if not (any (λ t. str_eq t tier) c.trigger_tiers)
      then other_tier
      else if ltb ctx.complexity c.min_complexity
      then low_complexity
      else if not (ctx.code || ctx.reasoning || ctx.long_output)
      then no_flag
      else cost_check c cost
  | other ↦ cost_check c cost
]

-- `{st.id: st for st in subtasks}`
pub index_into : Dict SubTask → List SubTask → Dict SubTask
index_into d [] = d
index_into d (t ∷ ts) = index_into (Dict.insert t.id t d) ts

pub by_id : List SubTask → Dict SubTask
by_id ts = index_into [] ts

abbrev pub has_id : Dict SubTask → String → Bool
has_id d k = elim (Dict.lookup k d) [ none ↦ false | some _ ↦ true ]

abbrev pub is_in : List String → String → Bool
is_in ks k = any (λ j. str_eq j k) ks

-- A subtask whose known dependencies are done.
pub is_ready : Dict SubTask → List String → SubTask → Bool
is_ready index done t = all (λ d. is_in done d || not (has_id index d)) t.depends_on

abbrev pub values : Dict SubTask → List SubTask
values d = map (λ e. e.1) d

abbrev pub ids : List SubTask → List String
ids ts = map (λ t. t.id) ts

-- `layers.append(layer)`
pub push_layer : List SubTask → Option (List (List SubTask)) → Option (List (List SubTask))
push_layer l none = none
push_layer l (some ls) = some (l ∷ ls)

-- The loop of `_topological_layers` under its guard; `none` when it is stuck.
pub layers : ℕ → Dict SubTask → List String → Dict SubTask → Option (List (List SubTask))
layers zero index done remaining = some []
layers (suc guard) index done [] = some []
layers (suc guard) index done (e ∷ es) = elim (keep (is_ready index done) (values (e ∷ es))) [
  | [] ↦ none
  | t ∷ ts ↦
      push_layer (t ∷ ts)
        (layers guard index (done ++ ids (t ∷ ts)) (pop_keys (ids (t ∷ ts)) (e ∷ es)))
]

-- `_topological_layers`
pub topological_layers : List SubTask → List (List SubTask)
topological_layers ts = elim (layers (length ts + 1) (by_id ts) [] (by_id ts)) [
  | none ↦ ts ∷ []
  | some ls ↦ ls
]

-- `text.split("\n\n")`
pub paragraphs_from : Text → Text → List Text
paragraphs_from cur [] = cur ∷ []
paragraphs_from cur (x ∷ []) = (cur ++ x ∷ []) ∷ []
paragraphs_from cur (x ∷ y ∷ s) =
    let after = cur ∷ paragraphs_from [] s in
    let on = paragraphs_from (cur ++ x ∷ []) (y ∷ s) in if x == 10 && y == 10 then after else on

pub paragraphs : Text → List Text
paragraphs s = paragraphs_from [] s

abbrev pub is_empty : Text → Bool
is_empty [] = true
is_empty (_ ∷ _) = false

-- What a paragraph is added to.
pub joined : Text → Text → Text
joined [] p = p
joined (c ∷ cs) p = (c ∷ cs) ++ (10 ∷ 10 ∷ p)

-- The loop of `_split_into_chunks`, with `cur`.
pub chunks_from : ℕ → Text → List Text → List Text
chunks_from max_chars cur [] = if is_empty (strip cur) then [] else strip cur ∷ []
chunks_from max_chars cur (p ∷ ps) =
    let fits = chunks_from max_chars (joined cur p) ps in
    let fresh = chunks_from max_chars p ps in
    if ltb max_chars (length cur + length p + 2)
    then (if is_empty cur then fresh else strip cur ∷ fresh)
    else fits

-- `_split_into_chunks`
pub split_into_chunks : Text → ℕ → List Text
split_into_chunks text max_chars =
    if leb (length text) max_chars then text ∷ [] else chunks_from max_chars [] (paragraphs text)

-- `tier_pyramid[i % len(tier_pyramid)]`, or the error of an empty one, then the override of heavy chunks
abbrev pub nth : ℕ → List String → Option String
nth n [] = none
nth zero (x ∷ xs) = some x
nth (suc n) (x ∷ xs) = nth n xs

pub tier_of : List String → ℕ → Text → Option String
tier_of pyramid i chunk =
    if ltb 4000 (length chunk) && not (is_in pyramid "tier4")
    then (if length pyramid == 0 then none else some "tier3")
    else (if length pyramid == 0 then none else nth (i % length pyramid) pyramid)

-- The subtasks of `_chunk_decompose`, `sub_id i` being `f"sub-{i}"`; `none` is the error of an empty
-- pyramid.
pub number_chunks : (ℕ → String) → List String → ℕ → List Text → Option (List SubTask)
number_chunks sub_id pyramid i [] = some []
number_chunks sub_id pyramid i (c ∷ cs) = elim (tier_of pyramid i c) [
  | none ↦ none
  | some tier ↦ elim (number_chunks sub_id pyramid (i + 1) cs) [
    | none ↦ none
    | some ts ↦
        some (record { id = sub_id i; prompt = c; target_tier = tier; depends_on = [] } ∷ ts)
  ]
]

-- `_chunk_decompose`
pub chunk_decompose : (ℕ → String) → List String → ℕ → Text → Option (List SubTask)
chunk_decompose sub_id pyramid max_chars text = elim (split_into_chunks text max_chars) [
  | [] ↦ number_chunks sub_id pyramid 0 (text ∷ [])
  | c ∷ cs ↦ number_chunks sub_id pyramid 0 (c ∷ cs)
]

-- The ids that `_llm_plan_subtasks` gives to the subtasks of a plan, `suffixed s i` being `f"{s}-{i}"`.
pub plan_ids : (String → ℕ → String) → ℕ → List String → List String → List String
plan_ids suffixed i valid [] = []
plan_ids suffixed i valid (s ∷ ss) =
    let id = (if is_in valid s then suffixed s i else s) in
    id ∷ plan_ids suffixed (i + 1) (id ∷ valid) ss
