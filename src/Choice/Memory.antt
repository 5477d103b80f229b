-- ===== src/Choice/Memory.antt =====
-- The redirect to a tier with a larger window: `compaction_required` and
-- `should_redirect_for_compaction` of gateway/memory_observational.py.
use ctrl_gateway.Prelude.{
  ℕ, ◌*◌, ◌/◌, String, Bool, not, Option, none, some, List, [], ◌∷◌, ltb, leb, ◌==◌, str_eq,
  if◌then◌else◌,
}
use ctrl_gateway.Policy.Inputs.{Tier, find_tier}

-- The estimate of the memory, with the two thresholds of the config; an absolute threshold of
-- 0 is none.
pub record MemoryContext : Type 0 where
  pub total_tokens_estimate : ℕ
  pub threshold_pct : ℕ
  pub threshold : ℕ

-- `compaction_required`
unfoldable pub compaction_required : MemoryContext → ℕ → Bool
compaction_required m tier_max_context =
    ltb (if m.threshold == 0 then tier_max_context * m.threshold_pct / 100 else m.threshold)
      m.total_tokens_estimate

-- `tier_order[current_idx + 1:]`
unfoldable pub tiers_after : String → List Tier → List Tier
tiers_after n [] = []
tiers_after n (t ∷ ts) = if str_eq t.name n then ts else tiers_after n ts

-- The loop over the higher tiers, each read by its name from all of them.
unfoldable pub first_large : List Tier → ℕ → List Tier → Option String
unfolding find_tier
first_large all needed [] = none
first_large all needed (t ∷ ts) = elim (find_tier t.name all) [
  | none ↦ first_large all needed ts
  | some found ↦ if leb needed found.max_context then some t.name else first_large all needed ts
]

-- The tier that `should_redirect_for_compaction` names.
unfoldable pub should_redirect_for_compaction : MemoryContext → List Tier → String → Option String
unfolding compaction_required tiers_after first_large find_tier
should_redirect_for_compaction m tiers current = elim (find_tier current tiers) [
  | none ↦ none
  | some t ↦
      if not (compaction_required m t.max_context)
      then none
      else elim (first_large tiers (m.total_tokens_estimate * 4 / 3) (tiers_after current tiers)) [
        | some higher ↦ some higher
        | none ↦ elim (find_tier "tier4" tiers) [ none ↦ none | some last ↦ some "tier4" ]
      ]
]
