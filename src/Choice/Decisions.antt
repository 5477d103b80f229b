-- ===== src/Choice/Decisions.antt =====
-- What the handler of chat requests in gateway/app.py decides.
use ctrl_gateway.Prelude.{String, List}

-- The parts of `decision.source`.
pub data Mark : Type 0 where
  model_direct pre_route router memory_compaction_redirect tenant_access : Mark
  wm_inherit context translation : Mark

pub record Decision : Type 0 where
  pub tier : String
  pub endpoint : String
  pub source : List Mark

pub data Refusal : Type 0 where
  model_not_found router_refused tier_not_accessible context_length_exceeded : Refusal
  invalid_routing_decision model_not_allowed : Refusal

pub data Verdict : Type 0 where
  chosen : Decision → Verdict
  refused : Refusal → Verdict
