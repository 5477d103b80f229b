-- ===== src/Firewall/Tests.antt =====
-- A firewall with one provider, and the theorems at inputs where their hypotheses hold.
use ctrl_gateway.Prelude.{◌≡◌, refl, true, false, none, some, [], ◌∷◌}
use ctrl_gateway.Prelude.Text.{
  codes, text_eq, starts_with, ends_with, contains, lower, strip, split,
}
use ctrl_gateway.Firewall.{
  validate_pattern, domain_matches, allow, block, Rule, Enforcer, AllowlistConfig, AllowlistRow,
  absent, add_overrides, load_from_config, rules_of_rows, load_from_db, check_outbound,
}

program : Unit {0}
unfolding validate_pattern domain_matches add_overrides load_from_config rules_of_rows load_from_db
    check_outbound text_eq starts_with ends_with contains lower strip split
program = tt

abbrev config : AllowlistConfig
config = record {
  enabled = true;
  default_action = some block;
  global_patterns =
      codes "api.openai.com"
      ∷ codes " *.Anthropic.com"
      ∷ codes "http://x"
      ∷ codes "api.openai.com"
      ∷ [];
  tenant_overrides = ("bob", none, codes "api.openai.com" ∷ []) ∷ [];
}

abbrev off : Enforcer
off = record {
  enabled = false;
  default_action = block;
  rules = [];
  checks_total = 0;
  blocks_total = 0;
}

abbrev openai : Rule
openai = record { pattern = codes "api.openai.com"; action = allow; tenant_id = "*" }

abbrev anthropic : Rule
anthropic = record { pattern = codes "*.anthropic.com"; action = allow; tenant_id = "*" }

abbrev no_openai : Rule
no_openai = record { pattern = codes "api.openai.com"; action = block; tenant_id = "bob" }

abbrev firewall : Enforcer
firewall = record off { enabled = true; rules = openai ∷ anthropic ∷ no_openai ∷ [] }

loaded : load_from_config config off ≡ firewall
unfolding program
loaded = refl

alice_passes : (check_outbound (codes "api.openai.com") "alice" firewall).0.allowed ≡ true
unfolding program
alice_passes = refl

abbrev row : AllowlistRow
row = record { domain_pattern = codes "mistral.ai"; tenant_id = "bob"; action = absent }

-- A row that is deleted from the database still decides after the next load.
deleted_row_stays :
    (check_outbound
      (codes "mistral.ai")
      "bob"
      (load_from_db [] (load_from_db (row ∷ []) firewall))).0.allowed
    ≡ true
unfolding program
deleted_row_stays = refl
