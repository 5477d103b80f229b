-- ===== src/Firewall.antt =====
-- The in-process domain firewall: domain patterns and `DomainAllowlistEnforcer` of
-- gateway/firewall.py. `extract_domain` calls `urlparse` and is a parameter, the host that a URL
-- names (empty if none). The index `_by_pattern`, which is written and never read, is left out.
mod Patterns
mod Rules
pub mod Checks
mod Tests
use ctrl_gateway.Prelude.{
  ℕ, ◌+◌, ◌≡◌, String, Bool, true, false, not, ◌&&◌, ◌||◌, Option, none, some, List, [], ◌∷◌, ◌++◌,
  leb, ltb, ◌==◌, str_eq, any, all, keep, length, drop, if◌then◌else◌,
}
use ctrl_gateway.Prelude.Text.{
  Text, codes, text_eq, starts_with, ends_with, contains, lower, strip, split,
}

-- A character of a label of a domain pattern: `[a-z0-9-]`, or `*`, which stands for a letter.
abbrev is_label_code : ℕ → Bool
is_label_code c =
    (leb b'a' c && leb c b'z') || ((leb b'0' c && leb c b'9') || ((c == b'-') || (c == b'*')))

-- `re.fullmatch(r"[a-z0-9-]{1,63}", label.replace("*", "a"))`
abbrev is_label : Text → Bool
is_label label = (ltb 0 (length label) && leb (length label) 63) && all is_label_code label

-- `_validate_pattern`; `none` is `DomainPatternError`.
pub validate_pattern : Text → Option Text
validate_pattern pattern =
    let p = lower (strip pattern) in
    let labels = split b'.' p in
    if text_eq p []
    then none
    else if contains p (codes "/") || (contains p (codes ":") || contains p (codes "@"))
    then none
    else if any (λ label. text_eq label []) labels
    then none
    else if not (all is_label labels)
    then none
    else some p

-- The two cases of `domain_matches`, at a pattern and a host that are trimmed and not empty.
pub wildcard_or_exact : Text → Text → Bool
wildcard_or_exact pat h =
    let suffix = drop 2 pat in
    let dotted = codes "." ++ suffix in
    if starts_with pat (codes "*.")
    then (if text_eq suffix [] then false else ends_with h dotted && not (text_eq h dotted))
    else text_eq pat h

-- `domain_matches`
pub domain_matches : Text → Text → Bool
unfolding wildcard_or_exact
domain_matches pattern host =
    let pat = lower (strip pattern) in
    let h = lower (strip host) in
    if text_eq pat [] || text_eq h [] then false else wildcard_or_exact pat h

pub data Action : Type 0 where
  allow block : Action

-- `AllowlistRule`, less its notes
pub record Rule : Type 0 where
  pub pattern : Text
  pub action : Action
  pub tenant_id : String

pub data Reason : Type 0 where
  enforcer_disabled unparseable_hostname unparseable_hostname_default_allow : Reason
  by_rule : Text → Reason
  not_in_allowlist default_allow : Reason

-- `BlockResult`; the matched pattern is that of the reason `by_rule`.
pub record BlockResult : Type 0 where
  pub allowed : Bool
  pub action : Action
  pub reason : Reason

pub record Enforcer : Type 0 where
  pub enabled : Bool
  pub default_action : Action
  pub rules : List Rule
  pub checks_total : ℕ
  pub blocks_total : ℕ

abbrev pub has_key : String → Text → Rule → Bool
has_key tenant pattern r = str_eq r.tenant_id tenant && text_eq r.pattern pattern

-- The section `security.provider_allowlist`. `none` for an action is any text but the two.
pub record AllowlistConfig : Type 0 where
  pub enabled : Bool
  pub default_action : Option Action
  pub global_patterns : List Text
  pub tenant_overrides : List (String × Option Action × List Text)

abbrev pub block_unless : Option Action → Action
block_unless (some a) = a
block_unless none = block

-- One round of the loops of `load_from_config`, at what validation returned: an invalid pattern
-- and one that was seen are skipped. The keys seen are those of the rules so far.
pub add_rule : String → Action → Option Text → List Rule → List Rule
add_rule tenant action none rules = rules
add_rule tenant action (some p) rules =
    if any (has_key tenant p) rules
    then rules
    else rules ++ record { pattern = p; action = action; tenant_id = tenant } ∷ []

pub add_pattern : String → Action → Text → List Rule → List Rule
unfolding add_rule
add_pattern tenant action pattern rules = add_rule tenant action (validate_pattern pattern) rules

pub add_patterns : String → Action → List Text → List Rule → List Rule
unfolding add_pattern
add_patterns tenant action [] rules = rules
add_patterns tenant action (p ∷ ps) rules =
    add_patterns tenant action ps (add_pattern tenant action p rules)

pub add_overrides : List (String × Option Action × List Text) → List Rule → List Rule
unfolding add_patterns
add_overrides [] rules = rules
add_overrides ((tenant, action, patterns) ∷ os) rules =
    add_overrides os (add_patterns tenant (block_unless action) patterns rules)

-- `load_from_config`
pub load_from_config : AllowlistConfig → Enforcer → Enforcer
unfolding add_overrides
load_from_config config e = record e {
  enabled = config.enabled;
  default_action = block_unless config.default_action;
  rules = add_overrides config.tenant_overrides (add_patterns "*" allow config.global_patterns []);
}

-- The action of a row of the database: absent, one of the two, or another text.
pub data GivenAction : Type 0 where
  absent other : GivenAction
  given : Action → GivenAction

pub record AllowlistRow : Type 0 where
  pub domain_pattern : Text
  pub tenant_id : String
  pub action : GivenAction

abbrev pub rule_action : GivenAction → Option Action
rule_action absent = some allow
rule_action other = none
rule_action (given a) = some a

-- The rule of a row, if the row is not skipped.
pub rule_of_row : AllowlistRow → Option Rule
unfolding validate_pattern
rule_of_row row =
    if text_eq row.domain_pattern [] || str_eq row.tenant_id ""
    then none
    else elim (rule_action row.action) [
      | none ↦ none
      | some a ↦ elim (validate_pattern row.domain_pattern) [
        | none ↦ none
        | some p ↦ some (record { pattern = p; action = a; tenant_id = row.tenant_id })
      ]
    ]

pub rules_of_rows : List AllowlistRow → List Rule
unfolding rule_of_row
rules_of_rows [] = []
rules_of_rows (row ∷ rows) = elim (rule_of_row row) [
  | none ↦ rules_of_rows rows
  | some r ↦ r ∷ rules_of_rows rows
]

-- `load_from_db`: the keys of the database are those of its rules.
pub load_from_db : List AllowlistRow → Enforcer → Enforcer
load_from_db rows e =
    let new = rules_of_rows rows in
    record e { rules = keep (λ r. not (any (has_key r.tenant_id r.pattern) new)) e.rules ++ new }

-- One loop of `_match_for`
pub first_match : Text → String → List Rule → Option Rule
unfolding domain_matches
first_match host tenant [] = none
first_match host tenant (r ∷ rules) =
    if str_eq r.tenant_id tenant && domain_matches r.pattern host
    then some r
    else first_match host tenant rules

-- `_match_for`
pub match_for : Text → String → List Rule → Option Rule
unfolding first_match
match_for host tenant rules = elim (first_match host tenant rules) [
  | some r ↦ some r
  | none ↦ first_match host "*" rules
]

abbrev pub blocked : Enforcer → Reason → BlockResult × Enforcer
blocked e reason = (
  record { allowed = false; action = block; reason = reason },
  record e { blocks_total = e.blocks_total + 1 },
)

abbrev pub permitted : Enforcer → Reason → BlockResult × Enforcer
permitted e reason = (record { allowed = true; action = allow; reason = reason }, e)

-- `_to_result`
pub to_result : Rule → Enforcer → BlockResult × Enforcer
to_result r e = elim r.action [
  | block ↦ blocked e (by_rule r.pattern)
  | allow ↦ permitted e (by_rule r.pattern)
]

-- `if self.default_action == "block"`, twice
pub by_default : Reason → Reason → Enforcer → BlockResult × Enforcer
by_default on_block on_allow e = elim e.default_action [
  | block ↦ blocked e on_block
  | allow ↦ permitted e on_allow
]

-- `check_outbound`, at the host that `extract_domain` finds in the URL
unfoldable pub check_outbound : Text → String → Enforcer → BlockResult × Enforcer
unfolding match_for to_result by_default
check_outbound host tenant e =
    let e' : Enforcer = record e { checks_total = e.checks_total + 1 } in
    if not e.enabled
    then permitted e' enforcer_disabled
    else if text_eq host []
    then by_default unparseable_hostname unparseable_hostname_default_allow e'
    else elim (match_for host tenant e.rules) [
      | some r ↦ to_result r e'
      | none ↦ elim (match_for host "*" e.rules) [
        | some r ↦ to_result r e'
        | none ↦ by_default not_in_allowlist default_allow e'
      ]
    ]
