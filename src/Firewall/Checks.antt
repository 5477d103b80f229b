-- ===== src/Firewall/Checks.antt =====
-- The decision of `check_outbound`: which rule decides, and when a request passes.
use ctrl_gateway.Prelude.{
  ◌+◌, ◌≡◌, refl, ap, ◌∙◌, ◌⊎◌, inl, inr, String, Bool, true, false, ◌&&◌, none, some, List, [],
  ◌∷◌, ◌++◌, arith, str_eq, eq_iff, All, Some, here, there, Bool-cases, Option-cases, if◌then◌else◌,
}
use ctrl_gateway.Prelude.Text.{Text, text_eq}
use ctrl_gateway.Firewall.{
  domain_matches, Action, allow, block, Rule, by_rule, Enforcer, first_match, match_for,
  check_outbound,
}

-- The rule speaks of the tenant and of the host.
abbrev pub applies : Text → String → Rule → Bool
applies host tenant r = str_eq r.tenant_id tenant && domain_matches r.pattern host

pub is_allow : Action → Bool
is_allow allow = true
is_allow block = false

first_match-append :
    (host : Text) (tenant : String) (before after : List Rule) (r : Rule)
    → All (λ s. applies host tenant s ≡ false) before
    → applies host tenant r ≡ true
    → first_match host tenant (before ++ r ∷ after) ≡ some r
unfolding first_match
first_match-append host tenant [] after r skipped hit = rw hit
first_match-append host tenant (s ∷ before) after r skipped hit =
    rw (skipped.0) (first_match-append host tenant before after r skipped.1 hit)

first_match-none :
    (host : Text) (tenant : String) (rules : List Rule)
    → All (λ s. applies host tenant s ≡ false) rules
    → first_match host tenant rules ≡ none
unfolding first_match
first_match-none host tenant [] skipped = refl
first_match-none host tenant (s ∷ rules) skipped =
    rw (skipped.0) (first_match-none host tenant rules skipped.1)

-- A rule that matched.
abbrev pub IsPermit : Text → String → Rule → Type 0
IsPermit host tenant r =
    (r.action ≡ allow)
    × ((r.tenant_id ≡ tenant) ⊎ (r.tenant_id ≡ "*"))
    × (domain_matches r.pattern host ≡ true)

found_permits :
    (host : Text) (tenant owner : String) (rules : List Rule) (r : Rule)
    → (owner ≡ tenant) ⊎ (owner ≡ "*")
    → first_match host owner rules ≡ some r
    → r.action ≡ allow
    → Some (IsPermit host tenant) rules
unfolding first_match
found_permits host tenant owner [] r whose found ok = cc
found_permits host tenant owner (s ∷ rules) r whose found ok =
    elim (Bool-cases (applies host owner s)) [
      | inl hit ↦
          let same : s ≡ r = ground arith in
          let theirs : s.tenant_id ≡ owner = ground (arith, eq_iff s.tenant_id owner) in
          let matched : domain_matches s.pattern host ≡ true = ground arith in
          here (
            cc (ap (λ (x : Rule). x.action) same),
            elim whose [ inl e ↦ inl (theirs ∙ e) | inr e ↦ inr (theirs ∙ e) ],
            matched,
          )
      | inr miss ↦ there (found_permits host tenant owner rules r whose (ground arith) ok)
    ]

module _ (host : Text) (tenant : String) (e : Enforcer) (on : e.enabled ≡ true)
    (named : text_eq host [] ≡ false) where
  -- For an enabled firewall and a URL with a host, the first rule of the tenant that matches the host
  -- decides, whatever other rules there are.
  pub tenant_rule_decides :
      (before after : List Rule) (r : Rule)
      → e.rules ≡ before ++ r ∷ after
      → All (λ s. applies host tenant s ≡ false) before
      → applies host tenant r ≡ true
      → ((check_outbound host tenant e).0.allowed ≡ is_allow r.action)
        × ((check_outbound host tenant e).0.reason ≡ by_rule r.pattern)
  unfolding check_outbound is_allow
  tenant_rule_decides before after r split skipped hit =
      let found : first_match host tenant e.rules ≡ some r =
        rw split (first_match-append host tenant before after r skipped hit) in
      ground (arith, found)

  -- If no rule of the tenant matches, the first global rule that does decides.
  pub global_rule_decides :
      (before after : List Rule) (r : Rule)
      → All (λ s. applies host tenant s ≡ false) e.rules
      → e.rules ≡ before ++ r ∷ after
      → All (λ s. applies host "*" s ≡ false) before
      → applies host "*" r ≡ true
      → ((check_outbound host tenant e).0.allowed ≡ is_allow r.action)
        × ((check_outbound host tenant e).0.reason ≡ by_rule r.pattern)
  unfolding check_outbound is_allow
  global_rule_decides before after r none_here split skipped hit =
      let found : first_match host "*" e.rules ≡ some r =
        rw split (first_match-append host "*" before after r skipped hit) in
      ground (arith, found, first_match-none host tenant e.rules none_here)

  -- If no rule of the tenant and no global rule matches, the default decides.
  pub default_decides :
      All (λ s. applies host tenant s ≡ false) e.rules
      → All (λ s. applies host "*" s ≡ false) e.rules
      → (check_outbound host tenant e).0.allowed ≡ is_allow e.default_action
  unfolding check_outbound is_allow
  default_decides none_here none_global = ground (
    arith,
    first_match-none host tenant e.rules none_here,
    first_match-none host "*" e.rules none_global,
  )

-- Under the default `block` an enabled firewall lets a request pass only if its host matches a rule,
-- of its tenant or global, that allows it.
pub closed_by_default :
    (host : Text) (tenant : String) (e : Enforcer)
    → e.enabled ≡ true
    → e.default_action ≡ block
    → (check_outbound host tenant e).0.allowed ≡ true
    → Some (IsPermit host tenant) e.rules
unfolding check_outbound match_for
closed_by_default host tenant e on default passed =
    elim (Option-cases (first_match host tenant e.rules)) [
      | inr (r, found) ↦ found_permits host tenant tenant e.rules r (inl refl) found (ground arith)
      | inl missed ↦ elim (Option-cases (first_match host "*" e.rules)) [
        | inr (r, found) ↦ found_permits host tenant "*" e.rules r (inr refl) found (ground arith)
        | inl missed' ↦ absurd (ground arith)
      ]
    ]

-- A check counts once, counts as blocked exactly if it does not allow, and changes no rule.
pub check_counts :
    (host : Text) (tenant : String) (e : Enforcer)
    → ((check_outbound host tenant e).1.checks_total ≡ e.checks_total + 1)
      × ((check_outbound host tenant e).1.blocks_total
          ≡ e.blocks_total + (if (check_outbound host tenant e).0.allowed then 0 else 1))
      × ((check_outbound host tenant e).1.rules ≡ e.rules)
unfolding check_outbound
check_counts host tenant e = ground arith
