-- ===== src/Firewall/Rules.antt =====
-- The rules that `load_from_config` and `load_from_db` leave.
use mathlib.Core.List.{append-nil}
use ctrl_gateway.Prelude.{
  ◌≡◌, refl, ap, ◌∙◌, String, Bool, true, false, not, ◌||◌, Option, none, some, List, [], ◌∷◌, ◌++◌,
  arith, eq_iff, any, keep, All, All-append, Bool-cases, inl, inr, if◌then◌else◌,
}
use ctrl_gateway.Prelude.Text.{Text, text_eq_iff}
use ctrl_gateway.Firewall.{
  Action, allow, Rule, Enforcer, AllowlistConfig, AllowlistRow, has_key, block_unless,
  validate_pattern, add_rule, add_pattern, add_patterns, add_overrides, load_from_config,
  rules_of_rows, load_from_db,
}

-- No two rules have one key, and every pattern came through validation.
abbrev IsDistinct : List Rule → Type 0
IsDistinct [] = Unit
IsDistinct (r ∷ rules) = (any (has_key r.tenant_id r.pattern) rules ≡ false) × IsDistinct rules

abbrev pub IsNormalized : Rule → Type 0
IsNormalized r = (raw : Text) × (validate_pattern raw ≡ some r.pattern)

abbrev pub IsClean : List Rule → Type 0
IsClean rules = IsDistinct rules × All IsNormalized rules

has_key_comm : (r s : Rule) → has_key r.tenant_id r.pattern s ≡ has_key s.tenant_id s.pattern r
has_key_comm r s = ground (
  arith,
  eq_iff s.tenant_id r.tenant_id,
  eq_iff r.tenant_id s.tenant_id,
  text_eq_iff s.pattern r.pattern,
  text_eq_iff r.pattern s.pattern,
)

any-snoc {ℓ} :
    {A : Type ℓ} (p : A → Bool) (xs : List A) (x : A) → any p (xs ++ x ∷ []) ≡ (any p xs || p x)
any-snoc p [] x = ground arith
any-snoc p (y ∷ xs) x = ground (arith, any-snoc p xs x)

IsDistinct-snoc :
    (rules : List Rule) (r : Rule)
    → any (has_key r.tenant_id r.pattern) rules ≡ false
    → IsDistinct rules
    → IsDistinct (rules ++ r ∷ [])
IsDistinct-snoc [] r new d = (refl, tt)
IsDistinct-snoc (s ∷ rules) r new d =
    (rw (any-snoc, d.0, has_key_comm) (ground arith), IsDistinct-snoc rules r (ground arith) d.1)

add_rule-IsClean :
    (tenant : String) (a : Action) (raw : Text) (o : Option Text) (rules : List Rule)
    → validate_pattern raw ≡ o
    → IsClean rules
    → IsClean (add_rule tenant a o rules)
unfolding add_rule
add_rule-IsClean tenant a raw none rules v c = c
add_rule-IsClean tenant a raw (some p) rules v c =
    elim (Bool-cases (any (has_key tenant p) rules)) [
      | inl seen ↦ rw seen c
      | inr new ↦ rw new (
        IsDistinct-snoc rules (record { pattern = p; action = a; tenant_id = tenant }) new c.0,
        All-append IsNormalized rules _ c.1 ((raw, v), tt),
      )
    ]

add_pattern-IsClean :
    (tenant : String) (a : Action) (p : Text) (rules : List Rule)
    → IsClean rules
    → IsClean (add_pattern tenant a p rules)
unfolding add_pattern
add_pattern-IsClean tenant a p rules c =
    add_rule-IsClean tenant a p (validate_pattern p) rules refl c

add_patterns-IsClean :
    (tenant : String) (a : Action) (ps : List Text) (rules : List Rule)
    → IsClean rules
    → IsClean (add_patterns tenant a ps rules)
unfolding add_patterns
add_patterns-IsClean tenant a [] rules c = c
add_patterns-IsClean tenant a (p ∷ ps) rules c =
    add_patterns-IsClean tenant a ps (add_pattern tenant a p rules)
      (add_pattern-IsClean tenant a p rules c)

add_overrides-IsClean :
    (os : List (String × Option Action × List Text)) (rules : List Rule)
    → IsClean rules
    → IsClean (add_overrides os rules)
unfolding add_overrides
add_overrides-IsClean [] rules c = c
add_overrides-IsClean ((tenant, a, ps) ∷ os) rules c =
    add_overrides-IsClean os _ (add_patterns-IsClean tenant (block_unless a) ps rules c)

-- Whatever the config holds, after loading it no two rules have the same tenant and pattern, and
-- every pattern is one that validation returned.
pub load_from_config-IsClean :
    (config : AllowlistConfig) (e : Enforcer) → IsClean (load_from_config config e).rules
unfolding load_from_config
load_from_config-IsClean config e =
    add_overrides-IsClean config.tenant_overrides _
      (add_patterns-IsClean "*" allow config.global_patterns [] (tt, tt))

keep-append {ℓ} :
    {A : Type ℓ} (p : A → Bool) (xs ys : List A) → keep p (xs ++ ys) ≡ keep p xs ++ keep p ys
keep-append p [] ys = refl
keep-append p (x ∷ xs) ys = ground (arith, keep-append p xs ys)

same_key :
    (tenant : String) (pattern : Text) (r : Rule) (rules : List Rule)
    → has_key tenant pattern r ≡ true
    → any (has_key r.tenant_id r.pattern) rules ≡ any (has_key tenant pattern) rules
same_key tenant pattern r rules h =
    let t : r.tenant_id ≡ tenant = ground (arith, eq_iff r.tenant_id tenant) in
    let p : r.pattern ≡ pattern = ground (arith, text_eq_iff r.pattern pattern) in rw (t, p)

shadow :
    (tenant : String) (pattern : Text) (new old : List Rule)
    → keep (has_key tenant pattern) (keep (λ r. not (any (has_key r.tenant_id r.pattern) new)) old)
      ≡ (if any (has_key tenant pattern) new then [] else keep (has_key tenant pattern) old)
shadow tenant pattern new [] = ground arith
shadow tenant pattern new (r ∷ old) =
    ground (arith, shadow tenant pattern new old, same_key tenant pattern r new)

keep_none {ℓ} : {A : Type ℓ} (p : A → Bool) (xs : List A) → any p xs ≡ false → keep p xs ≡ []
keep_none p [] h = refl
keep_none p (x ∷ xs) h = ground (arith, keep_none p xs)

-- After loading the database's rows, the rules of a tenant for a pattern are those of the rows if
-- they have any, and else the ones that were there before, from wherever they came.
pub db_shadows :
    (rows : List AllowlistRow) (e : Enforcer) (tenant : String) (pattern : Text)
    → keep (has_key tenant pattern) (load_from_db rows e).rules ≡ (
        if any (has_key tenant pattern) (rules_of_rows rows)
        then keep (has_key tenant pattern) (rules_of_rows rows)
        else keep (has_key tenant pattern) e.rules)
unfolding load_from_db
db_shadows rows e tenant pattern =
    let new = rules_of_rows rows in
    let p = has_key tenant pattern in
    keep-append p (keep (λ r. not (any (has_key r.tenant_id r.pattern) new)) e.rules) new
    ∙ ap (λ l. l ++ keep p new) (shadow tenant pattern new e.rules)
    ∙ rest (any p new) refl
  where
    rest :
        (b : Bool)
        → any (has_key tenant pattern) (rules_of_rows rows) ≡ b
        → (if b then [] else keep (has_key tenant pattern) e.rules)
            ++ keep (has_key tenant pattern) (rules_of_rows rows)
          ≡ (if b
              then keep (has_key tenant pattern) (rules_of_rows rows)
              else keep (has_key tenant pattern) e.rules)
    rest true h = refl
    rest false h = rw (keep_none (has_key tenant pattern) (rules_of_rows rows) h) (append-nil _)
