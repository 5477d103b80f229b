-- ===== src/Auth.antt =====
-- API keys and the paths they open: gateway/auth.py. `digest` stands for the hexadecimal SHA-256 of a
-- text. Paths, keys and headers are texts without surrogates.
mod Access
mod Tests
use ctrl_gateway.Prelude.{
  ℕ, String, Bool, true, false, not, ◌&&◌, ◌||◌, Option, none, some, List, [], ◌∷◌, ◌++◌, ltb, leb,
  any, all, drop, map, str_eq, if◌then◌else◌,
}
use ctrl_gateway.Prelude.Text.{Text, codes, text_eq, starts_with, lower, strip}

-- The metadata of a key in the config.
pub record KeyMeta : Type 0 where
  pub tenant_id : Option String
  pub scope : Option (List String)

pub record AuthConfig : Type 0 where
  pub enabled : Bool
  pub keys : List (Text × KeyMeta)
  pub admin_paths : Option (List Text)
  pub public_paths : Option (List Text)
  pub allow_unauthenticated_user : Bool

pub record AuthManager : Type 0 where
  pub keys : List (Text × KeyMeta)
  pub enabled : Bool
  pub admin_paths : List Text
  pub public_paths : List Text
  pub allow_unauthenticated_user : Bool

abbrev pub default_admin_paths : List Text
default_admin_paths =
    map codes
      ("/admin" ∷ "/retrain" ∷ "/reload" ∷ "/config" ∷ "/export" ∷ "/registry" ∷ "/metrics" ∷ [])

abbrev pub default_public_paths : List Text
default_public_paths = map codes ("/" ∷ "/health" ∷ "/ready" ∷ "/dashboard" ∷ [])

-- `update`
pub update : AuthConfig → AuthManager
update c = record {
  keys = c.keys;
  enabled = c.enabled;
  admin_paths = elim c.admin_paths [ some ps ↦ ps | none ↦ default_admin_paths ];
  public_paths = elim c.public_paths [ some ps ↦ ps | none ↦ default_public_paths ];
  allow_unauthenticated_user = c.allow_unauthenticated_user;
}

-- Who a request is from: a tenant and the scopes it may use.
pub record Identity : Type 0 where
  pub tenant_id : String
  pub scope : List String

pub data Resolution : Type 0 where
  resolved : Identity → Resolution
  unknown : Resolution
  type_error : Resolution

pub identity_of : KeyMeta → Identity
identity_of meta = record {
  tenant_id = elim meta.tenant_id [ some t ↦ t | none ↦ "anonymous" ];
  scope = elim meta.scope [ some s ↦ s | none ↦ "user" ∷ [] ];
}

abbrev pub is_ascii : Text → Bool
is_ascii s = all (λ c. ltb c 128) s

-- `hmac.compare_digest`, which raises TypeError for a text with a character that is not ASCII
pub data Comparison : Type 0 where
  same : Comparison
  different : Comparison
  not_ascii : Comparison

pub compare_digest : Text → Text → Comparison
compare_digest a b =
    if is_ascii a && is_ascii b then (if text_eq a b then same else different) else not_ascii

module _ (digest : Text → Text) where
  abbrev pub candidate_for : Text → Text → Text
  candidate_for key token =
      if starts_with key (codes "sha256:") then codes "sha256:" ++ digest token else token

  -- The loop of `resolve`.
  pub resolve_among : Text → List (Text × KeyMeta) → Resolution
  resolve_among token [] = unknown
  resolve_among token (k ∷ ks) =
      let rest = resolve_among token ks in
      elim (compare_digest k.0 (candidate_for k.0 token)) [
        | same ↦ resolved (identity_of k.1)
        | different ↦ rest
        | not_ascii ↦ type_error
      ]

  -- `resolve`
  pub resolve : Text → AuthManager → Resolution
  resolve [] m = unknown
  resolve (c ∷ s) m = resolve_among (c ∷ s) m.keys

-- `is_admin_path`
pub is_admin_path : Text → AuthManager → Bool
is_admin_path path m = any (starts_with path) m.admin_paths

-- `is_public_path`
pub is_public_path : Text → AuthManager → Bool
is_public_path path m =
    if text_eq path (codes "/")
    then any (text_eq (codes "/")) m.public_paths
    else any (λ p. not (text_eq p (codes "/")) && starts_with path p) m.public_paths

-- The path of a request and the headers that are read.
pub record Request : Type 0 where
  pub path : Text
  pub authorization : Option Text
  pub user_id : Option String

-- What the middleware answers: the handler is called, with an identity if one is set, or 401, or an
-- exception is raised.
pub data Response : Type 0 where
  handled : Option Identity → Response
  admin_scope_required : Response
  valid_key_required : Response
  raised : Response

pub token_of : Request → Text
token_of r =
    let header : Text = elim r.authorization [ some h ↦ h | none ↦ [] ] in
    if starts_with (lower header) (codes "bearer ") then strip (drop 7 header) else []

abbrev pub has_admin : Identity → Bool
has_admin id = any (λ s. str_eq s "admin") id.scope

pub on_public : Resolution → Response
on_public (resolved id) = handled (some id)
on_public unknown = handled none
on_public type_error = raised

pub on_admin : Resolution → Response
on_admin (resolved id) = if has_admin id then handled (some id) else admin_scope_required
on_admin unknown = admin_scope_required
on_admin type_error = raised

pub on_user : AuthManager → Request → Resolution → Response
on_user m r (resolved id) = handled (some id)
on_user m r unknown =
    if m.allow_unauthenticated_user
    then handled (
        some (record {
          tenant_id = elim r.user_id [ some u ↦ u | none ↦ "anonymous" ];
          scope = "user" ∷ [];
        }))
    else valid_key_required
on_user m r type_error = raised

-- `auth_middleware`; the key is resolved before the path is looked at
pub auth_middleware : (Text → Text) → Option AuthManager → Request → Response
auth_middleware digest none r = handled none
auth_middleware digest (some m) r =
    let answer = resolve digest (token_of r) m in
    if not m.enabled
    then handled none
    else if is_public_path r.path m
    then on_public answer
    else if is_admin_path r.path m
    then on_admin answer
    else on_user m r answer
