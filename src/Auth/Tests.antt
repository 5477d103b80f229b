-- ===== src/Auth/Tests.antt =====
-- A manager with two keys, and the theorem at an input where its hypotheses hold.
use ctrl_gateway.Prelude.{◌≡◌, refl, true, false, none, some, [], ◌∷◌}
use ctrl_gateway.Prelude.Text.{
  Text, codes, text_eq, starts_with, lower, strip_left, strip_right, strip,
}
use ctrl_gateway.Auth.{
  KeyMeta, AuthManager, AuthConfig, update, Request, handled, admin_scope_required,
  valid_key_required, raised, identity_of, compare_digest, resolve_among, resolve, is_admin_path,
  is_public_path, token_of, on_public, on_admin, on_user, auth_middleware,
}
use ctrl_gateway.Auth.Access.{IsAdmitted, handled-IsAdmitted}

program : Unit {0}
unfolding text_eq starts_with lower strip_left strip_right strip update identity_of compare_digest
    resolve_among resolve is_admin_path is_public_path token_of on_public on_admin on_user
    auth_middleware
program = tt

-- A digest for the tests.
abbrev digest : Text → Text
digest s = s

abbrev root : KeyMeta
root = record { tenant_id = some "root"; scope = some ("admin" ∷ "user" ∷ []) }

abbrev alice : KeyMeta
alice = record { tenant_id = some "alice"; scope = none }

abbrev config : AuthConfig
config = record {
  enabled = true;
  keys = (codes "k1", root) ∷ (codes "sha256:k2", alice) ∷ [];
  admin_paths = none;
  public_paths = none;
  allow_unauthenticated_user = false;
}

abbrev manager : AuthManager
manager = update config

abbrev request : Text → Text → Request
request path token = record { path = path; authorization = some token; user_id = some "mallory" }

admin_passes :
    auth_middleware digest (some manager) (request (codes "/reload") (codes "Bearer k1"))
    ≡ handled (some (record { tenant_id = "root"; scope = "admin" ∷ "user" ∷ [] }))
unfolding program
admin_passes = refl

user_refused :
    auth_middleware digest (some manager) (request (codes "/reload") (codes "bearer k2 "))
    ≡ admin_scope_required
unfolding program
user_refused = refl

header_ignored :
    auth_middleware digest (some manager) (request (codes "/v1/chat") (codes "Basic k1"))
    ≡ valid_key_required
unfolding program
header_ignored = refl

-- A token with a letter that is not ASCII ends in an exception, not in 401.
accent_raises :
    auth_middleware digest (some manager) (request (codes "/v1/chat") (codes "Bearer é")) ≡ raised
unfolding program
accent_raises = refl

-- An admin path below a public one is open without a key.
public_first :
    auth_middleware digest
      (some (update (record config { admin_paths = some (codes "/dashboard/admin" ∷ []) })))
      (request (codes "/dashboard/admin") [])
    ≡ handled none
unfolding program
public_first = refl

is_enabled : manager.enabled ≡ true
unfolding program
is_enabled = refl

handled-IsAdmitted_example :
    IsAdmitted digest manager
      (request (codes "/reload") (codes "Bearer k1"))
      (some (record { tenant_id = "root"; scope = "admin" ∷ "user" ∷ [] }))
handled-IsAdmitted_example =
    handled-IsAdmitted digest manager (request (codes "/reload") (codes "Bearer k1"))
      (some (record { tenant_id = "root"; scope = "admin" ∷ "user" ∷ [] })) is_enabled admin_passes
