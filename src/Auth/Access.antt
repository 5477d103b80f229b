-- ===== src/Auth/Access.antt =====
-- Which requests the middleware of gateway/auth.py passes on.
use ctrl_gateway.Prelude.{
  ◌≡◌, refl, ◌∙◌, subst, ◌⊎◌, inl, inr, Bool, true, false, not, ◌&&◌, Option, none, some, List, [],
  ◌∷◌, ◌++◌, arith, Some, here, there, if◌then◌else◌, Bool-cases,
}
use ctrl_gateway.Prelude.Text.{Text, codes, text_eq, text_eq_iff, starts_with}
use ctrl_gateway.Auth.{
  KeyMeta, AuthManager, Identity, Resolution, resolved, unknown, type_error, identity_of, is_ascii,
  Comparison, same, different, not_ascii, compare_digest, candidate_for, resolve_among, resolve,
  is_admin_path, is_public_path, Request, Response, handled, admin_scope_required,
  valid_key_required, raised, token_of, has_admin, on_public, on_admin, on_user, auth_middleware,
}

-- The token is this key, or hashes to it.
abbrev pub Opens : (Text → Text) → Text → Text → Type 0
Opens digest key token =
    ((starts_with key (codes "sha256:") ≡ false) × (key ≡ token))
    ⊎ ((starts_with key (codes "sha256:") ≡ true) × (key ≡ codes "sha256:" ++ digest token))

-- The identity is that of a configured key that the token opens.
abbrev pub IsKeyed : (Text → Text) → Text → List (Text × KeyMeta) → Identity → Type 0
IsKeyed digest token keys id = Some (λ k. Opens digest k.0 token × (id ≡ identity_of k.1)) keys

abbrev OnResolution : (Identity → Type 0) → Resolution → Type 0
OnResolution P (resolved id) = P id
OnResolution P unknown = Unit
OnResolution P type_error = Unit

OnResolution-map :
    (P Q : Identity → Type 0) (r : Resolution)
    → ((id : Identity) → P id → Q id)
    → OnResolution P r
    → OnResolution Q r
OnResolution-map P Q (resolved id) f h = f id h
OnResolution-map P Q unknown f h = tt
OnResolution-map P Q type_error f h = tt

abbrev OnSame : Type 0 → Comparison → Type 0
OnSame P same = P
OnSame P different = Unit
OnSame P not_ascii = Unit

compare_lem : (a b : Text) → OnSame (a ≡ b) (compare_digest a b)
unfolding compare_digest
compare_lem a b = elim (Bool-cases (is_ascii a && is_ascii b)) [
  | inl y ↦ elim (Bool-cases (text_eq a b)) [
    | inl e ↦ rw (y, e) ((text_eq_iff a b).0 e)
    | inr n ↦ rw (y, n) tt
  ]
  | inr n ↦ rw n tt
]

opens_lem :
    (digest : Text → Text) (key token : Text)
    → key ≡ candidate_for digest key token
    → Opens digest key token
opens_lem digest key token h = elim (Bool-cases (starts_with key (codes "sha256:"))) [
  | inl y ↦ inr (y, h ∙ rw y refl)
  | inr n ↦ inl (n, h ∙ rw n refl)
]

one_key :
    (digest : Text → Text) (token : Text) (k : Text × KeyMeta) (ks : List (Text × KeyMeta))
    (c : Comparison)
    → OnSame (k.0 ≡ candidate_for digest k.0 token) c
    → OnResolution (IsKeyed digest token ks) (resolve_among digest token ks)
    → OnResolution (IsKeyed digest token (k ∷ ks)) (elim c [
      | same ↦ resolved (identity_of k.1)
      | different ↦ resolve_among digest token ks
      | not_ascii ↦ type_error
    ])
one_key digest token k ks same h rest = here (opens_lem digest k.0 token h, refl)
one_key digest token k ks different h rest =
    OnResolution-map (IsKeyed digest token ks) (IsKeyed digest token (k ∷ ks)) _ (λ id x. there x)
      rest
one_key digest token k ks not_ascii h rest = tt

among_lem :
    (digest : Text → Text) (token : Text) (keys : List (Text × KeyMeta))
    → OnResolution (IsKeyed digest token keys) (resolve_among digest token keys)
unfolding resolve_among
among_lem digest token [] = tt
among_lem digest token (k ∷ ks) =
    one_key digest token k ks (compare_digest k.0 (candidate_for digest k.0 token))
      (compare_lem k.0 (candidate_for digest k.0 token)) (among_lem digest token ks)

resolve_lem :
    (digest : Text → Text) (token : Text) (m : AuthManager)
    → OnResolution (IsKeyed digest token m.keys) (resolve digest token m)
unfolding resolve
resolve_lem digest [] m = tt
resolve_lem digest (c ∷ s) m = among_lem digest (c ∷ s) m.keys

abbrev OnHandled : (Option Identity → Type 0) → Response → Type 0
OnHandled P (handled o) = P o
OnHandled P admin_scope_required = Unit
OnHandled P valid_key_required = Unit
OnHandled P raised = Unit

-- The ways to be let in: by a public path, by a key, which must have the admin scope on an admin path,
-- or, off the admin paths, by the fallback.
abbrev pub IsAdmitted : (Text → Text) → AuthManager → Request → Option Identity → Type 0
IsAdmitted digest m r o =
    (is_public_path r.path m ≡ true)
    ⊎ (((id : Identity) × (o ≡ some id)
          × IsKeyed digest (token_of r) m.keys id
          × ((is_admin_path r.path m ≡ false) ⊎ (has_admin id ≡ true)))
        ⊎ ((is_admin_path r.path m ≡ false)
            × (m.allow_unauthenticated_user ≡ true)
            × (o
                ≡ some (record {
                  tenant_id = elim r.user_id [ some u ↦ u | none ↦ "anonymous" ];
                  scope = "user" ∷ [];
                }))))

public_lem :
    (digest : Text → Text) (m : AuthManager) (r : Request) (a : Resolution)
    → is_public_path r.path m ≡ true
    → OnHandled (IsAdmitted digest m r) (on_public a)
unfolding on_public
public_lem digest m r (resolved id) p = inl p
public_lem digest m r unknown p = inl p
public_lem digest m r type_error p = tt

admin_lem :
    (digest : Text → Text) (m : AuthManager) (r : Request) (a : Resolution)
    → OnResolution (IsKeyed digest (token_of r) m.keys) a
    → OnHandled (IsAdmitted digest m r) (on_admin a)
unfolding on_admin
admin_lem digest m r (resolved id) h = elim (Bool-cases (has_admin id)) [
  | inl y ↦ rw y (inr (inl (id, refl, h, inr y)))
  | inr n ↦ rw n tt
]
admin_lem digest m r unknown h = tt
admin_lem digest m r type_error h = tt

fallback_lem :
    (digest : Text → Text) (m : AuthManager) (r : Request)
    → is_admin_path r.path m ≡ false
    → (b : Bool) → m.allow_unauthenticated_user ≡ b
    → OnHandled (IsAdmitted digest m r) (
        if b
        then handled (
            some (record {
              tenant_id = elim r.user_id [ some u ↦ u | none ↦ "anonymous" ];
              scope = "user" ∷ [];
            }))
        else valid_key_required)
fallback_lem digest m r p true e = inr (inr (p, e, refl))
fallback_lem digest m r p false e = tt

enabled_lem :
    (P : Option Identity → Type 0) (b : Bool) (x y : Response)
    → b ≡ true
    → OnHandled P y
    → OnHandled P (if not b then x else y)
enabled_lem P true x y on h = h
enabled_lem P false x y on h = ground arith

user_lem :
    (digest : Text → Text) (m : AuthManager) (r : Request) (a : Resolution)
    → is_admin_path r.path m ≡ false
    → OnResolution (IsKeyed digest (token_of r) m.keys) a
    → OnHandled (IsAdmitted digest m r) (on_user m r a)
unfolding on_user
user_lem digest m r (resolved id) p h = inr (inl (id, refl, h, inl p))
user_lem digest m r unknown p h = fallback_lem digest m r p m.allow_unauthenticated_user refl
user_lem digest m r type_error p h = tt

passed_lem :
    (digest : Text → Text) (m : AuthManager) (r : Request)
    → OnResolution (IsKeyed digest (token_of r) m.keys) (resolve digest (token_of r) m)
    → OnHandled (IsAdmitted digest m r) (
        if is_public_path r.path m
        then on_public (resolve digest (token_of r) m)
        else if is_admin_path r.path m
        then on_admin (resolve digest (token_of r) m)
        else on_user m r (resolve digest (token_of r) m))
passed_lem digest m r answer = elim (Bool-cases (is_public_path r.path m)) [
  | inl p ↦ rw p (public_lem digest m r (resolve digest (token_of r) m) p)
  | inr q ↦ elim (Bool-cases (is_admin_path r.path m)) [
    | inl a ↦ rw (q, a) (admin_lem digest m r (resolve digest (token_of r) m) answer)
    | inr u ↦ rw (q, u) (user_lem digest m r (resolve digest (token_of r) m) u answer)
  ]
]

admitted_lem :
    (digest : Text → Text) (m : AuthManager) (r : Request)
    → m.enabled ≡ true
    → OnHandled (IsAdmitted digest m r) (auth_middleware digest (some m) r)
unfolding auth_middleware
admitted_lem digest m r on =
    enabled_lem (IsAdmitted digest m r) m.enabled _ _ on
      (passed_lem digest m r (resolve_lem digest (token_of r) m))

-- With authentication enabled, a request is passed on to its handler only on a public path, or under
-- the identity of a configured key that its token opens, which on an admin path has the admin scope, or,
-- off the admin paths and where the fallback is enabled, as the user that its header names.
pub handled-IsAdmitted :
    (digest : Text → Text) (m : AuthManager) (r : Request) (o : Option Identity)
    → m.enabled ≡ true
    → auth_middleware digest (some m) r ≡ handled o
    → IsAdmitted digest m r o
handled-IsAdmitted digest m r o on h =
    subst (OnHandled (IsAdmitted digest m r)) h (admitted_lem digest m r on)
