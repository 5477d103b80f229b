-- ===== src/Ssrf/Addresses.antt =====
-- Which addresses and URLs the tests of gateway/ssrf.py let through.
use ctrl_gateway.Prelude.{
  ◌≡◌, refl, sym, inl, inr, Bool, true, false, not, ◌&&◌, ◌||◌, Option, none, some, List, [], ◌∷◌,
  arith, any, all, if◌then◌else◌, Bool-cases, Option-cases,
}
use ctrl_gateway.Prelude.Text.{Text, codes, text_eq, lower}
use ctrl_gateway.Ssrf.{
  Address, is_loopback, is_link_local, is_reserved, is_multicast, is_unspecified, SsrfConfig,
  blocked_address, no_hostname, ParsedUrl, looks_like_ip, is_host_blocked, is_host_left_out,
  reason_of, is_blocked_ip, first_blocked, addresses_of, check_addresses, check_host, check_parsed,
  is_empty, validate_url, safe_entries, Lookup, os_error, found, resolve,
}

abbrev pub passes {ℓ} : {A : Type ℓ} → Option A → Bool
passes none = true
passes (some a) = false

-- The policy, as the three settings are documented: loopback, link-local and private networks by their
-- own settings, and what is reserved, multicast or unspecified never, but for an allowed loopback or
-- link-local address.
abbrev pub permits : (Address → Bool) → SsrfConfig → Address → Bool
permits is_private cfg ip =
    (is_loopback ip && cfg.allow_localhost)
    || (not (is_loopback ip) && is_link_local ip && cfg.allow_link_local)
    || (not (is_loopback ip)
        && not (is_link_local ip)
        && (not (is_private ip) || cfg.allow_private)
        && not (is_reserved ip)
        && not (is_multicast ip)
        && not (is_unspecified ip))

passes-next :
    {A B : Type 0} (o : Option A) (b : Bool) (rest : Option B) (c : Bool) (f : A → B)
    → passes o ≡ b
    → passes rest ≡ c
    → passes (elim o [ none ↦ rest | some r ↦ some (f r) ]) ≡ b && c
passes-next none b rest c f h k = rw (sym h) k
passes-next (some r) b rest c f h k = rw (sym h) refl

abbrev pub entries : Lookup → List Text
entries os_error = []
entries (found ips) = ips

kept :
    (p : Text → Bool) (ips : List Text)
    → all p ips ≡ true
    → all p (entries (elim ips [ [] ↦ os_error | ip ∷ rest ↦ found (ip ∷ rest) ])) ≡ true
kept p [] h = refl
kept p (ip ∷ ips) h = h

module _ (ip_address : Text → Option Address) (is_private : Address → Bool) where
  abbrev pub permits_text : SsrfConfig → Text → Bool
  permits_text cfg a = elim (ip_address a) [ none ↦ false | some ip ↦ permits is_private cfg ip ]

  passes-reason_of :
      (cfg : SsrfConfig) (ip : Address)
      → passes (reason_of ip_address is_private ip cfg) ≡ permits is_private cfg ip
  unfolding reason_of
  passes-reason_of cfg ip = ground arith

  -- The test of an address passes exactly those that the policy permits.
  passes-is_blocked_ip :
      (cfg : SsrfConfig) (a : Text)
      → passes (is_blocked_ip ip_address is_private a cfg) ≡ permits_text cfg a
  unfolding is_blocked_ip
  passes-is_blocked_ip cfg a = elim (Option-cases (ip_address a)) [
    | inl e ↦ rw (e, passes, permits_text) refl
    | inr (ip, e) ↦ rw (e, passes, permits_text) (passes-reason_of cfg ip)
  ]

  passes-first_blocked :
      (cfg : SsrfConfig) (ips : List Text)
      → passes (first_blocked ip_address is_private ips cfg) ≡ all (permits_text cfg) ips
  unfolding first_blocked
  passes-first_blocked cfg [] = refl
  passes-first_blocked cfg (a ∷ ips) =
      passes-next (is_blocked_ip ip_address is_private a cfg) (permits_text cfg a) _ _
        blocked_address (passes-is_blocked_ip cfg a) (passes-first_blocked cfg ips)

  -- Every address that the resolver keeps is permitted.
  safe_entries-permits :
      (cfg : SsrfConfig) (ips : List Text)
      → all (permits_text cfg) (safe_entries ip_address is_private cfg ips) ≡ true
  unfolding safe_entries
  safe_entries-permits cfg [] = refl
  safe_entries-permits cfg (a ∷ ips) =
      elim (Option-cases (is_blocked_ip ip_address is_private a cfg)) [
        | inl e ↦
            rw (e, safe_entries)
              (rw (sym (passes-is_blocked_ip cfg a), e) (safe_entries-permits cfg ips))
        | inr (r, e) ↦ rw (e, safe_entries) (safe_entries-permits cfg ips)
      ]

  pub resolve-permits :
      (cfg : SsrfConfig) (inner : Text → Lookup) (host : Text)
      → all (permits_text cfg) (entries (resolve ip_address is_private cfg inner host)) ≡ true
  unfolding resolve
  resolve-permits cfg inner host = go (inner host)
    where
      go :
          (o : Lookup)
          → all (permits_text cfg) (
              entries (elim o [
                | os_error ↦ os_error
                | found hosts ↦ elim (safe_entries ip_address is_private cfg hosts) [
                  | [] ↦ os_error
                  | ip ∷ ips ↦ found (ip ∷ ips)
                ]
              ]))
            ≡ true
      go os_error = refl
      go (found hosts) =
          kept (permits_text cfg) (safe_entries ip_address is_private cfg hosts)
            (safe_entries-permits cfg hosts)

  -- What `validate_url` is to let through: a URL of a scheme for the web with a host that the lists of
  -- hosts allow, all of whose addresses are permitted; when there is none, a host that does not look
  -- like an address.
  abbrev pub is_permitted_host :
      (Text → List Text) → Text → SsrfConfig → Option (List Text) → Option (List Text) → Bool
  is_permitted_host resolve_host host cfg allowed_hosts blocked_hosts =
      not (is_empty host)
      && not (is_host_blocked (lower host) blocked_hosts)
      && not (is_host_left_out (lower host) allowed_hosts)
      && all (permits_text cfg) (addresses_of ip_address is_private resolve_host host)
      && (any (λ a. true) (addresses_of ip_address is_private resolve_host host)
          || not (looks_like_ip host))

  abbrev pub is_permitted_parsed :
      ParsedUrl → (Text → List Text) → SsrfConfig → Option (List Text) → Option (List Text) → Bool
  is_permitted_parsed parsed resolve_host cfg allowed_hosts blocked_hosts =
      (text_eq parsed.scheme (codes "http") || text_eq parsed.scheme (codes "https"))
      && elim parsed.hostname [
        | none ↦ false
        | some host ↦ is_permitted_host resolve_host host cfg allowed_hosts blocked_hosts
      ]

  abbrev pub is_permitted_url :
      Option ParsedUrl
      → (Text → List Text)
      → Text
      → SsrfConfig
      → Option (List Text)
      → Option (List Text)
      → Bool
  is_permitted_url none resolve_host url cfg allowed_hosts blocked_hosts = false
  is_permitted_url (some parsed) resolve_host url cfg allowed_hosts blocked_hosts =
      not (is_empty url) && is_permitted_parsed parsed resolve_host cfg allowed_hosts blocked_hosts

  passes-check_addresses :
      (host : Text) (ips : List Text) (cfg : SsrfConfig)
      → passes (check_addresses ip_address is_private host ips cfg)
        ≡ (all (permits_text cfg) ips && (any (λ a. true) ips || not (looks_like_ip host)))
  unfolding check_addresses
  passes-check_addresses host [] cfg = ground arith
  passes-check_addresses host (a ∷ ips) cfg = rw (passes-first_blocked cfg (a ∷ ips)) (ground arith)

  passes-check_host :
      (resolve_host : Text → List Text) (host : Text) (cfg : SsrfConfig)
      (allowed_hosts blocked_hosts : Option (List Text))
      → passes (
          if is_empty host
          then some no_hostname
          else check_host ip_address is_private resolve_host host cfg allowed_hosts blocked_hosts)
        ≡ is_permitted_host resolve_host host cfg allowed_hosts blocked_hosts
  unfolding check_host
  passes-check_host resolve_host host cfg allowed_hosts blocked_hosts = ground (
    arith,
    passes-check_addresses host (addresses_of ip_address is_private resolve_host host) cfg,
  )

  passes-check_parsed :
      (resolve_host : Text → List Text) (parsed : ParsedUrl) (cfg : SsrfConfig)
      (allowed_hosts blocked_hosts : Option (List Text))
      → passes
          (check_parsed ip_address is_private resolve_host parsed cfg allowed_hosts blocked_hosts)
        ≡ is_permitted_parsed parsed resolve_host cfg allowed_hosts blocked_hosts
  unfolding check_parsed
  passes-check_parsed resolve_host parsed cfg allowed_hosts blocked_hosts =
      elim (Option-cases parsed.hostname) [
        | inl e ↦ rw (e, is_permitted_parsed) (ground arith)
        | inr (host, e) ↦
            rw (e, is_permitted_parsed)
              (ground (arith, passes-check_host resolve_host host cfg allowed_hosts blocked_hosts))
      ]

  -- A URL passes exactly when it can be parsed and has the scheme http or https and a host that the block list and the
  -- allow list of hosts leave in, whose addresses are all permitted by the settings, or which has no
  -- address and does not look like one.
  pub passes-validate_url :
      (urlparse : Text → Option ParsedUrl) (resolve_host : Text → List Text) (url : Text)
      (cfg : SsrfConfig) (allowed_hosts blocked_hosts : Option (List Text))
      → passes (
          validate_url ip_address is_private urlparse resolve_host url cfg allowed_hosts
            blocked_hosts)
        ≡ is_permitted_url (urlparse url) resolve_host url cfg allowed_hosts blocked_hosts
  unfolding validate_url
  passes-validate_url urlparse resolve_host url cfg allowed_hosts blocked_hosts =
      elim (Bool-cases (is_empty url)) [
        | inl k ↦ elim (Option-cases (urlparse url)) [
          | inl e ↦ rw (e, k, is_permitted_url) refl
          | inr (parsed, e) ↦ rw (e, k, is_permitted_url) refl
        ]
        | inr k ↦ elim (Option-cases (urlparse url)) [
          | inl e ↦ rw (e, k, is_permitted_url) refl
          | inr (parsed, e) ↦
              rw (e, k, passes)
                (passes-check_parsed resolve_host parsed cfg allowed_hosts blocked_hosts)
        ]
      ]
