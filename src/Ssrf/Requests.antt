-- ===== src/Ssrf/Requests.antt =====
-- Requests of a session that gateway/ssrf.py's `ssrf_client_kwargs` guards: the test of the URL before
-- the request, the resolver at every connection, and the test of every redirect. A lookup of a name
-- may answer anything at any time.
use ctrl_gateway.Prelude.{
  ◌≡◌, refl, sym, ◌∙◌, subst, inl, inr, Bool, true, false, Option, none, some, List, [], ◌∷◌, ◌++◌,
  arith, all, All, Some, here, there, if◌then◌else◌, Bool-cases, Option-cases, OnSome, all-head,
  all-tail,
}
use ctrl_gateway.Prelude.Text.{Text}
use ctrl_gateway.Ssrf.{
  Address, SsrfConfig, ParsedUrl, Lookup, resolve, is_empty, validate_url, on_request_redirect,
  addresses_of,
}
use ctrl_gateway.Ssrf.Addresses.{
  passes, permits_text, entries, resolve-permits, passes-validate_url, is_permitted_host,
  is_permitted_url,
}

-- A response: the header that redirects, empty when there is none, and what the lookups say when the
-- target is tested and when the client connects to it.
pub record Hop : Type 0 where
  pub location : Text
  pub at_check : Text → List Text
  pub at_connect : Text → Lookup

-- The client connects to a host that is an address; for another, to what the resolver finds.
abbrev pub IsReached : Option Address → (Text → Lookup) → Text → Text → Type 0
IsReached none resolver host a = Some (λ x. x ≡ a) (entries (resolver host))
IsReached (some ip) resolver host a = host ≡ a

module _ (ip_address : Text → Option Address) (is_private : Address → Bool)
    (urlparse : Text → Option ParsedUrl) (join : Text → Text → Text)
    (connect : (Text → Lookup) → Text → List Text) where
  -- The addresses that the client connects to on redirects from a URL.
  unfoldable pub follow : SsrfConfig → Text → List Hop → List Text
  follow cfg url [] = []
  follow cfg url (h ∷ hops) =
      if is_empty h.location
      then []
      else elim (on_request_redirect ip_address is_private urlparse h.at_check join url h.location
          cfg) [
            | none ↦
                connect (resolve ip_address is_private cfg h.at_connect) (join url h.location)
                ++ follow cfg (join url h.location) hops
            | some r ↦ []
          ]

  -- The addresses that the client connects to for a URL.
  unfoldable pub request :
      SsrfConfig → (Text → List Text) → (Text → Lookup) → Text → List Hop → List Text
  request cfg at_check at_connect url hops =
      elim (validate_url ip_address is_private urlparse at_check url cfg none none) [
        | none ↦ connect (resolve ip_address is_private cfg at_connect) url ++ follow cfg url hops
        | some r ↦ []
      ]

  -- What the client does with a resolver: for a host that is an address it connects to that address
  -- and does not ask; otherwise it connects to what the resolver finds.
  abbrev pub IsTarget : (Text → Lookup) → Text → Text → Type 0
  IsTarget resolver url a =
      OnSome
        (λ parsed. OnSome (λ host. IsReached (ip_address host) resolver host a) parsed.hostname)
        (urlparse url)

  abbrev pub IsClient : Type 0
  IsClient =
      (resolver : Text → Lookup) (url : Text) → All (IsTarget resolver url) (connect resolver url)

  all-Some :
      (p : Text → Bool) (a : Text) (ips : List Text)
      → all p ips ≡ true
      → Some (λ x. x ≡ a) ips
      → p a ≡ true
  all-Some p a [] h s = elim s [ ]
  all-Some p a (x ∷ ips) h (here e) = subst (λ y. p y ≡ true) e (all-head p x ips h)
  all-Some p a (x ∷ ips) h (there s) = all-Some p a ips (all-tail p x ips h) s

  host-permits :
      (cfg : SsrfConfig) (at_check : Text → List Text) (at_connect : Text → Lookup) (host a : Text)
      → all
          (permits_text ip_address is_private cfg)
          (addresses_of ip_address is_private at_check host)
        ≡ true
      → IsReached (ip_address host) (resolve ip_address is_private cfg at_connect) host a
      → permits_text ip_address is_private cfg a ≡ true
  host-permits cfg at_check at_connect host a h t = elim (Option-cases (ip_address host)) [
    | inl e ↦
        all-Some (permits_text ip_address is_private cfg) a _
          (resolve-permits ip_address is_private cfg at_connect host)
          (subst (λ o. IsReached o (resolve ip_address is_private cfg at_connect) host a) e t)
    | inr (ip, e) ↦
        let here_permits = all-head (permits_text ip_address is_private cfg) host [] (
          subst
            (λ o.
              all (permits_text ip_address is_private cfg)
                (elim o [ none ↦ at_check host | some ip ↦ host ∷ [] ])
              ≡ true)
            e h) in
        subst (λ x. permits_text ip_address is_private cfg x ≡ true)
          (subst (λ o. IsReached o (resolve ip_address is_private cfg at_connect) host a) e t)
          here_permits
  ]

  hostname-permits :
      (cfg : SsrfConfig) (at_check : Text → List Text) (at_connect : Text → Lookup) (a : Text)
      (hostname : Option Text)
      → elim hostname [
        | none ↦ false
        | some host ↦ is_permitted_host ip_address is_private at_check host cfg none none
      ]
        ≡ true
      → OnSome
          (λ host.
            IsReached (ip_address host) (resolve ip_address is_private cfg at_connect) host a)
          hostname
      → permits_text ip_address is_private cfg a ≡ true
  hostname-permits cfg at_check at_connect a none h t = absurd (ground (arith, h))
  hostname-permits cfg at_check at_connect a (some host) h t =
      host-permits cfg at_check at_connect host a (ground (arith, h)) t

  parsed-permits :
      (cfg : SsrfConfig) (at_check : Text → List Text) (at_connect : Text → Lookup) (url a : Text)
      (parsed : Option ParsedUrl)
      → is_permitted_url ip_address is_private parsed at_check url cfg none none ≡ true
      → OnSome
          (λ p.
            OnSome
              (λ host.
                IsReached (ip_address host) (resolve ip_address is_private cfg at_connect) host a)
              p.hostname)
          parsed
      → permits_text ip_address is_private cfg a ≡ true
  parsed-permits cfg at_check at_connect url a none h t = absurd (ground (arith, h))
  parsed-permits cfg at_check at_connect url a (some p) h t =
      hostname-permits cfg at_check at_connect a p.hostname (ground (arith, h)) t

  targets-permits :
      (cfg : SsrfConfig) (at_check : Text → List Text) (at_connect : Text → Lookup) (url : Text)
      (ips : List Text)
      → passes (validate_url ip_address is_private urlparse at_check url cfg none none) ≡ true
      → All (IsTarget (resolve ip_address is_private cfg at_connect) url) ips
      → all (permits_text ip_address is_private cfg) ips ≡ true
  targets-permits cfg at_check at_connect url [] h t = refl
  targets-permits cfg at_check at_connect url (a ∷ ips) h t =
      rw
        (parsed-permits cfg at_check at_connect url a (urlparse url)
          (sym (passes-validate_url ip_address is_private urlparse at_check url cfg none none) ∙ h)
          t.0)
        (targets-permits cfg at_check at_connect url ips h t.1)

  all-append :
      (p : Text → Bool) (xs ys : List Text)
      → all p xs ≡ true
      → all p ys ≡ true
      → all p (xs ++ ys) ≡ true
  all-append p [] ys h k = k
  all-append p (x ∷ xs) ys h k = ground (arith, all-append p xs ys, h, k)

  follow-permits :
      (cfg : SsrfConfig) (url : Text) (hops : List Hop)
      → IsClient
      → all (permits_text ip_address is_private cfg) (follow cfg url hops) ≡ true
  unfolding follow on_request_redirect
  follow-permits cfg url [] client = refl
  follow-permits cfg url (h ∷ hops) client = elim (Bool-cases (is_empty h.location)) [
    | inl e ↦ rw e refl
    | inr e ↦
        elim (Option-cases (
          validate_url ip_address is_private urlparse h.at_check (join url h.location) cfg none
            none)) [
              | inr (r, v) ↦ rw (e, v) refl
              | inl v ↦
                  rw (e, v)
                    (all-append (permits_text ip_address is_private cfg) _ _
                      (targets-permits cfg h.at_check h.at_connect (join url h.location) _
                        (rw v refl)
                        (client (resolve ip_address is_private cfg h.at_connect)
                          (join url h.location)))
                      (follow-permits cfg (join url h.location) hops client))
            ]
  ]

  -- Whatever the lookups answer at each time and wherever the responses redirect to, every address that
  -- a guarded session connects to is one that the settings permit, when the client asks the resolver
  -- for every host that is not an address.
  pub request-permits :
      (cfg : SsrfConfig) (at_check : Text → List Text) (at_connect : Text → Lookup) (url : Text)
      (hops : List Hop)
      → IsClient
      → all (permits_text ip_address is_private cfg) (request cfg at_check at_connect url hops)
        ≡ true
  unfolding request
  request-permits cfg at_check at_connect url hops client =
      elim (Option-cases (validate_url ip_address is_private urlparse at_check url cfg none none)) [
        | inr (r, v) ↦ rw (v, request, all) refl
        | inl v ↦
            rw (v, request, all)
              (all-append (permits_text ip_address is_private cfg) _ _
                (targets-permits cfg at_check at_connect url _ (rw v refl)
                  (client (resolve ip_address is_private cfg at_connect) url))
                (follow-permits cfg url hops client))
      ]
