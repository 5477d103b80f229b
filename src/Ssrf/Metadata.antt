-- ===== src/Ssrf/Metadata.antt =====
-- The link-local addresses, where clouds keep their metadata, and the requests of Ssrf/Requests.
use ctrl_gateway.Prelude.{
  ◌≡◌, refl, subst, inl, inr, Bool, true, false, not, Option, none, some, List, [], ◌∷◌, arith, all,
  Option-cases, all-head, all-tail,
}
use ctrl_gateway.Prelude.Text.{Text}
use ctrl_gateway.Ssrf.{Address, v4, v6, is_loopback, is_link_local, SsrfConfig, ParsedUrl, Lookup}
use ctrl_gateway.Ssrf.Addresses.{permits, permits_text}
use ctrl_gateway.Ssrf.Requests.{Hop, request, IsClient, request-permits}

abbrev pub is_link_local_text : (Text → Option Address) → Text → Bool
is_link_local_text ip_address a = elim (ip_address a) [ none ↦ false | some ip ↦ is_link_local ip ]

module _ (ip_address : Text → Option Address) (is_private : Address → Bool)
    (urlparse : Text → Option ParsedUrl) (join : Text → Text → Text)
    (connect : (Text → Lookup) → Text → List Text) where
  loopback_elsewhere : (ip : Address) → is_loopback ip ≡ true → is_link_local ip ≡ false
  loopback_elsewhere (v4 n) h = ground (arith, h)
  loopback_elsewhere (v6 n) h = ground (arith, h)

  permitted_elsewhere :
      (cfg : SsrfConfig) (a : Text)
      → cfg.allow_link_local ≡ false
      → permits_text ip_address is_private cfg a ≡ true
      → is_link_local_text ip_address a ≡ false
  permitted_elsewhere cfg a off h = elim (Option-cases (ip_address a)) [
    | inl e ↦ rw (e, is_link_local_text) refl
    | inr (ip, e) ↦
        rw (e, is_link_local_text)
          (let k =
              subst (λ o. elim o [ none ↦ false | some ip ↦ permits is_private cfg ip ] ≡ true) e
                h in
            ground (arith, k, off, loopback_elsewhere ip))
  ]

  all-elsewhere :
      (cfg : SsrfConfig) (ips : List Text)
      → cfg.allow_link_local ≡ false
      → all (permits_text ip_address is_private cfg) ips ≡ true
      → all (λ a. not (is_link_local_text ip_address a)) ips ≡ true
  all-elsewhere cfg [] off h = refl
  all-elsewhere cfg (a ∷ ips) off h =
      rw (permitted_elsewhere cfg a off (all-head (permits_text ip_address is_private cfg) a ips h))
        (all-elsewhere cfg ips off (all-tail (permits_text ip_address is_private cfg) a ips h))

  -- With settings that do not allow link-local addresses, a guarded session never connects to one,
  -- whatever the lookups answer and wherever the responses redirect to, when the client asks the
  -- resolver for every host that is not an address: the metadata service of a cloud is out of reach.
  pub request_elsewhere :
      (cfg : SsrfConfig) (at_check : Text → List Text) (at_connect : Text → Lookup) (url : Text)
      (hops : List Hop)
      → cfg.allow_link_local ≡ false
      → IsClient ip_address is_private urlparse join connect
      → all
          (λ a. not (is_link_local_text ip_address a))
          (request ip_address is_private urlparse join connect cfg at_check at_connect url hops)
        ≡ true
  request_elsewhere cfg at_check at_connect url hops off client =
      all-elsewhere cfg
        (request ip_address is_private urlparse join connect cfg at_check at_connect url hops) off
        (request-permits ip_address is_private urlparse join connect cfg at_check at_connect url
          hops client)
