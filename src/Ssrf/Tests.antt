-- ===== src/Ssrf/Tests.antt =====
-- A small world of names and addresses, and the theorems in it.
use ctrl_gateway.Prelude.{
  ◌≡◌, refl, Bool, true, false, not, Option, none, some, List, [], ◌∷◌, all, All, Some, here, there,
  if◌then◌else◌,
}
use ctrl_gateway.Prelude.Text.{Text, codes, text_eq, lower}
use ctrl_gateway.Ssrf.{
  Address, v4, v6, SsrfConfig, ParsedUrl, Lookup, found, reason_of, is_blocked_ip, first_blocked,
  check_addresses, check_host, check_parsed, validate_url, safe_entries, resolve,
  on_request_redirect, blocked_address, link_local, private_network, host_blocked,
}
use ctrl_gateway.Ssrf.Addresses.{
  passes, permits_text, entries, is_permitted_url, passes-validate_url,
}
use ctrl_gateway.Ssrf.Requests.{Hop, follow, request, IsReached, IsClient, request-permits}
use ctrl_gateway.Ssrf.Metadata.{is_link_local_text, request_elsewhere}

program : Unit {0}
unfolding text_eq lower reason_of is_blocked_ip first_blocked check_addresses check_host
    check_parsed validate_url safe_entries resolve on_request_redirect follow request
program = tt

abbrev metadata : Text
metadata = codes "169.254.169.254"

abbrev internal : Text
internal = codes "10.0.0.7"

abbrev ip_address : Text → Option Address
ip_address a =
    if text_eq a metadata
    then some (v4 0xA9FEA9FE)
    else if text_eq a internal
    then some (v4 0x0A000007)
    else if text_eq a (codes "::1")
    then some (v6 1)
    else none

abbrev is_private : Address → Bool
is_private (v4 n) = true
is_private (v6 n) = true

-- A URL is its host here.
abbrev urlparse : Text → Option ParsedUrl
urlparse url = some (record { scheme = codes "https"; hostname = some url })

abbrev policy : SsrfConfig
policy = record { allow_localhost = true; allow_private = true; allow_link_local = false }

abbrev strict : SsrfConfig
strict = record { allow_localhost = false; allow_private = false; allow_link_local = false }

abbrev lookup : Text → List Text
lookup host = internal ∷ []

abbrev rebound : Text → Lookup
rebound host = found (metadata ∷ internal ∷ [])

metadata_blocked :
    validate_url ip_address is_private urlparse lookup metadata policy none none
    ≡ some (blocked_address link_local)
unfolding program
metadata_blocked = refl

internal_blocked :
    validate_url ip_address is_private urlparse lookup (codes "hook") strict none none
    ≡ some (blocked_address private_network)
unfolding program
internal_blocked = refl

listed_blocked :
    validate_url ip_address is_private urlparse lookup
      (codes "Hook")
      policy
      none
      (some (codes "HOOK" ∷ []))
    ≡ some host_blocked
unfolding program
listed_blocked = refl

abbrev connect : (Text → Lookup) → Text → List Text
connect resolver url = elim (ip_address url) [ none ↦ entries (resolver url) | some ip ↦ url ∷ [] ]

each :
    (ips : List Text) (P : Text → Type 0) → ((a : Text) → Some (λ x. x ≡ a) ips → P a) → All P ips
each [] P h = tt
each (a ∷ ips) P h = (h a (here refl), each ips P (λ b s. h b (there s)))

connect-IsClient : IsClient ip_address is_private urlparse (λ base l. l) connect
connect-IsClient resolver url = by_address (ip_address url)
  where
    by_address :
        (o : Option Address)
        → All
            (λ a. IsReached o resolver url a)
            (elim o [ none ↦ entries (resolver url) | some ip ↦ url ∷ [] ])
    by_address none =
        each (entries (resolver url)) (λ a. Some (λ x. x ≡ a) (entries (resolver url))) (λ a s. s)
    by_address (some ip) = (refl, tt)

abbrev hops : List Hop
hops =
    record { location = codes "next"; at_check = lookup; at_connect = rebound }
    ∷ record { location = metadata; at_check = lookup; at_connect = rebound }
    ∷ []

-- The rebound name is cut at the resolver, and the redirect to the address at the redirect.
reached :
    request ip_address is_private urlparse
      (λ base l. l)
      connect
      policy
      lookup
      rebound
      (codes "hook")
      hops
    ≡ internal ∷ internal ∷ []
unfolding program
reached = refl

passes-validate_url_example :
    passes (validate_url ip_address is_private urlparse lookup (codes "hook") policy none none)
    ≡ is_permitted_url ip_address is_private
        (urlparse (codes "hook"))
        lookup
        (codes "hook")
        policy
        none
        none
passes-validate_url_example =
    passes-validate_url ip_address is_private urlparse lookup (codes "hook") policy none none

request-permits_example :
    all (permits_text ip_address is_private policy) (
      request ip_address is_private urlparse
        (λ base l. l)
        connect
        policy
        lookup
        rebound
        (codes "hook")
        hops)
    ≡ true
request-permits_example =
    request-permits ip_address is_private urlparse (λ base l. l) connect policy lookup rebound
      (codes "hook") hops connect-IsClient

request_elsewhere_example :
    all
      (λ a. not (is_link_local_text ip_address a))
      (request ip_address is_private urlparse
        (λ base l. l)
        connect
        policy
        lookup
        rebound
        (codes "hook")
        hops)
    ≡ true
request_elsewhere_example =
    request_elsewhere ip_address is_private urlparse (λ base l. l) connect policy lookup rebound
      (codes "hook") hops refl connect-IsClient
