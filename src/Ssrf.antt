-- ===== src/Ssrf.antt =====
-- The guard of outbound requests, gateway/ssrf.py. An address is the number that Python's `ipaddress`
-- makes of it, and the tests on it are those of that module. The parse of an address, the private
-- networks, which differ between versions of Python, `urlparse`, the lookups of names and the join of
-- URLs are parameters. Digits and the lower case of letters are those of ASCII, where Python's are
-- those of Unicode.
mod Addresses
mod Requests
mod Metadata
mod Tests
use ctrl_gateway.Prelude.{
  ℕ, zero, suc, ◌+◌, ◌-◌, ◌*◌, ◌/◌, ◌^◌, Bool, true, false, not, ◌&&◌, ◌||◌, Option, none, some,
  List, [], ◌∷◌, ◌++◌, map, leb, ◌==◌, any, if◌then◌else◌,
}
use ctrl_gateway.Prelude.Text.{Text, codes, text_eq, lower}

pub data Address : Type 0 where
  v4 : ℕ → Address
  v6 : ℕ → Address

-- The number is in the network of the prefix, in a space of that many bits.
abbrev pub in_network : ℕ → ℕ → ℕ → ℕ → Bool
in_network bits base prefix n = (n / 2 ^ (bits - prefix)) == (base / 2 ^ (bits - prefix))

abbrev pub is_loopback : Address → Bool
is_loopback (v4 n) = in_network 32 0x7F000000 8 n
is_loopback (v6 n) = n == 1

abbrev pub is_link_local : Address → Bool
is_link_local (v4 n) = in_network 32 0xA9FE0000 16 n
is_link_local (v6 n) = in_network 128 (0xFE80 * 2 ^ 112) 10 n

abbrev pub is_multicast : Address → Bool
is_multicast (v4 n) = in_network 32 0xE0000000 4 n
is_multicast (v6 n) = in_network 128 (0xFF00 * 2 ^ 112) 8 n

abbrev pub is_unspecified : Address → Bool
is_unspecified (v4 n) = n == 0
is_unspecified (v6 n) = n == 0

-- The first sixteen bits of the reserved networks of IPv6, with their prefixes.
abbrev reserved_networks : List (ℕ × ℕ)
reserved_networks =
    (0, 8)
    ∷ (0x100, 8)
    ∷ (0x200, 7)
    ∷ (0x400, 6)
    ∷ (0x800, 5)
    ∷ (0x1000, 4)
    ∷ (0x4000, 3)
    ∷ (0x6000, 3)
    ∷ (0x8000, 3)
    ∷ (0xA000, 3)
    ∷ (0xC000, 3)
    ∷ (0xE000, 4)
    ∷ (0xF000, 5)
    ∷ (0xF800, 6)
    ∷ (0xFE00, 9)
    ∷ []

abbrev pub is_reserved : Address → Bool
is_reserved (v4 n) = in_network 32 0xF0000000 4 n
is_reserved (v6 n) =
    any (λ (base, prefix). in_network 128 (base * 2 ^ 112) prefix n) reserved_networks

pub record SsrfConfig : Type 0 where
  pub allow_localhost : Bool
  pub allow_private : Bool
  pub allow_link_local : Bool

pub data Reason : Type 0 where
  invalid_ip loopback link_local private_network reserved multicast unspecified : Reason

-- Why `validate_url` raises: SSRFBlockedURL, but the ValueError of `urlparse` for a malformed URL.
pub data UrlReason : Type 0 where
  malformed : UrlReason
  empty_url scheme_not_allowed no_hostname host_blocked not_in_allowlist unresolvable : UrlReason
  blocked_address : Reason → UrlReason

-- What `urlparse` gives, of a URL that it does not refuse with a ValueError.
pub record ParsedUrl : Type 0 where
  pub scheme : Text
  pub hostname : Option Text

-- How a lookup ends for the client: addresses, or an error.
pub data Lookup : Type 0 where
  os_error : Lookup
  found : List Text → Lookup

abbrev pub is_digit : ℕ → Bool
is_digit c = leb 48 c && leb c 57

-- `any(c.isdigit() for c in host) and "." in host`, for ASCII digits
abbrev pub looks_like_ip : Text → Bool
looks_like_ip host = any is_digit host && any (λ c. c == 46) host

-- `s in {h.lower() for h in hosts}`
abbrev pub in_lowered : Text → List Text → Bool
in_lowered s hosts = any (λ h. text_eq s (lower h)) hosts

-- `if blocked_hosts and …`
abbrev pub is_host_blocked : Text → Option (List Text) → Bool
is_host_blocked s none = false
is_host_blocked s (some hosts) = in_lowered s hosts

abbrev pub is_host_left_out : Text → Option (List Text) → Bool
is_host_left_out s none = false
is_host_left_out s (some hosts) = not (in_lowered s hosts)

abbrev pub is_empty : Text → Bool
is_empty [] = true
is_empty (c ∷ s) = false

module _ (ip_address : Text → Option Address) (is_private : Address → Bool) where
  -- `_is_blocked_ip`, of an address
  unfoldable pub reason_of : Address → SsrfConfig → Option Reason
  reason_of ip cfg =
      if is_loopback ip
      then (if cfg.allow_localhost then none else some loopback)
      else if is_link_local ip
      then (if cfg.allow_link_local then none else some link_local)
      else if is_private ip && not cfg.allow_private
      then some private_network
      else if is_reserved ip
      then some reserved
      else if is_multicast ip
      then some multicast
      else if is_unspecified ip
      then some unspecified
      else none

  -- `_is_blocked_ip`
  unfoldable pub is_blocked_ip : Text → SsrfConfig → Option Reason
  is_blocked_ip ip_str cfg = elim (ip_address ip_str) [
    | none ↦ some invalid_ip
    | some ip ↦ reason_of ip cfg
  ]

  -- The loop over the addresses.
  unfoldable pub first_blocked : List Text → SsrfConfig → Option UrlReason
  first_blocked [] cfg = none
  first_blocked (ip_str ∷ ips) cfg = elim (is_blocked_ip ip_str cfg) [
    | none ↦ first_blocked ips cfg
    | some r ↦ some (blocked_address r)
  ]

  -- The addresses of the host: itself, or what the lookup gives, which is empty on a failure.
  abbrev pub addresses_of : (Text → List Text) → Text → List Text
  addresses_of resolve_host host = elim (ip_address host) [
    | none ↦ resolve_host host
    | some ip ↦ host ∷ []
  ]

  unfoldable pub check_addresses : Text → List Text → SsrfConfig → Option UrlReason
  check_addresses host [] cfg = if looks_like_ip host then some unresolvable else none
  check_addresses host (ip ∷ ips) cfg = first_blocked (ip ∷ ips) cfg

  unfoldable pub check_host :
      (Text → List Text)
      → Text
      → SsrfConfig
      → Option (List Text)
      → Option (List Text)
      → Option UrlReason
  check_host resolve_host host cfg allowed_hosts blocked_hosts =
      if is_host_blocked (lower host) blocked_hosts
      then some host_blocked
      else if is_host_left_out (lower host) allowed_hosts
      then some not_in_allowlist
      else check_addresses host (addresses_of resolve_host host) cfg

  -- `validate_url`, of a URL that is parsed
  unfoldable pub check_parsed :
      (Text → List Text)
      → ParsedUrl
      → SsrfConfig
      → Option (List Text)
      → Option (List Text)
      → Option UrlReason
  check_parsed resolve_host parsed cfg allowed_hosts blocked_hosts =
      if not (text_eq parsed.scheme (codes "http") || text_eq parsed.scheme (codes "https"))
      then some scheme_not_allowed
      else elim parsed.hostname [
        | none ↦ some no_hostname
        | some host ↦
            if is_empty host
            then some no_hostname
            else check_host resolve_host host cfg allowed_hosts blocked_hosts
      ]

  -- `validate_url`: the reason of the exception, or none when it returns.
  unfoldable pub validate_url :
      (urlparse : Text → Option ParsedUrl) (resolve_host : Text → List Text)
      → Text
      → SsrfConfig
      → Option (List Text)
      → Option (List Text)
      → Option UrlReason
  validate_url urlparse resolve_host url cfg allowed_hosts blocked_hosts =
      if is_empty url then some empty_url else elim (urlparse url) [
        | none ↦ some malformed
        | some parsed ↦ check_parsed resolve_host parsed cfg allowed_hosts blocked_hosts
      ]

  -- The loop of `SSRFSafeResolver.resolve`.
  unfoldable pub safe_entries : SsrfConfig → List Text → List Text
  safe_entries cfg [] = []
  safe_entries cfg (ip ∷ ips) = elim (is_blocked_ip ip cfg) [
    | none ↦ ip ∷ safe_entries cfg ips
    | some r ↦ safe_entries cfg ips
  ]

  -- `SSRFSafeResolver.resolve`, where the resolver inside may fail.
  unfoldable pub resolve : SsrfConfig → (Text → Lookup) → Text → Lookup
  resolve cfg inner host = elim (inner host) [
    | os_error ↦ os_error
    | found hosts ↦ elim (safe_entries cfg hosts) [ [] ↦ os_error | ip ∷ ips ↦ found (ip ∷ ips) ]
  ]

  module _ (urlparse : Text → Option ParsedUrl) (resolve_host : Text → List Text) where
    -- `safe_url`, which catches SSRFBlockedURL only: none is the ValueError.
    unfoldable pub safe_url : Text → SsrfConfig → Option Bool
    safe_url url cfg = elim (validate_url urlparse resolve_host url cfg none none) [
      | none ↦ some true
      | some r ↦ elim r [
        | malformed ↦ none
        | empty_url ↦ some false
        | scheme_not_allowed ↦ some false
        | no_hostname ↦ some false
        | host_blocked ↦ some false
        | not_in_allowlist ↦ some false
        | unresolvable ↦ some false
        | blocked_address b ↦ some false
      ]
    ]

    -- `_on_request_redirect`, at the header of the response, empty when it has none: the reason of the
    -- exception, or none when the request goes on.
    unfoldable pub on_request_redirect :
        (Text → Text → Text) → Text → Text → SsrfConfig → Option UrlReason
    on_request_redirect join url location cfg =
        if is_empty location
        then none
        else validate_url urlparse resolve_host (join url location) cfg none none
