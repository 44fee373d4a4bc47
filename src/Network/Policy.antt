-- ===== src/Network/Policy.antt =====
-- src/server/security.rs: the transport checks of a request. A header is absent, no text, or a text.
use base_search.Prelude.{
  ℕ, String, Bool, true, false, ◌||◌, Option, none, some, List, ◌==◌, nat_eq, string_eq, Result, ok,
  err, ◌>>=◌, if◌then◌else◌,
}
use base_search.Prelude.Texts.{nocase, codes_eq}
use base_search.Prelude.Dict.{insert}
use base_search.Auth.Requests.{Method}
use base_search.Network.Addresses.{
  Ipv4Addr, is_loopback_ipv4, is_trusted_lan_ipv4, ipv4_eq, is_unspecified_ipv4,
}
use base_search.Network.Authorities.{
  IpAddr, v4, v6, Host, name, ip, Authority, Parsers, authority_eq, parse_authority,
  parse_http_origin,
}

pub record TransportSecurity : Type 0 where
  pub bind_host : IpAddr
  pub port : ℕ

pub data TransportSecurityError : Type 0 where
  unapproved_host foreign_origin unapproved_peer cross_site_request : TransportSecurityError

pub data HeaderText : Type 0 where
  absent : HeaderText
  opaque : HeaderText
  text : String → HeaderText

pub record RequestHeaders : Type 0 where
  pub host : HeaderText
  pub sec_fetch_site : HeaderText
  pub origin : HeaderText

abbrev pub is_unspecified : IpAddr → Bool
is_unspecified (v4 a) = is_unspecified_ipv4 a
is_unspecified (v6 n) = n == 0

-- An IPv4 host that is not loopback, by the address that the server is bound to.
unfoldable pub is_approved_lan : IpAddr → Ipv4Addr → Bool
is_approved_lan (v6 n) a = false
is_approved_lan (v4 bind) a =
    if is_unspecified_ipv4 bind
    then is_trusted_lan_ipv4 a
    else if is_trusted_lan_ipv4 bind
    then ipv4_eq a bind
    else false

unfoldable pub is_approved_ip : IpAddr → IpAddr → Bool
is_approved_ip bind (v4 a) = if is_loopback_ipv4 a then true else is_approved_lan bind a
is_approved_ip bind (v6 n) = n == 1

unfoldable pub is_approved_host : IpAddr → Host → Bool
is_approved_host bind (name n) = n == nocase "localhost"
is_approved_host bind (ip address) = is_approved_ip bind address

unfoldable pub is_approved_authority : TransportSecurity → Authority → Bool
is_approved_authority policy a =
    if a.port == policy.port then is_approved_host policy.bind_host a.host else false

abbrev pub approved_of :
    TransportSecurity → Option Authority → Result Authority TransportSecurityError
approved_of policy none = err unapproved_host
approved_of policy (some a) = if is_approved_authority policy a then ok a else err unapproved_host

unfoldable pub request_authority :
    Parsers → TransportSecurity → HeaderText → Result Authority TransportSecurityError
request_authority parsers policy absent = err unapproved_host
request_authority parsers policy opaque = err unapproved_host
request_authority parsers policy (text raw) = approved_of policy (parse_authority parsers raw)

unfoldable pub check_fetch_site : HeaderText → Result (Unit {0}) TransportSecurityError
check_fetch_site absent = ok tt
check_fetch_site opaque = err cross_site_request
check_fetch_site (text site) =
    if nocase site == nocase "cross-site" then err cross_site_request else ok tt

abbrev pub same_authority : Authority → Option Authority → Result (Unit {0}) TransportSecurityError
same_authority a none = err foreign_origin
same_authority a (some origin) = if authority_eq origin a then ok tt else err foreign_origin

unfoldable pub check_origin :
    Parsers → Authority → HeaderText → Result (Unit {0}) TransportSecurityError
check_origin parsers a absent = ok tt
check_origin parsers a opaque = err foreign_origin
check_origin parsers a (text raw) = same_authority a (parse_http_origin parsers raw)

unfoldable pub is_mutating : Method → Bool
is_mutating Method.post = true
is_mutating Method.put = true
is_mutating Method.patch = true
is_mutating Method.delete = true
is_mutating method = false

-- The checks of a request that changes state.
unfoldable pub check_mutation :
    Parsers → RequestHeaders → Authority → Result (Unit {0}) TransportSecurityError
check_mutation parsers headers a =
    check_fetch_site headers.sec_fetch_site >>= λ _. check_origin parsers a headers.origin

unfoldable pub validate :
    Parsers → TransportSecurity → Method → RequestHeaders → Result (Unit {0}) TransportSecurityError
validate parsers policy method headers = request_authority parsers policy headers.host >>= λ a.
    if is_mutating method then check_mutation parsers headers a else ok tt

unfoldable pub is_approved_peer : IpAddr → Bool
is_approved_peer (v4 a) = is_loopback_ipv4 a || is_trusted_lan_ipv4 a
is_approved_peer (v6 n) = n == 1

abbrev pub approved_peer : Option IpAddr → Result (Unit {0}) TransportSecurityError
approved_peer none = err unapproved_peer
approved_peer (some address) = if is_approved_peer address then ok tt else err unapproved_peer

unfoldable pub validate_peer :
    TransportSecurity → Option IpAddr → Result (Unit {0}) TransportSecurityError
validate_peer policy peer = if is_unspecified policy.bind_host then approved_peer peer else ok tt

-- Both checks, the peer's first.
unfoldable pub admitted :
    Parsers
    → TransportSecurity
    → Option IpAddr
    → Method
    → RequestHeaders
    → Result (Unit {0}) TransportSecurityError
admitted parsers policy peer method headers =
    validate_peer policy peer >>= λ _. validate parsers policy method headers

abbrev pub content_security_policy : String
content_security_policy =
    "default-src 'self'; base-uri 'none'; object-src 'none'; frame-ancestors 'none'; form-action 'self'; script-src 'self'; style-src 'self' 'unsafe-inline'; img-src 'self' data:; font-src 'self'; connect-src 'self'; worker-src 'self'; manifest-src 'self'"

abbrev pub permissions_policy : String
permissions_policy =
    "accelerometer=(), autoplay=(), camera=(), display-capture=(), geolocation=(), gyroscope=(), microphone=(), payment=(), usb=()"

unfoldable pub apply_security_headers : List (String × String) → List (String × String)
apply_security_headers headers = insert "x-frame-options" "DENY" (
    insert "permissions-policy" permissions_policy (
      insert "referrer-policy" "no-referrer" (
        insert "x-content-type-options" "nosniff"
          (insert "content-security-policy" content_security_policy headers))))

-- A response: its status and body, and its headers.
abbrev pub Response {ℓ} : Type ℓ → Type ℓ
Response R = R × List (String × String)

abbrev answer {ℓ} :
    {R : Type ℓ}
    → (TransportSecurityError → Response R)
    → Response R
    → Result (Unit {0}) TransportSecurityError
    → Response R
answer into_response next (ok _) = next
answer into_response next (err e) = into_response e

-- The middleware: the next handler runs, or the error is the response; the headers are set on both.
unfoldable pub enforce_transport_security {ℓ} :
    {R : Type ℓ}
    → Parsers
    → TransportSecurity
    → Option IpAddr
    → Method
    → RequestHeaders
    → (TransportSecurityError → Response R)
    → Response R
    → Response R
enforce_transport_security parsers policy peer method headers into_response next =
    let response = answer into_response next (admitted parsers policy peer method headers) in
    (response.0, apply_security_headers response.1)
