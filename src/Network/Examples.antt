-- ===== src/Network/Examples.antt =====
-- Tests of the request checks, and the theorems at concrete inputs.
use base_search.Prelude.{
  ℕ, ◌≡◌, refl, ◌⊎◌, String, true, false, ◌&&◌, none, some, List, [], ◌∷◌, count_if, ◌==◌,
  string_eq, Result, ok, err, if◌then◌else◌,
}
use base_search.Prelude.Texts
use base_search.Prelude.Texts.{Unicode}
use base_search.Values.Keys
use base_search.Auth.Requests
use base_search.Auth.Requests.{Method, post}
use base_search.Network.Addresses
use base_search.Network.Addresses.{Ipv4Addr, is_trusted_lan_ipv4}
use base_search.Network.Authorities
use base_search.Network.Authorities.{IpAddr, v4, Parsers, Uri, Authority}
use base_search.Network.Policy
use base_search.Network.Policy.{
  TransportSecurity, absent, opaque, text, RequestHeaders, is_mutating, is_unspecified, admitted,
  foreign_origin,
}
use base_search.Network.Interfaces.{normalize_trusted_ipv4_interfaces}
use base_search.Network.Guarded.{IsNearPeer, IsReachedAs, IsNotCrossSite, IsOwnOrigin, admitted_lem}
use base_search.Network.Listing.{
  at, is_candidate, IsByPriority, normalize_trusted_ipv4_interfaces_lem,
}

abbrev octets : ℕ → ℕ → ℕ → ℕ → Ipv4Addr
octets a b c d = record { first = a; second = b; third = c; fourth = d }

-- A parser that knows one address and one origin.
abbrev parsers : Parsers
parsers = record {
  ip_addr = λ s. if s == "192.168.1.50" then some (v4 (octets 192 168 1 50)) else none;
  ipv6_addr = λ s. none;
  uri = λ s.
      if s == "http://localhost:7833"
      then some (record {
        scheme = some "http";
        path_and_query = some "/";
        authority = some "localhost:7833";
      })
      else none;
}

abbrev everywhere : TransportSecurity
everywhere = record { bind_host = v4 (octets 0 0 0 0); port = 7833 }

abbrev headers_from : String → RequestHeaders
headers_from origin = record {
  host = text "localhost:7833";
  sec_fetch_site = text "same-origin";
  origin = text origin;
}

check : String → Result (Unit {0}) Policy.TransportSecurityError
unfolding Policy.admitted Policy.validate Policy.validate_peer Policy.request_authority
    Policy.is_approved_authority Policy.is_approved_host Policy.is_approved_ip
    Policy.is_approved_peer Policy.is_mutating Policy.check_mutation Policy.check_fetch_site
    Policy.check_origin Authorities.parse_authority Authorities.parse_named
    Authorities.parse_http_origin Authorities.parse_u16 Authorities.has_char Authorities.rsplit_once
    Requests.strip_prefix Texts.nocase Keys.decimal_value Addresses.is_loopback_ipv4
    Addresses.is_trusted_lan_ipv4 Addresses.classify_ipv4
check origin =
    admitted parsers everywhere (some (v4 (octets 192 168 1 50))) post (headers_from origin)

check_own : check "http://localhost:7833" ≡ ok tt
unfolding check
check_own = refl

check_foreign : check "http://evil.example" ≡ err foreign_origin
unfolding check
check_foreign = refl

admitted_lem_example :
    ((is_unspecified everywhere.bind_host ≡ false) ⊎ IsNearPeer (some (v4 (octets 192 168 1 50))))
    × (a : Authority) × IsReachedAs parsers everywhere (text "localhost:7833") a
    × ((is_mutating post ≡ false)
        ⊎ (IsNotCrossSite (text "same-origin")
            × IsOwnOrigin parsers a (text "http://localhost:7833")))
unfolding check
admitted_lem_example =
    admitted_lem parsers everywhere (some (v4 (octets 192 168 1 50))) post
      (headers_from "http://localhost:7833") check_own

abbrev plain_unicode : Unicode
plain_unicode = record {
  white = λ c. false;
  alphanumeric = λ c. true;
  lower = λ c. String.◌∷◌ c String.[];
  upper = λ c. String.◌∷◌ c String.[];
  lowercase = λ s. s;
}

abbrev candidates : List (String × Ipv4Addr)
candidates =
    ("wg0", octets 100 64 0 2)
    ∷ ("eth0", octets 192 168 1 50)
    ∷ ("eth1", octets 192 168 1 50)
    ∷ ("ppp0", octets 8 8 8 8)
    ∷ []

normalize_trusted_ipv4_interfaces_lem_example :
    (count_if
        (at (octets 192 168 1 50))
        (normalize_trusted_ipv4_interfaces plain_unicode candidates)
      ≡ (if is_trusted_lan_ipv4 (octets 192 168 1 50)
            && is_candidate (octets 192 168 1 50) candidates
          then 1
          else 0))
    × IsByPriority plain_unicode (normalize_trusted_ipv4_interfaces plain_unicode candidates)
normalize_trusted_ipv4_interfaces_lem_example =
    normalize_trusted_ipv4_interfaces_lem plain_unicode candidates (octets 192 168 1 50)
