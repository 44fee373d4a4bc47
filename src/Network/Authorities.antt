-- ===== src/Network/Authorities.antt =====
-- src/server/security.rs: reading the authority of a `Host` or `Origin` header. The parsers of IP
-- addresses, and of URIs by the library http, are parameters.
use Prim.Native.Char.{code}
use Prim.Native.String.{String}
use base_search.Prelude.{
  ℕ, Bool, true, false, ◌&&◌, ◌||◌, not, Option, none, some, List, ◌==◌, nat_eq, string_eq, leb,
  if◌then◌else◌,
}
use base_search.Prelude.Texts.{is_empty, is_digit, nocase, codes_eq}
use base_search.Values.Keys.{decimal_value}
use base_search.Auth.Requests.{strip_prefix, split_once}
use base_search.Network.Addresses.{Ipv4Addr, ipv4_eq}

-- An IPv6 address is its 128 bits.
pub data IpAddr : Type 0 where
  v4 : Ipv4Addr → IpAddr
  v6 : ℕ → IpAddr

-- A name is kept in lower case, as code points.
pub data Host : Type 0 where
  name : List ℕ → Host
  ip : IpAddr → Host

pub record Authority : Type 0 where
  pub host : Host
  pub port : ℕ

-- What the library http reads of a URI.
pub record Uri : Type 0 where
  pub scheme : Option String
  pub path_and_query : Option String
  pub authority : Option String

pub record Parsers : Type 0 where
  pub ip_addr : String → Option IpAddr
  pub ipv6_addr : String → Option ℕ
  pub uri : String → Option Uri

abbrev ip_eq : IpAddr → IpAddr → Bool
ip_eq (v4 a) (v4 b) = ipv4_eq a b
ip_eq (v6 a) (v6 b) = a == b
ip_eq a b = false

abbrev host_eq : Host → Host → Bool
host_eq (name a) (name b) = a == b
host_eq (ip a) (ip b) = ip_eq a b
host_eq a b = false

abbrev pub authority_eq : Authority → Authority → Bool
authority_eq a b = host_eq a.host b.host && (a.port == b.port)

unfoldable pub has_char : (ℕ → Bool) → String → Bool
has_char p String.[] = false
has_char p (String.◌∷◌ c s) = p (code c) || has_char p s

-- ASCII whitespace, '/', '\\', '@', '#' and '?'.
abbrev pub is_forbidden : ℕ → Bool
is_forbidden c =
    (c == 32)
    || ((c == 9)
        || ((c == 10)
            || ((c == 12)
                || ((c == 13)
                    || ((c == 47) || ((c == 92) || ((c == 64) || ((c == 35) || (c == 63)))))))))

-- `str::rsplit_once` for one character.
unfoldable pub rsplit_once : ℕ → String → Option (String × String)
rsplit_once separator String.[] = none
rsplit_once separator (String.◌∷◌ c s) = elim (rsplit_once separator s) [
  | some (before, after) ↦ some (String.◌∷◌ c before, after)
  | none ↦ if code c == separator then some (String.[], s) else none
]

abbrev without_plus : String → String
without_plus String.[] = String.[]
without_plus (String.◌∷◌ c s) = if code c == 43 then s else String.◌∷◌ c s

-- `str::parse::<u16>`.
unfoldable pub parse_u16 : String → Option ℕ
parse_u16 s =
    let digits : String = without_plus s in
    if is_empty digits || has_char (λ c. not (is_digit c)) digits
    then none
    else if leb (decimal_value 0 digits) 65535
    then some (decimal_value 0 digits)
    else none

abbrev with_port : Host → Option ℕ → Option Authority
with_port host none = none
with_port host (some port) = some (record { host = host; port = port })

-- "[address]:port", behind the bracket.
unfoldable pub parse_bracketed : Parsers → String → Option Authority
parse_bracketed parsers s = elim (split_once 93 s) [
  | none ↦ none
  | some (host, after) ↦ elim (parsers.ipv6_addr host) [
    | none ↦ none
    | some address ↦ elim (strip_prefix after ":") [
      | none ↦ none
      | some port ↦ with_port (ip (v6 address)) (parse_u16 port)
    ]
  ]
]

abbrev host_of : Parsers → String → Host
host_of parsers s = elim (parsers.ip_addr s) [ some address ↦ ip address | none ↦ name (nocase s) ]

-- "host:port".
unfoldable pub parse_named : Parsers → String → Option Authority
parse_named parsers s = elim (rsplit_once 58 s) [
  | none ↦ none
  | some (host, port) ↦
      if is_empty host || has_char (λ c. c == 58) host
      then none
      else with_port (host_of parsers host) (parse_u16 port)
]

unfoldable pub parse_authority : Parsers → String → Option Authority
parse_authority parsers raw =
    if is_empty raw || has_char is_forbidden raw then none else elim (strip_prefix raw "[") [
      | some bracketed ↦ parse_bracketed parsers bracketed
      | none ↦ parse_named parsers raw
    ]

abbrev is_http : Option String → Bool
is_http none = false
is_http (some scheme) = scheme == "http"

abbrev is_root : Option String → Bool
is_root none = true
is_root (some path) = path == "/"

unfoldable pub parse_http_origin : Parsers → String → Option Authority
parse_http_origin parsers raw = elim (parsers.uri raw) [
  | none ↦ none
  | some uri ↦
      if is_http uri.scheme && is_root uri.path_and_query
      then elim uri.authority [ none ↦ none | some a ↦ parse_authority parsers a ]
      else none
]
