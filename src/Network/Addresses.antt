-- ===== src/Network/Addresses.antt =====
-- src/server/network.rs: the classes of IPv4 addresses. An address is its four octets.
use Prim.Native.String.{◌++◌}
use base_search.Prelude.{
  ℕ, String, Bool, true, false, ◌&&◌, ◌||◌, Option, none, some, ◌==◌, nat_eq, leb, if◌then◌else◌,
}
use base_search.Prelude.Texts.{decimal}

pub record Ipv4Addr : Type 0 where
  pub first : ℕ
  pub second : ℕ
  pub third : ℕ
  pub fourth : ℕ

pub data Ipv4NetworkClass : Type 0 where
  loopback rfc1918 carrier_grade_nat other : Ipv4NetworkClass

abbrev is_rfc1918 : ℕ → ℕ → Bool
is_rfc1918 first second =
    (first == 10)
    || (((first == 172) && (leb 16 second && leb second 31)) || ((first == 192) && (second == 168)))

abbrev is_carrier_grade_nat : ℕ → ℕ → Bool
is_carrier_grade_nat first second = (first == 100) && (leb 64 second && leb second 127)

unfoldable pub classify_ipv4 : Ipv4Addr → Ipv4NetworkClass
classify_ipv4 a =
    if a.first == 127
    then loopback
    else if is_rfc1918 a.first a.second
    then rfc1918
    else if is_carrier_grade_nat a.first a.second
    then carrier_grade_nat
    else other

abbrev pub is_loopback : Ipv4NetworkClass → Bool
is_loopback loopback = true
is_loopback other_class = false

abbrev pub is_trusted : Ipv4NetworkClass → Bool
is_trusted rfc1918 = true
is_trusted carrier_grade_nat = true
is_trusted other_class = false

unfoldable pub is_loopback_ipv4 : Ipv4Addr → Bool
is_loopback_ipv4 a = is_loopback (classify_ipv4 a)

unfoldable pub is_trusted_lan_ipv4 : Ipv4Addr → Bool
is_trusted_lan_ipv4 a = is_trusted (classify_ipv4 a)

abbrev pub ipv4_eq : Ipv4Addr → Ipv4Addr → Bool
ipv4_eq a b =
    (a.first == b.first)
    && ((a.second == b.second) && ((a.third == b.third) && (a.fourth == b.fourth)))

-- `Ipv4Addr::is_unspecified`.
abbrev pub is_unspecified_ipv4 : Ipv4Addr → Bool
is_unspecified_ipv4 a = (a.first == 0) && ((a.second == 0) && ((a.third == 0) && (a.fourth == 0)))

-- `Display` of an address.
unfoldable pub ipv4_text : Ipv4Addr → String
ipv4_text a =
    decimal a.first
    ++ ("." ++ (decimal a.second ++ ("." ++ (decimal a.third ++ ("." ++ decimal a.fourth)))))

unfoldable pub local_workspace_url : ℕ → String
local_workspace_url port = "http://127.0.0.1:" ++ decimal port

unfoldable pub trusted_lan_workspace_url : Ipv4Addr → ℕ → Option String
trusted_lan_workspace_url a port =
    if is_trusted_lan_ipv4 a
    then some ("http://" ++ (ipv4_text a ++ (":" ++ decimal port)))
    else none
