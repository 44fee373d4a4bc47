-- ===== src/Network/Interfaces.antt =====
-- src/server/network.rs: the interfaces that are offered to users, from those that the system has.
use Prim.Native.String.{compare as compare_text}
use base_search.Prelude.{
  ℕ, String, Bool, true, false, ◌&&◌, not, List, [], ◌∷◌, any, nat_eq, compare, Ordering,
  if◌then◌else◌,
}
use base_search.Prelude.Texts.{Unicode}
use base_search.Network.Addresses.{
  Ipv4Addr, Ipv4NetworkClass, loopback, rfc1918, carrier_grade_nat, other, classify_ipv4,
  is_trusted, ipv4_eq,
}

pub record TrustedIpv4Interface : Type 0 where
  pub name : String
  pub address : Ipv4Addr
  pub class : Ipv4NetworkClass

unfoldable pub class_priority : Ipv4NetworkClass → ℕ
class_priority rfc1918 = 0
class_priority carrier_grade_nat = 1
class_priority loopback = 2
class_priority other = 3

abbrev interface : String → Ipv4Addr → TrustedIpv4Interface
interface name address = record { name = name; address = address; class = classify_ipv4 address }

-- `seen` are the addresses of the interfaces that were taken before.
unfoldable pub take_trusted : List Ipv4Addr → List (String × Ipv4Addr) → List TrustedIpv4Interface
take_trusted seen [] = []
take_trusted seen ((name, address) ∷ candidates) =
    let taken = interface name address ∷ take_trusted (address ∷ seen) candidates in
    let passed = take_trusted seen candidates in
    if is_trusted (classify_ipv4 address) && not (any (ipv4_eq address) seen) then taken else passed

abbrev then_with : Ordering → Ordering → Ordering
then_with Ordering.eq o = o
then_with Ordering.lt o = Ordering.lt
then_with Ordering.gt o = Ordering.gt

-- `octets().cmp(…)`.
abbrev compare_octets : Ipv4Addr → Ipv4Addr → Ordering
compare_octets a b = then_with (compare a.first b.first) (
    then_with (compare a.second b.second)
      (then_with (compare a.third b.third) (compare a.fourth b.fourth)))

unfoldable pub compare_interfaces : Unicode → TrustedIpv4Interface → TrustedIpv4Interface → Ordering
compare_interfaces u a b = then_with (compare (class_priority a.class) (class_priority b.class)) (
    then_with (compare_text (u.lowercase a.name) (u.lowercase b.name))
      (compare_octets a.address b.address))

abbrev pub is_gt : Ordering → Bool
is_gt Ordering.gt = true
is_gt o = false

-- `sort_by`, which is stable: an interface goes behind those that compare equal.
unfoldable pub insert_sorted :
    Unicode → TrustedIpv4Interface → List TrustedIpv4Interface → List TrustedIpv4Interface
insert_sorted u i [] = i ∷ []
insert_sorted u i (j ∷ js) =
    let later = j ∷ insert_sorted u i js in
    if is_gt (compare_interfaces u i j) then later else i ∷ j ∷ js

unfoldable pub sort_interfaces : Unicode → List TrustedIpv4Interface → List TrustedIpv4Interface
sort_interfaces u [] = []
sort_interfaces u (i ∷ is) = insert_sorted u i (sort_interfaces u is)

unfoldable pub normalize_trusted_ipv4_interfaces :
    Unicode → List (String × Ipv4Addr) → List TrustedIpv4Interface
normalize_trusted_ipv4_interfaces u candidates = sort_interfaces u (take_trusted [] candidates)
