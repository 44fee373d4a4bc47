-- ===== src/Network/Ranges.antt =====
-- src/server/network.rs: the trusted addresses as ranges of 32-bit numbers, and the addresses of
-- workspaces that are shown to users.
use base_search.Prelude.{
  ℕ, ◌+◌, ◌*◌, ◌/◌, ◌^◌, ◌<◌, ◌≤◌, ◌≡◌, ◌↔◌, ◌⊎◌, inl, inr, true, arith, Bool-cases, nat_beq,
}
use base_search.Network.Addresses.{Ipv4Addr, is_trusted_lan_ipv4, classify_ipv4}

-- The address as the number of its 32 bits.
abbrev pub bits : Ipv4Addr → ℕ
bits a = ((a.first * 256 + a.second) * 256 + a.third) * 256 + a.fourth

pub record IsIpv4 (a : Ipv4Addr) : Type 0 where
  pub first_byte : a.first < 256
  pub second_byte : a.second < 256
  pub third_byte : a.third < 256
  pub fourth_byte : a.fourth < 256

-- 10.0.0.0/8, 172.16.0.0/12, 192.168.0.0/16 and 100.64.0.0/10.
abbrev pub InPrivateRange : Ipv4Addr → Type 0
InPrivateRange a =
    (bits a / 2 ^ 24 ≡ 10)
    ⊎ ((bits a / 2 ^ 20 ≡ 172 * 16 + 1)
        ⊎ ((bits a / 2 ^ 16 ≡ 192 * 256 + 168) ⊎ (bits a / 2 ^ 22 ≡ 100 * 4 + 1)))

-- The same by the first two octets.
abbrev InPrivateOctets : Ipv4Addr → Type 0
InPrivateOctets a =
    (a.first ≡ 10)
    ⊎ (((a.first ≡ 172) × (16 ≤ a.second) × (a.second ≤ 31))
        ⊎ (((a.first ≡ 192) × (a.second ≡ 168))
            ⊎ ((a.first ≡ 100) × (64 ≤ a.second) × (a.second ≤ 127))))

trusted-octets : (a : Ipv4Addr) → is_trusted_lan_ipv4 a ≡ true → InPrivateOctets a
unfolding is_trusted_lan_ipv4 classify_ipv4
trusted-octets a h = elim (Bool-cases (nat_beq a.first 10)) [
  | inl e ↦ inl (ground arith)
  | inr e ↦ elim (Bool-cases (nat_beq a.first 172)) [
    | inl f ↦ inr (inl (ground arith, ground arith, ground arith))
    | inr f ↦ elim (Bool-cases (nat_beq a.first 192)) [
      | inl g ↦ inr (inr (inl (ground arith, ground arith)))
      | inr g ↦ inr (inr (inr (ground arith, ground arith, ground arith)))
    ]
  ]
]

octets-trusted : (a : Ipv4Addr) → InPrivateOctets a → is_trusted_lan_ipv4 a ≡ true
unfolding is_trusted_lan_ipv4 classify_ipv4
octets-trusted a (inl h) = ground arith
octets-trusted a (inr (inl h)) = ground (arith, h.0, h.1, h.2)
octets-trusted a (inr (inr (inl h))) = ground (arith, h.0, h.1)
octets-trusted a (inr (inr (inr h))) = ground (arith, h.0, h.1, h.2)

octets-range : (a : Ipv4Addr) → IsIpv4 a → InPrivateOctets a → InPrivateRange a
octets-range a valid (inl h) = inl (omega arith)
octets-range a valid (inr (inl h)) = inr (inl (omega arith))
octets-range a valid (inr (inr (inl h))) = inr (inr (inl (omega arith)))
octets-range a valid (inr (inr (inr h))) = inr (inr (inr (omega arith)))

range-octets : (a : Ipv4Addr) → IsIpv4 a → InPrivateRange a → InPrivateOctets a
range-octets a valid (inl h) = inl (omega arith)
range-octets a valid (inr (inl h)) = inr (inl (omega arith))
range-octets a valid (inr (inr (inl h))) = inr (inr (inl (omega arith)))
range-octets a valid (inr (inr (inr h))) = inr (inr (inr (omega arith)))

-- An address counts as one of the trusted network exactly if its 32 bits lie in one of the four
-- ranges 10.0.0.0/8, 172.16.0.0/12, 192.168.0.0/16 and 100.64.0.0/10.
is_trusted_lan_ipv4_iff :
    (a : Ipv4Addr) → IsIpv4 a → (is_trusted_lan_ipv4 a ≡ true) ↔ InPrivateRange a
is_trusted_lan_ipv4_iff a valid =
    (λ h. octets-range a valid (trusted-octets a h), λ h. octets-trusted a (range-octets a valid h))
