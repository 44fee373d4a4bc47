-- ===== src/Network/Listing.antt =====
-- src/server/network.rs: which interfaces are listed, how often and in which order.
use base_search.Prelude.{
  ℕ, ◌+◌, ◌≤◌, ◌≡◌, refl, sym, ◌∙◌, subst, String, Bool, true, false, ◌&&◌, not, List, [], ◌∷◌, any,
  count_if, All, All-map, nat_eq, arith, if◌then◌else◌, Bool-cases, inl, inr,
}
use base_search.Prelude.Texts.{Unicode}
use base_search.Network.Addresses.{
  Ipv4Addr, classify_ipv4, is_trusted, is_trusted_lan_ipv4, ipv4_eq,
}
use base_search.Network.Interfaces.{
  TrustedIpv4Interface, class_priority, is_gt, take_trusted, compare_interfaces, insert_sorted,
  sort_interfaces, normalize_trusted_ipv4_interfaces,
}

ipv4_eq-eq : (a b : Ipv4Addr) → ipv4_eq a b ≡ true → a ≡ b
ipv4_eq-eq a b h = ground arith

ipv4_eq_refl : (a : Ipv4Addr) → ipv4_eq a a ≡ true
ipv4_eq_refl a = ground arith

ipv4_eq_comm : (a b : Ipv4Addr) → ipv4_eq a b ≡ ipv4_eq b a
ipv4_eq_comm a b = ground arith

abbrev pub at : Ipv4Addr → TrustedIpv4Interface → Bool
at a i = ipv4_eq i.address a

-- Whether an address is one of the candidates'.
abbrev pub is_candidate : Ipv4Addr → List (String × Ipv4Addr) → Bool
is_candidate a candidates = any (λ (c : String × Ipv4Addr). ipv4_eq c.1 a) candidates

abbrev once_if : Bool → ℕ
once_if b = if b then 1 else 0

count-take_trusted :
    (a : Ipv4Addr) (seen : List Ipv4Addr) (candidates : List (String × Ipv4Addr))
    → count_if (at a) (take_trusted seen candidates)
      ≡ once_if (
          is_trusted (classify_ipv4 a) && (not (any (ipv4_eq a) seen) && is_candidate a candidates))
unfolding take_trusted
count-take_trusted a seen [] = ground arith
count-take_trusted a seen ((name, x) ∷ rest) = elim (Bool-cases (ipv4_eq x a)) [
  | inl same ↦
      subst
        (λ y.
          count_if (at a) (take_trusted seen ((name, y) ∷ rest))
          ≡ once_if (
              is_trusted (classify_ipv4 a)
              && (not (any (ipv4_eq a) seen) && is_candidate a ((name, y) ∷ rest))))
        (sym (ipv4_eq-eq x a same))
        (ground (
          arith,
          ipv4_eq_refl a,
          count-take_trusted a seen rest,
          count-take_trusted a (a ∷ seen) rest,
        ))
  | inr other ↦ ground (
    arith,
    other,
    ipv4_eq_comm x a,
    count-take_trusted a seen rest,
    count-take_trusted a (x ∷ seen) rest,
  )
]

module _ (u : Unicode) where
  count-insert_sorted :
      (p : TrustedIpv4Interface → Bool) (i : TrustedIpv4Interface) (js : List TrustedIpv4Interface)
      → count_if p (insert_sorted u i js) ≡ once_if (p i) + count_if p js
  unfolding insert_sorted
  count-insert_sorted p i [] = omega arith
  count-insert_sorted p i (j ∷ js) = ground (arith, count-insert_sorted p i js)

  count-sort :
      (p : TrustedIpv4Interface → Bool) (is : List TrustedIpv4Interface)
      → count_if p (sort_interfaces u is) ≡ count_if p is
  unfolding sort_interfaces
  count-sort p [] = refl
  count-sort p (i ∷ is) =
      omega (arith, count-insert_sorted p i (sort_interfaces u is), count-sort p is)

  -- The interfaces of private networks come before those of carriers' networks.
  abbrev AtLeast : ℕ → List TrustedIpv4Interface → Type 0
  AtLeast n is = All (λ (i : TrustedIpv4Interface). n ≤ class_priority i.class) is

  abbrev pub IsByPriority : List TrustedIpv4Interface → Type 0
  IsByPriority [] = Unit
  IsByPriority (i ∷ is) = AtLeast (class_priority i.class) is × IsByPriority is

  AtLeast-weaken : (m n : ℕ) (is : List TrustedIpv4Interface) → m ≤ n → AtLeast n is → AtLeast m is
  AtLeast-weaken m n is le h =
      All-map (λ (i : TrustedIpv4Interface). n ≤ class_priority i.class)
        (λ (i : TrustedIpv4Interface). m ≤ class_priority i.class) is (λ i g. omega (arith, le, g))
        h

  AtLeast-insert_sorted :
      (n : ℕ) (i : TrustedIpv4Interface) (js : List TrustedIpv4Interface)
      → n ≤ class_priority i.class
      → AtLeast n js
      → AtLeast n (insert_sorted u i js)
  unfolding insert_sorted
  AtLeast-insert_sorted n i [] le h = (le, tt)
  AtLeast-insert_sorted n i (j ∷ js) le h = elim (Bool-cases (is_gt (compare_interfaces u i j))) [
    | inl later ↦ rw later (h.0, AtLeast-insert_sorted n i js le h.1)
    | inr here ↦ rw here (le, h)
  ]

  -- The comparison goes by the priority first.
  gt-priority :
      (i j : TrustedIpv4Interface)
      → is_gt (compare_interfaces u i j) ≡ true
      → class_priority j.class ≤ class_priority i.class
  unfolding compare_interfaces
  gt-priority i j h = ground arith

  not_gt-priority :
      (i j : TrustedIpv4Interface)
      → is_gt (compare_interfaces u i j) ≡ false
      → class_priority i.class ≤ class_priority j.class
  unfolding compare_interfaces
  not_gt-priority i j h = ground arith

  insert_sorted-IsByPriority :
      (i : TrustedIpv4Interface) (js : List TrustedIpv4Interface)
      → IsByPriority js
      → IsByPriority (insert_sorted u i js)
  unfolding insert_sorted
  insert_sorted-IsByPriority i [] h = (tt, tt)
  insert_sorted-IsByPriority i (j ∷ js) h = elim (Bool-cases (is_gt (compare_interfaces u i j))) [
    | inl later ↦ rw later (
      AtLeast-insert_sorted (class_priority j.class) i js (gt-priority i j later) h.0,
      insert_sorted-IsByPriority i js h.1,
    )
    | inr here ↦
        let le = not_gt-priority i j here in
        rw here
          ((le, AtLeast-weaken (class_priority i.class) (class_priority j.class) js le h.0), h)
  ]

  sort-IsByPriority : (is : List TrustedIpv4Interface) → IsByPriority (sort_interfaces u is)
  unfolding sort_interfaces
  sort-IsByPriority [] = tt
  sort-IsByPriority (i ∷ is) =
      insert_sorted-IsByPriority i (sort_interfaces u is) (sort-IsByPriority is)

  pub normalize_trusted_ipv4_interfaces_lem :
      (candidates : List (String × Ipv4Addr)) (a : Ipv4Addr)
      → (count_if (at a) (normalize_trusted_ipv4_interfaces u candidates)
          ≡ (if is_trusted_lan_ipv4 a && is_candidate a candidates then 1 else 0))
        × IsByPriority (normalize_trusted_ipv4_interfaces u candidates)
  unfolding normalize_trusted_ipv4_interfaces is_trusted_lan_ipv4
  normalize_trusted_ipv4_interfaces_lem candidates a = (
    count-sort (at a) (take_trusted [] candidates) ∙ count-take_trusted a [] candidates,
    sort-IsByPriority (take_trusted [] candidates),
  )
