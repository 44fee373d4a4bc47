-- ===== src/Network/Guarded.antt =====
-- src/server/security.rs: what holds of a request that reaches a handler, and of every response.
use base_search.Prelude.{
  ◌≡◌, refl, sym, ap, subst, ◌∙◌, ◌⊎◌, inl, inr, ◌≢◌, String, true, false, Option, none, some, ◌==◌,
  nat_eq, string_eq, ok, ok_inj, err_ne_ok, >>=-ok, arith, Bool-cases, Option-cases, if◌then◌else◌,
  nat_beq_iff,
}
use base_search.Prelude.Dict.{get, get-insert}
use base_search.Prelude.Texts.{nocase, codes_eq, codes_same_iff}
use base_search.Auth.Requests.{Method}
use base_search.Network.Addresses.{
  Ipv4Addr, is_loopback_ipv4, is_trusted_lan_ipv4, ipv4_eq, is_unspecified_ipv4,
}
use base_search.Network.Authorities.{
  IpAddr, v4, v6, Host, name, ip, Authority, Parsers, authority_eq, parse_authority,
  parse_http_origin,
}
use base_search.Network.Policy.{
  TransportSecurity, TransportSecurityError, HeaderText, absent, opaque, text, RequestHeaders,
  is_unspecified, is_approved_lan, is_approved_ip, is_approved_host, is_approved_authority,
  approved_of, request_authority, check_fetch_site, check_origin, is_mutating, check_mutation,
  validate, is_approved_peer, approved_peer, validate_peer, admitted, Response,
  enforce_transport_security, apply_security_headers, content_security_policy,
}

-- The hosts under which the workspace may be reached: localhost, a loopback address, and an address
-- of a private network, if the server is bound to all addresses or to this one.
abbrev pub TrustedHost : IpAddr → Host → Type 0
TrustedHost bind host =
    (host ≡ name (nocase "localhost"))
    ⊎ (((a : Ipv4Addr) × (host ≡ ip (v4 a)) × (is_loopback_ipv4 a ≡ true))
        ⊎ ((host ≡ ip (v6 1))
            ⊎ ((a : Ipv4Addr) × (host ≡ ip (v4 a))
                × (is_trusted_lan_ipv4 a ≡ true)
                × (b : Ipv4Addr) × (bind ≡ v4 b)
                × ((is_unspecified_ipv4 b ≡ true) ⊎ (a ≡ b)))))

ipv4_eq-eq : (a b : Ipv4Addr) → ipv4_eq a b ≡ true → a ≡ b
ipv4_eq-eq a b h = ground arith

approved_lan :
    (bind : IpAddr) (a : Ipv4Addr)
    → is_approved_lan bind a ≡ true
    → (is_trusted_lan_ipv4 a ≡ true)
      × (b : Ipv4Addr) × (bind ≡ v4 b)
      × ((is_unspecified_ipv4 b ≡ true) ⊎ (a ≡ b))
unfolding is_approved_lan
approved_lan (v6 n) a h = absurd (cc)
approved_lan (v4 b) a h = elim (Bool-cases (is_unspecified_ipv4 b)) [
  | inl all ↦ (rw all at h, b, refl, inl all)
  | inr one ↦ elim (Bool-cases (is_trusted_lan_ipv4 b)) [
    | inl trusted ↦
        let e : a ≡ b = ipv4_eq-eq a b (rw (one, trusted) at h) in
        (ap is_trusted_lan_ipv4 e ∙ trusted, b, refl, inr e)
    | inr public ↦ absurd (let x : false ≡ true = rw (one, public) at h in cc)
  ]
]

approved_host :
    (bind : IpAddr) (host : Host) → is_approved_host bind host ≡ true → TrustedHost bind host
unfolding is_approved_host is_approved_ip
approved_host bind (name n) h = inl (ap name ((codes_same_iff n (nocase "localhost")).0 h))
approved_host bind (ip (v6 n)) h = inr (inr (inl (ap (λ m. ip (v6 m)) ((nat_beq_iff n 1).0 h))))
approved_host bind (ip (v4 a)) h = elim (Bool-cases (is_loopback_ipv4 a)) [
  | inl local ↦ inr (inl (a, refl, local))
  | inr remote ↦
      let r = approved_lan bind a (rw remote at h) in inr (inr (inr (a, refl, r.0, r.1, r.2, r.3)))
]

-- The authority that a `Host` header names, on the server's port and under a trusted host.
abbrev pub IsReachedAs : Parsers → TransportSecurity → HeaderText → Authority → Type 0
IsReachedAs parsers policy header a =
    (raw : String) × (header ≡ text raw)
    × (parse_authority parsers raw ≡ some a)
    × (a.port ≡ policy.port)
    × TrustedHost policy.bind_host a.host

approved :
    (policy : TransportSecurity) (parsed : Option Authority) (a : Authority)
    → approved_of policy parsed ≡ ok a
    → (parsed ≡ some a) × (a.port ≡ policy.port) × TrustedHost policy.bind_host a.host
unfolding is_approved_authority
approved policy none a h = absurd (cc)
approved policy (some b) a h = elim (Bool-cases (b.port == policy.port)) [
  | inr other ↦ absurd (err_ne_ok (rw other at h))
  | inl same ↦ elim (Bool-cases (is_approved_host policy.bind_host b.host)) [
    | inr foreign ↦ absurd (err_ne_ok (rw (same, foreign) at h))
    | inl known ↦
        let e : b ≡ a = ok_inj (rw (same, known) at h) in
        subst
          (λ (c : Authority).
            (◌≡◌ {A = Option Authority} (some b) (some c))
            × (c.port ≡ policy.port)
            × TrustedHost policy.bind_host c.host)
          e
          (
            refl,
            (nat_beq_iff b.port policy.port).0 same,
            approved_host policy.bind_host b.host known,
          )
  ]
]

reached :
    (parsers : Parsers) (policy : TransportSecurity) (header : HeaderText) (a : Authority)
    → request_authority parsers policy header ≡ ok a
    → IsReachedAs parsers policy header a
unfolding request_authority
reached parsers policy absent a h = absurd (cc)
reached parsers policy opaque a h = absurd (cc)
reached parsers policy (text raw) a h =
    let r = approved policy (parse_authority parsers raw) a h in (raw, refl, r.0, r.1, r.2)

-- A header is absent, or is a text that names an authority equal to the given one.
abbrev pub IsOwnOrigin : Parsers → Authority → HeaderText → Type 0
IsOwnOrigin parsers a header =
    (header ≡ absent)
    ⊎ ((raw : String) × (o : Authority) × (header ≡ text raw)
        × (parse_http_origin parsers raw ≡ some o)
        × (authority_eq o a ≡ true))

own_origin :
    (parsers : Parsers) (a : Authority) (header : HeaderText)
    → check_origin parsers a header ≡ ok tt
    → IsOwnOrigin parsers a header
unfolding check_origin
own_origin parsers a absent h = inl refl
own_origin parsers a opaque h = absurd (cc)
own_origin parsers a (text raw) h = elim (Option-cases (parse_http_origin parsers raw)) [
  | inl unread ↦ absurd (err_ne_ok (rw unread at h))
  | inr (o, read) ↦ elim (Bool-cases (authority_eq o a)) [
    | inl same ↦ inr (raw, o, refl, read, same)
    | inr foreign ↦ absurd (err_ne_ok (rw (read, foreign) at h))
  ]
]

-- A fetch context that a browser does not mark as cross-site.
abbrev pub IsNotCrossSite : HeaderText → Type 0
IsNotCrossSite header =
    (header ≡ absent)
    ⊎ ((site : String) × (header ≡ text site) × (nocase site ≢ nocase "cross-site"))

not_cross_site : (header : HeaderText) → check_fetch_site header ≡ ok tt → IsNotCrossSite header
unfolding check_fetch_site
not_cross_site absent h = inl refl
not_cross_site opaque h = absurd (cc)
not_cross_site (text site) h = elim (Bool-cases (nocase site == nocase "cross-site")) [
  | inl same ↦ absurd (err_ne_ok (rw same at h))
  | inr other ↦ inr (
    site,
    refl,
    λ e.
        let x : false ≡ true =
          sym other ∙ (codes_same_iff (nocase site) (nocase "cross-site")).1 e in
        cc,
  )
]

-- A peer from this machine or from a private network.
abbrev pub IsNearPeer : Option IpAddr → Type 0
IsNearPeer peer = (address : IpAddr) × (peer ≡ some address) × (is_approved_peer address ≡ true)

near_peer : (peer : Option IpAddr) → approved_peer peer ≡ ok tt → IsNearPeer peer
near_peer none h = absurd (cc)
near_peer (some address) h = elim (Bool-cases (is_approved_peer address)) [
  | inl near ↦ (address, refl, near)
  | inr far ↦ absurd (err_ne_ok (rw far at h))
]

near_if_wild :
    (policy : TransportSecurity) (peer : Option IpAddr)
    → validate_peer policy peer ≡ ok tt
    → (is_unspecified policy.bind_host ≡ false) ⊎ IsNearPeer peer
unfolding validate_peer
near_if_wild policy peer h = elim (Bool-cases (is_unspecified policy.bind_host)) [
  | inl wild ↦ inr (near_peer peer (rw wild at h))
  | inr bound ↦ inl bound
]

own_if_mutating :
    (parsers : Parsers) (method : Method) (headers : RequestHeaders) (a : Authority)
    → (if is_mutating method then check_mutation parsers headers a else ok tt) ≡ ok tt
    → (is_mutating method ≡ false)
      ⊎ (IsNotCrossSite headers.sec_fetch_site × IsOwnOrigin parsers a headers.origin)
unfolding check_mutation
own_if_mutating parsers method headers a h = elim (Bool-cases (is_mutating method)) [
  | inr reads ↦ inl reads
  | inl changes ↦
      let third = >>=-ok (check_fetch_site headers.sec_fetch_site) _ tt (rw changes at h) in
      inr
        (not_cross_site headers.sec_fetch_site third.1, own_origin parsers a headers.origin third.2)
]

-- A request reaches the next handler only under the server's own port and a trusted host, so never
-- under a name other than localhost. If it changes state, the browser does not call it cross-site
-- and its origin, if it has one, is the very authority that it was sent to. And where the server is
-- bound to all addresses, its peer is this machine or one of a private network.
pub admitted_lem :
    (parsers : Parsers) (policy : TransportSecurity) (peer : Option IpAddr) (method : Method)
    (headers : RequestHeaders)
    → admitted parsers policy peer method headers ≡ ok tt
    → ((is_unspecified policy.bind_host ≡ false) ⊎ IsNearPeer peer)
      × (a : Authority) × IsReachedAs parsers policy headers.host a
      × ((is_mutating method ≡ false)
          ⊎ (IsNotCrossSite headers.sec_fetch_site × IsOwnOrigin parsers a headers.origin))
unfolding admitted validate
admitted_lem parsers policy peer method headers h =
    let first = >>=-ok (validate_peer policy peer) _ tt h in
    let second = >>=-ok (request_authority parsers policy headers.host) _ tt first.2 in
    (
      near_if_wild policy peer first.1,
      second.0,
      reached parsers policy headers.host second.0 second.1,
      own_if_mutating parsers method headers second.0 second.2,
    )

-- Whatever the checks decide, the response carries the headers that keep it out of frames and its
-- scripts to the workspace's own: an answer of the handler cannot take them off.
enforce_transport_security-headers {ℓ} :
    {R : Type ℓ} (parsers : Parsers) (policy : TransportSecurity) (peer : Option IpAddr)
    (method : Method) (headers : RequestHeaders)
    (into_response : TransportSecurityError → Response R) (next : Response R)
    → let response =
        (enforce_transport_security parsers policy peer method headers into_response next).1 in
      (get "content-security-policy" response ≡ some content_security_policy)
      × (get "x-frame-options" response ≡ some "DENY")
      × (get "x-content-type-options" response ≡ some "nosniff")
unfolding enforce_transport_security apply_security_headers
enforce_transport_security-headers parsers policy peer method headers into_response next =
    (simp get-insert refl, simp get-insert refl, simp get-insert refl)
