-- ===== src/Scope/Covers.antt =====
-- recon/core/scope.py: what a list of the rules of engagement covers, and that the loops of
-- `classify` find it.
use recon_platform.Prelude.{
  ◌≡◌, refl, true, false, ◌&&◌, none, some, List, [], ◌∷◌, ok, ◌≢◌, inl, inr, arith, Bool-cases,
  Option-cases, Result-cases, ap,
}
use recon_platform.Prelude.Text.{Text, text_eq, text_eq_iff, elem}
use recon_platform.Scope.Ip.{Address, Network}
use recon_platform.Scope.Networks.{ip_network, in_network}
use recon_platform.Scope.{
  ScopeList, Reason, host_matches_pattern, matches_any, ip_in_any, any_in_cidrs, candidates,
  is_name, listed,
}

-- The address is one of the addresses.
pub data Among (ip : Address) : List Address → Type 0 where
  here : {ips : List Address} → Among ip (ip ∷ ips)
  there : {other : Address} {ips : List Address} → Among ip ips → Among ip (other ∷ ips)

-- What a list of the rules covers: a name by its hosts or by a pattern, and any host by an address
-- of its own or one that it resolves to.
pub data Covers (list : ScopeList) (host : Text) (ips : List Address) : Type 0 where
  by_host : is_name host ≡ true → elem host list.hosts ≡ true → Covers list host ips
  by_domain :
      is_name host ≡ true
      → (pat : Text) → elem pat list.domains ≡ true
      → host_matches_pattern host pat ≡ true
      → Covers list host ips
  by_cidr :
      (ip : Address) (cidr : Text) (net : Network)
      → Among ip ips
      → elem cidr list.cidrs ≡ true
      → ip_network true cidr ≡ some net
      → in_network ip net ≡ true
      → Covers list host ips

matches_any_sound :
    (host : Text) (pats : List Text)
    → matches_any host pats ≡ true
    → (pat : Text) × (elem pat pats ≡ true) × (host_matches_pattern host pat ≡ true)
unfolding matches_any elem
matches_any_sound host [] h = cc
matches_any_sound host (pat ∷ pats) h = elim (Bool-cases (host_matches_pattern host pat)) [
  | inl e ↦ (pat, ground (arith, (text_eq_iff pat pat).1 refl), e)
  | inr e ↦ let (q, k, m) = matches_any_sound host pats (ground arith) in (q, ground arith, m)
]

matches_any_complete :
    (host pat : Text) (pats : List Text)
    → elem pat pats ≡ true
    → host_matches_pattern host pat ≡ true
    → matches_any host pats ≡ true
unfolding matches_any elem
matches_any_complete host pat [] k m = cc
matches_any_complete host pat (q ∷ pats) k m = elim (Bool-cases (text_eq q pat)) [
  | inl e ↦ ground (arith, ap (host_matches_pattern host) ((text_eq_iff q pat).0 e))
  | inr e ↦ ground (arith, matches_any_complete host pat pats (ground arith) m)
]

ip_in_any_sound :
    (ip : Address) (cidrs : List Text)
    → ip_in_any ip cidrs ≡ ok true
    → (cidr : Text) × (net : Network) × (elem cidr cidrs ≡ true)
      × (ip_network true cidr ≡ some net)
      × (in_network ip net ≡ true)
unfolding ip_in_any elem
ip_in_any_sound ip [] h = cc
ip_in_any_sound ip (cidr ∷ cidrs) h = elim (Option-cases (ip_network true cidr)) [
  | inl e ↦ ground arith
  | inr (net, e) ↦ elim (Bool-cases (in_network ip net)) [
    | inl m ↦ (cidr, net, ground (arith, (text_eq_iff cidr cidr).1 refl), e, m)
    | inr m ↦
        let (c, n, k, x, y) = ip_in_any_sound ip cidrs (ground arith) in (c, n, ground arith, x, y)
  ]
]

ip_in_any_complete :
    (ip : Address) (cidr : Text) (net : Network) (cidrs : List Text)
    → elem cidr cidrs ≡ true
    → ip_network true cidr ≡ some net
    → in_network ip net ≡ true
    → ip_in_any ip cidrs ≢ ok false
unfolding ip_in_any elem
ip_in_any_complete ip cidr net [] k x m h = cc
ip_in_any_complete ip cidr net (c ∷ cidrs) k x m h = elim (Bool-cases (text_eq c cidr)) [
  | inl e ↦ ground (arith, ap (ip_network true) ((text_eq_iff c cidr).0 e))
  | inr e ↦ elim (Option-cases (ip_network true c)) [
    | inl q ↦ ground arith
    | inr (other, q) ↦ elim (Bool-cases (in_network ip other)) [
      | inl y ↦ ground arith
      | inr y ↦ ip_in_any_complete ip cidr net cidrs (ground arith) x m (ground arith)
    ]
  ]
]

any_in_cidrs_sound :
    (ips : List Address) (cidrs : List Text)
    → any_in_cidrs ips cidrs ≡ ok true
    → (ip : Address) × Among ip ips × (ip_in_any ip cidrs ≡ ok true)
unfolding any_in_cidrs
any_in_cidrs_sound [] cidrs h = cc
any_in_cidrs_sound (ip ∷ ips) cidrs h = elim (Result-cases (ip_in_any ip cidrs)) [
  | inr (e, q) ↦ ground arith
  | inl (true, q) ↦ (ip, here, q)
  | inl (false, q) ↦ let (i, k, m) = any_in_cidrs_sound ips cidrs (ground arith) in (i, there k, m)
]

any_in_cidrs_complete :
    (ip : Address) (ips : List Address) (cidrs : List Text)
    → Among ip ips
    → any_in_cidrs ips cidrs ≡ ok false
    → ip_in_any ip cidrs ≡ ok false
unfolding any_in_cidrs
any_in_cidrs_complete ip [] cidrs k h = elim k [ ]
any_in_cidrs_complete ip (other ∷ ips) cidrs here h = elim (Result-cases (ip_in_any ip cidrs)) [
  | inr (e, q) ↦ ground arith
  | inl (true, q) ↦ ground arith
  | inl (false, q) ↦ q
]
any_in_cidrs_complete ip (other ∷ ips) cidrs (there k) h =
    elim (Result-cases (ip_in_any other cidrs)) [
      | inr (e, q) ↦ ground arith
      | inl (true, q) ↦ ground arith
      | inl (false, q) ↦ any_in_cidrs_complete ip ips cidrs k (ground arith)
    ]

pub listed_sound :
    (list : ScopeList) (host : Text) (resolved : List Text) (reason : Reason)
    → listed list host resolved ≡ ok (some reason)
    → Covers list host (candidates (host ∷ resolved))
unfolding listed
listed_sound list host resolved reason h =
    elim (Bool-cases (is_name host && elem host list.hosts)) [
      | inl a ↦ by_host (ground arith) (ground arith)
      | inr a ↦ elim (Bool-cases (is_name host && matches_any host list.domains)) [
        | inl b ↦
            let (pat, k, m) = matches_any_sound host list.domains (ground arith) in
            by_domain (ground arith) pat k m
        | inr b ↦
            let ips = candidates (host ∷ resolved) in
            elim (Result-cases (any_in_cidrs ips list.cidrs)) [
              | inr (e, q) ↦ ground arith
              | inl (false, q) ↦ ground arith
              | inl (true, q) ↦
                  let (ip, k, m) = any_in_cidrs_sound ips list.cidrs q in
                  let (cidr, net, x, y, z) = ip_in_any_sound ip list.cidrs m in
                  by_cidr ip cidr net k x y z
            ]
      ]
    ]

pub listed_complete :
    (list : ScopeList) (host : Text) (resolved : List Text)
    → listed list host resolved ≡ ok none
    → ¬ Covers list host (candidates (host ∷ resolved))
unfolding listed
listed_complete list host resolved h (by_host a k) = ground arith
listed_complete list host resolved h (by_domain a pat k m) =
    ground (arith, matches_any_complete host pat list.domains k m)
listed_complete list host resolved h (by_cidr ip cidr net i k x m) =
    let ips = candidates (host ∷ resolved) in
    elim (Bool-cases (is_name host && elem host list.hosts)) [
      | inl a ↦ ground arith
      | inr a ↦ elim (Bool-cases (is_name host && matches_any host list.domains)) [
        | inl b ↦ ground arith
        | inr b ↦ elim (Result-cases (any_in_cidrs ips list.cidrs)) [
          | inr (e, q) ↦ ground arith
          | inl (true, q) ↦ ground arith
          | inl (false, q) ↦
              ip_in_any_complete ip cidr net list.cidrs k x m
                (any_in_cidrs_complete ip ips list.cidrs i q)
        ]
      ]
    ]
