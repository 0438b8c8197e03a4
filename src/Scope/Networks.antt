-- ===== src/Scope/Networks.antt =====
-- Python's `ipaddress.ip_network` and `ip in net`. `none` stands for ValueError.
use recon_platform.Prelude.{
  ℕ, zero, suc, ◌-◌, ◌*◌, ◌/◌, ◌^◌, leb, ◌==◌, Bool, ◌&&◌, not, Option, none, some, List, [], ◌∷◌,
  if◌then◌else◌,
}
use recon_platform.Prelude.Text.{Text, is_numeric, decimal_from, split}
use recon_platform.Scope.Ip.{
  Version, v4, v6, same_version, width, Address, Network, ip_address, parse_v4,
}

-- The address with its bits behind the first `p` cleared.
abbrev pub network_address : ℕ → Address → Address
network_address p a =
    let block = 2 ^ (width a.version - p) in
    record { version = a.version; number = a.number / block * block }

-- The prefix whose netmask, or whose host mask, is `m`: the first of those that are left.
mask_prefix : (ℕ → ℕ) → ℕ → ℕ → Option ℕ
mask_prefix mask m zero = none
mask_prefix mask m (suc left) =
    let rest = mask_prefix mask m left in if mask (32 - left) == m then some (32 - left) else rest

abbrev netmask : ℕ → ℕ
netmask p = 2 ^ 32 - 2 ^ (32 - p)

abbrev hostmask : ℕ → ℕ
hostmask p = 2 ^ (32 - p) - 1

unfoldable pub prefix_of : Version → Text → Option ℕ
unfolding mask_prefix
prefix_of v s =
    if is_numeric s && leb (decimal_from 0 s) (width v) then some (decimal_from 0 s) else elim v [
      | v6 ↦ none
      | v4 ↦ elim (parse_v4 s) [
        | none ↦ none
        | some m ↦ elim (mask_prefix netmask m 33) [
          | some p ↦ some p
          | none ↦ mask_prefix hostmask m 33
        ]
      ]
    ]

abbrev network_of : Bool → Address → Option ℕ → Option Network
network_of strict a none = none
network_of strict a (some p) =
    let base = network_address p a in
    if strict && not (base.number == a.number)
    then none
    else some (record { first = base; prefixlen = p })

network_from : Bool → List Text → Option Network
unfolding prefix_of
network_from strict (s ∷ []) = elim (ip_address s) [
  | none ↦ none
  | some a ↦ network_of strict a (some (width a.version))
]
network_from strict (s ∷ mask ∷ []) = elim (ip_address s) [
  | none ↦ none
  | some a ↦ network_of strict a (prefix_of a.version mask)
]
network_from strict _ = none

-- `ipaddress.ip_network(s, strict)`
unfoldable pub ip_network : Bool → Text → Option Network
unfolding network_from
ip_network strict s = network_from strict (split b'/' s)

-- `ip.version == net.version and ip in net`
abbrev pub in_network : Address → Network → Bool
in_network a net =
    same_version a.version net.first.version
    && (network_address net.prefixlen a).number == net.first.number
