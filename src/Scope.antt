-- ===== src/Scope.antt =====
-- recon/core/scope.py: the classification of a target against the rules of engagement, and the
-- window in which a scan is authorised; the advisories on the rules are in Roe/Lint. ValueError is a
-- value. Python's `urlsplit` is in Scope/Urls, its `ipaddress` in Scope/Ip and Scope/Networks.
pub mod Ip
pub mod Networks
pub mod Urls
pub mod Covers
pub mod Verdict
pub mod Names
pub mod Tests
use recon_platform.Prelude.{
  ℕ, zero, suc, ltb, ◌==◌, Bool, true, false, ◌&&◌, ◌||◌, not, Option, none, some, List, [], ◌∷◌,
  ◌++◌, length, drop, if◌then◌else◌, Result, ok, err, ◌>>=◌,
}
use recon_platform.Prelude.Text.{
  Text, text, text_eq, elem, is_empty, lower, strip, rstrip_dots, starts_with, ends_with, has_text,
  has_char, count_char, cut, before_first, after_last, is_numeric,
}
use recon_platform.Scope.Ip.{Address, Network, ip_address}
use recon_platform.Scope.Networks.{ip_network, in_network}
use recon_platform.Scope.Urls.{Url, ValueError, value_error, urlsplit}

pub data ScopeStatus : Type 0 where
  in_scope flagged excluded not_applicable : ScopeStatus

pub data WindowStatus : Type 0 where
  within before_window after_window no_window : WindowStatus

pub record ScopeList : Type 0 where
  pub domains : List Text
  pub cidrs : List Text
  pub hosts : List Text

-- The rules of engagement, `roe.scope`.
pub record Rules : Type 0 where
  pub allowed : ScopeList
  pub barred : ScopeList

pub data Reason : Type 0 where
  listed_host pattern_match cidr_match no_match : Reason

pub record ScopeDecision : Type 0 where
  pub status : ScopeStatus
  pub target : Text
  pub host : Text
  pub reason : Reason

-- The URL's authority, or its path without one.
unfoldable pub authority : Text → Result ValueError Text
unfolding urlsplit
authority t =
    if has_text t (text "://")
    then (do u ← urlsplit t; ok (if is_empty u.netloc then u.path else u.netloc))
    else ok t

-- `host:port`; a bare IPv6 address has more colons.
drop_port : Option (Text × Text) → Text → Text
drop_port none t = t
drop_port (some (left, right)) t = if is_numeric right then left else t

-- The last line of `extract_host`.
unfoldable pub bare_host : Text → Text
unfolding strip rstrip_dots lower before_first
bare_host t = lower (rstrip_dots (strip (before_first b'/' t)))

unfoldable pub host_of : Text → Result ValueError Text
unfolding drop_port bare_host
host_of t =
    if starts_with t (b'[' ∷ [])
    then elim (cut b']' (drop 1 t)) [ none ↦ err value_error | some (inner, _) ↦ ok (lower inner) ]
    else ok (bare_host (if count_char b':' t == 1 then drop_port (cut b':' t) t else t))

-- `extract_host`
unfoldable pub extract_host : Text → Result ValueError Text
unfolding authority host_of strip after_last
extract_host target = do t ← authority (strip target); host_of (after_last b'@' t)

-- `_host_matches_pattern`
unfoldable pub host_matches_pattern : Text → Text → Bool
unfolding rstrip_dots lower text_eq
host_matches_pattern host pattern =
    let h = lower (rstrip_dots host) in
    let p = lower (rstrip_dots pattern) in
    if starts_with p (text "*.") then ends_with h (b'.' ∷ drop 2 p) else text_eq h p

-- The loop over the patterns.
unfoldable pub matches_any : Text → List Text → Bool
unfolding host_matches_pattern
matches_any host [] = false
matches_any host (pat ∷ pats) = host_matches_pattern host pat || matches_any host pats

-- `_ip_in_any`
unfoldable pub ip_in_any : Address → List Text → Result ValueError Bool
unfolding ip_network
ip_in_any ip [] = ok false
ip_in_any ip (cidr ∷ cidrs) =
    let rest = ip_in_any ip cidrs in
    elim (ip_network true cidr) [
      | none ↦ err value_error
      | some net ↦ if in_network ip net then ok true else rest
    ]

-- The loop over the candidates.
unfoldable pub any_in_cidrs : List Address → List Text → Result ValueError Bool
unfolding ip_in_any
any_in_cidrs [] cidrs = ok false
any_in_cidrs (ip ∷ ips) cidrs =
    let rest = any_in_cidrs ips cidrs in do hit ← ip_in_any ip cidrs; if hit then ok true else rest

abbrev with_ip : Option Address → List Address → List Address
with_ip none ips = ips
with_ip (some ip) ips = ip ∷ ips

unfoldable pub candidates : List Text → List Address
unfolding ip_address
candidates [] = []
candidates (t ∷ ts) = with_ip (ip_address t) (candidates ts)

abbrev is_none {ℓ} : {A : Type ℓ} → Option A → Bool
is_none none = true
is_none (some _) = false

-- The host is no IP address.
unfoldable pub is_name : Text → Bool
unfolding ip_address
is_name host = is_none (ip_address host)

-- What `classify` asks of one of the two lists: the reason of the first match.
unfoldable pub listed : ScopeList → Text → List Text → Result ValueError (Option Reason)
unfolding matches_any any_in_cidrs candidates is_name elem
listed list host resolved =
    let named = is_name host in
    if named && elem host list.hosts
    then ok (some listed_host)
    else if named && matches_any host list.domains
    then ok (some pattern_match)
    else do
      hit ← any_in_cidrs (candidates (host ∷ resolved)) list.cidrs
      ok (if hit then some cidr_match else none)

abbrev verdict : ScopeStatus → Text → Text → Reason → ScopeDecision
verdict status target host reason = record {
  status = status;
  target = target;
  host = host;
  reason = reason;
}

-- The verdict without an exclusion: by the match in the lists in scope, if there is one.
abbrev allowed_verdict : Text → Text → Option Reason → ScopeDecision
allowed_verdict target host found = record {
  status = elim found [ none ↦ flagged | some _ ↦ in_scope ];
  target = target;
  host = host;
  reason = elim found [ none ↦ no_match | some reason ↦ reason ];
}

-- `classify`
unfoldable pub classify : Rules → Text → List Text → Result ValueError ScopeDecision
unfolding extract_host listed
classify roe target resolved = do
  host ← extract_host target
  barred ← listed roe.barred host resolved
  elim barred [
    | some reason ↦ ok (verdict excluded target host reason)
    | none ↦ listed roe.allowed host resolved >>= λ found. ok (allowed_verdict target host found)
  ]

-- The window: its first and its last instant.
pub record AuthorizedWindow : Type 0 where
  pub start : ℕ
  pub end : ℕ
  pub hard : Bool

-- `check_window`, where `now` is given.
unfoldable pub check_window : Option AuthorizedWindow → ℕ → WindowStatus
check_window none now = no_window
check_window (some w) now =
    if ltb now w.start then before_window else if ltb w.end now then after_window else within
