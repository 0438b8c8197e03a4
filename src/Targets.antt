-- ===== src/Targets.antt =====
-- recon/modules/_targets.py: the forms of a target that a module may act on.
pub mod Forms
pub mod Resolve
pub mod Order
pub mod Eligible
mod Tests
use recon_platform.Prelude.{
  ℕ, zero, suc, ◌+◌, ◌/◌, ◌%◌, leb, ltb, ◌==◌, Bool, true, false, ◌&&◌, ◌||◌, not, Option, none,
  some, List, [], ◌∷◌, ◌++◌, length, all, any, if◌then◌else◌, Result, ok, err, ◌>>=◌,
}
use recon_platform.Prelude.Text.{
  Text, text, text_eq, is_empty, is_alpha, is_digit, is_numeric, decimal_from, lower, strip,
  starts_with, has_char, cut, after_last, before_first,
}
use recon_platform.Scope.Ip.{v4, v6, Network}
use recon_platform.Scope.Networks.{ip_network}
use recon_platform.Scope.Urls.{ValueError, value_error, Url, urlsplit}

abbrev is_edge : ℕ → Bool
is_edge c = c == b'-' || c == b'.'

abbrev pub host_char : ℕ → Bool
host_char c = is_alpha c || is_digit c || c == b'_' || is_edge c

last_edge : Text → Bool
last_edge [] = false
last_edge (c ∷ []) = is_edge c
last_edge (c ∷ d ∷ s) = last_edge (d ∷ s)

abbrev first_edge : Text → Bool
first_edge [] = false
first_edge (c ∷ _) = is_edge c

-- `_HOSTNAME_RE`
unfoldable pub is_hostname : Text → Bool
unfolding last_edge
is_hostname s =
    leb 1 (length s)
    && leb (length s) 253
    && all host_char s
    && not (first_edge s)
    && not (last_edge s)

abbrev pub narrow : Network → Bool
narrow net = elim net.first.version [ v4 ↦ leb 24 net.prefixlen | v6 ↦ leb 120 net.prefixlen ]

unfoldable pub safe_form : Option Network → Text → Bool
unfolding is_hostname
safe_form none s = is_hostname s
safe_form (some net) s = narrow net

-- `is_safe_target`
unfoldable pub is_safe_target : Text → Bool
unfolding safe_form strip ip_network
is_safe_target value =
    let s = strip value in
    if is_empty s || starts_with s (text "-") then false else safe_form (ip_network false s) s

-- The host and the port of an authority, as texts.
host_info : Text → Option (Text × Text) → Text × Text
host_info info (some (_, bracketed)) = elim (cut b']' bracketed) [
  | none ↦ (bracketed, [])
  | some (host, tail) ↦ elim (cut b':' tail) [ none ↦ (host, []) | some (_, port) ↦ (host, port) ]
]
host_info info none = elim (cut b':' info) [ none ↦ (info, []) | some (host, port) ↦ (host, port) ]

abbrev split_info : Text → Text × Text
split_info netloc = let info = after_last b'@' netloc in host_info info (cut b'[' info)

lower_host : Text → Option (Text × Text) → Text
unfolding lower
lower_host host none = lower host
lower_host host (some (before, zone)) = lower before ++ b'%' ∷ zone

-- `parts.hostname`, empty for None.
unfoldable pub hostname : Url → Text
unfolding host_info lower_host
hostname u = let host = (split_info u.netloc).0 in lower_host host (cut b'%' host)

-- `parts.port`
unfoldable pub port_of : Url → Result ValueError (Option ℕ)
unfolding host_info
port_of u =
    let port = (split_info u.netloc).1 in
    if is_empty port
    then ok none
    else if is_numeric port && leb (decimal_from 0 port) 65535
    then ok (some (decimal_from 0 port))
    else err value_error

abbrev pub is_http : Text → Bool
is_http scheme = text_eq scheme (text "http") || text_eq scheme (text "https")

-- A character that a shell or a terminal reads.
abbrev pub is_special : ℕ → Bool
is_special c =
    c == 32
    || c == 9
    || c == 10
    || c == 13
    || c == b'`'
    || c == b'$'
    || c == b'|'
    || c == b';'
    || c == b'&'

-- `safe_url_root`
unfoldable pub safe_url_root : Text → Bool
unfolding urlsplit hostname is_safe_target
safe_url_root value = elim (urlsplit value) [
  | err _ ↦ false
  | ok u ↦
      is_http u.scheme
      && not (is_empty (hostname u))
      && not (any is_special value)
      && is_safe_target (hostname u)
]

-- `str(n)`, where `fuel` bounds the number of digits.
decimal : ℕ → ℕ → Text
decimal zero n = []
decimal (suc fuel) n =
    let higher = decimal fuel (n / 10) in
    (if n == n % 10 then [] else higher) ++ (b'0' + n % 10) ∷ []

abbrev with_port : Text → Option ℕ → Text
with_port host none = host
with_port host (some port) = if port == 0 then host else host ++ b':' ∷ decimal 5 port

-- `normalize_url_root`: the host without its brackets, and the port, unless it is 0.
unfoldable pub normalize_url_root : Text → Result ValueError Text
unfolding urlsplit hostname port_of decimal lower
normalize_url_root value = do
  u ← urlsplit value
  port ← port_of u
  ok (lower u.scheme ++ text "://" ++ with_port (hostname u) port ++ text "/")
