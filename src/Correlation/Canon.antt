-- ===== src/Correlation/Canon.antt =====
-- recon/correlation/engine.py: the canonical forms of values, by which assets are told apart.
-- `urlunsplit` is that of Python 3.12.
pub mod Addresses
use recon_platform.Prelude.{
  ℕ, leb, ltb, ◌==◌, Bool, true, false, ◌&&◌, ◌||◌, not, Option, none, some, List, [], ◌∷◌, ◌++◌,
  take, map, if◌then◌else◌, Result, ok, err, ◌>>=◌,
}
use recon_platform.Prelude.Text.{
  Text, text, text_eq, elem, is_empty, is_space, lower, strip, rstrip_dots, starts_with, cut,
}
use recon_platform.Scope.Ip.{Version, v4, v6, Address, Network, ip_address}
use recon_platform.Scope.Ip.Print.{print_address, print_network, digits}
use recon_platform.Scope.Networks.{ip_network}
use recon_platform.Scope.Urls.{ValueError, Url, urlsplit}
use recon_platform.Targets.{hostname, port_of}
use recon_platform.Correlation.{
  AssetType, domain, subdomain, ip, url, service, email, netblock, organization,
}

-- `_canon_host`
unfoldable pub canon_host : Text → Text
unfolding strip rstrip_dots lower
canon_host value = lower (rstrip_dots (strip value))

-- The zone of an IPv6 address stands behind its number.
with_zone : Text → Option (Text × Text) → Text
with_zone s none = s
with_zone s (some (_, zone)) = s ++ b'%' ∷ zone

-- `str(ipaddress.ip_address(value))`
address_text : Text → Version → Address → Text
unfolding with_zone print_address cut
address_text value v4 a = print_address a
address_text value v6 a = with_zone (print_address a) (cut b'%' value)

canon_address : Text → Option Address → Text
unfolding address_text lower
canon_address value none = lower value
canon_address value (some a) = address_text value a.version a

-- `_canon_ip`
unfoldable pub canon_ip : Text → Text
unfolding canon_address ip_address strip
canon_ip value = canon_address (strip value) (ip_address (strip value))

abbrev default_port : Text → ℕ → Bool
default_port scheme port =
    text_eq scheme (text "http") && port == 80 || text_eq scheme (text "https") && port == 443

abbrev host_port : Text → Text → Option ℕ → Text
host_port scheme host none = host
host_port scheme host (some port) =
    if port == 0 || default_port scheme port then host else host ++ b':' ∷ digits 10 4 port

-- The schemes of `urllib.parse.uses_netloc`.
abbrev uses_netloc : List Text
uses_netloc = map text (
    "ftp" ∷ "http" ∷ "gopher" ∷ "nntp" ∷ "telnet" ∷ "imap" ∷ "wais" ∷ "file" ∷ "mms" ∷ "https"
    ∷ "shttp" ∷ "snews" ∷ "prospero" ∷ "rtsp" ∷ "rtsps" ∷ "rtspu" ∷ "rsync" ∷ "svn" ∷ "svn+ssh"
    ∷ "sftp" ∷ "nfs" ∷ "git" ∷ "git+ssh" ∷ "ws" ∷ "wss" ∷ "itms-services" ∷ [])

abbrev after_authority : Text → Text → Text → Text
after_authority scheme netloc path =
    if not (is_empty netloc)
    then text "//" ++ netloc ++ (if starts_with path (text "/") then path else b'/' ∷ path)
    else if starts_with path (text "//")
    then text "//" ++ path
    else if elem scheme uses_netloc && (is_empty path || starts_with path (text "/"))
    then text "//" ++ path
    else path

-- `urlunsplit` with a scheme and without a fragment.
unfoldable pub urlunsplit : Text → Text → Text → Text → Text
unfolding starts_with elem
urlunsplit scheme netloc path query =
    scheme
    ++ b':' ∷ (after_authority scheme netloc path ++ (if is_empty query then [] else b'?' ∷ query))

canon_parts : Url → Option ℕ → Text
unfolding urlunsplit hostname lower digits text_eq
canon_parts u port =
    let scheme = if is_empty u.scheme then text "http" else lower u.scheme in
    urlunsplit scheme (host_port scheme (lower (hostname u)) port)
      (if is_empty u.path then text "/" else u.path) u.query

-- `_canon_url`
unfoldable pub canon_url : Text → Text
unfolding canon_parts urlsplit port_of strip lower
canon_url raw =
    let value = strip raw in
    let parts = (do u ← urlsplit value; port ← port_of u; ok (canon_parts u port)) in
    elim parts [ ok s ↦ s | err _ ↦ take 1024 (lower value) ]

-- `" ".join(value.split())`
join_words : Bool → Text → Text
join_words gap [] = []
join_words gap (c ∷ s) =
    let rest = join_words (is_space c) s in
    if is_space c then rest else if gap then b' ' ∷ c ∷ rest else c ∷ rest

unfoldable pub collapse_spaces : Text → Text
unfolding join_words strip
collapse_spaces value = join_words false (strip value)

canon_netblock : Text → Option Network → Text
unfolding print_network lower
canon_netblock value none = lower value
canon_netblock value (some net) = print_network net

-- `_canon`
unfoldable pub canon : AssetType → Text → Text
unfolding canon_host canon_ip canon_url canon_netblock collapse_spaces ip_network strip lower
canon domain value = canon_host value
canon subdomain value = canon_host value
canon ip value = canon_ip value
canon url value = canon_url value
canon service value = lower (strip value)
canon email value = lower (strip value)
canon netblock value = canon_netblock (strip value) (ip_network false (strip value))
canon organization value = lower (collapse_spaces value)
canon _ value = strip value
