-- ===== src/Scope/Urls.antt =====
-- Python's `urlsplit`: scheme, authority, path and query, and the host and the port of the authority.
-- The authority holds ASCII only, so that its normal form needs no check.
use recon_platform.Prelude.{
  ℕ, leb, ◌==◌, Bool, true, false, ◌&&◌, ◌||◌, not, Option, none, some, [], ◌∷◌, drop, keep,
  if◌then◌else◌, Result, ok, err,
}
use recon_platform.Prelude.Text.{
  Text, text, is_alpha, is_digit, lower, lstrip_if, starts_with, has_char, cut, before_first,
}
use recon_platform.Scope.Ip.{Address, v4, v6, ip_address}

pub data ValueError : Type 0 where
  value_error : ValueError

pub record Url : Type 0 where
  pub scheme : Text
  pub netloc : Text
  pub path : Text
  pub query : Text

abbrev scheme_char : ℕ → Bool
scheme_char c = is_alpha c || is_digit c || c == b'+' || c == b'-' || c == b'.'

scheme_text : Text → Bool
scheme_text [] = true
scheme_text (c ∷ s) = scheme_char c && scheme_text s

abbrev head_alpha : Text → Bool
head_alpha [] = false
head_alpha (c ∷ _) = is_alpha c

-- The scheme, and what stands behind its colon.
scheme_of : Text → Option (Text × Text) → Text × Text
unfolding scheme_text lower
scheme_of s none = ([], s)
scheme_of s (some (scheme, rest)) =
    if head_alpha scheme && scheme_text scheme then (lower scheme, rest) else ([], s)

abbrev ends_netloc : ℕ → Bool
ends_netloc c = c == b'/' || c == b'?' || c == b'#'

split_netloc : Text → Text × Text
split_netloc [] = ([], [])
split_netloc (c ∷ s) =
    let (net, rest) = split_netloc s in if ends_netloc c then ([], c ∷ s) else (c ∷ net, rest)

abbrev path_of : Text → Text
path_of s = before_first b'?' (before_first b'#' s)

abbrev query_of : Text → Text
query_of s = elim (cut b'?' (before_first b'#' s)) [ none ↦ [] | some (_, query) ↦ query ]

abbrev is_v6 : Option Address → Bool
is_v6 none = false
is_v6 (some a) = elim a.version [ v4 ↦ false | v6 ↦ true ]

-- The text between the brackets is an IPv6 address. The future forms `[v1.x]` are not read.
brackets_ok : Text → Bool
unfolding ip_address
brackets_ok net =
    let opened = has_char b'[' net in
    let closed = has_char b']' net in
    if opened && closed
    then elim (cut b'[' net) [
      | none ↦ false
      | some (_, inner) ↦ is_v6 (ip_address (before_first b']' inner))
    ]
    else not (opened || closed)

unfoldable pub urlsplit : Text → Result ValueError Url
unfolding scheme_of split_netloc brackets_ok
urlsplit url =
    let clean = keep (λ c. not (c == 9 || c == 10 || c == 13)) (lstrip_if (λ c. leb c 32) url) in
    let (scheme, rest) = scheme_of clean (cut b':' clean) in
    let (net, tail) = split_netloc (drop 2 rest) in
    if starts_with rest (text "//")
    then (if brackets_ok net
        then ok
            (record { scheme = scheme; netloc = net; path = path_of tail; query = query_of tail })
        else err value_error)
    else ok (record { scheme = scheme; netloc = []; path = path_of rest; query = query_of rest })
