-- ===== src/Scope/Ip.antt =====
-- Python's `ipaddress`, as far as recon/core/scope.py and recon/core/roe.py call it: the parsing of
-- addresses and networks. An address is its version and its number. `none` stands for ValueError.
pub mod Print
pub mod RoundTrip
use recon_platform.Prelude.{
  ℕ, ◌+◌, ◌-◌, ◌*◌, ◌/◌, ◌^◌, ltb, leb, ◌==◌, Bool, true, false, ◌&&◌, ◌||◌, not, Option, none,
  some, List, [], ◌∷◌, length, if◌then◌else◌,
}
use recon_platform.Prelude.Text.{
  Text, is_digit, is_empty, is_numeric, decimal_from, between, has_char, split, cut,
}

pub data Version : Type 0 where
  v4 v6 : Version

abbrev pub same_version : Version → Version → Bool
same_version v4 v4 = true
same_version v6 v6 = true
same_version _ _ = false

-- The bits of an address.
abbrev pub width : Version → ℕ
width v4 = 32
width v6 = 128

pub record Address : Type 0 where
  pub version : Version
  pub number : ℕ

-- A network: its first address, and the bits that its addresses share.
pub record Network : Type 0 where
  pub first : Address
  pub prefixlen : ℕ

infixl 5 ◌>>=◌
abbrev ◌>>=◌ {ℓ κ} : {A : Type ℓ} {B : Type κ} → Option A → (A → Option B) → Option B
o >>= f = elim o [ none ↦ none | some a ↦ f a ]

abbrev zero_led : Text → Bool
zero_led (c ∷ _ ∷ _) = c == b'0'
zero_led _ = false

parse_octet : Text → Option ℕ
parse_octet s =
    if is_numeric s && leb (length s) 3 && not (zero_led s) && leb (decimal_from 0 s) 255
    then some (decimal_from 0 s)
    else none

four : List Text → Option ℕ
unfolding parse_octet
four (a ∷ b ∷ c ∷ d ∷ []) = do
  w ← parse_octet a
  x ← parse_octet b
  y ← parse_octet c
  z ← parse_octet d
  some (((w * 256 + x) * 256 + y) * 256 + z)
four _ = none

unfoldable pub parse_v4 : Text → Option ℕ
unfolding four
parse_v4 s = four (split b'.' s)

abbrev hex_digit : ℕ → Option ℕ
hex_digit c =
    if is_digit c
    then some (c - b'0')
    else if between b'a' b'f' c
    then some (c - b'a' + 10)
    else if between b'A' b'F' c
    then some (c - b'A' + 10)
    else none

hex_from : ℕ → Text → Option ℕ
hex_from n [] = some n
hex_from n (c ∷ s) = let rest = λ (d : ℕ). hex_from (n * 16 + d) s in hex_digit c >>= rest

parse_hextet : Text → Option ℕ
unfolding hex_from
parse_hextet s = if is_empty s || ltb 4 (length s) then none else hex_from 0 s

-- The parts, with a last part in the form of an IPv4 address as two hextets, given by their numbers.
pub data Part : Type 0 where
  hextet : Text → Part
  number : ℕ → Part

parts_of : List Text → Option (List Part)
unfolding parse_v4
parts_of [] = some []
parts_of (p ∷ []) =
    if has_char b'.' p
    then (do n ← parse_v4 p; some (number (n / 65536) ∷ number (n - n / 65536 * 65536) ∷ []))
    else some (hextet p ∷ [])
parts_of (p ∷ q ∷ ps) = let rest = parts_of (q ∷ ps) in do more ← rest; some (hextet p ∷ more)

abbrev blank : Part → Bool
blank (hextet s) = is_empty s
blank (number _) = false

part_number : Part → Option ℕ
unfolding parse_hextet
part_number (hextet s) = parse_hextet s
part_number (number n) = some n

numbers_from : ℕ → List Part → Option ℕ
unfolding part_number
numbers_from n [] = some n
numbers_from n (p ∷ ps) = do h ← part_number p; numbers_from (n * 65536 + h) ps

-- The parts before and behind the first blank part that has a part on either side.
skip_at : List Part → Option (List Part × List Part)
skip_at [] = none
skip_at (p ∷ []) = none
skip_at (p ∷ q ∷ ps) =
    let rest = skip_at (q ∷ ps) in
    if blank q && not (is_empty ps)
    then some (p ∷ [], ps)
    else elim rest [ none ↦ none | some (hi, lo) ↦ some (p ∷ hi, lo) ]

-- A part that is blank may only stand alone there: `::1`, `1::`.
ends_hi : List Part → Option (List Part)
ends_hi (p ∷ []) = if blank p then some [] else some (p ∷ [])
ends_hi (p ∷ ps) = if blank p then none else some (p ∷ ps)
ends_hi [] = some []

last_blank : List Part → Bool
last_blank [] = false
last_blank (p ∷ []) = blank p
last_blank (p ∷ q ∷ ps) = last_blank (q ∷ ps)

ends_lo : List Part → Option (List Part)
unfolding last_blank
ends_lo (p ∷ []) = if blank p then some [] else some (p ∷ [])
ends_lo ps = if last_blank ps then none else some ps

join_parts : List Part → Option (List Part × List Part) → Option ℕ
unfolding numbers_from ends_hi ends_lo skip_at
join_parts ps none = if length ps == 8 then numbers_from 0 ps else none
join_parts ps (some (before, behind)) = do
  hi ← ends_hi before
  lo ← ends_lo behind
  h ← numbers_from 0 hi
  l ← numbers_from 0 lo
  if leb (length hi + length lo) 7 then some (h * 65536 ^ (8 - length hi) + l) else none

-- A zone behind `%` must not be empty or hold another `%`.
zone_ok : Option (Text × Text) → Bool
zone_ok none = true
zone_ok (some (_, zone)) = not (is_empty zone) && not (has_char b'%' zone)

before_zone : Text → Option (Text × Text) → Text
before_zone s none = s
before_zone s (some (before, _)) = before

unfoldable pub parse_v6 : Text → Option ℕ
unfolding join_parts skip_at parts_of zone_ok before_zone
parse_v6 s =
    let whole = cut b'%' s in
    let texts = split b':' (before_zone s whole) in
    if not (zone_ok whole) || ltb (length texts) 3
    then none
    else do ps ← parts_of texts; if ltb 9 (length ps) then none else join_parts ps (skip_at ps)

-- `ipaddress.ip_address`
unfoldable pub ip_address : Text → Option Address
unfolding parse_v4 parse_v6
ip_address s = elim (parse_v4 s) [
  | some n ↦ some (record { version = v4; number = n })
  | none ↦ do
    n ← (if has_char b'/' s then none else parse_v6 s)
    some (record { version = v6; number = n })
]
