-- ===== src/Prelude/Text.antt =====
-- Text that the program walks: its code points as numbers, with the methods of Python's `str` that
-- the program calls. Names and ids, which it only compares, are native strings. The letters are
-- those of ASCII; other characters keep their case.
pub mod Split
pub mod Strip
use Prim.Native.Nat.{ℕ, ◌+◌, ◌-◌, ◌*◌}
use Prim.Native.Char.{code}
use Prim.Native.String.{String}
use mathlib.Core.Path.{◌≡◌}
use mathlib.Core.Logic.{◌↔◌}
use mathlib.Core.Bool.{Bool, true, false, ◌&&◌, ◌||◌}
use mathlib.Core.Option.{Option, none, some}
use mathlib.Core.List.{List, [], ◌∷◌, map}
use native.Mathlib.Omega.{arith}
use recon_platform.Prelude.Tests.{◌==◌, leb, if◌then◌else◌}

abbrev pub Text : Type 0
Text = List ℕ

-- A literal.
abbrev pub text : String → Text
text String.[] = []
text (String.◌∷◌ c s) = code c ∷ text s

unfoldable pub text_eq : Text → Text → Bool
text_eq [] [] = true
text_eq [] (_ ∷ _) = false
text_eq (_ ∷ _) [] = false
text_eq (a ∷ s) (b ∷ t) = a == b && text_eq s t

pub text_eq_iff : (s t : Text) → (text_eq s t ≡ true) ↔ (s ≡ t)
unfolding text_eq
text_eq_iff [] [] = ground arith
text_eq_iff [] (_ ∷ _) = ground arith
text_eq_iff (_ ∷ _) [] = ground arith
text_eq_iff (a ∷ s) (b ∷ t) = ground (arith, text_eq_iff s t)

abbrev pub is_empty {ℓ} : {A : Type ℓ} → List A → Bool
is_empty [] = true
is_empty (_ ∷ _) = false

-- `t in names`
unfoldable pub elem : Text → List Text → Bool
elem t [] = false
elem t (s ∷ names) = text_eq s t || elem t names

abbrev pub between : ℕ → ℕ → ℕ → Bool
between lo hi c = leb lo c && leb c hi

unfoldable pub is_space : ℕ → Bool
is_space c =
    between 9 13 c
    || between 28 32 c
    || c == 0x85
    || c == 0xa0
    || c == 0x1680
    || between 0x2000 0x200a c
    || c == 0x2028
    || c == 0x2029
    || c == 0x202f
    || c == 0x205f
    || c == 0x3000

abbrev pub is_digit : ℕ → Bool
is_digit c = between b'0' b'9' c

abbrev pub is_lower : ℕ → Bool
is_lower c = between b'a' b'z' c

abbrev pub is_upper : ℕ → Bool
is_upper c = between b'A' b'Z' c

abbrev pub is_alpha : ℕ → Bool
is_alpha c = is_lower c || is_upper c

unfoldable pub lower_char : ℕ → ℕ
lower_char c = if is_upper c then c + 32 else c

unfoldable pub lower : Text → Text
unfolding lower_char
lower = map lower_char

unfoldable pub lstrip_if : (ℕ → Bool) → Text → Text
lstrip_if p [] = []
lstrip_if p (c ∷ s) = if p c then lstrip_if p s else c ∷ s

unfoldable pub rstrip_if : (ℕ → Bool) → Text → Text
rstrip_if p [] = []
rstrip_if p (c ∷ s) = let rest = rstrip_if p s in if is_empty rest && p c then [] else c ∷ rest

unfoldable pub strip : Text → Text
unfolding lstrip_if rstrip_if is_space
strip s = rstrip_if is_space (lstrip_if is_space s)

-- `s.rstrip(".")`
unfoldable pub rstrip_dots : Text → Text
unfolding rstrip_if
rstrip_dots s = rstrip_if (λ c. c == b'.') s

unfoldable pub starts_with : Text → Text → Bool
starts_with s [] = true
starts_with [] (_ ∷ _) = false
starts_with (c ∷ s) (d ∷ t) = c == d && starts_with s t

unfoldable pub ends_with : Text → Text → Bool
unfolding text_eq
ends_with [] t = text_eq [] t
ends_with (c ∷ s) t = text_eq (c ∷ s) t || ends_with s t

-- `t in s`
unfoldable pub has_text : Text → Text → Bool
unfolding starts_with
has_text [] t = starts_with [] t
has_text (c ∷ s) t = starts_with (c ∷ s) t || has_text s t

unfoldable pub has_char : ℕ → Text → Bool
has_char d [] = false
has_char d (c ∷ s) = c == d || has_char d s

unfoldable pub count_char : ℕ → Text → ℕ
count_char d [] = 0
count_char d (c ∷ s) = (if c == d then 1 else 0) + count_char d s

-- `s.partition(d)`, without the separator; `none` if it is not there.
unfoldable pub cut : ℕ → Text → Option (Text × Text)
cut d [] = none
cut d (c ∷ s) =
    let rest = cut d s in
    if c == d
    then some ([], s)
    else elim rest [ none ↦ none | some (before, after) ↦ some (c ∷ before, after) ]

-- `s.split(d)`: the first part, and the parts behind it.
split_first : ℕ → Text → Text × List Text
split_first d [] = ([], [])
split_first d (c ∷ s) =
    let (part, parts) = split_first d s in if c == d then ([], part ∷ parts) else (c ∷ part, parts)

unfoldable pub split : ℕ → Text → List Text
unfolding split_first
split d s = let (part, parts) = split_first d s in part ∷ parts

-- `s.split(d, 1)[0]`
unfoldable pub before_first : ℕ → Text → Text
before_first d [] = []
before_first d (c ∷ s) = if c == d then [] else c ∷ before_first d s

-- `s.rsplit(d, 1)[1]`, and `s` if `d` is not there.
unfoldable pub after_last : ℕ → Text → Text
unfolding has_char
after_last d [] = []
after_last d (c ∷ s) =
    let rest = after_last d s in if has_char d s then rest else if c == d then s else c ∷ s

unfoldable pub all_digits : Text → Bool
all_digits [] = true
all_digits (c ∷ s) = is_digit c && all_digits s

-- `s.isdigit()`
unfoldable pub is_numeric : Text → Bool
unfolding all_digits
is_numeric [] = false
is_numeric (c ∷ s) = all_digits (c ∷ s)

unfoldable pub decimal_from : ℕ → Text → ℕ
decimal_from n [] = n
decimal_from n (c ∷ s) = decimal_from (n * 10 + (c - b'0')) s
