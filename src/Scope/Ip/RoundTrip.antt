-- ===== src/Scope/Ip/RoundTrip.antt =====
-- The text of an IPv4 address is read back as the address.
use recon_platform.Prelude.{
  ℕ, Bool-cases, inl, inr, zero, suc, ◌/◌, ◌%◌, ◌^◌, ◌≤◌, ◌<◌, ◌==◌, ==_iff, ◌≡◌, refl, ap, Bool,
  true, false, ◌&&◌, Option, none, some, List, [], ◌∷◌, all, arith,
}
use recon_platform.Prelude.Text.{Text, is_digit, is_numeric, decimal_from, split}
use recon_platform.Prelude.Text.Split.{IsFree, split-free, split-append}
use recon_platform.Scope.Ip.{parse_v4, parse_octet, four}
use recon_platform.Scope.Ip.Print.{print_octet, print_v4}

-- Every octet passes the test.
passes : (ℕ → Bool) → ℕ → Bool
passes test zero = true
passes test (suc count) = passes test count && test count

passes_each :
    (test : ℕ → Bool) (count : ℕ) {o : ℕ} → passes test count ≡ true → o < count → test o ≡ true
unfolding passes
passes_each test zero all_pass small = absurd (omega arith)
passes_each test (suc count) {o} all_pass small = elim (Bool-cases (o == count)) [
  | inl last ↦ rw ((==_iff o count).0 last) (ground arith)
  | inr before ↦ passes_each test count (ground arith) (ground arith)
]

is_value : ℕ → Option ℕ → Bool
is_value n none = false
is_value n (some m) = m == n

abbrev reads_back : ℕ → Bool
reads_back o = is_value o (parse_octet (print_octet o)) && all is_digit (print_octet o)

octet_table : passes reads_back 256 ≡ true
unfolding passes is_value parse_octet print_octet is_numeric decimal_from
octet_table = refl

is_value_sound : (n : ℕ) (o : Option ℕ) → is_value n o ≡ true → o ≡ some n
unfolding is_value
is_value_sound n none h = cc
is_value_sound n (some m) h = ap some ((==_iff m n).0 h)

and_parts : (a b : Bool) → (a && b) ≡ true → (a ≡ true) × (b ≡ true)
and_parts a b h = ground arith

octet_lem :
    (o : ℕ)
    → o < 256
    → (parse_octet (print_octet o) ≡ some o) × (all is_digit (print_octet o) ≡ true)
octet_lem o h =
    let (value, plain) = and_parts _ _ (passes_each reads_back 256 octet_table h) in
    (is_value_sound o _ value, plain)

-- No digit is a dot.
digits-IsFree : (s : Text) → all is_digit s ≡ true → IsFree b'.' s
digits-IsFree [] h = refl
digits-IsFree (c ∷ s) h = ground (arith, digits-IsFree s)

octet-IsFree : (o : ℕ) → o < 256 → IsFree b'.' (print_octet o)
octet-IsFree o h = digits-IsFree (print_octet o) (octet_lem o h).1

split-print_v4 :
    (n : ℕ)
    → n < 2 ^ 32
    → split b'.' (print_v4 n)
      ≡ print_octet (n / 256 / 256 / 256)
        ∷ print_octet (n / 256 / 256 % 256)
        ∷ print_octet (n / 256 % 256)
        ∷ print_octet (n % 256)
        ∷ []
unfolding print_v4
split-print_v4 n h =
    let a = n / 256 / 256 / 256 in
    let b = n / 256 / 256 % 256 in
    let c = n / 256 % 256 in
    let d = n % 256 in
    rw
      (
        split-append b'.' (print_octet a) _ (octet-IsFree a (omega arith)),
        split-append b'.' (print_octet b) _ (octet-IsFree b (omega arith)),
        split-append b'.' (print_octet c) _ (octet-IsFree c (omega arith)),
        split-free b'.' (print_octet d) (octet-IsFree d (omega arith)),
      )
      refl

pub parse_v4-print_v4 : (n : ℕ) → n < 2 ^ 32 → parse_v4 (print_v4 n) ≡ some n
unfolding parse_v4 four
parse_v4-print_v4 n h =
    rw
      (
        split-print_v4 n h,
        four,
        (octet_lem (n / 256 / 256 / 256) (omega arith)).0,
        (octet_lem (n / 256 / 256 % 256) (omega arith)).0,
        (octet_lem (n / 256 % 256) (omega arith)).0,
        (octet_lem (n % 256) (omega arith)).0,
      )
      (ap some (omega arith))

-- What is read is below 2 ^ 32.
octet_bound : (s : Text) {n : ℕ} → parse_octet s ≡ some n → n ≤ 255
unfolding parse_octet
octet_bound s h = ground arith

four_bound : (parts : List Text) {n : ℕ} → four parts ≡ some n → n < 2 ^ 32
unfolding four
four_bound (a ∷ b ∷ c ∷ d ∷ []) h =
    ground (arith, octet_bound a, octet_bound b, octet_bound c, octet_bound d)
four_bound _ h = ground arith

pub parse_v4_bound : (s : Text) {n : ℕ} → parse_v4 s ≡ some n → n < 2 ^ 32
unfolding parse_v4
parse_v4_bound s h = four_bound (split b'.' s) h

pub digits-print_octet : (o : ℕ) → o < 256 → all is_digit (print_octet o) ≡ true
digits-print_octet o h = (octet_lem o h).1
