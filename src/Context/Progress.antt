-- ===== src/Context/Progress.antt =====
-- recon/modules/base.py, `progress`: the percentage of a progress event. The float of the quotient is
-- taken as the exact one, which it rounds as long as the numbers are below 2 ^ 46.
use recon_platform.Prelude.{
  ℕ, ◌+◌, ◌*◌, ◌/◌, ◌%◌, ◌≤◌, ◌<◌, ltb, ◌==◌, ==_iff, min, ◌≡◌, Bool, true, false, ◌&&◌, ◌||◌,
  Option, none, some, [], ◌∷◌, ◌++◌, if◌then◌else◌, Bool-cases, inl, inr, arith,
}
use recon_platform.Prelude.Text.{Text}
use recon_platform.Context.{Context, progressed}

-- Python's `round(a / b)`: to the nearest integer, and to the even one halfway.
unfoldable pub round_half_even : ℕ → ℕ → ℕ
round_half_even a b =
    let q = a / b in
    let twice = 2 * (a % b) in if ltb b twice || twice == b && q % 2 == 1 then q + 1 else q

abbrev or_zero : Option ℕ → ℕ
or_zero none = 0
or_zero (some n) = n

unfoldable pub percent : Option ℕ → ℕ → ℕ
unfolding round_half_even
percent current total = min 100 (round_half_even (100 * or_zero current) total)

-- A total of 0 is no total.
abbrev total_of : Option ℕ → Option ℕ
total_of none = none
total_of (some n) = if n == 0 then none else some n

abbrev percent_of : Option ℕ → Option ℕ → Option ℕ
percent_of current none = none
percent_of current (some total) = some (percent current total)

-- `progress`
unfoldable pub progress : Text → Option ℕ → Option ℕ → Context → Context
unfolding percent
progress message current total c =
    let given = total_of total in
    record c {
      emitted = c.emitted ++ progressed message current given (percent_of current given) ∷ [];
    }

-- A number is its quotient and its remainder.
quotient : (a b : ℕ) → 0 < b → (a ≡ a / b * b + a % b) × (a % b < b)
quotient a b pos = (grind arith, grind arith)

mul_lt : (x y b : ℕ) → x * b < y * b → x < y
mul_lt x y b h = grind arith

abbrev rounds_up : ℕ → ℕ → ℕ → Bool
rounds_up q b twice = ltb b twice || twice == b && q % 2 == 1

up_ge : (q b twice : ℕ) → rounds_up q b twice ≡ true → b ≤ twice
up_ge q b twice h = ground arith

down_le : (q b twice : ℕ) → rounds_up q b twice ≡ false → twice ≤ b
down_le q b twice h = ground arith

next_mul : (q b : ℕ) → (q + 1) * b ≡ q * b + b
next_mul q b = grind arith

near :
    (a b : ℕ)
    → 0 < b
    → (2 * a ≤ 2 * (round_half_even a b * b) + b) × (2 * (round_half_even a b * b) ≤ 2 * a + b)
unfolding round_half_even
near a b pos =
    let (whole, small) = quotient a b pos in
    elim (Bool-cases (rounds_up (a / b) b (2 * (a % b)))) [
      | inl up ↦
          let half = up_ge (a / b) b (2 * (a % b)) up in
          rw (up, next_mul (a / b) b)
            (omega (arith, whole, small, half), omega (arith, whole, small, half))
      | inr down ↦
          let half = down_le (a / b) b (2 * (a % b)) down in
          rw down (omega (arith, whole, small, half), omega (arith, whole, small, half))
    ]

round-le : (a b n : ℕ) → 0 < b → a ≤ n * b → round_half_even a b ≤ n
round-le a b n pos h =
    let r = round_half_even a b in
    let (_, below) = near a b pos in
    let small : r < n + 1 = mul_lt r (n + 1) b (omega (arith, below, h, next_mul n b)) in
    omega (arith, small)

round_mono : (a a' b : ℕ) → 0 < b → a < a' → round_half_even a b ≤ round_half_even a' b
round_mono a a' b pos h =
    let r' = round_half_even a' b in
    let (_, below) = near a b pos in
    let (above, _) = near a' b pos in
    let small : round_half_even a b < r' + 1 =
      mul_lt (round_half_even a b) (r' + 1) b (omega (arith, below, above, h, next_mul r' b)) in
    omega (arith, small)

percent-round :
    (current total : ℕ)
    → 0 < total
    → current ≤ total
    → percent (some current) total ≡ round_half_even (100 * current) total
unfolding percent
percent-round current total pos within =
    let small = round-le (100 * current) total 100 pos (omega arith) in omega (arith, small)

percent_mono :
    (current more total : ℕ)
    → 0 < total
    → current ≤ more
    → round_half_even (100 * current) total ≤ round_half_even (100 * more) total
percent_mono current more total pos le = elim (Bool-cases (current == more)) [
  | inl same ↦ rw ((==_iff current more).0 same) (omega arith)
  | inr less ↦ round_mono (100 * current) (100 * more) total pos (ground arith)
]

-- With a total that is not 0, the percentage lies between 0 and 100; it is the nearest one to the share
-- that is done, within half a percent of the total, as long as no more than the total is done; and it
-- does not fall when more is done.
pub percent_bounds :
    (current more total : ℕ)
    → 0 < total
    → current ≤ more
    → more ≤ total
    → (percent (some current) total ≤ 100)
      × (2 * (100 * current) ≤ 2 * (percent (some current) total * total) + total)
      × (2 * (percent (some current) total * total) ≤ 2 * (100 * current) + total)
      × (percent (some current) total ≤ percent (some more) total)
unfolding percent
percent_bounds current more total pos le within =
    let (above, below) = near (100 * current) total pos in
    let up = percent_mono current more total pos le in
    let top = round-le (100 * current) total 100 pos (omega arith) in
    rw (percent-round current total pos (omega arith), percent-round more total pos within)
      (top, above, below, up)
