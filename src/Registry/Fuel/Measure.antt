-- ===== src/Registry/Fuel/Measure.antt =====
-- The measure of registry.py's recursions, how many names a set lacks, and loops that raise not.
use recon_platform.Prelude.{
  ℕ, ◌+◌, ◌≤◌, ◌<◌, ◌≡◌, ◌≢◌, inl, inr, String, eq_iff, str_eq, false, List, [], ◌∷◌, ok, err,
  Result, arith, All, length, >>=-eq-err, Bool-cases, if◌then◌else◌,
}
use recon_platform.Prelude.Names.{contains, for_each}
use recon_platform.Registry.{}
use recon_platform.Registry.Pull.{Has}

-- How many of the names are not in the set.
pub fresh : List String → List String → ℕ
fresh [] w = 0
fresh (x ∷ xs) w = (if contains w x then 0 else 1) + fresh xs w

pub fresh_mono :
    (xs w w' : List String) → ((n : String) → Has w n → Has w' n) → fresh xs w' ≤ fresh xs w
unfolding fresh
fresh_mono [] w w' up = omega arith
fresh_mono (x ∷ xs) w w' up = elim (Bool-cases (contains w x)) [
  | inl old ↦ rw (old, up x old) (omega (arith, fresh_mono xs w w' up))
  | inr new ↦ rw new (ground (arith, fresh_mono xs w w' up))
]

pub fresh-le-length : (xs w : List String) → fresh xs w ≤ length xs
unfolding fresh
fresh-le-length [] w = omega arith
fresh-le-length (x ∷ xs) w = ground (arith, fresh-le-length xs w)

pub fresh-lt :
    (xs w w' : List String) (n : String)
    → ((k : String) → Has w k → Has w' k)
    → Has w' n
    → Has xs n
    → contains w n ≡ false
    → fresh xs w' < fresh xs w
unfolding fresh contains
fresh-lt [] w w' n up there inside new = cc
fresh-lt (x ∷ xs) w w' n up there inside new = elim (Bool-cases (str_eq x n)) [
  | inl same ↦
      let e : x ≡ n = (eq_iff x n).0 same in
      rw (e, new, there) (omega (arith, fresh_mono xs w w' up))
  | inr other ↦
      let ih = fresh-lt xs w w' n up there (ground arith) new in
      elim (Bool-cases (contains w x)) [
        | inl old ↦ rw (old, up x old) (omega (arith, ih))
        | inr fresh_x ↦ rw fresh_x (ground (arith, ih))
      ]
]

-- A loop whose steps never raise `e` where an invariant holds does not raise it.
module _ {S E : Type 0} (step : String → S → Result E S) (e : E) (P : String → Type 0)
    (I : S → Type 0) (safe : (n : String) (s : S) → P n → I s → step n s ≢ err e)
    (keeps : (n : String) (s t : S) → P n → I s → step n s ≡ ok t → I t) where
  pub for_each-safe :
      (names : List String) (s : S) → All P names → I s → for_each step names s ≢ err e
  unfolding for_each
  for_each-safe [] s p i h = cc
  for_each-safe (n ∷ names) s (p, ps) i h = elim (>>=-eq-err (step n s) _ h) [
    | inl here ↦ safe n s p i here
    | inr (t, first, rest) ↦ for_each-safe names t ps (keeps n s t p i first) rest
  ]
