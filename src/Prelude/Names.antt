-- ===== src/Prelude/Names.antt =====
-- Sets of names as lists, Python's `sorted` on them, and loops that may raise.
use Prim.Native.String.{String, compare}
use mathlib.Core.Path.{◌≡◌, refl}
use mathlib.Core.Bool.{Bool, false, ◌||◌}
use mathlib.Core.List.{List, [], ◌∷◌, ◌++◌}
use native.Mathlib.Omega.{arith}
use text.Mathlib.Text.{◌==◌, is_le}
use recon_platform.Prelude.Tests.{if◌then◌else◌}
use recon_platform.Prelude.Monad.{Result, ok, ◌>>=◌}

-- `n in names`
unfoldable pub contains : List String → String → Bool
contains [] n = false
contains (m ∷ names) n = m == n || contains names n

insert_sorted : String → List String → List String
insert_sorted n [] = n ∷ []
insert_sorted n (m ∷ names) =
    if is_le (compare n m) then n ∷ m ∷ names else m ∷ insert_sorted n names

unfoldable pub sorted : List String → List String
unfolding insert_sorted
sorted [] = []
sorted (n ∷ names) = insert_sorted n (sorted names)

-- `for n in names: s = step(n, s)`, where a step may raise.
unfoldable pub for_each {ℓ κ} :
    {S : Type ℓ} {E : Type κ} → (String → S → Result E S) → List String → S → Result E S
for_each step [] s = ok s
for_each step (n ∷ names) s = step n s >>= λ s'. for_each step names s'

pub contains-append :
    (xs ys : List String) (n : String) → contains (xs ++ ys) n ≡ (contains xs n || contains ys n)
unfolding contains
contains-append [] ys n = refl
contains-append (x ∷ xs) ys n = ground (arith, contains-append xs ys n)

pub contains-snoc :
    (xs : List String) (m n : String) → contains (xs ++ m ∷ []) n ≡ (contains xs n || m == n)
unfolding contains
contains-snoc xs m n = ground (arith, contains-append xs (m ∷ []) n)

contains-insert_sorted :
    (m : String) (xs : List String) (n : String)
    → contains (insert_sorted m xs) n ≡ (m == n || contains xs n)
unfolding contains insert_sorted
contains-insert_sorted m [] n = refl
contains-insert_sorted m (x ∷ xs) n = ground (arith, contains-insert_sorted m xs n)

-- Sorting keeps the members.
pub contains-sorted : (xs : List String) (n : String) → contains (sorted xs) n ≡ contains xs n
unfolding contains sorted
contains-sorted [] n = refl
contains-sorted (x ∷ xs) n =
    ground (arith, contains-insert_sorted x (sorted xs) n, contains-sorted xs n)
