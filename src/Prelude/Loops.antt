-- ===== src/Prelude/Loops.antt =====
-- Rules for the loops of `Prelude/Names.antt`: what a loop that does not raise keeps and ensures.
use Prim.Native.String.{String}
use mathlib.Core.Path.{◌≡◌}
use mathlib.Core.Logic.{◌⊎◌, inl, inr}
use mathlib.Core.Bool.{true}
use mathlib.Core.List.{List, [], ◌∷◌}
use native.Mathlib.Omega.{arith}
use text.Mathlib.TextEquality.{eq_iff}
use recon_platform.Prelude.Lists.{All}
use recon_platform.Prelude.Monad.{Result, ok, >>=-eq-ok}
use recon_platform.Prelude.Names.{contains, for_each}

pub All-contains :
    (P : String → Type 0) (xs : List String)
    → ((n : String) → contains xs n ≡ true → P n)
    → All P xs
unfolding contains
All-contains P [] h = tt
All-contains P (x ∷ xs) h =
    (h x (ground (arith, eq_iff x x)), All-contains P xs (λ n e. h n (ground arith)))

pub contains-cons :
    (x : String) (xs : List String) (n : String)
    → contains (x ∷ xs) n ≡ true
    → (x ≡ n) ⊎ (contains xs n ≡ true)
unfolding contains
contains-cons x xs n h = ground (arith, eq_iff x n)

pub contains-All :
    (P : String → Type 0) (xs : List String) → All P xs → (n : String) → contains xs n ≡ true → P n
unfolding contains
contains-All P [] h n e = cc
contains-All P (x ∷ xs) (p, h) n e = elim (contains-cons x xs n e) [
  | inl same ↦ rw (← same) p
  | inr later ↦ contains-All P xs h n later
]

module _ {S E : Type 0} (step : String → S → Result E S) (P : String → Type 0) (R : S → S → Type 0)
    (R-refl : (s : S) → R s s) (R-trans : (s t u : S) → R s t → R t u → R s u)
    (R-step : (n : String) (s t : S) → P n → step n s ≡ ok t → R s t) where
  pub for_each-rel :
      (names : List String) (s t : S) → All P names → for_each step names s ≡ ok t → R s t
  unfolding for_each
  for_each-rel [] s t _ h = let e : s ≡ t = cc in rw e (R-refl t)
  for_each-rel (n ∷ names) s t (p, ps) h =
      let (s', first, rest) = >>=-eq-ok (step n s) _ h in
      R-trans s s' t (R-step n s s' p first) (for_each-rel names s' t ps rest)

  module _ (Q : String → S → Type 0)
      (Q-step : (n : String) (s t : S) → P n → step n s ≡ ok t → Q n t)
      (Q-keep : (n : String) (s t : S) → R s t → Q n s → Q n t) where
    pub for_each-post :
        (names : List String) (s t : S)
        → All P names
        → for_each step names s ≡ ok t
        → All (λ n. Q n t) names
    unfolding for_each
    for_each-post [] s t _ h = tt
    for_each-post (n ∷ names) s t (p, ps) h =
        let (s', first, rest) = >>=-eq-ok (step n s) _ h in
        (
          Q-keep n s' t (for_each-rel names s' t ps rest) (Q-step n s s' p first),
          for_each-post names s' t ps rest,
        )
