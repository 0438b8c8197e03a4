-- ===== src/Prelude/Text/Split.antt =====
-- `split` on a text that is put together around its separator.
use recon_platform.Prelude.{ℕ, ◌==◌, ◌≡◌, refl, ==_iff, true, not, [], ◌∷◌, ◌++◌, all, arith}
use recon_platform.Prelude.Text.{Text, split, split_first}

-- The separator does not stand in the text.
abbrev pub IsFree : ℕ → Text → Type 0
IsFree d s = all (λ c. not (c == d)) s ≡ true

split_first-free : (d : ℕ) (s : Text) → IsFree d s → split_first d s ≡ (s, [])
unfolding split_first
split_first-free d [] h = refl
split_first-free d (c ∷ s) h = ground (arith, split_first-free d s)

split_first-append : (d : ℕ) (s t : Text) → IsFree d s → split_first d (s ++ d ∷ t) ≡ (s, split d t)
unfolding split_first split
split_first-append d [] t h = ground (arith, ==_iff d d)
split_first-append d (c ∷ s) t h = ground (arith, split_first-append d s t)

pub split-free : (d : ℕ) (s : Text) → IsFree d s → split d s ≡ s ∷ []
unfolding split
split-free d s h = rw (split_first-free d s h) refl

pub split-append : (d : ℕ) (s t : Text) → IsFree d s → split d (s ++ d ∷ t) ≡ s ∷ split d t
unfolding split
split-append d s t h = rw (split_first-append d s t h) refl
