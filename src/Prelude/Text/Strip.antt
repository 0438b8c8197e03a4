-- ===== src/Prelude/Text/Strip.antt =====
-- Python's `str.strip` and `str.lower`: a text that was stripped and lowered stays as it is.
use recon_platform.Prelude.{ℕ, ◌≡◌, refl, ap, ◌∙◌, ◌&&◌, [], ◌∷◌, Bool-cases, inl, inr, arith}
use recon_platform.Prelude.Text.{
  Text, is_space, is_empty, lower_char, lower, lstrip_if, rstrip_if, strip,
}

lower_char-space : (c : ℕ) → is_space (lower_char c) ≡ is_space c
unfolding is_space lower_char
lower_char-space c = ground arith

lower_char-lower_char : (c : ℕ) → lower_char (lower_char c) ≡ lower_char c
unfolding lower_char
lower_char-lower_char c = ground arith

lower-lower : (s : Text) → lower (lower s) ≡ lower s
unfolding lower
lower-lower [] = refl
lower-lower (c ∷ s) = rw (lower_char-lower_char c, lower-lower s) refl

lstrip-lower : (s : Text) → lstrip_if is_space (lower s) ≡ lower (lstrip_if is_space s)
unfolding lstrip_if lower
lstrip-lower [] = refl
lstrip-lower (c ∷ s) = rw (lower_char-space c) (elim (Bool-cases (is_space c)) [
  | inl space ↦ rw space (lstrip-lower s)
  | inr other ↦ rw other refl
])

pub is_empty-lower : (s : Text) → is_empty (lower s) ≡ is_empty s
unfolding lower
is_empty-lower [] = refl
is_empty-lower (c ∷ s) = refl

rstrip-lower : (s : Text) → rstrip_if is_space (lower s) ≡ lower (rstrip_if is_space s)
unfolding rstrip_if lower
rstrip-lower [] = refl
rstrip-lower (c ∷ s) =
    rw (rstrip-lower s, is_empty-lower (rstrip_if is_space s), lower_char-space c)
      (elim (Bool-cases (is_empty (rstrip_if is_space s) && is_space c)) [
        | inl gone ↦ rw gone refl
        | inr kept ↦ rw kept refl
      ])

pub strip-lower : (s : Text) → strip (lower s) ≡ lower (strip s)
unfolding strip
strip-lower s = rw (lstrip-lower s) (rstrip-lower (lstrip_if is_space s))

rstrip-rstrip : (s : Text) → rstrip_if is_space (rstrip_if is_space s) ≡ rstrip_if is_space s
unfolding rstrip_if
rstrip-rstrip [] = refl
rstrip-rstrip (c ∷ s) = elim (Bool-cases (is_empty (rstrip_if is_space s) && is_space c)) [
  | inl gone ↦ rw gone refl
  | inr kept ↦ rw (kept, rstrip-rstrip s, kept) refl
]

-- What is stripped on both sides does not start with a space.
lstrip-strip : (s : Text) → lstrip_if is_space (strip s) ≡ strip s
unfolding strip lstrip_if rstrip_if
lstrip-strip [] = refl
lstrip-strip (c ∷ s) = elim (Bool-cases (is_space c)) [
  | inl space ↦ rw space (lstrip-strip s)
  | inr other ↦ ground arith
]

pub strip-strip : (s : Text) → strip (strip s) ≡ strip s
unfolding strip
strip-strip s = ap (rstrip_if is_space) (lstrip-strip s) ∙ rstrip-rstrip (lstrip_if is_space s)

pub normal-normal : (s : Text) → lower (strip (lower (strip s))) ≡ lower (strip s)
normal-normal s =
    ap lower (strip-lower (strip s)) ∙ lower-lower (strip (strip s)) ∙ ap lower (strip-strip s)
