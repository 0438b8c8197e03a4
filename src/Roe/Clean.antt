-- ===== src/Roe/Clean.antt =====
-- recon/core/roe.py: `_clean`, a set of names in order.
use recon_platform.Prelude.{
  ◌≡◌, refl, ap, ◌∙◌, Bool, true, false, List, [], ◌∷◌, Bool-cases, inl, inr, arith,
}
use recon_platform.Prelude.Text.{Text, text_eq, is_empty, lower, strip}
use recon_platform.Prelude.Text.Strip.{is_empty-lower, strip-lower, strip-strip, normal-normal}
use recon_platform.Roe.{text_before, insert_name, clean}

before-ne : (s t : Text) → text_before s t ≡ true → text_eq s t ≡ false
unfolding text_before text_eq
before-ne [] [] h = ground arith
before-ne [] (_ ∷ _) h = refl
before-ne (_ ∷ _) [] h = refl
before-ne (c ∷ s) (d ∷ t) h = ground (arith, before-ne s t)

before_total : (s t : Text) → text_eq s t ≡ false → text_before s t ≡ false → text_before t s ≡ true
unfolding text_before text_eq
before_total [] [] d h = ground arith
before_total [] (_ ∷ _) d h = ground arith
before_total (_ ∷ _) [] d h = refl
before_total (c ∷ s) (e ∷ t) d h = ground (arith, before_total s t)

-- A name as the validator leaves it.
abbrev IsTidy : Text → Type 0
IsTidy s = (lower (strip s) ≡ s) × (is_empty (strip s) ≡ false)

-- A name stands in front of the names.
abbrev follows : Text → List Text → Bool
follows s [] = true
follows s (t ∷ _) = text_before s t

abbrev IsClean : List Text → Type 0
IsClean [] = Unit {0}
IsClean (s ∷ names) = IsTidy s × (follows s names ≡ true) × IsClean names

follows-insert_name :
    (r s : Text) (names : List Text)
    → text_before r s ≡ true
    → follows r names ≡ true
    → follows r (insert_name s names) ≡ true
unfolding insert_name
follows-insert_name r s [] h k = h
follows-insert_name r s (t ∷ names) h k = ground arith

insert_name-IsClean :
    (s : Text) (names : List Text) → IsTidy s → IsClean names → IsClean (insert_name s names)
unfolding insert_name
insert_name-IsClean s [] tidy h = (tidy, refl, tt)
insert_name-IsClean s (t ∷ names) tidy (p, q, h) = elim (Bool-cases (text_eq s t)) [
  | inl same ↦ rw same (p, q, h)
  | inr other ↦ elim (Bool-cases (text_before s t)) [
    | inl before ↦ rw (other, before) (tidy, before, (p, q, h))
    | inr behind ↦
        rw (other, behind)
          (
            p,
            follows-insert_name t s names (before_total s t other behind) q,
            insert_name-IsClean s names tidy h,
          )
  ]
]

clean-IsClean : (names : List Text) → IsClean (clean names)
unfolding clean
clean-IsClean [] = tt
clean-IsClean (s ∷ names) = elim (Bool-cases (is_empty (strip s))) [
  | inl blank ↦ rw blank (clean-IsClean names)
  | inr kept ↦ rw kept (
      insert_name-IsClean (lower (strip s)) (clean names)
        (
          normal-normal s,
          ap (λ t. is_empty t) (strip-lower (strip s))
              ∙ is_empty-lower (strip (strip s))
              ∙ ap (λ t. is_empty t) (strip-strip s)
              ∙ kept,
        )
        (clean-IsClean names))
]

insert_name-first :
    (s : Text) (names : List Text) → follows s names ≡ true → insert_name s names ≡ s ∷ names
unfolding insert_name
insert_name-first s [] h = refl
insert_name-first s (t ∷ names) h = rw (before-ne s t h, h) refl

clean-same : (names : List Text) → IsClean names → clean names ≡ names
unfolding clean
clean-same [] h = refl
clean-same (s ∷ names) ((p, kept), q, h) =
    rw (kept, p, clean-same names h) (insert_name-first s names q)

pub clean-clean : (names : List Text) → clean (clean names) ≡ clean names
clean-clean names = clean-same (clean names) (clean-IsClean names)
