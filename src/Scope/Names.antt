-- ===== src/Scope/Names.antt =====
-- recon/core/scope.py: names that differ in case or in trailing dots are one target.
use recon_platform.Prelude.{
  ℕ, ◌==◌, ◌≡◌, refl, ap, ◌∙◌, Bool, true, false, ◌||◌, none, some, List, [], ◌∷◌, all, ok,
  Result-cases, inl, inr, arith,
}
use recon_platform.Prelude.Text.{
  Text, text, is_space, is_alpha, is_digit, lower, lstrip_if, rstrip_if, strip, rstrip_dots,
  starts_with, has_text, has_char, count_char, before_first, after_last,
}
use recon_platform.Scope.{
  extract_host, bare_host, authority, host_of, classify, listed, verdict, allowed_verdict, excluded,
  Rules, ScopeDecision,
}

-- The characters of a host name.
abbrev pub name_char : ℕ → Bool
name_char c = is_alpha c || is_digit c || c == b'-' || c == b'.' || c == b'_'

-- A host name as it is written in a list or in a certificate.
abbrev pub IsName : Text → Type 0
IsName s = all name_char s ≡ true

name_char-other :
    (c : ℕ)
    → name_char c ≡ true
    → (is_space c ≡ false)
      × ((c == b'@') ≡ false)
      × ((c == b':') ≡ false)
      × ((c == b'[') ≡ false)
      × ((c == b'/') ≡ false)
unfolding is_space
name_char-other c h = ground arith

module _ (c : ℕ) (s : Text) (h : IsName (c ∷ s)) where
  head-name_char : name_char c ≡ true
  head-name_char = ground arith

  tail-IsName : IsName s
  tail-IsName = ground arith

lstrip-IsName : (s : Text) → IsName s → lstrip_if is_space s ≡ s
unfolding lstrip_if
lstrip-IsName [] h = refl
lstrip-IsName (c ∷ s) h = rw (name_char-other c (head-name_char c s h)).0 refl

rstrip-IsName : (s : Text) → IsName s → rstrip_if is_space s ≡ s
unfolding rstrip_if
rstrip-IsName [] h = refl
rstrip-IsName (c ∷ s) h =
    rw (rstrip-IsName s (tail-IsName c s h), (name_char-other c (head-name_char c s h)).0)
      (ground arith)

pub strip-IsName : (s : Text) → IsName s → strip s ≡ s
unfolding strip
strip-IsName s h = ap (rstrip_if is_space) (lstrip-IsName s h) ∙ rstrip-IsName s h

has_text-IsName : (s : Text) → IsName s → has_text s (text "://") ≡ false
unfolding has_text starts_with
has_text-IsName [] h = refl
has_text-IsName (c ∷ s) h =
    rw ((name_char-other c (head-name_char c s h)).2) (has_text-IsName s (tail-IsName c s h))

has_char-IsName : (s : Text) → IsName s → has_char b'@' s ≡ false
unfolding has_char
has_char-IsName [] h = refl
has_char-IsName (c ∷ s) h =
    rw ((name_char-other c (head-name_char c s h)).1) (has_char-IsName s (tail-IsName c s h))

after_last-IsName : (s : Text) → IsName s → after_last b'@' s ≡ s
unfolding after_last
after_last-IsName [] h = refl
after_last-IsName (c ∷ s) h =
    rw (has_char-IsName s (tail-IsName c s h), (name_char-other c (head-name_char c s h)).1) refl

count_char-IsName : (s : Text) → IsName s → count_char b':' s ≡ 0
unfolding count_char
count_char-IsName [] h = refl
count_char-IsName (c ∷ s) h =
    rw ((name_char-other c (head-name_char c s h)).2)
      (omega (arith, count_char-IsName s (tail-IsName c s h)))

before_first-IsName : (s : Text) → IsName s → before_first b'/' s ≡ s
unfolding before_first
before_first-IsName [] h = refl
before_first-IsName (c ∷ s) h =
    rw ((name_char-other c (head-name_char c s h)).4)
      (ap (λ t. c ∷ t) (before_first-IsName s (tail-IsName c s h)))

starts_with-IsName : (s : Text) → IsName s → starts_with s (b'[' ∷ []) ≡ false
unfolding starts_with
starts_with-IsName [] h = refl
starts_with-IsName (c ∷ s) h = rw ((name_char-other c (head-name_char c s h)).3) refl

extract_host-IsName : (s : Text) → IsName s → extract_host s ≡ ok (lower (rstrip_dots s))
unfolding extract_host authority host_of bare_host
extract_host-IsName s h =
    rw
      (
        strip-IsName s h,
        has_text-IsName s h,
        after_last-IsName s h,
        starts_with-IsName s h,
        count_char-IsName s h,
        before_first-IsName s h,
        strip-IsName s h,
      )
      refl

-- Two host names of letters, digits, dots, hyphens and underscores that are the same without their
-- trailing dots and in lower case get one verdict, if the first gets one: a root label or a capital
-- letter does not take a host out of an exclusion, or into the scope.
pub classify-IsName :
    (roe : Rules) (s t : Text) (resolved : List Text) (d : ScopeDecision)
    → IsName s
    → IsName t
    → lower (rstrip_dots s) ≡ lower (rstrip_dots t)
    → classify roe s resolved ≡ ok d
    → classify roe t resolved ≡ ok (record d { target = t })
unfolding classify
classify-IsName roe s t resolved d p q same k =
    let host = lower (rstrip_dots s) in
    let from_s : extract_host s ≡ ok host = extract_host-IsName s p in
    let from_t : extract_host t ≡ ok host = rw same (extract_host-IsName t q) in
    elim (Result-cases (listed roe.barred host resolved)) [
      | inr (e, b) ↦ ground arith
      | inl (some reason, b) ↦
          let one : verdict excluded s host reason ≡ d = ground arith in
          rw (from_t, b) (ap (λ (x : ScopeDecision). ok (record x { target = t })) one)
      | inl (none, b) ↦ elim (Result-cases (listed roe.allowed host resolved)) [
        | inr (e, a) ↦ ground arith
        | inl (found, a) ↦
            let one : allowed_verdict s host found ≡ d = ground arith in
            rw (from_t, b, a) (ap (λ (x : ScopeDecision). ok (record x { target = t })) one)
      ]
    ]
