-- ===== src/Access/Rows.antt =====
-- Rows of a table: what a query finds after an update or an insertion.
use recon_platform.Prelude.{
  ◌≡◌, refl, Bool, true, Option, none, some, List, [], ◌∷◌, ◌++◌, find, update_where, if◌then◌else◌,
  Bool-cases, inl, inr, arith,
}

abbrev pub changed {ℓ} : {A : Type ℓ} → (A → Bool) → (A → A) → Option A → Option A
changed q f none = none
changed q f (some x) = some (if q x then f x else x)

module _ {ℓ} {A : Type ℓ} where
  -- An update that does not change what the query looks at.
  pub find-update_where :
      (p q : A → Bool) (f : A → A) (same : (x : A) → p (f x) ≡ p x) (xs : List A)
      → find p (update_where q f xs) ≡ changed q f (find p xs)
  find-update_where p q f same [] = refl
  find-update_where p q f same (x ∷ xs) = elim (Bool-cases (q x)) [
    | inl e ↦ elim (Bool-cases (p x)) [
      | inl m ↦ rw (e, same x, m, e) refl
      | inr m ↦ rw (e, same x, m) (find-update_where p q f same xs)
    ]
    | inr e ↦ elim (Bool-cases (p x)) [
      | inl m ↦ rw (e, m, e) refl
      | inr m ↦ rw (e, m) (find-update_where p q f same xs)
    ]
  ]

  -- A row that is there is found before those that are inserted.
  pub find-append :
      (p : A → Bool) (xs ys : List A) {x : A} → find p xs ≡ some x → find p (xs ++ ys) ≡ some x
  find-append p [] ys h = cc
  find-append p (x ∷ xs) ys h = elim (Bool-cases (p x)) [
    | inl e ↦ rw e (ground (arith, e, h))
    | inr e ↦ rw e (find-append p xs ys (ground (arith, e, h)))
  ]

  -- What is found passes the test.
  pub find-holds : (p : A → Bool) (xs : List A) {x : A} → find p xs ≡ some x → p x ≡ true
  find-holds p [] h = cc
  find-holds p (x ∷ xs) h = elim (Bool-cases (p x)) [
    | inl e ↦ ground (arith, e, h)
    | inr e ↦ find-holds p xs (ground (arith, e, h))
  ]
