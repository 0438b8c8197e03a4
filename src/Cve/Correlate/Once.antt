-- ===== src/Cve/Correlate/Once.antt =====
-- recon/modules/active/cve_correlate.py, `_match_osv`: each package and version is asked for once.
use recon_platform.Prelude.{
  ◌≡◌, refl, sym, subst, Bool, true, false, ◌||◌, Option, none, some, List, [], ◌∷◌, any,
  Bool-cases, Option-cases, inl, inr, arith,
}
use recon_platform.Prelude.Text.{text_eq_iff}
use recon_platform.Context.{EvidenceRow}
use recon_platform.Cve.Correlate.{Lookup, same_lookup, lookup_of, lookups}

abbrev pub asks_for : Lookup → Option Lookup → Bool
asks_for l none = false
asks_for l (some k) = same_lookup l k

-- The row asks for this package and version.
abbrev pub asks : Lookup → EvidenceRow → Bool
asks l row = asks_for l (lookup_of row)

abbrev pub IsOnce : List Lookup → Type 0
IsOnce [] = Unit {0}
IsOnce (l ∷ ls) = (any (same_lookup l) ls ≡ false) × IsOnce ls

same_lookup_trans : (l k m : Lookup) → same_lookup l k ≡ true → same_lookup l m ≡ same_lookup k m
same_lookup_trans l k m h = ground (
  arith,
  text_eq_iff l.npm_name k.npm_name,
  text_eq_iff l.version k.version,
  text_eq_iff l.npm_name m.npm_name,
  text_eq_iff k.npm_name m.npm_name,
  text_eq_iff l.version m.version,
  text_eq_iff k.version m.version,
)

any-same :
    (l k : Lookup) (ls : List Lookup)
    → same_lookup l k ≡ true
    → any (same_lookup l) ls ≡ any (same_lookup k) ls
any-same l k [] h = refl
any-same l k (m ∷ ls) h = ground (arith, same_lookup_trans l k m h, any-same l k ls h)

module _ (seen : List Lookup) (row : EvidenceRow) (rows : List EvidenceRow) where
  step-none : lookup_of row ≡ none → lookups seen (row ∷ rows) ≡ lookups seen rows
  unfolding lookups
  step-none e = ground arith

  step-old :
      {k : Lookup}
      → lookup_of row ≡ some k
      → any (same_lookup k) seen ≡ true
      → lookups seen (row ∷ rows) ≡ lookups seen rows
  unfolding lookups
  step-old e old = ground arith

  step-new :
      {k : Lookup}
      → lookup_of row ≡ some k
      → any (same_lookup k) seen ≡ false
      → lookups seen (row ∷ rows) ≡ k ∷ lookups (k ∷ seen) rows
  unfolding lookups
  step-new e new = ground arith

-- What was seen before, or is looked up, is what was seen before or is asked for.
lookups-covers :
    (l : Lookup) (seen : List Lookup) (rows : List EvidenceRow)
    → (any (same_lookup l) seen || any (same_lookup l) (lookups seen rows))
      ≡ (any (same_lookup l) seen || any (asks l) rows)
unfolding lookups
lookups-covers l seen [] = refl
lookups-covers l seen (row ∷ rows) = elim (Option-cases (lookup_of row)) [
  | inl other ↦ ground (arith, step-none seen row rows other, lookups-covers l seen rows)
  | inr (k, found) ↦ elim (Bool-cases (any (same_lookup k) seen)) [
    | inl old ↦
        ground
          (arith, step-old seen row rows found old, any-same l k seen, lookups-covers l seen rows)
    | inr new ↦ ground (arith, step-new seen row rows found new, lookups-covers l (k ∷ seen) rows)
  ]
]

-- Nothing that was seen is looked up.
lookups-new :
    (l : Lookup) (seen : List Lookup) (rows : List EvidenceRow)
    → any (same_lookup l) seen ≡ true
    → any (same_lookup l) (lookups seen rows) ≡ false
unfolding lookups
lookups-new l seen [] h = refl
lookups-new l seen (row ∷ rows) h = elim (Option-cases (lookup_of row)) [
  | inl other ↦ ground (arith, step-none seen row rows other, lookups-new l seen rows h)
  | inr (k, found) ↦ elim (Bool-cases (any (same_lookup k) seen)) [
    | inl old ↦ ground (arith, step-old seen row rows found old, lookups-new l seen rows h)
    | inr new ↦
        ground (
          arith,
          step-new seen row rows found new,
          any-same l k seen,
          lookups-new l (k ∷ seen) rows,
        )
  ]
]

same_lookup_self : (k : Lookup) → same_lookup k k ≡ true
same_lookup_self k =
    ground (arith, text_eq_iff k.npm_name k.npm_name, text_eq_iff k.version k.version)

lookups-IsOnce : (seen : List Lookup) (rows : List EvidenceRow) → IsOnce (lookups seen rows)
unfolding lookups
lookups-IsOnce seen [] = tt
lookups-IsOnce seen (row ∷ rows) = elim (Option-cases (lookup_of row)) [
  | inl other ↦ subst IsOnce (sym (step-none seen row rows other)) (lookups-IsOnce seen rows)
  | inr (k, found) ↦ elim (Bool-cases (any (same_lookup k) seen)) [
    | inl old ↦ subst IsOnce (sym (step-old seen row rows found old)) (lookups-IsOnce seen rows)
    | inr new ↦
        let again = lookups-new k (k ∷ seen) rows (ground (arith, same_lookup_self k)) in
        subst IsOnce (sym (step-new seen row rows found new))
          (again, lookups-IsOnce (k ∷ seen) rows)
  ]
]

-- A package and version is asked of OSV exactly if some evidence of a technology names a known package
-- with this version, and it is asked once.
pub lookups-exact :
    (rows : List EvidenceRow) (l : Lookup)
    → IsOnce (lookups [] rows) × (any (same_lookup l) (lookups [] rows) ≡ any (asks l) rows)
lookups-exact rows l = (lookups-IsOnce [] rows, lookups-covers l [] rows)
