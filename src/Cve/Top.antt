-- ===== src/Cve/Top.antt =====
-- recon/modules/active/cve_correlate.py: the matches that are reported are the most severe ones.
use recon_platform.Prelude.{
  ℕ, zero, suc, ◌≤◌, ltb, ◌≡◌, refl, sym, ◌⊎◌, ◌∙◌, Bool, ◌&&◌, ◌||◌, Option, List, [], ◌∷◌, any,
  take, drop, length, All, Bool-cases, inl, inr, arith,
}
use recon_platform.Prelude.Text.{Text}
use recon_platform.Cve.{CveRecord, hits, score_of, insert_by_score, cpe_matches, top_matches}

abbrev IsBelow : ℕ → CveRecord → Type 0
IsBelow n rec = score_of rec ≤ n

abbrev IsDescending : List CveRecord → Type 0
IsDescending [] = Unit {0}
IsDescending (rec ∷ recs) = All (IsBelow (score_of rec)) recs × IsDescending recs

insert-Below :
    (n : ℕ) (rec : CveRecord) (recs : List CveRecord)
    → score_of rec ≤ n
    → All (IsBelow n) recs
    → All (IsBelow n) (insert_by_score rec recs)
unfolding insert_by_score
insert-Below n rec [] p h = (p, tt)
insert-Below n rec (r ∷ recs) p (q, h) = elim (Bool-cases (ltb (score_of rec) (score_of r))) [
  | inl less ↦ rw less (q, insert-Below n rec recs p h)
  | inr most ↦ rw most (p, (q, h))
]

Below-le : (m n : ℕ) (recs : List CveRecord) → m ≤ n → All (IsBelow m) recs → All (IsBelow n) recs
Below-le m n [] le h = tt
Below-le m n (r ∷ recs) le (p, h) = (omega (arith, p, le), Below-le m n recs le h)

insert-IsDescending :
    (rec : CveRecord) (recs : List CveRecord)
    → IsDescending recs
    → IsDescending (insert_by_score rec recs)
unfolding insert_by_score
insert-IsDescending rec [] h = (tt, tt)
insert-IsDescending rec (r ∷ recs) (p, h) = elim (Bool-cases (ltb (score_of rec) (score_of r))) [
  | inl less ↦
      rw less (insert-Below (score_of r) rec recs (ground arith) p, insert-IsDescending rec recs h)
  | inr most ↦
      let le : score_of r ≤ score_of rec = ground arith in
      rw most ((le, Below-le (score_of r) (score_of rec) recs le p), (p, h))
]

cpe_matches-IsDescending :
    (product : Text) (version : Option Text) (index : List CveRecord)
    → IsDescending (cpe_matches product version index)
unfolding cpe_matches
cpe_matches-IsDescending product version [] = tt
cpe_matches-IsDescending product version (rec ∷ index) =
    elim (Bool-cases (hits product version rec)) [
      | inl hit ↦ rw hit (
          insert-IsDescending rec (cpe_matches product version index)
            (cpe_matches-IsDescending product version index))
      | inr miss ↦ rw miss (cpe_matches-IsDescending product version index)
    ]

any-insert :
    (p : CveRecord → Bool) (rec : CveRecord) (recs : List CveRecord)
    → any p (insert_by_score rec recs) ≡ (p rec || any p recs)
unfolding insert_by_score
any-insert p rec [] = refl
any-insert p rec (r ∷ recs) = ground (arith, any-insert p rec recs)

any-cpe_matches :
    (p : CveRecord → Bool) (product : Text) (version : Option Text) (index : List CveRecord)
    → any p (cpe_matches product version index)
      ≡ any (λ rec. hits product version rec && p rec) index
unfolding cpe_matches
any-cpe_matches p product version [] = refl
any-cpe_matches p product version (rec ∷ index) = elim (Bool-cases (hits product version rec)) [
  | inl hit ↦ rw hit (
      any-insert p rec (cpe_matches product version index)
      ∙ ground (arith, any-cpe_matches p product version index))
  | inr miss ↦ rw miss (any-cpe_matches p product version index)
]

-- What is shown of the matches, and what is left out.
pub record IsTop (product : Text) (version : Option Text) (index shown left : List CveRecord)
    : Type 0 where
  pub whole :
      (p : CveRecord → Bool)
      → any (λ rec. hits product version rec && p rec) index ≡ (any p shown || any p left)
  pub sorted : IsDescending shown
  pub best : All (λ rec. All (IsBelow (score_of rec)) left) shown
  pub full : (length shown ≡ 5) ⊎ (left ≡ [])

any-take-drop :
    (p : CveRecord → Bool) (n : ℕ) (recs : List CveRecord)
    → any p recs ≡ (any p (take n recs) || any p (drop n recs))
any-take-drop p zero recs = refl
any-take-drop p (suc n) [] = refl
any-take-drop p (suc n) (r ∷ recs) = ground (arith, any-take-drop p n recs)

take-Below :
    (m n : ℕ) (recs : List CveRecord) → All (IsBelow m) recs → All (IsBelow m) (take n recs)
take-Below m zero recs h = tt
take-Below m (suc n) [] h = tt
take-Below m (suc n) (r ∷ recs) (p, h) = (p, take-Below m n recs h)

drop-Below :
    (m n : ℕ) (recs : List CveRecord) → All (IsBelow m) recs → All (IsBelow m) (drop n recs)
drop-Below m zero recs h = h
drop-Below m (suc n) [] h = tt
drop-Below m (suc n) (r ∷ recs) (p, h) = drop-Below m n recs h

take-IsDescending : (n : ℕ) (recs : List CveRecord) → IsDescending recs → IsDescending (take n recs)
take-IsDescending zero recs h = tt
take-IsDescending (suc n) [] h = tt
take-IsDescending (suc n) (r ∷ recs) (p, h) =
    (take-Below (score_of r) n recs p, take-IsDescending n recs h)

take-best :
    (n : ℕ) (recs : List CveRecord)
    → IsDescending recs
    → All (λ rec. All (IsBelow (score_of rec)) (drop n recs)) (take n recs)
take-best zero recs h = tt
take-best (suc n) [] h = tt
take-best (suc n) (r ∷ recs) (p, h) = (drop-Below (score_of r) n recs p, take-best n recs h)

take-full : (n : ℕ) (recs : List CveRecord) → (length (take n recs) ≡ n) ⊎ (drop n recs ≡ [])
take-full zero recs = inl refl
take-full (suc n) [] = inr refl
take-full (suc n) (r ∷ recs) = elim (take-full n recs) [
  | inl all_there ↦ inl (omega (arith, all_there))
  | inr none_left ↦ inr none_left
]

-- The records of the index that match a product and a version are those that are shown and those that
-- are left out, none else; the shown ones stand by falling score, each scores at least as much as every
-- one that is left out, and nothing is left out unless five are shown.
pub top_matches-IsTop :
    (product : Text) (version : Option Text) (index : List CveRecord)
    → IsTop product version index
        (top_matches product version index)
        (drop 5 (cpe_matches product version index))
unfolding top_matches
top_matches-IsTop product version index =
    let found = cpe_matches product version index in
    let falling = cpe_matches-IsDescending product version index in
    record {
      whole = λ p. sym (any-cpe_matches p product version index) ∙ any-take-drop p 5 found;
      sorted = take-IsDescending 5 found falling;
      best = take-best 5 found falling;
      full = take-full 5 found;
    }
