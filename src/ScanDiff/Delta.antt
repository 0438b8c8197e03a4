-- ===== src/ScanDiff/Delta.antt =====
-- recon/modules/active/scan_diff.py: the delta tells of each difference, and of nothing else.
use recon_platform.Prelude.{
  ◌≡◌, refl, sym, Bool, true, false, ◌&&◌, ◌||◌, not, Option, none, some, List, [], ◌∷◌, keep, map,
  All, All-append, Bool-cases, inl, inr, arith, ◌∙◌, ap,
}
use recon_platform.Prelude.Text.{Text, text_eq, text_eq_iff, elem}
use recon_platform.ScanDiff.{
  service_key, key_is, Change, pair, change_of, changes_from, pair_changes, ScanDelta, minus, diff,
}

elem-minus : (s : Text) (xs ys : List Text) → elem s (minus xs ys) ≡ (elem s xs && not (elem s ys))
unfolding elem
elem-minus s [] ys = refl
elem-minus s (x ∷ xs) ys = elim (Bool-cases (text_eq x s)) [
  | inl same ↦ elim (Bool-cases (elem x ys)) [
    | inl hit ↦
        ground (arith, hit, elem-minus s xs ys, ap (λ t. elem t ys) ((text_eq_iff x s).0 same))
    | inr miss ↦
        ground (arith, miss, elem-minus s xs ys, ap (λ t. elem t ys) ((text_eq_iff x s).0 same))
  ]
  | inr other ↦ elim (Bool-cases (elem x ys)) [
    | inl hit ↦ ground (arith, hit, elem-minus s xs ys)
    | inr miss ↦ ground (arith, miss, elem-minus s xs ys)
  ]
]

elem-minus_to :
    (s : Text) (xs ys : List Text)
    → elem s (minus xs ys) ≡ true
    → (elem s xs && not (elem s ys)) ≡ true
elem-minus_to s xs ys h = sym (elem-minus s xs ys) ∙ h

-- A change pairs a signature that is new with one that is gone, of the same service.
pub record IsChange (old cur : List Text) (c : Change) : Type 0 where
  pub now_new : elem c.now (minus cur old) ≡ true
  pub was_gone : elem c.was (minus old cur) ≡ true
  pub now_key : key_is c.signature c.now ≡ true
  pub was_key : key_is c.signature c.was ≡ true

-- What is kept alone is in the list and passes the test.
keep-single :
    (p : Text → Bool) (xs : List Text) (x : Text) (rest : List Text)
    → keep p xs ≡ x ∷ rest
    → (elem x xs ≡ true) × (p x ≡ true)
unfolding elem
keep-single p [] x rest h = cc
keep-single p (y ∷ xs) x rest h = elim (Bool-cases (p y)) [
  | inl hit ↦
      let same : y ≡ x = ground arith in (ground (arith, (text_eq_iff y x).1 same), rw⁻¹ same hit)
  | inr miss ↦ let (k, m) = keep-single p xs x rest (ground arith) in (ground (arith, k), m)
]

pair-All :
    (old cur : List Text) (key : Text) (nows wases : List Text)
    → keep (key_is key) (minus cur old) ≡ nows
    → keep (key_is key) (minus old cur) ≡ wases
    → All (IsChange old cur) (pair key nows wases)
pair-All old cur key [] wases a r = tt
pair-All old cur key (now ∷ []) [] a r = tt
pair-All old cur key (now ∷ []) (was ∷ []) a r =
    let (n, k) = keep-single (key_is key) (minus cur old) now [] a in
    let (w, m) = keep-single (key_is key) (minus old cur) was [] r in
    (record { now_new = n; was_gone = w; now_key = k; was_key = m }, tt)
pair-All old cur key (now ∷ []) (was ∷ more ∷ rest) a r = tt
pair-All old cur key (now ∷ more ∷ rest) wases a r = tt

change_of-All :
    (old cur : List Text) (sig : Text) (key : Option Text)
    → All (IsChange old cur) (change_of (minus cur old) (minus old cur) sig key)
change_of-All old cur sig none = tt
change_of-All old cur sig (some key) = pair-All old cur key _ _ refl refl

changes_from-All :
    (old cur sigs : List Text)
    → All (IsChange old cur) (changes_from (minus cur old) (minus old cur) sigs)
unfolding changes_from
changes_from-All old cur [] = tt
changes_from-All old cur (sig ∷ sigs) =
    All-append (IsChange old cur) (change_of (minus cur old) (minus old cur) sig (service_key sig))
      _ (change_of-All old cur sig (service_key sig)) (changes_from-All old cur sigs)

now-minus :
    (old cur : List Text) (s : Text) (cs : List Change)
    → All (IsChange old cur) cs
    → elem s (map (λ c. c.now) cs) ≡ true
    → elem s (minus cur old) ≡ true
unfolding elem
now-minus old cur s [] h k = cc
now-minus old cur s (c ∷ cs) (p, h) k = elim (Bool-cases (text_eq c.now s)) [
  | inl same ↦ rw⁻¹ ((text_eq_iff c.now s).0 same) p.now_new
  | inr other ↦ now-minus old cur s cs h (ground (arith, other, k))
]

was-minus :
    (old cur : List Text) (s : Text) (cs : List Change)
    → All (IsChange old cur) cs
    → elem s (map (λ c. c.was) cs) ≡ true
    → elem s (minus old cur) ≡ true
unfolding elem
was-minus old cur s [] h k = cc
was-minus old cur s (c ∷ cs) (p, h) k = elim (Bool-cases (text_eq c.was s)) [
  | inl same ↦ rw⁻¹ ((text_eq_iff c.was s).0 same) p.was_gone
  | inr other ↦ was-minus old cur s cs h (ground (arith, other, k))
]

-- A signature is new exactly if the delta lists it as added or as the new side of a change, gone
-- exactly if it lists it as removed or as the old side of one.
pub record IsExact (old cur : List Text) (d : ScanDelta) : Type 0 where
  pub new :
      (s : Text)
      → (elem s cur && not (elem s old)) ≡ (elem s d.added || elem s (map (λ c. c.now) d.changed))
  pub gone :
      (s : Text)
      → (elem s old && not (elem s cur)) ≡ (elem s d.removed || elem s (map (λ c. c.was) d.changed))
  pub changes : All (IsChange old cur) d.changed

-- A list and a part of it make up the whole.
whole-or : (whole part : Bool) → (part ≡ true → whole ≡ true) → whole ≡ (whole && not part || part)
whole-or true true h = refl
whole-or true false h = refl
whole-or false true h = h refl
whole-or false false h = refl

-- The delta of two runs tells of each difference and of nothing else: a signature is new exactly if it
-- is listed as added or is the new side of a change, gone exactly if it is listed as removed or is the
-- old side of one, and each change pairs a new and a gone signature with the same service key.
pub diff-IsExact : (old cur : List Text) → IsExact old cur (diff old cur)
unfolding diff pair_changes
diff-IsExact old cur =
    let changed = changes_from (minus cur old) (minus old cur) (minus cur old) in
    let sound = changes_from-All old cur (minus cur old) in
    record {
      new = λ s.
          rw (elem-minus s (minus cur old) (map (λ c. c.now) changed), elem-minus s cur old)
            (whole-or _ _ (λ k. elem-minus_to s cur old (now-minus old cur s changed sound k)));
      gone = λ s.
          rw (elem-minus s (minus old cur) (map (λ c. c.was) changed), elem-minus s old cur)
            (whole-or _ _ (λ k. elem-minus_to s old cur (was-minus old cur s changed sound k)));
      changes = sound;
    }
