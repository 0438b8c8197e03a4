-- ===== src/Cve/Pages.antt =====
-- recon/orchestrator/cve_index.py: a pass over NVD ends, and sees each item.
use recon_platform.Prelude.{
  ℕ, zero, suc, ◌+◌, ◌≤◌, ◌<◌, leb, ◌≡◌, refl, sym, ap, ◌∙◌, Bool, true, false, ◌||◌, some, List,
  [], ◌∷◌, ◌++◌, take, drop, length, ok, Bool-cases, inl, inr, arith,
}
use recon_platform.Prelude.Text.{is_empty}
use recon_platform.Cve.{CveRecord}
use recon_platform.Cve.Index.{NvdCve, Feed, add_items, fetch_pass}

-- NVD holds a list of items, and returns from an index on as many of them as it likes, but one at least
-- if one is left; each page tells how many there are.
abbrev pub IsServed : List NvdCve → (ℕ → ℕ) → Feed → Type 0
IsServed items size feed =
    (start : ℕ)
    → (0 < size start)
      × (feed start
          ≡ ok (record {
            items = take (size start) (drop start items);
            total_results = length items;
          }))

add_items-append :
    (xs ys : List NvdCve) (out : List CveRecord)
    → add_items (xs ++ ys) out ≡ add_items ys (add_items xs out)
unfolding add_items
add_items-append [] ys out = refl
add_items-append (x ∷ xs) ys out = add_items-append xs ys _

take-drop : (n : ℕ) (xs : List NvdCve) → take n xs ++ drop n xs ≡ xs
take-drop zero xs = refl
take-drop (suc n) [] = refl
take-drop (suc n) (x ∷ xs) = ap (λ ys. x ∷ ys) (take-drop n xs)

-- Dropping as many as were taken.
drop-length-take : (n : ℕ) (xs : List NvdCve) → drop (length (take n xs)) xs ≡ drop n xs
drop-length-take zero xs = refl
drop-length-take (suc n) [] = refl
drop-length-take (suc n) (x ∷ xs) = drop-length-take n xs

drop_all : (n : ℕ) (xs : List NvdCve) → length xs ≤ n → drop n xs ≡ []
drop_all zero [] h = refl
drop_all zero (x ∷ xs) h = absurd (omega arith)
drop_all (suc n) [] h = refl
drop_all (suc n) (x ∷ xs) h = drop_all n xs (omega arith)

drop-drop : (m n : ℕ) (xs : List NvdCve) → drop (m + n) xs ≡ drop n (drop m xs)
drop-drop zero n xs = ap (λ (k : ℕ). drop k xs) (omega arith)
drop-drop (suc m) n [] = drop_all (suc m + n) [] (omega arith) ∙ sym (drop_all n [] (omega arith))
drop-drop (suc m) n (x ∷ xs) =
    let same : suc m + n ≡ suc (m + n) = omega arith in
    ap (λ (k : ℕ). drop k (x ∷ xs)) same ∙ drop-drop m n xs

-- Nothing is taken only if nothing is left.
take_none : (n : ℕ) (xs : List NvdCve) → 0 < n → is_empty (take n xs) ≡ true → xs ≡ []
take_none zero xs pos h = absurd (omega arith)
take_none (suc n) [] pos h = refl
take_none (suc n) (x ∷ xs) pos h = cc

take_nil : (n : ℕ) → take {A = NvdCve} n [] ≡ []
take_nil zero = refl
take_nil (suc n) = refl

length_pos : (xs : List NvdCve) → is_empty xs ≡ false → 0 < length xs
length_pos [] h = cc
length_pos (x ∷ xs) h = omega arith

module _ (items : List NvdCve) (size : ℕ → ℕ) (feed : Feed)
    (served : IsServed items size feed) where
  abbrev page_at : ℕ → List NvdCve
  page_at start = take (size start) (drop start items)

  -- A page, and what is left behind it.
  page-rest :
      (start : ℕ) (out : List CveRecord)
      → add_items (drop (start + length (page_at start)) items) (add_items (page_at start) out)
        ≡ add_items (drop start items) out
  page-rest start out =
      let left = drop start items in
      rw
        (
          drop-drop start (length (page_at start)) items,
          drop-length-take (size start) left,
          sym (add_items-append (page_at start) (drop (size start) left) out),
          take-drop (size start) left,
        )
        refl

  -- The last page: an empty one, or one that ends with the last item.
  page-last :
      (start : ℕ) (out : List CveRecord)
      → (is_empty (page_at start) || leb (length items) (start + length (page_at start))) ≡ true
      → add_items (page_at start) out ≡ add_items (drop start items) out
  unfolding add_items
  page-last start out h = elim (Bool-cases (is_empty (page_at start))) [
    | inl blank ↦
        let nothing = take_none (size start) (drop start items) (served start).0 blank in
        rw nothing (ap (λ xs. add_items xs out) (take_nil (size start)))
    | inr some_left ↦
        sym (
          ap (λ xs. add_items xs (add_items (page_at start) out))
            (drop_all (start + length (page_at start)) items (ground arith)))
        ∙ page-rest start out
  ]

  -- The pass goes on only if more than the fuel that is left of it was needed.
  abbrev ends_at : ℕ → Bool
  ends_at start = is_empty (page_at start) || leb (length items) (start + length (page_at start))

  pass-last :
      (fuel start : ℕ) (out : List CveRecord)
      → ends_at start ≡ true
      → fetch_pass (suc fuel) feed start out ≡ some (ok (add_items (drop start items) out))
  unfolding fetch_pass
  pass-last fuel start out last =
      rw ((served start).1, fetch_pass, last) (ap (λ o. some (ok o)) (page-last start out last))

  further :
      (fuel start : ℕ)
      → length items ≤ start + suc fuel
      → ends_at start ≡ false
      → length items ≤ start + length (page_at start) + fuel
  further fuel start h more =
      let some_left : is_empty (page_at start) ≡ false = ground arith in
      omega (arith, length_pos (page_at start) some_left, h)

  pass-items :
      (fuel start : ℕ) (out : List CveRecord)
      → length items ≤ start + fuel
      → fetch_pass (suc fuel) feed start out ≡ some (ok (add_items (drop start items) out))
  unfolding fetch_pass
  pass-items zero start out h = pass-last zero start out (ground arith)
  pass-items (suc fuel) start out h = elim (Bool-cases (ends_at start)) [
    | inl last ↦ pass-last (suc fuel) start out last
    | inr more ↦
        let next = start + length (page_at start) in
        rw ((served start).1, fetch_pass, more)
          (pass-items fuel next (add_items (page_at start) out) (further fuel start h more)
            ∙ ap (λ o. some (ok o)) (page-rest start out))
  ]

  -- A pass over a feed that serves a list of items, in pages of whatever sizes, ends within as many pages
  -- as there are items and one more, and has read each of the items, in their order.
  pub fetch_pass-items :
      (out : List CveRecord)
      → fetch_pass (suc (length items)) feed 0 out ≡ some (ok (add_items items out))
  fetch_pass-items out = pass-items (length items) 0 out (omega arith)
