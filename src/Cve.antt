-- ===== src/Cve.antt =====
-- recon/models/cve.py, recon/modules/active/cve_correlate.py: records of the CVE index, and the
-- matching of products and versions with them. A CVSS score is in tenths.
pub mod Top
pub mod Index
pub mod Table
pub mod Refresh
pub mod Pages
pub mod Ends
pub mod Correlate
mod Tests
use recon_platform.Prelude.{
  ℕ, ◌+◌, ◌*◌, ◌-◌, ltb, leb, ◌==◌, Bool, true, false, ◌&&◌, ◌||◌, not, Option, none, some, List,
  [], ◌∷◌, ◌++◌, map, any, take, if◌then◌else◌,
}
use recon_platform.Prelude.Text.{
  Text, text, text_eq, is_digit, is_empty, decimal_from, lower, strip, has_text,
}

pub record CpeMatch : Type 0 where
  pub cpe : Text
  pub part : Option Text
  pub vendor : Option Text
  pub product : Option Text
  pub version_start : Option Text
  pub version_end : Option Text
  pub vulnerable : Bool

pub record CveRecord : Type 0 where
  pub cve_id : Text
  pub cpe_matches : List CpeMatch
  pub cvss_v31_score : Option ℕ
  pub cvss_v31_severity : Option Text
  pub cvss_vector : Option Text
  pub description : Option Text
  pub in_kev : Bool

abbrev pub or_empty : Option Text → Text
or_empty none = []
or_empty (some s) = s

-- `_cvss_interest`
unfoldable pub cvss_interest : Option ℕ → Bool → Text
cvss_interest score in_kev =
    if in_kev || elim score [ none ↦ false | some s ↦ leb 90 s ]
    then text "high_value"
    else text "notable"

-- `re.findall(r"\d+", v)`, as numbers; the run of digits that is read, if one is.
numbers : Option ℕ → Text → List ℕ
numbers none [] = []
numbers (some n) [] = n ∷ []
numbers none (c ∷ s) = numbers (if is_digit c then some (c - b'0') else none) s
numbers (some n) (c ∷ s) =
    let more = numbers (some (n * 10 + (c - b'0'))) s in
    let done = numbers none s in if is_digit c then more else n ∷ done

-- `_version_key`
unfoldable pub version_key : Text → Option (List ℕ)
unfolding numbers
version_key v = let parts = numbers none v in if is_empty parts then none else some parts

-- `<` on tuples.
unfoldable pub key_lt : List ℕ → List ℕ → Bool
key_lt [] [] = false
key_lt [] (_ ∷ _) = true
key_lt (_ ∷ _) [] = false
key_lt (a ∷ as') (b ∷ bs) = ltb a b || a == b && key_lt as' bs

-- The key lies before a bound; a bound that has no key is not compared.
abbrev pub before : List ℕ → Option (List ℕ) → Bool
before key none = false
before key (some bound) = key_lt key bound

abbrev at_end : List ℕ → Option (List ℕ) → Bool
at_end key none = false
at_end key (some bound) = not (key_lt key bound)

-- The key of a bound, if it is given and not empty.
abbrev pub bound_key : Option Text → Option (List ℕ)
bound_key none = none
bound_key (some bound) = if is_empty bound then none else version_key bound

-- `_version_in_range`
unfoldable pub version_in_range : Text → Option Text → Option Text → Bool
version_in_range version start end = elim (version_key version) [
  | none ↦ true
  | some key ↦ not (before key (bound_key start)) && not (at_end key (bound_key end))
]

abbrev underscore_to_space : ℕ → ℕ
underscore_to_space c = if c == b'_' then b' ' else c

-- `_product_matches`
unfoldable pub product_matches : CpeMatch → Text → Bool
unfolding lower has_text
product_matches cpe product =
    let cpe_product = lower (map underscore_to_space (or_empty cpe.product)) in
    let wanted = lower product in
    not (is_empty cpe_product)
    && not (is_empty wanted)
    && (has_text wanted cpe_product || has_text cpe_product wanted)

-- A match of the record names the product, and the version if one is known.
unfoldable pub hits : Text → Option Text → CveRecord → Bool
hits product version rec =
    any
      (λ m.
        product_matches m product
        && (is_empty (or_empty version)
            || version_in_range (or_empty version) m.version_start m.version_end))
      rec.cpe_matches

abbrev pub score_of : CveRecord → ℕ
score_of rec = elim rec.cvss_v31_score [ none ↦ 0 | some s ↦ s ]

-- `hits.sort(key=…, reverse=True)`, which keeps the order of equal scores.
unfoldable pub insert_by_score : CveRecord → List CveRecord → List CveRecord
insert_by_score rec [] = rec ∷ []
insert_by_score rec (r ∷ recs) =
    if ltb (score_of rec) (score_of r) then r ∷ insert_by_score rec recs else rec ∷ r ∷ recs

-- `_cpe_matches`
unfoldable pub cpe_matches : Text → Option Text → List CveRecord → List CveRecord
cpe_matches product version [] = []
cpe_matches product version (rec ∷ index) =
    let rest = cpe_matches product version index in
    if hits product version rec then insert_by_score rec rest else rest

-- The matches that are reported, `hits[:_TOP_N_PER_TARGET]`.
unfoldable pub top_matches : Text → Option Text → List CveRecord → List CveRecord
top_matches product version index = take 5 (cpe_matches product version index)
