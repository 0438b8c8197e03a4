-- ===== src/Cve/Table.antt =====
-- recon/orchestrator/cve_index.py: searches of the table of records behind the steps of a refresh.
mod Merge
unfoldable pub use Merge.*
use recon_platform.Prelude.{
  ◌≡◌, refl, ap, subst, ◌∙◌, Bool, true, false, ◌||◌, Option, none, some, List, [], ◌∷◌, ◌++◌,
  if◌then◌else◌, Bool-cases, Option-cases, inl, inr, arith,
}
use recon_platform.Prelude.Text.{Text, text_eq, text_eq_iff, elem}
use recon_platform.Cve.{CveRecord}
use recon_platform.Cve.Index.{
  NvdCve, parse_nvd_cve, merge, merge_all, find_record, add_items, bare_record, has_record,
  add_bare, flag_kev,
}

pub has_record-flag_kev :
    (kev_ids : List Text) (id : Text) (recs : List CveRecord)
    → has_record id (flag_kev kev_ids recs) ≡ has_record id recs
unfolding flag_kev
has_record-flag_kev kev_ids id [] = refl
has_record-flag_kev kev_ids id (r ∷ recs) = ground (arith, has_record-flag_kev kev_ids id recs)

pub flag_kev-HasIds :
    (kev_ids : List Text) (recs : List CveRecord) → HasIds recs → HasIds (flag_kev kev_ids recs)
unfolding flag_kev
flag_kev-HasIds kev_ids [] h = tt
flag_kev-HasIds kev_ids (r ∷ recs) (p, h) =
    (has_record-flag_kev kev_ids r.cve_id recs ∙ p, flag_kev-HasIds kev_ids recs h)

-- The record of an id is appended.
pub find_record-bare :
    (k id : Text) (recs : List CveRecord)
    → find_record id (recs ++ bare_record k ∷ [])
      ≡ or_find (find_record id recs) (if text_eq k id then some (bare_record k) else none)
unfolding find_record bare_record
find_record-bare k id [] = refl
find_record-bare k id (r ∷ recs) = elim (Bool-cases (text_eq r.cve_id id)) [
  | inl same ↦ rw same refl
  | inr other ↦ rw other (find_record-bare k id recs)
]

pub has_record-bare :
    (k id : Text) (recs : List CveRecord)
    → has_record id (recs ++ bare_record k ∷ []) ≡ (has_record id recs || text_eq k id)
unfolding bare_record
has_record-bare k id [] = ground arith
has_record-bare k id (r ∷ recs) = ground (arith, has_record-bare k id recs)

pub bare-HasIds :
    (k : Text) (recs : List CveRecord)
    → HasIds recs
    → has_record k recs ≡ false
    → HasIds (recs ++ bare_record k ∷ [])
bare-HasIds k [] h n = (refl, tt)
bare-HasIds k (r ∷ recs) (p, h) n = (
  has_record-bare k r.cve_id recs ∙ ground (arith, p, text_eq_sym k r.cve_id, n),
  bare-HasIds k recs h (ground (arith, n)),
)

pub add_bare-HasIds :
    (kev_ids : List Text) (recs : List CveRecord) → HasIds recs → HasIds (add_bare kev_ids recs)
unfolding add_bare
add_bare-HasIds [] recs h = h
add_bare-HasIds (k ∷ kev_ids) recs h = elim (Bool-cases (has_record k recs)) [
  | inl known ↦ rw known (add_bare-HasIds kev_ids recs h)
  | inr new ↦
      rw new (add_bare-HasIds kev_ids (recs ++ bare_record k ∷ []) (bare-HasIds k recs h new))
]

abbrev pub bare_of : List Text → Text → Option CveRecord
bare_of kev_ids id = if elem id kev_ids then some (bare_record id) else none

pub find_some :
    (id : Text) (recs : List CveRecord)
    → has_record id recs ≡ true
    → (r : CveRecord) × (find_record id recs ≡ some r)
unfolding find_record
find_some id [] h = cc
find_some id (r ∷ recs) h = elim (Bool-cases (text_eq r.cve_id id)) [
  | inl same ↦ rw same (r, refl)
  | inr other ↦ rw other (find_some id recs (ground arith))
]

pub or_none : (o : Option CveRecord) → o ≡ or_find o none
or_none none = refl
or_none (some r) = refl

pub or_assoc : (a b c : Option CveRecord) → or_find (or_find a b) c ≡ or_find a (or_find b c)
or_assoc none b c = refl
or_assoc (some a) b c = refl

-- A known id adds nothing.
pub known_bare :
    (k : Text) (kev_ids : List Text) (id : Text) (recs : List CveRecord)
    → has_record k recs ≡ true
    → or_find (find_record id recs) (bare_of kev_ids id)
      ≡ or_find (find_record id recs) (bare_of (k ∷ kev_ids) id)
unfolding elem
known_bare k kev_ids id recs known = elim (Bool-cases (text_eq k id)) [
  | inl same ↦
      let (r, found) =
        find_some id recs
          (subst (λ (x : Text). has_record x recs ≡ true) ((text_eq_iff k id).0 same) known) in
      rw found refl
  | inr other ↦ rw other refl
]

pub new_bare :
    (k : Text) (kev_ids : List Text) (id : Text)
    → or_find (if text_eq k id then some (bare_record k) else none) (bare_of kev_ids id)
      ≡ bare_of (k ∷ kev_ids) id
unfolding elem
new_bare k kev_ids id = elim (Bool-cases (text_eq k id)) [
  | inl same ↦ rw same (ap (λ (x : Text). some (bare_record x)) ((text_eq_iff k id).0 same))
  | inr other ↦ rw other refl
]

pub find_record-add_bare :
    (kev_ids : List Text) (id : Text) (recs : List CveRecord)
    → find_record id (add_bare kev_ids recs) ≡ or_find (find_record id recs) (bare_of kev_ids id)
unfolding add_bare elem
find_record-add_bare [] id recs = or_none (find_record id recs)
find_record-add_bare (k ∷ kev_ids) id recs = elim (Bool-cases (has_record k recs)) [
  | inl known ↦ rw known (find_record-add_bare kev_ids id recs ∙ known_bare k kev_ids id recs known)
  | inr new ↦ rw new (
      find_record-add_bare kev_ids id (recs ++ bare_record k ∷ [])
      ∙ rw (find_record-bare k id recs) (
          or_assoc (find_record id recs) _ _
          ∙ ap (λ o. or_find (find_record id recs) o) (new_bare k kev_ids id)))
]
