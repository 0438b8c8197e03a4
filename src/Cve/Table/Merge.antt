-- ===== src/Cve/Table/Merge.antt =====
-- recon/orchestrator/cve_index.py: what the table holds after a merge.
use recon_platform.Prelude.{
  ◌≡◌, refl, ap, subst, ◌∙◌, Bool, true, false, ◌||◌, Option, none, some, List, [], ◌∷◌,
  if◌then◌else◌, Bool-cases, Option-cases, inl, inr, arith,
}
use recon_platform.Prelude.Text.{Text, text_eq, text_eq_iff, elem}
use recon_platform.Cve.{CveRecord}
use recon_platform.Cve.Index.{
  NvdCve, parse_nvd_cve, merge, merge_all, find_record, add_items, has_record, flag_kev,
}

abbrev pub or_find : Option CveRecord → Option CveRecord → Option CveRecord
or_find none b = b
or_find (some a) b = some a

abbrev pub HasIds : List CveRecord → Type 0
HasIds [] = Unit {0}
HasIds (r ∷ recs) = (has_record r.cve_id recs ≡ false) × HasIds recs

pub text_eq_sym : (s t : Text) → text_eq s t ≡ text_eq t s
text_eq_sym s t = ground (arith, text_eq_iff s t, text_eq_iff t s)

pub text_eq_trans : (s t u : Text) → text_eq s t ≡ true → text_eq s u ≡ text_eq t u
text_eq_trans s t u h = ap (λ (x : Text). text_eq x u) ((text_eq_iff s t).0 h)

pub find_none :
    (id : Text) (recs : List CveRecord) → has_record id recs ≡ false → find_record id recs ≡ none
unfolding find_record
find_none id [] h = refl
find_none id (r ∷ recs) h = ground (arith, find_none id recs)

pub if_if {ℓ} :
    {A : Type ℓ} (b : Bool) (x y z : A)
    → (if b then x else z) ≡ (if b then x else (if b then y else z))
if_if true x y z = refl
if_if false x y z = refl

pub find_record-merge :
    (rec : CveRecord) (id : Text) (recs : List CveRecord)
    → find_record id (merge rec recs)
      ≡ (if text_eq rec.cve_id id then some rec else find_record id recs)
unfolding find_record merge
find_record-merge rec id [] = refl
find_record-merge rec id (r ∷ recs) = elim (Bool-cases (text_eq r.cve_id rec.cve_id)) [
  | inl same ↦
      rw (same, text_eq_trans r.cve_id rec.cve_id id same)
        (if_if (text_eq rec.cve_id id) (some rec) (some r) (find_record id recs))
  | inr other ↦ rw other (
      ground (
        arith,
        find_record-merge rec id recs,
        other,
        text_eq_iff r.cve_id rec.cve_id,
        text_eq_iff r.cve_id id,
        text_eq_iff rec.cve_id id,
      ))
]

pub has_record-merge :
    (rec : CveRecord) (id : Text) (recs : List CveRecord)
    → has_record id (merge rec recs) ≡ (has_record id recs || text_eq rec.cve_id id)
unfolding merge
has_record-merge rec id [] = ground arith
has_record-merge rec id (r ∷ recs) = elim (Bool-cases (text_eq r.cve_id rec.cve_id)) [
  | inl same ↦ rw same (ground (arith, text_eq_trans r.cve_id rec.cve_id id same))
  | inr other ↦ rw other (ground (arith, has_record-merge rec id recs))
]

pub merge-HasIds : (rec : CveRecord) (recs : List CveRecord) → HasIds recs → HasIds (merge rec recs)
unfolding merge
merge-HasIds rec [] h = (refl, tt)
merge-HasIds rec (r ∷ recs) (p, h) = elim (Bool-cases (text_eq r.cve_id rec.cve_id)) [
  | inl same ↦
      let e = (text_eq_iff r.cve_id rec.cve_id).0 same in
      rw same (subst (λ (x : Text). has_record x recs ≡ false) e p, h)
  | inr other ↦ rw other (
    has_record-merge rec r.cve_id recs ∙ ground (arith, p, text_eq_sym rec.cve_id r.cve_id, other),
    merge-HasIds rec recs h,
  )
]

pub add_items-HasIds :
    (items : List NvdCve) (out : List CveRecord) → HasIds out → HasIds (add_items items out)
unfolding add_items
add_items-HasIds [] out h = h
add_items-HasIds (item ∷ items) out h = elim (Option-cases (parse_nvd_cve item)) [
  | inl unread ↦ rw unread (add_items-HasIds items out h)
  | inr (rec, read) ↦ rw read (add_items-HasIds items (merge rec out) (merge-HasIds rec out h))
]

pub find_record-merge_all :
    (id : Text) (recs table : List CveRecord)
    → HasIds recs
    → find_record id (merge_all recs table) ≡ or_find (find_record id recs) (find_record id table)
unfolding find_record merge_all
find_record-merge_all id [] table h = refl
find_record-merge_all id (r ∷ recs) table (p, h) = elim (Bool-cases (text_eq r.cve_id id)) [
  | inl same ↦
      let gone : find_record id recs ≡ none =
        find_none id recs
          (subst (λ (x : Text). has_record x recs ≡ false) ((text_eq_iff r.cve_id id).0 same) p) in
      find_record-merge_all id recs (merge r table) h
      ∙ rw (gone, find_record-merge r id table, same) refl
  | inr other ↦
      find_record-merge_all id recs (merge r table) h
      ∙ rw (find_record-merge r id table, other) refl
]

abbrev pub flag : List Text → CveRecord → CveRecord
flag kev_ids r = record r { in_kev = elem r.cve_id kev_ids }

abbrev pub flagged : List Text → Option CveRecord → Option CveRecord
flagged kev_ids none = none
flagged kev_ids (some r) = some (flag kev_ids r)

pub find_record-flag_kev :
    (kev_ids : List Text) (id : Text) (recs : List CveRecord)
    → find_record id (flag_kev kev_ids recs) ≡ flagged kev_ids (find_record id recs)
unfolding find_record flag_kev
find_record-flag_kev kev_ids id [] = refl
find_record-flag_kev kev_ids id (r ∷ recs) = elim (Bool-cases (text_eq r.cve_id id)) [
  | inl same ↦ rw same refl
  | inr other ↦ rw other (find_record-flag_kev kev_ids id recs)
]
