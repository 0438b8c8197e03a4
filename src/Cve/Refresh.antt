-- ===== src/Cve/Refresh.antt =====
-- recon/orchestrator/cve_index.py: what the index holds after a refresh.
use recon_platform.Prelude.{
  ℕ, zero, suc, ◌+◌, leb, length, ◌≡◌, refl, ap, subst, ◌∙◌, ◌||◌, Option, some, List, [], ◌∷◌, map,
  Result, ok, err, Bool-cases, Option-cases, Result-cases, inl, inr, arith,
}
use recon_platform.Prelude.Text.{Text, is_empty}
use recon_platform.Cve.{CveRecord}
use recon_platform.Cve.Index.{
  CveIndexError, Feed, find_record, add_items, fetch_pass, fetch_nvd, add_bare, flag_kev,
  store_records, kev_ids_of, severities_of, refresh_index,
}
use recon_platform.Cve.Table.{
  or_find, HasIds, add_items-HasIds, find_record-merge_all, flagged, find_record-flag_kev,
  flag_kev-HasIds, add_bare-HasIds, bare_of, find_record-add_bare,
}

-- What a record of the index is after a refresh: the one of NVD, or a bare one of the catalog, each
-- marked by the catalog, or the one that was there.
abbrev pub refreshed : List Text → List CveRecord → List CveRecord → Text → Option CveRecord
refreshed kev_ids records table id =
    or_find (flagged kev_ids (or_find (find_record id records) (bare_of kev_ids id)))
      (find_record id table)

find_record-store :
    (kev_ids : List Text) (records table : List CveRecord) (id : Text)
    → HasIds records
    → find_record id (store_records kev_ids records table) ≡ refreshed kev_ids records table id
unfolding store_records
find_record-store kev_ids records table id h =
    let all_records = add_bare kev_ids records in
    find_record-merge_all id (flag_kev kev_ids all_records) table
      (flag_kev-HasIds kev_ids all_records (add_bare-HasIds kev_ids records h))
    ∙ rw (find_record-flag_kev kev_ids id all_records, find_record-add_bare kev_ids id records) refl

fetch_pass-HasIds :
    (fuel : ℕ) (feed : Feed) (start : ℕ) (out : List CveRecord) {records : List CveRecord}
    → HasIds out
    → fetch_pass fuel feed start out ≡ some (ok records)
    → HasIds records
unfolding fetch_pass
fetch_pass-HasIds zero feed start out h e = cc
fetch_pass-HasIds (suc fuel) feed start out {records} h e = elim (Result-cases (feed start)) [
  | inr (raised, f) ↦ ground arith
  | inl (page, f) ↦
      let out' = add_items page.items out in
      let next = start + length page.items in
      let h' = add_items-HasIds page.items out h in
      elim (Bool-cases (is_empty page.items || leb page.total_results next)) [
        | inl last ↦ let same : out' ≡ records = ground arith in subst HasIds same h'
        | inr more ↦ fetch_pass-HasIds fuel feed next out' h' (ground arith)
      ]
]

fetch_nvd-HasIds :
    (fuel : ℕ) (feeds : List Feed) (out : List CveRecord) {records : List CveRecord}
    → HasIds out
    → fetch_nvd fuel feeds out ≡ some (ok records)
    → HasIds records
unfolding fetch_nvd
fetch_nvd-HasIds fuel [] out h e = subst HasIds (ground arith) h
fetch_nvd-HasIds fuel (feed ∷ feeds) out h e = elim (Option-cases (fetch_pass fuel feed 0 out)) [
  | inl starved ↦ ground arith
  | inr (r, passed) ↦ elim (Result-cases r) [
    | inr (raised, q) ↦ ground arith
    | inl (out', q) ↦
        fetch_nvd-HasIds fuel feeds out' (fetch_pass-HasIds fuel feed 0 out h (passed ∙ ap some q))
          (ground arith)
  ]
]

-- A refresh whose feeds can be fetched writes the table, in which each id then has the record that NVD
-- gave, with the mark that says whether the catalog lists it; else a bare record, marked, if the catalog
-- lists it; else the record that it had before.
pub refresh_index-find :
    (fuel : ℕ) (source : Text) (items : List (Option Text)) (nvd : Option Text → Feed)
    (table : List CveRecord) (id : Text) {severities : List (Option Text)}
    {records : List CveRecord}
    → severities_of source ≡ ok severities
    → fetch_nvd fuel (map nvd severities) [] ≡ some (ok records)
    → (after : List CveRecord) × (refresh_index fuel source (ok items) nvd table
        ≡ some (ok tt, after))
      × (find_record id after ≡ refreshed (kev_ids_of items) records table id)
unfolding refresh_index
refresh_index-find fuel source items nvd table id {severities} {records} p q = (
  store_records (kev_ids_of items) records table,
  rw (p, refresh_index, q) refl,
  find_record-store (kev_ids_of items) records table id
      (fetch_nvd-HasIds fuel (map nvd severities) [] tt q),
)

-- A refresh that fails, whichever feed fails and at whichever page, leaves the table as it was.
pub refresh_index-failed :
    (fuel : ℕ) (source : Text) (kev : Result CveIndexError (List (Option Text)))
    (nvd : Option Text → Feed) (table after : List CveRecord) {e : CveIndexError}
    → refresh_index fuel source kev nvd table ≡ some (err e, after)
    → after ≡ table
unfolding refresh_index
refresh_index-failed fuel source kev nvd table after h =
    elim (Result-cases (severities_of source)) [
      | inr (_, p) ↦ ground arith
      | inl (severities, p) ↦ elim (Result-cases kev) [
        | inr (_, k) ↦ ground arith
        | inl (items, k) ↦ elim (Option-cases (fetch_nvd fuel (map nvd severities) [])) [
          | inl q ↦ ground arith
          | inr (r, q) ↦ elim (Result-cases r) [
            | inr (_, s) ↦ ground arith
            | inl (records, s) ↦ ground arith
          ]
        ]
      ]
    ]
