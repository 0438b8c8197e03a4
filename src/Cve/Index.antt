-- ===== src/Cve/Index.antt =====
-- recon/orchestrator/cve_index.py: the records that are read of the feeds, and the refresh of the index.
-- The feeds are arguments: what CISA returns, and what NVD returns at an index. Dates and references
-- are left out of the records.
mod Nvd
unfoldable pub use Nvd.*
use recon_platform.Prelude.{
  ℕ, zero, suc, ◌+◌, ◌-◌, leb, Bool, true, false, ◌&&◌, ◌||◌, Option, none, some, List, [], ◌∷◌,
  ◌++◌, map, any, length, if◌then◌else◌, Result, ok, err,
}
use recon_platform.Prelude.Text.{Text, text, text_eq, is_empty, elem, strip, split}
use recon_platform.Cve.{CpeMatch, CveRecord, or_empty}

pub data CveIndexError : Type 0 where
  unknown_source kev_failed nvd_failed : CveIndexError

-- `out[rec["cve_id"]] = rec`, and `session.merge(rec)`: the row of the id, or a new one.
unfoldable pub merge : CveRecord → List CveRecord → List CveRecord
merge rec [] = rec ∷ []
merge rec (r ∷ recs) =
    let rest = merge rec recs in if text_eq r.cve_id rec.cve_id then rec ∷ recs else r ∷ rest

unfoldable pub merge_all : List CveRecord → List CveRecord → List CveRecord
merge_all [] table = table
merge_all (rec ∷ recs) table = merge_all recs (merge rec table)

unfoldable pub find_record : Text → List CveRecord → Option CveRecord
find_record id [] = none
find_record id (r ∷ recs) = if text_eq r.cve_id id then some r else find_record id recs

-- The loop over a page.
unfoldable pub add_items : List NvdCve → List CveRecord → List CveRecord
add_items [] out = out
add_items (item ∷ items) out =
    add_items items (elim (parse_nvd_cve item) [ none ↦ out | some rec ↦ merge rec out ])

pub record Page : Type 0 where
  pub items : List NvdCve
  pub total_results : ℕ

-- What NVD returns for a severity from an index on; an error of HTTP or JSON fails.
abbrev pub Feed : Type 0
Feed = ℕ → Result CveIndexError Page

-- The loop over the pages of one pass; `none` if the fuel, the number of pages, does not suffice.
unfoldable pub fetch_pass :
    ℕ → Feed → ℕ → List CveRecord → Option (Result CveIndexError (List CveRecord))
fetch_pass zero feed start out = none
fetch_pass (suc fuel) feed start out = elim (feed start) [
  | err e ↦ some (err e)
  | ok page ↦
      let out' = add_items page.items out in
      let next = start + length page.items in
      let rest = fetch_pass fuel feed next out' in
      if is_empty page.items || leb page.total_results next then some (ok out') else rest
]

-- The loop over the severities.
unfoldable pub fetch_nvd :
    ℕ → List Feed → List CveRecord → Option (Result CveIndexError (List CveRecord))
fetch_nvd fuel [] out = some (ok out)
fetch_nvd fuel (feed ∷ feeds) out = elim (fetch_pass fuel feed 0 out) [
  | none ↦ none
  | some (err e) ↦ some (err e)
  | some (ok out') ↦ fetch_nvd fuel feeds out'
]

-- A CVE of the KEV catalog that NVD did not give.
unfoldable pub bare_record : Text → CveRecord
bare_record id = record {
  cve_id = id;
  cpe_matches = [];
  cvss_v31_score = none;
  cvss_v31_severity = none;
  cvss_vector = none;
  description = none;
  in_kev = false;
}

abbrev pub has_record : Text → List CveRecord → Bool
has_record id recs = any (λ r. text_eq r.cve_id id) recs

unfoldable pub add_bare : List Text → List CveRecord → List CveRecord
add_bare [] records = records
add_bare (id ∷ kev_ids) records =
    add_bare kev_ids (if has_record id records then records else records ++ bare_record id ∷ [])

unfoldable pub flag_kev : List Text → List CveRecord → List CveRecord
flag_kev kev_ids [] = []
flag_kev kev_ids (r ∷ recs) = record r { in_kev = elem r.cve_id kev_ids } ∷ flag_kev kev_ids recs

-- What `refresh_index` writes: the records of NVD and the bare ones, each marked by the catalog.
unfoldable pub store_records : List Text → List CveRecord → List CveRecord → List CveRecord
store_records kev_ids records table = merge_all (flag_kev kev_ids (add_bare kev_ids records)) table

-- `_fetch_kev`: the ids of the catalog's items that have one.
unfoldable pub kev_ids_of : List (Option Text) → List Text
unfolding strip
kev_ids_of [] = []
kev_ids_of (id ∷ ids) =
    if is_empty (or_empty id)
    then kev_ids_of ids
    else map upper_char (strip (or_empty id)) ∷ kev_ids_of ids

-- The severities that are asked for, one pass each; `none` asks for all at once.
unfoldable pub severities_of : Text → Result CveIndexError (List (Option Text))
unfolding text_eq
severities_of source =
    if text_eq source (text "local")
    then ok (some (text "HIGH") ∷ some (text "CRITICAL") ∷ [])
    else if text_eq source (text "nvd_api")
    then ok (none ∷ [])
    else err unknown_source

-- `refresh_index`, with the table of records that it leaves; the feeds are fetched before it is written.
unfoldable pub refresh_index :
    ℕ
    → Text
    → Result CveIndexError (List (Option Text))
    → (Option Text → Feed)
    → List CveRecord
    → Option (Result CveIndexError (Unit {0}) × List CveRecord)
refresh_index fuel source kev nvd table = elim (severities_of source) [
  | err e ↦ some (err e, table)
  | ok severities ↦ elim kev [
    | err e ↦ some (err e, table)
    | ok ids ↦ elim (fetch_nvd fuel (map nvd severities) []) [
      | none ↦ none
      | some (err e) ↦ some (err e, table)
      | some (ok records) ↦ some (ok tt, store_records (kev_ids_of ids) records table)
    ]
  ]
]
