-- ===== src/Cve/Tests.antt =====
-- Runs of the CVE index and of the matching.
use recon_platform.Prelude.{
  ◌≡◌, refl, true, false, Option, none, some, List, [], ◌∷◌, map, any, drop, take, ok, err, arith,
}
use recon_platform.Prelude.Text.{Text, text, text_eq, lower, has_text, starts_with, elem}
use recon_platform.Context.{EvidenceRow}
use recon_platform.Cve.{
  CveRecord, version_key, key_lt, version_in_range, product_matches, hits, cpe_matches, top_matches,
}
use recon_platform.Cve.Top.{IsTop, top_matches-IsTop}
use recon_platform.Cve.Index.{
  NvdMatch, NvdCve, Feed, kev_failed, flatten_match, merge, merge_all, find_record, add_items,
  fetch_pass, fetch_nvd, bare_record, add_bare, flag_kev, store_records, kev_ids_of, severities_of,
  refresh_index,
}
use recon_platform.Cve.Pages.{fetch_pass-items}
use recon_platform.Cve.Refresh.{refreshed, refresh_index-find, refresh_index-failed}
use recon_platform.Cve.Ends.{flatten_match-ends}
use recon_platform.Cve.Correlate.{Lookup, same_lookup, lookup_of, lookups}
use recon_platform.Cve.Correlate.Once.{IsOnce, asks, lookups-exact}

keyed : version_key (text "v1.24") ≡ some (1 ∷ 24 ∷ [])
unfolding version_key
keyed = refl

nginx_match : NvdMatch
nginx_match = record {
  criteria = some (text "cpe:2.3:a:f5:nginx:*");
  start_including = none;
  start_excluding = none;
  end_including = some (text "1.24");
  end_excluding = none;
  vulnerable = none;
}

abbrev nginx_cve : NvdCve
nginx_cve = record {
  id = some (text "CVE-1");
  descriptions = [];
  metrics = [];
  configurations = ((nginx_match ∷ []) ∷ []) ∷ [];
}

abbrev nginx_record : CveRecord
nginx_record = record {
  cve_id = text "CVE-1";
  cpe_matches = flatten_match (text "cpe:2.3:a:f5:nginx:*") nginx_match ∷ [];
  cvss_v31_score = some 98;
  cvss_v31_severity = none;
  cvss_vector = none;
  description = none;
  in_kev = false;
}

older_hits : hits (text "Nginx") (some (text "1.9.3")) nginx_record ≡ true
unfolding hits product_matches version_in_range version_key key_lt flatten_match nginx_match
    has_text lower starts_with
older_hits = refl

-- The last affected version is not matched.
last_misses : hits (text "nginx") (some (text "1.24")) nginx_record ≡ false
unfolding hits product_matches version_in_range version_key key_lt flatten_match nginx_match
    has_text lower starts_with
last_misses = refl

top_matches-IsTop_example :
    IsTop
      (text "nginx")
      none
      (nginx_record ∷ [])
      (top_matches (text "nginx") none (nginx_record ∷ []))
      (drop 5 (cpe_matches (text "nginx") none (nginx_record ∷ [])))
top_matches-IsTop_example = top_matches-IsTop (text "nginx") none (nginx_record ∷ [])

-- NVD with one CVE, in pages of one.
abbrev one_page : Feed
one_page start = ok (record { items = take 1 (drop start (nginx_cve ∷ [])); total_results = 1 })

fetch_pass-items_example : fetch_pass 2 one_page 0 [] ≡ some (ok (add_items (nginx_cve ∷ []) []))
fetch_pass-items_example =
    fetch_pass-items (nginx_cve ∷ []) (λ _. 1) one_page (λ start. (omega arith, refl)) []

fetched :
    fetch_nvd 2 (map (λ (s : Option Text). one_page) (none ∷ [])) []
    ≡ some (ok (add_items (nginx_cve ∷ []) []))
unfolding fetch_nvd fetch_pass add_items
fetched = refl

all_at_once : severities_of (text "nvd_api") ≡ ok (none ∷ [])
unfolding severities_of
all_at_once = refl

refresh_index-find_example :
    (after : List CveRecord) × (refresh_index 2
        (text "nvd_api")
        (ok (some (text "cve-2 ") ∷ []))
        (λ _. one_page)
        []
      ≡ some (ok tt, after))
    × (find_record (text "CVE-2") after
        ≡ refreshed
            (kev_ids_of (some (text "cve-2 ") ∷ []))
            (add_items (nginx_cve ∷ []) [])
            []
            (text "CVE-2"))
refresh_index-find_example =
    refresh_index-find 2 (text "nvd_api") (some (text "cve-2 ") ∷ []) (λ _. one_page) []
      (text "CVE-2") all_at_once fetched

-- A local refresh replaces the full record of a CVE of the catalog that it does not fetch by a bare one.
record_is_lost :
    find_record (text "CVE-1") (store_records (text "CVE-1" ∷ []) [] (nginx_record ∷ []))
    ≡ some (record (bare_record (text "CVE-1")) { in_kev = true })
unfolding find_record store_records merge_all merge flag_kev add_bare bare_record elem text_eq
record_is_lost = refl

kev_fails :
    refresh_index 2 (text "nvd_api") (err kev_failed) (λ _. one_page) (nginx_record ∷ [])
    ≡ some (err kev_failed, nginx_record ∷ [])
unfolding refresh_index severities_of
kev_fails = refl

refresh_index-failed_example : nginx_record ∷ [] ≡ nginx_record ∷ []
refresh_index-failed_example =
    refresh_index-failed 2 (text "nvd_api") (err kev_failed) (λ _. one_page) (nginx_record ∷ [])
      (nginx_record ∷ []) kev_fails

flatten_match-ends_example :
    (version_in_range (text "v1.24") none (some (text "v1.24")) ≡ false)
    × (version_in_range (text "v1.24") (some (text "v1.24")) none ≡ true)
unfolding flatten_match
flatten_match-ends_example =
    flatten_match-ends (text "cpe:2.3:a:f5:nginx:*") (text "v1.24") (1 ∷ 24 ∷ []) none none refl
      keyed

abbrev jquery_row : EvidenceRow
jquery_row = record {
  subject_type = text "tech";
  subject_value = text "x";
  is_absent = false;
  is_error = false;
  raw = (text "name", text "jQuery ") ∷ (text "version", text "3.4") ∷ [];
  relationships = none;
}

abbrev jquery : Lookup
jquery = record { npm_name = text "jquery"; version = text "3.4"; target = [] }

asked_once : lookups [] (jquery_row ∷ jquery_row ∷ []) ≡ jquery ∷ []
unfolding lookups lookup_of text_eq
asked_once = refl

lookups-exact_example :
    IsOnce (lookups [] (jquery_row ∷ jquery_row ∷ []))
    × (any (same_lookup jquery) (lookups [] (jquery_row ∷ jquery_row ∷ []))
        ≡ any (asks jquery) (jquery_row ∷ jquery_row ∷ []))
lookups-exact_example = lookups-exact (jquery_row ∷ jquery_row ∷ []) jquery
