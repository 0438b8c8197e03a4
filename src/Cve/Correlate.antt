-- ===== src/Cve/Correlate.antt =====
-- recon/modules/active/cve_correlate.py: `run` and its three parts. What OSV answers for a package and a
-- version is an argument. Lists in the data of evidence are joined by commas. The
-- liveness checks between the services are left out.
pub mod Once
use recon_platform.Prelude.{
  ℕ, Bool, true, false, ◌&&◌, ◌||◌, not, Option, none, some, List, [], ◌∷◌, ◌++◌, map, any, take,
  keep, if◌then◌else◌,
}
use recon_platform.Prelude.Text.{Text, text, text_eq, is_empty, strip, lower, starts_with, split}
use recon_platform.Correlation.Route.{RawHint}
use recon_platform.Context.{EvidenceRow, Context, add_evidence, add_error}
use recon_platform.Context.Reading.{known_evidence}
use recon_platform.ScanDiff.Build.{raw_get}
use recon_platform.Cve.{CveRecord, or_empty, cvss_interest, top_matches}

abbrev raw_text : Text → EvidenceRow → Text
raw_text key row = or_empty (raw_get key row.raw)

abbrev affects : Text → Text → RawHint
affects type value = record {
  kind = some (text "affects");
  target_type = some type;
  target_value = some value;
}

-- The ports of InternetDB's evidence.
ports_of : EvidenceRow → List Text
unfolding split raw_get text_eq
ports_of row = keep (λ p. not (is_empty p)) (split b',' (raw_text (text "ports") row))

abbrev cve_row : Text → List (Text × Text) → EvidenceRow
cve_row id raw = record {
  subject_type = text "cve";
  subject_value = id;
  is_absent = false;
  is_error = false;
  raw = (text "source", text "cve_correlate") ∷ raw;
  relationships = none;
}

-- The evidence that links a row of InternetDB to the services of its host.
unfoldable pub link_row : EvidenceRow → Context → Context
unfolding ports_of add_evidence
link_row row c =
    let host = raw_text (text "ip") row in
    let ports = ports_of row in
    if not (text_eq (raw_text (text "source") row) (text "internetdb"))
      || is_empty host
      || is_empty ports
    then c
    else add_evidence
        (cve_row row.subject_value (
          (text "linked_from", text "internetdb")
          ∷ (text "ip", host)
          ∷ (text "ports", raw_text (text "ports") row)
          ∷ []))
        (map (λ (p : Text). affects (text "service") (host ++ b':' ∷ p)) ports) c

unfoldable pub link_rows : List EvidenceRow → Context → Context
unfolding link_row
link_rows [] c = c
link_rows (row ∷ rows) c = link_rows rows (link_row row c)

-- `_emit_cve`
unfoldable pub emit_cve : Text → CveRecord → Context → Context
unfolding add_evidence cvss_interest
emit_cve target rec c =
    add_evidence
      (cve_row rec.cve_id (
        (text "matched_via", text "local_index")
        ∷ (text "target", target)
        ∷ (text "interest", cvss_interest rec.cvss_v31_score rec.in_kev)
        ∷ []))
      (affects (text "service") target ∷ []) c

unfoldable pub emit_cves : Text → List CveRecord → Context → Context
unfolding emit_cve
emit_cves target [] c = c
emit_cves target (rec ∷ recs) c = emit_cves target recs (emit_cve target rec c)

-- `_match_local_index`, for the rows of services in turn.
unfoldable pub match_services : List CveRecord → List EvidenceRow → Context → Context
unfolding emit_cves top_matches raw_get
match_services index [] c = c
match_services index (row ∷ rows) c =
    let host = raw_text (text "host") row in
    let port = raw_text (text "port") row in
    let named = raw_text (text "product") row in
    let product = if is_empty named then raw_text (text "name") row else named in
    match_services index rows (
      if is_empty host || is_empty port || is_empty product
      then c
      else emit_cves (host ++ b':' ∷ port)
          (top_matches product (raw_get (text "version") row.raw) index) c)

-- `_NPM_PACKAGE_NAMES.get(name)`
unfoldable pub npm_package : Text → Option Text
unfolding text_eq
npm_package name =
    if text_eq name (text "react")
    then some (text "react")
    else if text_eq name (text "vue")
    then some (text "vue")
    else if text_eq name (text "angular")
    then some (text "@angular/core")
    else if text_eq name (text "jquery")
    then some (text "jquery")
    else if text_eq name (text "webpack")
    then some (text "webpack")
    else none

pub record Lookup : Type 0 where
  pub npm_name : Text
  pub version : Text
  pub target : Text

abbrev pub same_lookup : Lookup → Lookup → Bool
same_lookup a b = text_eq a.npm_name b.npm_name && text_eq a.version b.version

-- The lookup of a row of `tech` evidence, if its name is that of a package.
unfoldable pub lookup_of : EvidenceRow → Option Lookup
unfolding npm_package raw_get strip lower
lookup_of row =
    let name = raw_text (text "name") row in
    let version = raw_text (text "version") row in
    let url = raw_text (text "url") row in
    let target = if is_empty url then raw_text (text "host") row else url in
    if is_empty name || is_empty version then none else elim (npm_package (lower (strip name))) [
      | none ↦ none
      | some found ↦ some (record { npm_name = found; version = version; target = target })
    ]

-- The lookups of `_match_osv`: a package and version once; `seen` are those that were made.
unfoldable pub lookups : List Lookup → List EvidenceRow → List Lookup
lookups seen [] = []
lookups seen (row ∷ rows) =
    let rest = lookups seen rows in
    elim (lookup_of row) [
      | none ↦ rest
      | some l ↦
          let more = l ∷ lookups (l ∷ seen) rows in if any (same_lookup l) seen then rest else more
    ]

-- A vulnerability that OSV lists: its id with its aliases, its CVSS 3 vector, and its severity.
pub record OsvVuln : Type 0 where
  pub ids : List Text
  pub vector : Option Text
  pub severity : Option Text

pub data OsvAnswer : Type 0 where
  raised : OsvAnswer
  refused : OsvAnswer
  vulns : List OsvVuln → OsvAnswer

abbrev is_cve : Text → Bool
is_cve id = starts_with id (text "CVE-")

first_cve : List Text → Option Text
unfolding starts_with
first_cve [] = none
first_cve (id ∷ ids) = if is_cve id then some id else first_cve ids

abbrev osv_interest : Option Text → Text
osv_interest severity =
    if text_eq (or_empty severity) (text "CRITICAL") then text "high_value" else text "notable"

emit_vulns : Lookup → List OsvVuln → Context → Context
unfolding add_evidence first_cve text_eq
emit_vulns l [] c = c
emit_vulns l (v ∷ vs) c = emit_vulns l vs (elim (first_cve v.ids) [
  | none ↦ c
  | some id ↦
      add_evidence
        (cve_row id (
          (text "matched_via", text "osv.dev")
          ∷ (text "package", l.npm_name)
          ∷ (text "version", l.version)
          ∷ (text "cvss_vector", or_empty v.vector)
          ∷ (text "interest", osv_interest v.severity)
          ∷ []))
        (if is_empty l.target then [] else affects (text "url") l.target ∷ []) c
])

-- `_osv_lookup`
unfoldable pub osv_lookup : OsvAnswer → Lookup → Context → Context
unfolding emit_vulns add_error
osv_lookup raised l c = add_error (l.npm_name ++ b'@' ∷ l.version) [] c
osv_lookup refused l c = c
osv_lookup (vulns vs) l c = emit_vulns l (take 5 vs) c

unfoldable pub osv_lookups : (Lookup → OsvAnswer) → List Lookup → Context → Context
unfolding osv_lookup
osv_lookups osv [] c = c
osv_lookups osv (l ∷ ls) c = osv_lookups osv ls (osv_lookup (osv l) l c)

-- `_match_osv`
unfoldable pub match_osv : (Lookup → OsvAnswer) → Context → Context
unfolding osv_lookups lookups known_evidence
match_osv osv c = osv_lookups osv (lookups [] (known_evidence (text "tech" ∷ []) c)) c

-- `run`, with the local index. An empty index matches nothing.
unfoldable pub run : (Lookup → OsvAnswer) → List CveRecord → Context → Context
unfolding match_osv match_services link_rows known_evidence
run osv index c =
    let linked = link_rows (known_evidence (text "cve" ∷ []) c) c in
    match_osv osv (match_services index (known_evidence (text "service" ∷ []) linked) linked)
