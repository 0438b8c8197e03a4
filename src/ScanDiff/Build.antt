-- ===== src/ScanDiff/Build.antt =====
-- recon/modules/active/scan_diff.py: `_build_signature_set`, `_emit` and `run`. The counts of the
-- summary and the messages of progress are left out.
use recon_platform.Prelude.{
  ℕ, ltb, ◌==◌, Bool, true, false, ◌&&◌, ◌||◌, Option, none, some, List, [], ◌∷◌, ◌++◌, map,
  if◌then◌else◌, Result, ok, ◌>>=◌,
}
use recon_platform.Prelude.Text.{Text, text, text_eq, is_empty, has_char}
use recon_platform.Scope.{ScopeStatus, excluded, Rules, classify}
use recon_platform.Scope.Urls.{ValueError}
use recon_platform.Correlation.{InterestLevel, informational, notable, high_value, finding}
use recon_platform.Correlation.Upsert.{Asset}
use recon_platform.Context.{
  EvidenceRow, Context, add_evidence, write_asset_snapshot, write_scan_delta, Snapshot,
}
use recon_platform.Context.Reading.{
  known_values, known_evidence, scoped_targets, known_asset_rows, latest_asset_snapshot,
}
use recon_platform.ScanDiff.{ServiceData, service_signature, Change, diff}

-- The order of texts by their code points.
unfoldable pub text_le : Text → Text → Bool
text_le [] t = true
text_le (_ ∷ _) [] = false
text_le (c ∷ s) (d ∷ t) = ltb c d || c == d && text_le s t

-- `sigs.add(sig)`, where the set is kept sorted.
unfoldable pub add_signature : Text → List Text → List Text
unfolding text_le text_eq
add_signature sig [] = sig ∷ []
add_signature sig (s ∷ sigs) =
    let rest = add_signature sig sigs in
    if text_eq s sig then s ∷ sigs else if text_le sig s then sig ∷ s ∷ sigs else s ∷ rest

unfoldable pub add_signatures : List Text → List Text → List Text
add_signatures [] sigs = sigs
add_signatures (new ∷ more) sigs = add_signatures more (add_signature new sigs)

-- `raw.get(key)`
unfoldable pub raw_get : Text → List (Text × Text) → Option Text
unfolding text_eq
raw_get key [] = none
raw_get key ((k, v) ∷ raw) = if text_eq k key then some v else raw_get key raw

abbrev or_empty : Option Text → Text
or_empty none = []
or_empty (some s) = s

-- `s.rsplit(":", 1)[0]`
unfoldable pub before_last : ℕ → Text → Text
unfolding has_char
before_last d [] = []
before_last d (c ∷ s) =
    let rest = before_last d s in if has_char d s then c ∷ rest else if c == d then [] else c ∷ s

-- The host that a service's evidence is about.
unfoldable pub service_host : EvidenceRow → Text
unfolding raw_get before_last
service_host row =
    let host = or_empty (raw_get (text "host") row.raw) in
    if is_empty host then before_last b':' row.subject_value else host

-- A port that is missing is written as None.
unfoldable pub port_text : EvidenceRow → Text
unfolding raw_get
port_text row = elim (raw_get (text "port") row.raw) [ none ↦ text "None" | some port ↦ port ]

unfoldable pub service_data : EvidenceRow → ServiceData
unfolding raw_get
service_data row = record {
  product = or_empty (raw_get (text "product") row.raw);
  version = or_empty (raw_get (text "version") row.raw);
  name = or_empty (raw_get (text "name") row.raw);
}

abbrev pub is_excluded : ScopeStatus → Bool
is_excluded excluded = true
is_excluded _ = false

-- The signatures of the services whose host is not excluded.
unfoldable pub service_signatures : Rules → List EvidenceRow → Result ValueError (List Text)
unfolding classify service_host port_text service_data service_signature
service_signatures rules [] = ok []
service_signatures rules (row ∷ rows) =
    let rest = service_signatures rules rows in
    do
      d ← classify rules (service_host row) []
      sigs ← rest
      ok (
          if is_excluded d.status
          then sigs
          else service_signature (service_data row) (service_host row) (port_text row) ∷ sigs)

-- The signatures of the findings that the query gives.
unfoldable pub finding_signatures : List Asset → List Text
unfolding known_asset_rows
finding_signatures assets =
    map (λ (a : Asset). text "finding:" ++ a.value) (known_asset_rows (finding ∷ []) true assets)

-- `_build_signature_set`
unfoldable pub build_signature_set :
    Rules → Bool → List Asset → Context → Result ValueError (List Text)
unfolding known_values known_evidence scoped_targets service_signatures finding_signatures
    add_signatures add_signature
build_signature_set rules override assets c = do
  hosts ← scoped_targets rules override (known_values (text "subdomain" ∷ text "domain" ∷ []) c)
  services ← service_signatures rules (known_evidence (text "service" ∷ []) c)
  ok (
      add_signatures
        (map (λ (h : Text). text "subdomain:" ++ h) hosts
          ++ (services ++ finding_signatures assets))
        [])

abbrev interest_text : InterestLevel → Text
interest_text informational = text "informational"
interest_text notable = text "notable"
interest_text high_value = text "high_value"

-- `finding_interest.get(sig)`
finding_interest : Text → List Asset → List (Text × Text)
unfolding text_eq
finding_interest sig [] = []
finding_interest sig (a ∷ assets) =
    if text_eq (text "finding:" ++ a.value) sig
    then (text "interest", interest_text a.interest_level) ∷ []
    else finding_interest sig assets

-- `_emit`: the evidence of a difference.
abbrev pub delta_row : Text → Text → List (Text × Text) → EvidenceRow
delta_row kind sig more = record {
  subject_type = text "delta";
  subject_value = sig;
  is_absent = false;
  is_error = false;
  raw = (text "delta", kind) ∷ more;
  relationships = none;
}

unfoldable pub emit_all : Text → List Asset → List Text → Context → Context
unfolding add_evidence finding_interest
emit_all kind findings [] c = c
emit_all kind findings (sig ∷ sigs) c =
    emit_all kind findings sigs
      (add_evidence (delta_row kind sig (finding_interest sig findings)) [] c)

unfoldable pub emit_changes : List Asset → List Change → Context → Context
unfolding add_evidence finding_interest
emit_changes findings [] c = c
emit_changes findings (change ∷ changes) c = emit_changes findings changes (
    add_evidence
      (delta_row (text "changed") change.signature (
        (text "was", change.was) ∷ (text "now", change.now) ∷ finding_interest change.now findings))
      [] c)

-- The delta against the last snapshot, if there is one; and the new snapshot.
unfoldable pub record_diff : List Asset → List Text → Option Snapshot → Context → Context
unfolding emit_all emit_changes write_scan_delta write_asset_snapshot diff
record_diff findings sigs none c = write_asset_snapshot (record { signature_set = sigs }) c
record_diff findings sigs (some base) c =
    let d = diff base.signature_set sigs in
    let written : Context =
      write_asset_snapshot (record { signature_set = sigs }) (write_scan_delta d c) in
    emit_changes findings d.changed (
      emit_all (text "removed") findings d.removed
        (emit_all (text "added") findings d.added written))

-- `run`
unfoldable pub run : Rules → Bool → List Asset → Context → Result ValueError Context
unfolding build_signature_set record_diff latest_asset_snapshot known_asset_rows
run rules override assets c = do
  sigs ← build_signature_set rules override assets c
  ok (record_diff (known_asset_rows (finding ∷ []) true assets) sigs (latest_asset_snapshot c) c)
