-- ===== src/ScanDiff/Findings.antt =====
-- recon/modules/active/scan_diff.py and recon/correlation/engine.py: the findings of the graph do not
-- reach the signature set.
use recon_platform.Prelude.{
  ℕ, ◌==◌, ◌≡◌, refl, subst, ◌∙◌, Bool, true, false, ◌&&◌, not, List, [], ◌∷◌, ◌++◌, map, all, All,
  if◌then◌else◌, ok, >>=-eq-ok, ok_inj, Bool-cases, inl, inr, arith,
}
use recon_platform.Prelude.Text.{Text, text, starts_with, is_empty}
use recon_platform.Scope.{Rules, classify}
use recon_platform.Correlation.{finding}
use recon_platform.Correlation.Upsert.{Asset, type_number}
use recon_platform.Correlation.Route.{Row}
use recon_platform.Correlation.Graph.{Edge, Graph, Summary, correlate}
use recon_platform.Correlation.Graph.Tables.{IsApart, IsSound, tables, is_intel_number}
use recon_platform.Correlation.Graph.Sound.{correlate-IsSound}
use recon_platform.Context.{EvidenceRow, Context}
use recon_platform.Context.Reading.{known_values, known_evidence, known_asset_rows, scoped_targets}
use recon_platform.ScanDiff.{ServiceData, service_signature}
use recon_platform.ScanDiff.Build.{
  add_signature, add_signatures, service_host, port_text, service_data, service_signatures,
  is_excluded, finding_signatures, build_signature_set,
}

-- The signature is not that of a finding.
abbrev pub is_other : Text → Bool
is_other sig = not (starts_with sig (text "finding:"))

no_finding_rows :
    (assets : List Asset) → All IsApart assets → known_asset_rows (finding ∷ []) true assets ≡ []
unfolding known_asset_rows
no_finding_rows [] h = refl
no_finding_rows (a ∷ assets) (p, h) = elim (Bool-cases (type_number a.asset_type == 5)) [
  | inl is_finding ↦
      let intel = p (is_intel_number a.asset_type ∙ ground arith) in
      ground (arith, no_finding_rows assets h)
  | inr other ↦ ground (arith, no_finding_rows assets h)
]

service_signature-other :
    (raw : ServiceData) (host port : Text) → is_other (service_signature raw host port) ≡ true
unfolding service_signature starts_with
service_signature-other raw host port =
    elim (Bool-cases (not (is_empty raw.product) && not (is_empty raw.version))) [
      | inl both ↦ rw both refl
      | inr _ ↦ elim (Bool-cases (not (is_empty raw.product))) [
        | inl product ↦ ground arith
        | inr _ ↦ ground arith
      ]
    ]

add_signature-other :
    (sig : Text) (sigs : List Text)
    → is_other sig ≡ true
    → all is_other sigs ≡ true
    → all is_other (add_signature sig sigs) ≡ true
unfolding add_signature
add_signature-other sig [] p h = ground arith
add_signature-other sig (s ∷ sigs) p h = ground (arith, add_signature-other sig sigs p)

add_signatures-other :
    (new sigs : List Text)
    → all is_other new ≡ true
    → all is_other sigs ≡ true
    → all is_other (add_signatures new sigs) ≡ true
unfolding add_signatures
add_signatures-other [] sigs p h = h
add_signatures-other (sig ∷ new) sigs p h =
    add_signatures-other new (add_signature sig sigs) (ground arith)
      (add_signature-other sig sigs (ground arith) h)

kept-other :
    (skip : Bool) (sig : Text) (sigs : List Text)
    → is_other sig ≡ true
    → all is_other sigs ≡ true
    → all is_other (if skip then sigs else sig ∷ sigs) ≡ true
kept-other true sig sigs p h = h
kept-other false sig sigs p h = ground arith

service_signatures-other :
    (rules : Rules) (rows : List EvidenceRow) {sigs : List Text}
    → service_signatures rules rows ≡ ok sigs
    → all is_other sigs ≡ true
unfolding service_signatures
service_signatures-other rules [] e = rw⁻¹ (ok_inj e) refl
service_signatures-other rules (row ∷ rows) e =
    let (d, _, rest) = >>=-eq-ok (classify rules (service_host row) []) _ e in
    let (sigs, more, rest') = >>=-eq-ok (service_signatures rules rows) _ rest in
    let one = service_signature-other (service_data row) (service_host row) (port_text row) in
    let others = service_signatures-other rules rows more in
    subst (λ (x : List Text). all is_other x ≡ true) (ok_inj rest')
      (kept-other (is_excluded d.status) _ sigs one others)

subdomains-other :
    (hosts : List Text) → all is_other (map (λ (h : Text). text "subdomain:" ++ h) hosts) ≡ true
unfolding starts_with
subdomains-other [] = refl
subdomains-other (h ∷ hosts) = subdomains-other hosts

all-append :
    (xs ys : List Text)
    → all is_other xs ≡ true
    → all is_other ys ≡ true
    → all is_other (xs ++ ys) ≡ true
all-append [] ys p h = h
all-append (x ∷ xs) ys p h = ground (arith, all-append xs ys)

-- After a correlation, on tables that were sound before it, the signature set of the scan diff holds no
-- signature of a finding, whatever findings the graph holds and whatever was discovered: the query for
-- the findings asks for those in scope, and no finding is. So a finding that comes or goes is in no
-- delta.
pub build_signature_set-other :
    (now : ℕ) (rules : Rules) (rows : List Row) (assets : List Asset) (edges : List Edge)
    (override : Bool) (c : Context) {done : Graph × Summary} {sigs : List Text}
    → IsSound (tables assets edges)
    → correlate now rules rows assets edges ≡ ok done
    → build_signature_set rules override done.0.assets c ≡ ok sigs
    → all is_other sigs ≡ true
unfolding build_signature_set finding_signatures
build_signature_set-other now rules rows assets edges override c {done} sound ran e =
    let types = text "subdomain" ∷ text "domain" ∷ [] in
    let (hosts, _, rest) = >>=-eq-ok (scoped_targets rules override (known_values types c)) _ e in
    let (services, listed, rest') =
      >>=-eq-ok (service_signatures rules (known_evidence (text "service" ∷ []) c)) _ rest in
    let none_found =
      no_finding_rows done.0.assets
        (correlate-IsSound now rules rows assets edges sound ran).0.apart in
    let findings : all is_other (finding_signatures done.0.assets) ≡ true = rw none_found refl in
    subst (λ (x : List Text). all is_other x ≡ true) (ok_inj rest')
      (add_signatures-other _ []
        (all-append _ _ (subdomains-other hosts) (
          all-append services _
            (service_signatures-other rules (known_evidence (text "service" ∷ []) c) listed)
            findings))
        refl)
