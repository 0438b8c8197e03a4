-- ===== src/ScanDiff/Tests.antt =====
-- Runs of the diff.
use recon_platform.Prelude.{all, true, ◌≡◌, refl, false, some, [], ◌∷◌, ok}
use recon_platform.Prelude.Text.{
  text, text_eq, starts_with, lower, lower_char, strip, has_text, has_char, cut, split, elem,
  is_space, before_first, lstrip_if, rstrip_if,
}
use recon_platform.Scope.{extract_host}
use recon_platform.Scope.Urls.{urlsplit}
use recon_platform.Correlation.Canon.{canon_url, canon}
use recon_platform.Correlation.Interest.{interest, negative_interest}
use recon_platform.Correlation.Upsert.{upsert_asset}
use recon_platform.Correlation.Route.{
  asset_type_for, type_from_name, evidence_only, add_to_group, add_to_attributes, add_hint,
  explicit_hint, explicit_hints, add_explicit, route_asset, route_subject, route_evidence,
  collect_evidence,
}
use recon_platform.Correlation.Graph.{
  relationship_type, classify_asset, upsert, group_step, upsert_groups, match_attribute_parent,
  infer_parent_type, parent_or_new, attach_attributes, resolve_asset_id, add_edge, materialise_one,
  materialise_relationships, correlate,
}
use recon_platform.Correlation.Graph.Tests.{
  example_rules, cve_row, cve_ran, cve_ran_lem, no_tables-IsSound,
}
use recon_platform.Context.Tests.{fresh}
use recon_platform.ScanDiff.Build.{build_signature_set}
use recon_platform.ScanDiff.Findings.{is_other, build_signature_set-other}
use recon_platform.ScanDiff.Delta.{IsExact, diff-IsExact}
use recon_platform.ScanDiff.{service_key, service_signature, diff, pair_changes}

-- A new version is a change, a closed port is removed, a new host is added.
upgraded :
    diff
      (text "service:a:443:nginx/1" ∷ text "service:a:80" ∷ [])
      (text "service:a:443:nginx/2" ∷ text "subdomain:b" ∷ [])
    ≡ record {
      added = text "subdomain:b" ∷ [];
      removed = text "service:a:80" ∷ [];
      changed =
          record {
            signature = text "service:a:443";
            was = text "service:a:443:nginx/1";
            now = text "service:a:443:nginx/2";
          }
          ∷ [];
    }
unfolding diff pair_changes service_key split text_eq elem
upgraded = refl

signed :
    service_signature
      (record { product = text "nginx"; version = text "2"; name = text "http" })
      (text "a")
      (text "443")
    ≡ text "service:a:443:nginx/2"
unfolding service_signature
signed = refl

-- The key of a host with colons ends inside of the host.
v6_key : service_key (text "service:2001:db8::1:443") ≡ some (text "service:2001:db8")
unfolding service_key split text_eq
v6_key = refl

-- So a port that closed on one IPv6 host and a port that opened on another are told as a change.
v6_change :
    (diff (text "service:2001:db8::1:443" ∷ []) (text "service:2001:db8::2:80" ∷ [])).changed
    ≡ record {
      signature = text "service:2001:db8";
      was = text "service:2001:db8::1:443";
      now = text "service:2001:db8::2:80";
    }
      ∷ []
unfolding diff pair_changes service_key split text_eq elem
v6_change = refl

diff-IsExact_example :
    IsExact
      (text "service:a:443:nginx/1" ∷ [])
      (text "service:a:443:nginx/2" ∷ [])
      (diff (text "service:a:443:nginx/1" ∷ []) (text "service:a:443:nginx/2" ∷ []))
diff-IsExact_example =
    diff-IsExact (text "service:a:443:nginx/1" ∷ []) (text "service:a:443:nginx/2" ∷ [])

-- A correlation that made a finding, and the signature set behind it.
no_sigs : build_signature_set example_rules false cve_ran.0.assets fresh ≡ ok []
unfolding build_signature_set correlate collect_evidence route_evidence evidence_only text_eq
    explicit_hints explicit_hint add_explicit asset_type_for type_from_name canon strip add_hint
    route_subject route_asset elem add_to_group upsert_groups group_step upsert classify_asset
    upsert_asset interest attach_attributes materialise_relationships materialise_one
    relationship_type resolve_asset_id add_edge starts_with is_space lower lstrip_if rstrip_if
    has_text canon_url urlsplit cut has_char add_to_attributes match_attribute_parent extract_host
    infer_parent_type parent_or_new lower_char negative_interest before_first
no_sigs = refl

build_signature_set-other_example : all is_other [] ≡ true
build_signature_set-other_example =
    build_signature_set-other 9 example_rules (cve_row ∷ []) [] [] false fresh {done = cve_ran}
      {sigs = []} no_tables-IsSound cve_ran_lem no_sigs
