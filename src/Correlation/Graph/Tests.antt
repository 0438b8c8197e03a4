-- ===== src/Correlation/Graph/Tests.antt =====
-- Runs of the correlation of an engagement's evidence.
use recon_platform.Prelude.{
  Result, ℕ, ◌+◌, ◌↔◌, ◌≡◌, refl, Bool, false, ◌&&◌, ◌||◌, none, some, List, [], ◌∷◌, any, map,
  length, ok, err,
}
use recon_platform.Prelude.Text.{
  text, text_eq, starts_with, lower, lower_char, Text, strip, has_text, has_char, cut, split, elem,
  is_space, before_first, is_numeric, decimal_from, lstrip_if, rstrip_if,
}
use recon_platform.Scope.{Rules, extract_host}
use recon_platform.Scope.Ip.{ip_address}
use recon_platform.Scope.Urls.{ValueError, value_error, urlsplit}
use recon_platform.Correlation.{person, organization, finding, Evidence}
use recon_platform.Correlation.Canon.{canon_ip, canon_url, canon}
use recon_platform.Correlation.Interest.{interest, negative_interest}
use recon_platform.Correlation.Upsert.{upsert_asset, Asset}
use recon_platform.Correlation.Route.{
  Row, AssetKey, key, asset_type_for, type_from_name, evidence_only, add_to_group,
  add_to_attributes, add_hint, explicit_hint, explicit_hints, add_explicit, route_asset,
  route_subject, route_evidence, collect_evidence,
}
use recon_platform.Correlation.Route.Complete.{holds, is_material, holds-collect_evidence}
use recon_platform.Correlation.Canon.Addresses.{canon_ip-reads, address_v4}
use recon_platform.Correlation.Graph.{
  Edge, Graph, Summary, employed_by, relationship_type, same_edge, classify_asset, upsert,
  group_step, upsert_groups, match_attribute_parent, infer_parent_type, parent_or_new,
  attach_attributes, resolve_asset_id, add_edge, materialise_one, materialise_relationships,
  correlate, no_routing, summary_of,
}
use recon_platform.Correlation.Graph.Tables.{IsSound, tables}
use recon_platform.Correlation.Graph.Links.{routed}
use recon_platform.Correlation.Graph.Rerun.{correlate-again}
use recon_platform.Correlation.Graph.Sound.{correlate-IsSound}
use recon_platform.Correlation.Graph.Edges.{gives, correlate-Adds}

abbrev pub example_rules : Rules
example_rules = record {
  allowed = record {
    domains = text "*.example.com" ∷ [];
    cidrs = text "203.0.113.0/24" ∷ [];
    hosts = [];
  };
  barred = record { domains = []; cidrs = []; hosts = [] };
}

abbrev seen : Evidence
seen = record { source_module = "dns"; source = none; interest = none; discovered_at = some 7 }

abbrev plain_row : Row
plain_row = record {
  evidence = seen;
  subject_type = text "person";
  subject_value = text "jo";
  is_absent = false;
  is_error = false;
  relationships = [];
  raw_url = none;
  raw_host = none;
  raw_parent = none;
  raw_name = none;
  raw_rtype = none;
  raw_value = none;
}

abbrev employee : Row
employee = record plain_row {
  relationships =
      record {
        kind = some (text "employed_by");
        target_type = some (text "organization");
        target_value = some (text "Acme ");
      }
      ∷ [];
}

-- An attribute of a URL that has no host to read.
abbrev broken_header : Row
broken_header = record plain_row { subject_type = text "title"; raw_url = some (text "x://[") }

abbrev ran : Graph × Summary
ran = elim (correlate 9 example_rules (employee ∷ []) [] []) [
  | ok done ↦ done
  | err _ ↦ (tables [] [], summary_of 0)
]

ran_lem : correlate 9 example_rules (employee ∷ []) [] [] ≡ ok ran
unfolding correlate collect_evidence route_evidence evidence_only text_eq explicit_hints
    explicit_hint add_explicit asset_type_for type_from_name canon strip add_hint route_subject
    route_asset elem add_to_group upsert_groups group_step upsert classify_asset upsert_asset
    interest attach_attributes materialise_relationships materialise_one relationship_type
    resolve_asset_id add_edge starts_with is_space lower lstrip_if rstrip_if has_text canon_url
    urlsplit cut has_char add_to_attributes match_attribute_parent extract_host infer_parent_type
    parent_or_new lower_char
ran_lem = refl

-- One row whose URL cannot be read ends the correlation of all rows with the error.
broken_header_raises :
    correlate 9 example_rules (broken_header ∷ employee ∷ []) [] [] ≡ err value_error
unfolding correlate collect_evidence route_evidence evidence_only text_eq explicit_hints
    explicit_hint add_explicit asset_type_for type_from_name canon strip add_hint route_subject
    route_asset elem add_to_group upsert_groups group_step upsert classify_asset upsert_asset
    interest attach_attributes materialise_relationships materialise_one relationship_type
    resolve_asset_id add_edge starts_with is_space lower lstrip_if rstrip_if has_text canon_url
    urlsplit cut has_char add_to_attributes match_attribute_parent extract_host infer_parent_type
    parent_or_new lower_char
broken_header_raises = refl

abbrev pub cve_row : Row
cve_row = record plain_row {
  subject_type = text "cve";
  subject_value = text "x";
  relationships =
      record {
        kind = some (text "affects");
        target_type = some (text "organization");
        target_value = some (text "acme");
      }
      ∷ [];
}

abbrev ends : Result ValueError (Graph × Summary) → List (AssetKey × List Text)
ends (err _) = []
ends (ok (g, _)) = map (λ (e : Edge). (e.source, map (λ (a : Asset). a.value) g.assets)) g.edges

-- The relationship of the finding `cve:x` starts at another finding, `x`.
cve_hint_starts_elsewhere :
    ends (correlate 9 example_rules (cve_row ∷ []) [] [])
    ≡ (key finding (text "x"), text "cve:x" ∷ text "x" ∷ text "acme" ∷ []) ∷ []
unfolding correlate collect_evidence route_evidence evidence_only text_eq explicit_hints
    explicit_hint add_explicit asset_type_for type_from_name canon strip add_hint route_subject
    route_asset elem add_to_group upsert_groups group_step upsert classify_asset upsert_asset
    interest attach_attributes materialise_relationships materialise_one relationship_type
    resolve_asset_id add_edge starts_with is_space lower lstrip_if rstrip_if has_text canon_url
    urlsplit cut has_char add_to_attributes match_attribute_parent extract_host infer_parent_type
    parent_or_new lower_char negative_interest before_first
cve_hint_starts_elsewhere = refl

abbrev pub cve_ran : Graph × Summary
cve_ran = elim (correlate 9 example_rules (cve_row ∷ []) [] []) [
  | ok done ↦ done
  | err _ ↦ (tables [] [], summary_of 0)
]

pub cve_ran_lem : correlate 9 example_rules (cve_row ∷ []) [] [] ≡ ok cve_ran
unfolding correlate collect_evidence route_evidence evidence_only text_eq explicit_hints
    explicit_hint add_explicit asset_type_for type_from_name canon strip add_hint route_subject
    route_asset elem add_to_group upsert_groups group_step upsert classify_asset upsert_asset
    interest attach_attributes materialise_relationships materialise_one relationship_type
    resolve_asset_id add_edge starts_with is_space lower lstrip_if rstrip_if has_text canon_url
    urlsplit cut has_char add_to_attributes match_attribute_parent extract_host infer_parent_type
    parent_or_new lower_char negative_interest before_first
cve_ran_lem = refl

pub no_tables-IsSound : IsSound (tables [] [])
no_tables-IsSound = record {
  apart = tt;
  keys = tt;
  distinct = tt;
  proper = tt;
  known = tt;
  linked = tt;
}

correlate-IsSound_example :
    IsSound ran.0
    × (length ran.0.links + ran.1.skipped_evidence
        ≡ routed (collect_evidence (employee ∷ []) no_routing))
correlate-IsSound_example =
    correlate-IsSound 9 example_rules (employee ∷ []) [] [] {done = ran} no_tables-IsSound ran_lem

correlate-again_example :
    (again : Graph × Summary) × (correlate 20 example_rules (employee ∷ []) ran.0.assets ran.0.edges
      ≡ ok again)
    × (again.0.assets ≡ ran.0.assets)
    × (again.0.edges ≡ ran.0.edges)
    × (again.1.relationships_created ≡ 0)
correlate-again_example =
    correlate-again 9 20 example_rules (employee ∷ []) [] [] {done = ran} ran_lem

abbrev employment : Edge
employment = record {
  source = key person (text "jo");
  target = key organization (text "acme");
  relation = employed_by;
}

correlate-Adds_example :
    (any (same_edge employment) ran.0.edges ≡ (
      any (same_edge employment) []
      || any (gives employment) (collect_evidence (employee ∷ []) no_routing).rel_hints))
    × (length ran.0.edges ≡ length {A = Edge} [] + ran.1.relationships_created)
correlate-Adds_example =
    correlate-Adds 9 example_rules (employee ∷ []) [] [] employment {done = ran} ran_lem

abbrev of_person : Row → Bool
of_person row = text_eq row.subject_type (text "person")

holds-collect_evidence_example :
    holds of_person (collect_evidence (broken_header ∷ employee ∷ []) no_routing) ≡ (
      holds of_person no_routing
      || any (λ row. of_person row && is_material row) (broken_header ∷ employee ∷ []))
holds-collect_evidence_example =
    holds-collect_evidence of_person (broken_header ∷ employee ∷ []) no_routing

spaced_quad : ip_address (strip (text " 10.0.0.1")) ≡ some (address_v4 167772161)
unfolding ip_address strip split is_numeric decimal_from
spaced_quad = refl

quad : ip_address (strip (text "10.0.0.1")) ≡ some (address_v4 167772161)
unfolding ip_address strip split is_numeric decimal_from
quad = refl

canon_ip-reads_example :
    (ip_address (strip (canon_ip (text " 10.0.0.1"))) ≡ some (address_v4 167772161))
    × (canon_ip (canon_ip (text " 10.0.0.1")) ≡ canon_ip (text " 10.0.0.1"))
    × ((canon_ip (text " 10.0.0.1") ≡ canon_ip (text "10.0.0.1")) ↔ ◌≡◌ {A = ℕ} 167772161 167772161)
canon_ip-reads_example = canon_ip-reads (text " 10.0.0.1") (text "10.0.0.1") spaced_quad quad
