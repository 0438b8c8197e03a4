-- ===== src/Correlation/Graph.antt =====
-- recon/correlation/engine.py: `correlate`, from the routed evidence to the asset graph. The key of an
-- asset, its type and value, stands for its id: the table holds a key once. ValueError is a value.
mod Rows
pub mod Tables
pub mod Replay
pub mod Left
pub mod Rerun
pub mod Links
pub mod Sound
mod Edges
pub mod Tests
unfoldable pub use Rows.*
use recon_platform.Prelude.{
  ℕ, ◌+◌, ◌==◌, Bool, true, false, ◌&&◌, ◌||◌, not, Option, none, some, List, [], ◌∷◌, ◌++◌, map,
  any, keep, length, if◌then◌else◌, Result, ok, err, ◌>>=◌,
}
use recon_platform.Prelude.Text.{Text, text, text_eq, has_text, count_char}
use recon_platform.Scope.{ScopeStatus, not_applicable, Rules, classify, extract_host}
use recon_platform.Scope.Ip.{Address, ip_address}
use recon_platform.Scope.Urls.{ValueError}
use recon_platform.Correlation.{
  AssetType, domain, subdomain, ip, url, service, finding, organization, person, email, repository,
  netblock, document, social, Evidence,
}
use recon_platform.Correlation.Canon.{canon_host, canon_url, canon}
use recon_platform.Correlation.Upsert.{Asset, is_asset, type_number, upsert_asset}
use recon_platform.Correlation.Route.{
  Row, AssetKey, key, same_key, RelHint, Routing, type_name, type_from_name, host_type,
  collect_evidence,
}

-- `resolved.get(host, [])`
unfoldable pub resolved_ips : List RelHint → Text → List Text
unfolding text_eq
resolved_ips hints host =
    map (λ (h : RelHint). h.target_value)
      (keep
        (λ (h : RelHint).
          text_eq h.relation (text "resolves_to")
          && text_eq h.target_type (text "ip")
          && text_eq h.source_value host)
        hints)

-- `_classify`
unfoldable pub classify_asset :
    Rules → List RelHint → AssetType → Text → Result ValueError ScopeStatus
unfolding classify extract_host resolved_ips canon_host
classify_asset rules hints finding value = ok not_applicable
classify_asset rules hints organization value = ok not_applicable
classify_asset rules hints person value = ok not_applicable
classify_asset rules hints email value = ok not_applicable
classify_asset rules hints repository value = ok not_applicable
classify_asset rules hints netblock value = ok not_applicable
classify_asset rules hints document value = ok not_applicable
classify_asset rules hints social value = ok not_applicable
classify_asset rules hints ip value = do d ← classify rules value []; ok d.status
classify_asset rules hints url value = do
  host ← extract_host value
  d ← classify rules host (resolved_ips hints host)
  ok d.status
classify_asset rules hints type value = do
  d ← classify rules value (resolved_ips hints (canon_host value))
  ok d.status

abbrev pub has_asset : AssetKey → List Asset → Bool
has_asset k assets = any (is_asset k.asset_type k.value) assets

abbrev pub evidence_of : List Row → List Evidence
evidence_of rows = map (λ (row : Row). row.evidence) rows

abbrev pub is_finding : AssetType → Bool
is_finding finding = true
is_finding _ = false

abbrev pub link : AssetKey → List Row → Graph → Graph
link k rows g = record g { links = g.links ++ map (λ (row : Row). (row, k)) rows }

abbrev pub tally : AssetKey → Bool → Summary → Summary
tally k created s = record s {
  assets_created = s.assets_created + (if created then 1 else 0);
  assets_updated = s.assets_updated + (if created then 0 else 1);
  findings_created = s.findings_created + (if created && is_finding k.asset_type then 1 else 0);
}

-- A group: its asset, or its rows skipped.
unfoldable pub group_step :
    AssetKey → List Row → Result ValueError (Graph × Bool) → Graph × Summary → Graph × Summary
group_step k rows (err _) (g, s) =
    (g, record s { skipped_evidence = s.skipped_evidence + length rows })
group_step k rows (ok (g', created)) (g, s) = (link k rows g', tally k created s)

abbrev pub has_id : AssetKey → Graph → Bool
has_id k g = any (same_key k) g.asset_ids

-- The first of the keys that has an id.
abbrev pub first_known : List AssetKey → Graph → Option AssetKey
first_known [] g = none
first_known (k ∷ ks) g = if has_id k g then some k else first_known ks g

unfoldable pub host_keys : Text → List AssetKey
unfolding canon
host_keys ref = map (λ (type : AssetType). key type (canon type ref)) (subdomain ∷ domain ∷ ip ∷ [])

-- `_match_attribute_parent`
unfoldable pub match_attribute_parent : Text → Graph → Result ValueError (Option AssetKey)
match_attribute_parent ref g =
    if not (has_text ref (text "://"))
    then ok (first_known (host_keys ref) g)
    else if has_id (key url (canon_url ref)) g
    then ok (some (key url (canon_url ref)))
    else (do host ← extract_host ref; ok (first_known (host_keys host) g))

-- `_infer_parent_type`
unfoldable pub infer_parent_type : Text → AssetKey
unfolding has_text canon_url canon_host ip_address count_char
infer_parent_type ref =
    if has_text ref (text "://")
    then key url (canon_url ref)
    else elim (ip_address (canon_host ref)) [
      | some _ ↦ key ip (canon_host ref)
      | none ↦ key (host_type (canon_host ref)) (canon_host ref)
    ]

abbrev pub source_key : RelHint → AssetKey
source_key h =
    key (type_from_name h.source_type) (canon (type_from_name h.source_type) h.source_value)

abbrev pub target_key : RelHint → AssetKey
target_key h =
    key (type_from_name h.target_type) (canon (type_from_name h.target_type) h.target_value)

-- The row of a relationship, unless it loops or is there; with the number of new rows.
unfoldable pub add_edge : Edge → Graph → Graph × ℕ
add_edge e g =
    if same_key e.source e.target || any (same_edge e) g.edges
    then (g, 0)
    else (record g { edges = g.edges ++ e ∷ [] }, 1)

module _ (now : ℕ) (rules : Rules) (hints : List RelHint) where
  -- `_upsert_asset`, and the id put into `asset_ids`; with whether the row is new.
  unfoldable pub upsert : AssetKey → List Row → Graph → Result ValueError (Graph × Bool)
  upsert k rows g = do
    status ← classify_asset rules hints k.asset_type k.value
    ok (
      record g {
        assets = upsert_asset now k.asset_type k.value (evidence_of rows) status g.assets;
        asset_ids = k ∷ g.asset_ids;
      },
      not (has_asset k g.assets),
    )

  -- The loop over the groups.
  unfoldable pub upsert_groups : List (AssetKey × List Row) → Graph × Summary → Graph × Summary
  upsert_groups [] gs = gs
  upsert_groups ((k, rows) ∷ groups) gs =
      upsert_groups groups (group_step k rows (upsert k rows gs.0) gs)

  -- The parent that was found, or a minimal one.
  unfoldable pub parent_or_new : Text → List Row → Option AssetKey → Graph → Result ValueError Graph
  parent_or_new ref rows (some k) g = ok (link k rows g)
  parent_or_new ref rows none g = do
    up ← upsert (infer_parent_type ref) [] g
    ok (link (infer_parent_type ref) rows up.0)

  -- The loop over the attributes.
  unfoldable pub attach_attributes : List (Text × List Row) → Graph → Result ValueError Graph
  attach_attributes [] g = ok g
  attach_attributes ((ref, rows) ∷ more) g = do
    found ← match_attribute_parent ref g
    g' ← parent_or_new ref rows found g
    attach_attributes more g'

  -- `_resolve_asset_id`
  unfoldable pub resolve_asset_id : AssetKey → Graph → Result ValueError Graph
  resolve_asset_id k g = if has_id k g then ok g else (do up ← upsert k [] g; ok up.0)

  -- One hint. The query for the row is taken to see the rows of the same call: the session does not send
  -- them before its next flush, and a second hint for one edge before that ends in an IntegrityError,
  -- an error of the database, which this model leaves out.
  unfoldable pub materialise_one :
      RelHint → Option RelationshipType → Graph → Result ValueError (Graph × ℕ)
  materialise_one h none g = ok (g, 0)
  materialise_one h (some relation) g = do
    g1 ← resolve_asset_id (source_key h) g
    g2 ← resolve_asset_id (target_key h) g1
    ok (add_edge (record { source = source_key h; target = target_key h; relation = relation }) g2)

  -- `_materialise_relationships`: the hints that are left, and the rows made so far.
  unfoldable pub materialise_relationships :
      List RelHint → ℕ → Graph → Result ValueError (Graph × ℕ)
  materialise_relationships [] created g = ok (g, created)
  materialise_relationships (h ∷ hs) created g = do
    step ← materialise_one h (relationship_type h.relation) g
    materialise_relationships hs (created + step.1) step.0

abbrev pub no_routing : Routing
no_routing = record { groups = []; attributes = []; rel_hints = []; processed = 0 }

abbrev pub summary_of : ℕ → Summary
summary_of processed = record {
  assets_created = 0;
  assets_updated = 0;
  relationships_created = 0;
  findings_created = 0;
  evidence_processed = processed;
  skipped_evidence = 0;
}

-- `correlate`, on the rows of an engagement and its tables.
unfoldable pub correlate :
    ℕ → Rules → List Row → List Asset → List Edge → Result ValueError (Graph × Summary)
correlate now rules rows assets edges =
    let r = collect_evidence rows no_routing in
    let start : Graph = record { assets = assets; edges = edges; asset_ids = []; links = [] } in
    let (g, s) = upsert_groups now rules r.rel_hints r.groups (start, summary_of r.processed) in
    do
      g' ← attach_attributes now rules r.rel_hints r.attributes g
      done ← materialise_relationships now rules r.rel_hints r.rel_hints 0 g'
      ok (done.0, record s { relationships_created = done.1 })
