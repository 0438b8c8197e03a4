-- ===== src/Correlation/Route.antt =====
-- recon/correlation/engine.py: `_collect_evidence`, `_route_evidence` and `_derive_dns_relationships`.
-- The hints are
-- a set: a list in which an equal hint is not put in again.
mod Hints
pub mod Complete
unfoldable pub use Hints.*
use recon_platform.Prelude.{
  ℕ, ◌+◌, ◌-◌, leb, ◌==◌, Bool, true, false, ◌&&◌, ◌||◌, not, Option, none, some, List, [], ◌∷◌,
  ◌++◌, map, any, if◌then◌else◌,
}
use recon_platform.Prelude.Text.{
  Text, text, text_eq, elem, is_empty, is_space, lower, strip, has_text, count_char, cut,
}
use recon_platform.Correlation.{
  AssetType, domain, subdomain, ip, url, service, finding, organization, person, email, repository,
  netblock, document, social, Evidence,
}
use recon_platform.Correlation.Canon.{canon_host, canon_ip, canon_url, canon}
use recon_platform.Correlation.Upsert.{type_number}

abbrev name_or : Option AssetType → Text → Text
name_or none subject = subject
name_or (some type) subject = type_name type

unfoldable pub explicit_hint : Row → RawHint → Option RelHint
explicit_hint row raw =
    let type = asset_type_for row.subject_type in
    elim raw.kind [
      | none ↦ none
      | some kind ↦ elim raw.target_type [
        | none ↦ none
        | some target ↦ elim raw.target_value [
          | none ↦ none
          | some value ↦ some (record {
            source_type = name_or type row.subject_type;
            source_value = canon (or_finding type) row.subject_value;
            relation = kind;
            target_type = target;
            target_value = canon (type_from_name target) value;
          })
        ]
      ]
    ]

unfoldable pub add_explicit : Option RelHint → Routing → Routing
add_explicit none r = r
add_explicit (some h) r = hint h r

-- The loop over `raw_data["relationships"]`.
unfoldable pub explicit_hints : Row → List RawHint → Routing → Routing
unfolding add_explicit explicit_hint
explicit_hints row [] r = r
explicit_hints row (raw ∷ raws) r = explicit_hints row raws (add_explicit (explicit_hint row raw) r)

-- A name with two dots or more.
abbrev pub host_type : Text → AssetType
host_type name = if leb 2 (count_char b'.' name) then subdomain else domain

abbrev pub edge : Text → Text → Text → Text → Text → RelHint
edge source_type source_value relation target_type target_value = record {
  source_type = source_type;
  source_value = source_value;
  relation = relation;
  target_type = target_type;
  target_value = target_value;
}

-- `s.split()[-1]` of a text without spaces around it.
unfoldable pub last_word : Text → Text
last_word [] = []
last_word (c ∷ s) = if any is_space s then last_word s else if is_space c then s else c ∷ s

abbrev pub or_else {ℓ} : {A : Type ℓ} → Option A → A → A
or_else none a = a
or_else (some a) _ = a

-- `a or b`
abbrev pub or_text : Option Text → Text → Text
or_text none b = b
or_text (some a) b = if is_empty a then b else a

abbrev pub upper_char : ℕ → ℕ
upper_char c = if leb b'a' c && leb c b'z' then c - 32 else c

unfoldable pub dns_target : Text → Text → Text → Row → Routing → Routing
dns_target rtype name target row r =
    let kind = type_name (host_type name) in
    let mx = canon_host (last_word target) in
    if text_eq rtype (text "A") || text_eq rtype (text "AAAA")
    then hint (edge kind name (text "resolves_to") (text "ip") (canon_ip target))
        (group (key ip (canon_ip target)) row r)
    else if text_eq rtype (text "CNAME")
    then hint (edge kind name (text "resolves_to") (text "subdomain") (canon_host target))
        (group (key (host_type (canon_host target)) (canon_host target)) row r)
    else if text_eq rtype (text "MX") && not (is_empty mx)
    then hint (edge kind name (text "serves") (text "subdomain") mx)
        (group (key (host_type mx) mx) row r)
    else r

-- `_derive_dns_relationships`
unfoldable pub derive_dns_relationships : Row → Routing → Routing
derive_dns_relationships row r =
    let name = canon_host (or_else row.raw_name row.subject_value) in
    let rtype = map upper_char (or_else row.raw_rtype []) in
    let target = strip (or_else row.raw_value []) in
    if is_empty name || is_empty target
    then r
    else dns_target rtype name target row (group (key (host_type name) name) row r)

-- The parent of a subdomain: the one that the row gives, or the name behind its first label.
unfoldable pub parent_of : Row → Text → Option Text
parent_of row host =
    let given = or_text row.raw_parent [] in
    if not (is_empty given)
    then some given
    else if leb 2 (count_char b'.' host)
    then elim (cut b'.' host) [ none ↦ none | some (_, parent) ↦ some parent ]
    else none

unfoldable pub add_parent : Text → Option Text → Routing → Routing
add_parent host none r = r
add_parent host (some parent) r =
    if is_empty parent
    then r
    else hint
        (edge (text "subdomain") host (text "subdomain_of") (text "domain") (canon_host parent)) r

abbrev pub tagged : Text → Text → AssetKey
tagged tag value = key finding (tag ++ b':' ∷ value)

unfoldable pub route_asset : Row → Option AssetType → Routing → Routing
route_asset row none r = group (tagged row.subject_type row.subject_value) row r
route_asset row (some subdomain) r =
    let host = canon_host row.subject_value in
    add_parent host (parent_of row host) (group (key subdomain host) row r)
route_asset row (some type) r = group (key type (canon type row.subject_value)) row r

abbrev pub parent_ref : Row → Text
parent_ref row = or_text row.raw_url (or_text row.raw_host row.subject_value)

abbrev pub canon_ref : Text → Text
canon_ref ref = if has_text ref (text "://") then canon_url ref else canon_host ref

unfoldable pub route_subject : Row → Routing → Routing
route_subject row r =
    if row.is_absent
    then group (tagged row.subject_type (canon_host row.subject_value)) row r
    else if text_eq row.subject_type (text "secret")
    then group (tagged (text "secret") row.subject_value) row r
    else if text_eq row.subject_type (text "dns_record")
    then derive_dns_relationships row r
    else if elem row.subject_type attribute_types
    then attribute (canon_ref (parent_ref row)) row r
    else route_asset row (asset_type_for row.subject_type) r

-- `_route_evidence`
unfoldable pub route_evidence : Row → Routing → Routing
route_evidence row r =
    if evidence_only row.subject_type
    then r
    else route_subject row (explicit_hints row row.relationships r)

abbrev pub counted : Routing → Routing
counted r = record r { processed = r.processed + 1 }

-- `_collect_evidence`: the rows in the order of their ids, without those of errors.
unfoldable pub collect_evidence : List Row → Routing → Routing
collect_evidence [] r = r
collect_evidence (row ∷ rows) r =
    collect_evidence rows (if row.is_error then r else route_evidence row (counted r))
