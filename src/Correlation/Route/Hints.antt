-- ===== src/Correlation/Route/Hints.antt =====
-- recon/correlation/engine.py: the rows, keys and hints that the routing collects, and the types of assets
-- by the names of subjects.
use recon_platform.Prelude.{
  ℕ, ◌==◌, Bool, ◌&&◌, ◌||◌, Option, none, some, List, [], ◌∷◌, ◌++◌, map, any, if◌then◌else◌,
}
use recon_platform.Prelude.Text.{Text, text, text_eq}
use recon_platform.Correlation.{
  AssetType, domain, subdomain, ip, url, service, finding, organization, person, email, repository,
  netblock, document, social, Evidence,
}
use recon_platform.Correlation.Upsert.{type_number}

-- An item of `raw_data["relationships"]`.
pub record RawHint : Type 0 where
  pub kind : Option Text
  pub target_type : Option Text
  pub target_value : Option Text

-- What the routing reads of a row.
pub record Row : Type 0 where
  pub evidence : Evidence
  pub subject_type : Text
  pub subject_value : Text
  pub is_absent : Bool
  pub is_error : Bool
  pub relationships : List RawHint
  pub raw_url : Option Text
  pub raw_host : Option Text
  pub raw_parent : Option Text
  pub raw_name : Option Text
  pub raw_rtype : Option Text
  pub raw_value : Option Text

pub record AssetKey : Type 0 where
  pub asset_type : AssetType
  pub value : Text

abbrev pub key : AssetType → Text → AssetKey
key type value = record { asset_type = type; value = value }

abbrev pub same_key : AssetKey → AssetKey → Bool
same_key a b = type_number a.asset_type == type_number b.asset_type && text_eq a.value b.value

-- A hint: the types by their names, as the source keeps them.
pub record RelHint : Type 0 where
  pub source_type : Text
  pub source_value : Text
  pub relation : Text
  pub target_type : Text
  pub target_value : Text

abbrev pub same_hint : RelHint → RelHint → Bool
same_hint a b =
    text_eq a.source_type b.source_type
    && text_eq a.source_value b.source_value
    && text_eq a.relation b.relation
    && text_eq a.target_type b.target_type
    && text_eq a.target_value b.target_value

-- What Phase A collects.
pub record Routing : Type 0 where
  pub groups : List (AssetKey × List Row)
  pub attributes : List (Text × List Row)
  pub rel_hints : List RelHint
  pub processed : ℕ

abbrev pub type_name : AssetType → Text
type_name domain = text "domain"
type_name subdomain = text "subdomain"
type_name ip = text "ip"
type_name url = text "url"
type_name service = text "service"
type_name finding = text "finding"
type_name organization = text "organization"
type_name person = text "person"
type_name email = text "email"
type_name repository = text "repository"
type_name netblock = text "netblock"
type_name document = text "document"
type_name social = text "social"

-- The types but `finding`.
abbrev pub subject_types : List AssetType
subject_types =
    domain ∷ subdomain ∷ ip ∷ url ∷ service ∷ organization ∷ person ∷ email ∷ repository ∷ netblock
    ∷ document ∷ social ∷ []

type_in : List AssetType → Text → Option AssetType
type_in [] name = none
type_in (type ∷ types) name =
    if text_eq name (type_name type) then some type else type_in types name

-- `_asset_type_for`, by `_SUBJECT_ASSET`
unfoldable pub asset_type_for : Text → Option AssetType
unfolding type_in text_eq
asset_type_for subject =
    if text_eq subject (text "endpoint") || text_eq subject (text "http_endpoint")
    then some url
    else type_in subject_types subject

abbrev pub or_finding : Option AssetType → AssetType
or_finding none = finding
or_finding (some type) = type

-- `_type_from_name`
unfoldable pub type_from_name : Text → AssetType
unfolding type_in text_eq
type_from_name name = or_finding (type_in subject_types name)

-- `_ATTRIBUTE_TYPES`
abbrev pub attribute_types : List Text
attribute_types = map text (
    "http_header" ∷ "security_header" ∷ "tls_cert" ∷ "cookie" ∷ "form" ∷ "tech" ∷ "robots"
    ∷ "sitemap" ∷ "http_method" ∷ "redirect" ∷ "title" ∷ "liveness" ∷ "spf" ∷ "dmarc" ∷ "dkim"
    ∷ "mta_sts" ∷ "tls_rpt" ∷ [])

-- `_EVIDENCE_ONLY_TYPES`
unfoldable pub evidence_only : Text → Bool
unfolding text_eq
evidence_only subject = text_eq subject (text "unverified_search_hit")

-- `groups[k].append(row)`
unfoldable pub add_to_group :
    AssetKey → Row → List (AssetKey × List Row) → List (AssetKey × List Row)
unfolding text_eq
add_to_group k row [] = (k, row ∷ []) ∷ []
add_to_group k row ((j, rows) ∷ groups) =
    if same_key j k then (j, rows ++ row ∷ []) ∷ groups else (j, rows) ∷ add_to_group k row groups

-- `attributes[ref].append(row)`
unfoldable pub add_to_attributes : Text → Row → List (Text × List Row) → List (Text × List Row)
unfolding text_eq
add_to_attributes ref row [] = (ref, row ∷ []) ∷ []
add_to_attributes ref row ((r, rows) ∷ more) =
    if text_eq r ref
    then (r, rows ++ row ∷ []) ∷ more
    else (r, rows) ∷ add_to_attributes ref row more

-- `rel_hints.add(hint)`
unfoldable pub add_hint : RelHint → List RelHint → List RelHint
unfolding text_eq
add_hint h hints = if any (same_hint h) hints then hints else hints ++ h ∷ []

abbrev pub group : AssetKey → Row → Routing → Routing
group k row r = record r { groups = add_to_group k row r.groups }

abbrev pub attribute : Text → Row → Routing → Routing
attribute ref row r = record r { attributes = add_to_attributes ref row r.attributes }

abbrev pub hint : RelHint → Routing → Routing
hint h r = record r { rel_hints = add_hint h r.rel_hints }
