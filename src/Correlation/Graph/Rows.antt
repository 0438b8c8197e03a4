-- ===== src/Correlation/Graph/Rows.antt =====
-- recon/correlation/engine.py, with recon/models/enums.py and recon/models/asset.py: the relations between
-- assets, the tables of a correlation and its summary.
use recon_platform.Prelude.{ℕ, ◌==◌, Bool, ◌&&◌, Option, none, some, List, if◌then◌else◌}
use recon_platform.Prelude.Text.{Text, text, text_eq}
use recon_platform.Correlation.{}
use recon_platform.Correlation.Upsert.{Asset}
use recon_platform.Correlation.Route.{Row, AssetKey, same_key}

pub data RelationshipType : Type 0 where
  resolves_to hosts discovered_via subdomain_of serves alias_of takeover_candidate affects owns
        employed_by authored :
      RelationshipType

abbrev pub relation_number : RelationshipType → ℕ
relation_number resolves_to = 0
relation_number hosts = 1
relation_number discovered_via = 2
relation_number subdomain_of = 3
relation_number serves = 4
relation_number alias_of = 5
relation_number takeover_candidate = 6
relation_number affects = 7
relation_number owns = 8
relation_number employed_by = 9
relation_number authored = 10

-- `RelationshipType(rel)`; `none` stands for ValueError.
unfoldable pub relationship_type : Text → Option RelationshipType
unfolding text_eq
relationship_type rel =
    if text_eq rel (text "resolves_to")
    then some resolves_to
    else if text_eq rel (text "hosts")
    then some hosts
    else if text_eq rel (text "discovered_via")
    then some discovered_via
    else if text_eq rel (text "subdomain_of")
    then some subdomain_of
    else if text_eq rel (text "serves")
    then some serves
    else if text_eq rel (text "alias_of")
    then some alias_of
    else if text_eq rel (text "takeover_candidate")
    then some takeover_candidate
    else if text_eq rel (text "affects")
    then some affects
    else if text_eq rel (text "owns")
    then some owns
    else if text_eq rel (text "employed_by")
    then some employed_by
    else if text_eq rel (text "authored")
    then some authored
    else none

pub record Edge : Type 0 where
  pub source : AssetKey
  pub target : AssetKey
  pub relation : RelationshipType

abbrev pub same_edge : Edge → Edge → Bool
same_edge a b =
    same_key a.source b.source
    && same_key a.target b.target
    && relation_number a.relation == relation_number b.relation

-- The tables, the ids that this run has looked up, and the ids that it has given to rows of evidence,
-- in order: the last one of a row counts.
pub record Graph : Type 0 where
  pub assets : List Asset
  pub edges : List Edge
  pub asset_ids : List AssetKey
  pub links : List (Row × AssetKey)

-- `CorrelationSummary`, without `by_type`.
pub record Summary : Type 0 where
  pub assets_created : ℕ
  pub assets_updated : ℕ
  pub relationships_created : ℕ
  pub findings_created : ℕ
  pub evidence_processed : ℕ
  pub skipped_evidence : ℕ
