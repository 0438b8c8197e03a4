-- ===== src/Cve/Index/Nvd.antt =====
-- recon/orchestrator/cve_index.py: the parsing of the CVEs that NVD sends.
use recon_platform.Prelude.{
  ℕ, zero, suc, ◌-◌, leb, Bool, true, false, ◌&&◌, Option, none, some, List, [], ◌∷◌, ◌++◌,
  if◌then◌else◌,
}
use recon_platform.Prelude.Text.{Text, text, text_eq, is_empty, split}
use recon_platform.Cve.{CpeMatch, CveRecord, or_empty}

-- An item of `cpeMatch`.
pub record NvdMatch : Type 0 where
  pub criteria : Option Text
  pub start_including : Option Text
  pub start_excluding : Option Text
  pub end_including : Option Text
  pub end_excluding : Option Text
  pub vulnerable : Option Bool

-- An item of `cvssMetricV31`.
pub record NvdMetric : Type 0 where
  pub is_primary : Bool
  pub base_score : Option ℕ
  pub base_severity : Option Text
  pub vector_string : Option Text

-- The item `cve`: its descriptions by language, and its matches by configuration and node.
pub record NvdCve : Type 0 where
  pub id : Option Text
  pub descriptions : List (Text × Option Text)
  pub metrics : List NvdMetric
  pub configurations : List (List (List NvdMatch))

abbrev pub upper_char : ℕ → ℕ
upper_char c = if leb b'a' c && leb c b'z' then c - 32 else c

abbrev pub part_at : ℕ → List Text → Option Text
part_at n [] = none
part_at zero (p ∷ parts) = some p
part_at (suc n) (p ∷ parts) = part_at n parts

-- `a or b`
abbrev pub or_else : Option Text → Option Text → Option Text
or_else none b = b
or_else (some a) b = if is_empty a then b else some a

abbrev pub true_by_default : Option Bool → Bool
true_by_default none = true
true_by_default (some b) = b

unfoldable pub flatten_match : Text → NvdMatch → CpeMatch
unfolding split
flatten_match criteria m =
    let parts = split b':' criteria in
    record {
      cpe = criteria;
      part = part_at 2 parts;
      vendor = part_at 3 parts;
      product = part_at 4 parts;
      version_start = or_else m.start_including m.start_excluding;
      version_end = or_else m.end_excluding m.end_including;
      vulnerable = true_by_default m.vulnerable;
    }

flatten_node : List NvdMatch → List CpeMatch
unfolding flatten_match
flatten_node [] = []
flatten_node (m ∷ ms) =
    let criteria = or_empty m.criteria in
    if is_empty criteria then flatten_node ms else flatten_match criteria m ∷ flatten_node ms

flatten_nodes : List (List NvdMatch) → List CpeMatch
unfolding flatten_node
flatten_nodes [] = []
flatten_nodes (node ∷ nodes) = flatten_node node ++ flatten_nodes nodes

-- `_flatten_cpe_matches`
unfoldable pub flatten_cpe_matches : List (List (List NvdMatch)) → List CpeMatch
unfolding flatten_nodes
flatten_cpe_matches [] = []
flatten_cpe_matches (config ∷ configs) = flatten_nodes config ++ flatten_cpe_matches configs

first_primary : NvdMetric → List NvdMetric → NvdMetric
first_primary default [] = default
first_primary default (e ∷ es) = if e.is_primary then e else first_primary default es

-- `_primary_cvss_v31`
unfoldable pub primary_cvss_v31 : List NvdMetric → Option ℕ × Option Text × Option Text
unfolding first_primary
primary_cvss_v31 [] = (none, none, none)
primary_cvss_v31 (e ∷ es) =
    let m = first_primary e (e ∷ es) in (m.base_score, m.base_severity, m.vector_string)

english : List (Text × Option Text) → Option Text
unfolding text_eq
english [] = none
english ((lang, value) ∷ ds) = if text_eq lang (text "en") then value else english ds

-- `_parse_nvd_cve`
unfoldable pub parse_nvd_cve : NvdCve → Option CveRecord
unfolding english primary_cvss_v31 flatten_cpe_matches
parse_nvd_cve cve =
    let id = or_empty cve.id in
    let (score, severity, vector) = primary_cvss_v31 cve.metrics in
    if is_empty id
    then none
    else some (record {
      cve_id = id;
      cpe_matches = flatten_cpe_matches cve.configurations;
      cvss_v31_score = score;
      cvss_v31_severity = severity;
      cvss_vector = vector;
      description = english cve.descriptions;
      in_kev = false;
    })
