-- ===== src/Correlation.antt =====
-- recon/correlation/engine.py: how the evidence of an asset becomes its row. Confidence is in
-- twentieths, in which the source's fractions are whole; times are in ticks.
pub mod Canon
pub mod Interest
pub mod Upsert
pub mod Idempotent
pub mod Persistent
pub mod Route
pub mod Graph
mod Tests
use recon_platform.Prelude.{
  ℕ, zero, suc, ◌+◌, ◌-◌, ◌*◌, leb, min, max, String, str_eq, Bool, true, false, ◌&&◌, ◌||◌, Option,
  none, some, List, [], ◌∷◌, if◌then◌else◌, length,
}
use recon_platform.Prelude.Text.{Text}

pub data AssetType : Type 0 where
  domain subdomain ip url service finding : AssetType
  organization person email repository netblock document social : AssetType

pub data InterestLevel : Type 0 where
  informational notable high_value : InterestLevel

abbrev pub interest_rank : InterestLevel → ℕ
interest_rank informational = 0
interest_rank notable = 1
interest_rank high_value = 2

-- `_max_interest`
unfoldable pub max_interest : InterestLevel → InterestLevel → InterestLevel
max_interest a b = if leb (interest_rank b) (interest_rank a) then a else b

-- What the engine reads of a row of evidence: its module, the source and the level of interest in its
-- data, and when it was discovered.
pub record Evidence : Type 0 where
  pub source_module : String
  pub source : Option String
  pub interest : Option InterestLevel
  pub discovered_at : Option ℕ

abbrev same_text : Option String → Option String → Bool
same_text none none = true
same_text (some a) (some b) = str_eq a b
same_text _ _ = false

abbrev same_source : Evidence → Evidence → Bool
same_source a b = str_eq a.source_module b.source_module && same_text a.source b.source

seen_source : Evidence → List Evidence → Bool
seen_source e [] = false
seen_source e (d ∷ ds) = same_source e d || seen_source e ds

-- `_distinct_sources`
unfoldable pub distinct_sources : List Evidence → ℕ
unfolding seen_source
distinct_sources [] = 0
distinct_sources (e ∷ es) = (if seen_source e es then 0 else 1) + distinct_sources es

-- `_confidence`
unfoldable pub confidence : ℕ → ℕ
confidence zero = 0
confidence (suc n) = min 20 (10 + 5 * n)
