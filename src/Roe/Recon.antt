-- ===== src/Roe/Recon.antt =====
-- recon/core/roe.py: the optional recon policies. Seconds are in thousandths.
use recon_platform.Prelude.{
  ℕ, ltb, leb, ◌==◌, Bool, true, false, ◌&&◌, Option, List, [], ◌∷◌, if◌then◌else◌,
}
use recon_platform.Prelude.Text.{Text, text_eq, is_empty, lower, strip, between}

pub data TakeoverEngine : Type 0 where
  native_check subzy nuclei_check : TakeoverEngine

pub data CloneDepth : Type 0 where
  full_clone shallow : CloneDepth

pub data CveSource : Type 0 where
  local nvd_api : CveSource

pub data CveSubset : Type 0 where
  kev_high full_index : CveSubset

pub data TemplateEngine : Type 0 where
  native_templates nuclei : TemplateEngine

pub data TemplateSeverity : Type 0 where
  info low medium high critical : TemplateSeverity

pub record PassiveSourcesPolicy : Type 0 where
  pub disable : List Text
  pub enable : List Text
  pub per_source_timeout_seconds : ℕ
  pub total_budget_seconds : ℕ

pub record PermutationPolicy : Type 0 where
  pub wordlist : Option Text
  pub max_candidates : ℕ

pub record GitSecretsPolicy : Type 0 where
  pub clone_depth : CloneDepth
  pub verify : Bool
  pub max_repo_bytes : ℕ

pub record CvePolicy : Type 0 where
  pub source : CveSource
  pub subset : CveSubset

pub record TemplatesPolicy : Type 0 where
  pub engine : TemplateEngine
  pub min_severity : TemplateSeverity
  pub exclude_tags : List Text

pub record ReconPolicy : Type 0 where
  pub passive_sources : PassiveSourcesPolicy
  pub max_rounds : ℕ
  pub permutation : PermutationPolicy
  pub takeover : TakeoverEngine
  pub git_secrets : GitSecretsPolicy
  pub cve : CvePolicy
  pub screenshots : Bool
  pub templates : TemplatesPolicy

-- `s < t`
unfoldable pub text_before : Text → Text → Bool
text_before s [] = false
text_before [] (_ ∷ _) = true
text_before (c ∷ s) (d ∷ t) = let rest = text_before s t in if c == d then rest else ltb c d

-- A name put in a sorted set.
unfoldable pub insert_name : Text → List Text → List Text
unfolding text_eq text_before
insert_name s [] = s ∷ []
insert_name s (t ∷ names) =
    if text_eq s t
    then t ∷ names
    else if text_before s t
    then s ∷ t ∷ names
    else t ∷ insert_name s names

-- `_clean`
unfoldable pub clean : List Text → List Text
unfolding insert_name strip lower
clean [] = []
clean (s ∷ names) =
    let rest = clean names in
    if is_empty (strip s) then rest else insert_name (lower (strip s)) rest

-- The bounds of the fields.
abbrev pub recon_valid : ReconPolicy → Bool
recon_valid p =
    between 1 300000 p.passive_sources.per_source_timeout_seconds
    && between 1 3600000 p.passive_sources.total_budget_seconds
    && leb p.max_rounds 5
    && leb p.permutation.max_candidates 200000
    && leb 1 p.git_secrets.max_repo_bytes

-- The policy with its cleaned lists.
abbrev pub cleaned : ReconPolicy → ReconPolicy
cleaned p = record p {
  passive_sources = record p.passive_sources {
    disable = clean p.passive_sources.disable;
    enable = clean p.passive_sources.enable;
  };
  templates = record p.templates { exclude_tags = clean p.templates.exclude_tags };
}
