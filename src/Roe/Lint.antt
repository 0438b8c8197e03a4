-- ===== src/Roe/Lint.antt =====
-- recon/core/scope.py: `lint_roe`, the advisories on rules that load. An advisory is its kind, with what
-- it names.
use recon_platform.Prelude.{Bool, not, ◌&&◌, Option, none, some, List, [], ◌∷◌, ◌++◌, if◌then◌else◌}
use recon_platform.Prelude.Text.{Text, text, elem, is_empty, starts_with}
use recon_platform.Scope.{AuthorizedWindow}
use recon_platform.Roe.{RoeConfig, insert_name}

pub data Advisory : Type 0 where
  no_wildcard : Text → Advisory
  no_window hard_window no_user_agents : Advisory
  unscoped_seeds : List Text → Advisory
  llm_enabled : Advisory

-- The loop over the domains.
unfoldable pub lint_domains : List Text → List Text → List Advisory
unfolding elem starts_with
lint_domains all_domains [] = []
lint_domains all_domains (d ∷ ds) =
    let rest = lint_domains all_domains ds in
    if not (starts_with d (text "*.")) && not (elem (text "*." ++ d) all_domains)
    then no_wildcard d ∷ rest
    else rest

abbrev pub lint_window : Option AuthorizedWindow → List Advisory
lint_window none = no_window ∷ []
lint_window (some w) = if w.hard then hard_window ∷ [] else []

-- `sorted(seeds - set(insc.domains))`
unfoldable pub unscoped : List Text → List Text → List Text
unfolding insert_name elem
unscoped domains [] = []
unscoped domains (s ∷ seeds) =
    let rest = unscoped domains seeds in if elem s domains then rest else insert_name s rest

abbrev advise : Bool → Advisory → List Advisory
advise holds a = if holds then a ∷ [] else []

-- `lint_roe`
unfoldable pub lint_roe : RoeConfig → List Advisory
unfolding lint_domains unscoped
lint_roe c =
    let domains = c.scope.allowed.domains in
    let seeds = unscoped domains c.osint.seed_domains in
    lint_domains domains domains
    ++ lint_window c.engagement.authorized_window
    ++ advise (is_empty c.evasion.user_agents) no_user_agents
    ++ advise (c.osint.enabled && not (is_empty seeds)) (unscoped_seeds seeds)
    ++ advise c.analysis_enabled llm_enabled
