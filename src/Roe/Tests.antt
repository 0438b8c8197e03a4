-- ===== src/Roe/Tests.antt =====
-- recon/core/roe.py: documents that load, and documents that do not.
use recon_platform.Prelude.{
  ◌≡◌, refl, Bool, true, false, none, some, List, [], ◌∷◌, ok, err, if◌then◌else◌,
}
use recon_platform.Prelude.Text.{text, text_eq, starts_with, split, is_numeric, decimal_from}
use recon_platform.Scope.{ScopeList}
use recon_platform.Scope.Ip.{ip_address}
use recon_platform.Roe.{
  RoeConfig, OsintPolicy, round_robin, roe_error, plain_host, domain_pattern, valid_seeds,
  valid_osint, validated, validate, ReconPolicy, native_check, full_clone, local, kev_high,
  native_templates, low, Loader, load_roe, canonical_hash, sane_uas, safe_load, clean,
}
use recon_platform.Roe.Lint.{lint_roe, no_wildcard, hard_window, unscoped_seeds, llm_enabled}
use recon_platform.Roe.Loaded.{IsLoaded, load_roe-IsLoaded}

abbrev no_names : ScopeList
no_names = record { domains = []; cidrs = []; hosts = [] }

abbrev acme : ScopeList
acme = record {
  domains = text " *.ACME.com" ∷ text "acme.com" ∷ [];
  cidrs = text "10.1.2.3/16" ∷ [];
  hosts = text "WWW.acme.com\n" ∷ [];
}

abbrev no_osint : OsintPolicy
no_osint = record { enabled = false; company = []; seed_domains = []; github_org = none }

abbrev recon : ReconPolicy
recon = record {
  passive_sources = record {
    disable = text "Rapid" ∷ text " crt" ∷ text "CRT" ∷ text " " ∷ [];
    enable = [];
    per_source_timeout_seconds = 45000;
    total_budget_seconds = 240000;
  };
  max_rounds = 2;
  permutation = record { wordlist = none; max_candidates = 5000 };
  takeover = native_check;
  git_secrets = record { clone_depth = full_clone; verify = false; max_repo_bytes = 524288000 };
  cve = record { source = local; subset = kev_high };
  screenshots = true;
  templates = record {
    engine = native_templates;
    min_severity = low;
    exclude_tags = text "intrusive" ∷ text "dos" ∷ text "fuzz" ∷ [];
  };
}

abbrev document : RoeConfig
document = record {
  engagement = record {
    name = text "spring";
    client = text "ACME";
    authorized_window = some (record { start = 3; end = 9; hard = true });
  };
  scope = record { allowed = acme; barred = no_names };
  rate_limits = record { max_requests_per_second = 10000; max_concurrent_connections = 20 };
  evasion = record {
    jitter = record { enabled = true; min_ms = 100; max_ms = 1500 };
    user_agents = text " curl " ∷ text "  " ∷ [];
    rotation_strategy = round_robin;
  };
  analysis_enabled = false;
  osint = no_osint;
  recon = recon;
}

abbrev acme_loaded : ScopeList
acme_loaded = record {
  domains = text "*.acme.com" ∷ text "acme.com" ∷ [];
  cidrs = text "10.1.0.0/16" ∷ [];
  hosts = text "www.acme.com" ∷ [];
}

abbrev loaded : RoeConfig
loaded = validated document acme_loaded no_names no_osint

-- A document by its name.
abbrev shelf : Loader
shelf = record {
  Data = RoeConfig;
  yaml = λ raw. if text_eq raw (text "spring") then ok document else err roe_error;
  is_mapping = λ doc. true;
  fields = λ doc. ok doc;
  digest = λ doc. doc.engagement.name;
}

loads : load_roe shelf (text "spring") ≡ ok (loaded, text "spring")
unfolding load_roe safe_load validate valid_osint text_eq split ip_address is_numeric decimal_from
loads = refl

load_roe-IsLoaded_example :
    IsLoaded loaded × (canonical_hash shelf (text "spring") ≡ ok (text "spring"))
load_roe-IsLoaded_example = load_roe-IsLoaded shelf (text "spring") loads

-- The names of a policy are in order, and each stands once.
in_order : loaded.recon.passive_sources.disable ≡ text "crt" ∷ text "rapid" ∷ []
unfolding clean
in_order = refl

abbrev targetless : RoeConfig
targetless = record document { scope = record { allowed = no_names; barred = acme } }

-- A scope that only bars has no target.
no_target : validate targetless ≡ err roe_error
unfolding validate split ip_address is_numeric decimal_from
no_target = refl

-- OSINT without a pivot, for a blank seed is none.
no_pivot :
    valid_osint (record no_osint { enabled = true; seed_domains = text " . " ∷ [] }) ≡ err roe_error
unfolding valid_osint
no_pivot = refl

abbrev is_host : List Bool
is_host =
    plain_host (text "a.co")
    ∷ plain_host (text "localhost")
    ∷ plain_host (text "a-.co")
    ∷ plain_host (text "a..co")
    ∷ plain_host (text "10.0.0.1")
    ∷ plain_host (text "*.a.co")
    ∷ domain_pattern (text "*.a.co")
    ∷ domain_pattern (text "*.*.co")
    ∷ domain_pattern (text "*.co")
    ∷ []

hosts : is_host ≡ true ∷ false ∷ false ∷ false ∷ false ∷ false ∷ true ∷ false ∷ false ∷ []
unfolding plain_host domain_pattern
hosts = refl

-- `$` matches in front of a last line feed, which the dots behind it keep from being stripped.
seed_line_feed : valid_seeds (text "acme.com\n." ∷ []) ≡ ok (text "acme.com\n" ∷ [])
unfolding valid_seeds
seed_line_feed = refl

abbrev talkative : RoeConfig
talkative = record loaded {
  scope = record {
    allowed = record acme_loaded {
      domains = text "*.acme.com" ∷ text "acme.com" ∷ text "b.co" ∷ [];
    };
    barred = no_names;
  };
  analysis_enabled = true;
  osint = record no_osint {
    enabled = true;
    seed_domains = text "z.io" ∷ text "b.co" ∷ text "a.io" ∷ [];
  };
}

advice :
    lint_roe talkative
    ≡ no_wildcard (text "b.co")
      ∷ hard_window
      ∷ unscoped_seeds (text "a.io" ∷ text "z.io" ∷ [])
      ∷ llm_enabled
      ∷ []
unfolding lint_roe clean starts_with sane_uas
advice = refl
