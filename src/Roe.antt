-- ===== src/Roe.antt =====
-- recon/core/roe.py: the rules of engagement and the validators that run when a document is loaded.
-- The fields come as YAML gives them; a validator that raises ends the load with RoEError, whose text
-- is left out. `max_requests_per_second` is in thousandths.
mod Patterns
mod Recon
pub mod Clean
pub mod Lint
pub mod Loaded
pub mod Tests
unfoldable pub use Patterns.*
unfoldable pub use Recon.*
use recon_platform.Prelude.{
  ℕ, ◌+◌, suc, ltb, leb, ◌==◌, Bool, true, false, ◌&&◌, ◌||◌, not, Option, none, some, List, [],
  ◌∷◌, ◌++◌, length, all, if◌then◌else◌, Result, ok, err, ◌>>=◌, ◌>>◌,
}
use recon_platform.Prelude.Text.{
  Text, text, is_empty, is_alpha, is_digit, lower, strip, lstrip_if, rstrip_dots, starts_with,
  split, between,
}
use recon_platform.Scope.{ScopeList, Rules, AuthorizedWindow}
use recon_platform.Scope.Networks.{ip_network}
use recon_platform.Scope.Ip.Print.{print_network}

pub data RoEError : Type 0 where
  roe_error : RoEError

pub record EngagementMeta : Type 0 where
  pub name : Text
  pub client : Text
  pub authorized_window : Option AuthorizedWindow

pub record RateLimits : Type 0 where
  pub max_requests_per_second : ℕ
  pub max_concurrent_connections : ℕ

pub record Jitter : Type 0 where
  pub enabled : Bool
  pub min_ms : ℕ
  pub max_ms : ℕ

pub data RotationStrategy : Type 0 where
  round_robin random : RotationStrategy

pub record Evasion : Type 0 where
  pub jitter : Jitter
  pub user_agents : List Text
  pub rotation_strategy : RotationStrategy

pub record OsintPolicy : Type 0 where
  pub enabled : Bool
  pub company : Text
  pub seed_domains : List Text
  pub github_org : Option Text

pub record RoeConfig : Type 0 where
  pub engagement : EngagementMeta
  pub scope : Rules
  pub rate_limits : RateLimits
  pub evasion : Evasion
  pub analysis_enabled : Bool
  pub osint : OsintPolicy
  pub recon : ReconPolicy

-- `s.strip().lower()`
abbrev pub normal : Text → Text
normal s = lower (strip s)

-- `_valid_domain_patterns` and `_valid_hosts`, by the pattern that they match with.
unfoldable pub valid_names : (Text → Bool) → List Text → Result RoEError (List Text)
valid_names matches [] = ok []
valid_names matches (s ∷ names) =
    let rest = valid_names matches names in
    if matches (normal s) then (do out ← rest; ok (normal s ∷ out)) else err roe_error

-- `_valid_cidrs`
unfoldable pub valid_cidrs : List Text → Result RoEError (List Text)
unfolding ip_network print_network
valid_cidrs [] = ok []
valid_cidrs (c ∷ cidrs) =
    let rest = valid_cidrs cidrs in
    elim (ip_network false (strip c)) [
      | none ↦ err roe_error
      | some net ↦ rest >>= λ out. ok (print_network net ∷ out)
    ]

unfoldable pub valid_list : ScopeList → Result RoEError ScopeList
unfolding valid_names valid_cidrs domain_pattern plain_host
valid_list list = do
  domains ← valid_names domain_pattern list.domains
  cidrs ← valid_cidrs list.cidrs
  hosts ← valid_names plain_host list.hosts
  ok (record { domains = domains; cidrs = cidrs; hosts = hosts })

abbrev pub check : Bool → Result RoEError (Unit {0})
check holds = if holds then ok tt else err roe_error

-- `_check_order`
abbrev pub window_ordered : Option AuthorizedWindow → Bool
window_ordered none = true
window_ordered (some w) = ltb w.start w.end

abbrev pub meta_valid : EngagementMeta → Bool
meta_valid m =
    between 1 200 (length m.name)
    && between 1 200 (length m.client)
    && window_ordered m.authorized_window

abbrev pub limits_valid : RateLimits → Bool
limits_valid l =
    between 1 1000000 l.max_requests_per_second && between 1 1000 l.max_concurrent_connections

-- The bounds of the fields, and `_order`.
abbrev pub jitter_valid : Jitter → Bool
jitter_valid j = leb j.min_ms 120000 && leb j.max_ms 120000 && leb j.min_ms j.max_ms

-- `_sane_uas`
unfoldable pub sane_uas : List Text → List Text
unfolding strip
sane_uas [] = []
sane_uas (ua ∷ uas) =
    let rest = sane_uas uas in if is_empty (strip ua) then rest else strip ua ∷ rest

-- `d.strip().lower().strip(".")`
unfoldable pub seed_name : Text → Text
unfolding lstrip_if rstrip_dots strip lower
seed_name d = rstrip_dots (lstrip_if (λ c. c == b'.') (normal d))

-- `_valid_seed_domains`
unfoldable pub valid_seeds : List Text → Result RoEError (List Text)
unfolding seed_name plain_host
valid_seeds [] = ok []
valid_seeds (d ∷ ds) =
    let rest = valid_seeds ds in
    if is_empty (seed_name d)
    then rest
    else if plain_host (seed_name d)
    then (do out ← rest; ok (seed_name d ∷ out))
    else err roe_error

abbrev given : Option Text → Bool
given none = false
given (some s) = not (is_empty s)

-- `_has_a_pivot`
abbrev pub has_a_pivot : OsintPolicy → Bool
has_a_pivot o =
    not o.enabled || not (is_empty o.company) || not (is_empty o.seed_domains) || given o.github_org

unfoldable pub valid_osint : OsintPolicy → Result RoEError OsintPolicy
unfolding valid_seeds
valid_osint o = do
  seeds ← valid_seeds o.seed_domains
  check (leb (length o.company) 200 && has_a_pivot (record o { seed_domains = seeds }))
  ok (record o { seed_domains = seeds })

-- `Scope.is_empty`
abbrev pub scope_empty : Rules → Bool
scope_empty r = is_empty r.allowed.domains && is_empty r.allowed.cidrs && is_empty r.allowed.hosts

-- `_has_a_target`
abbrev pub has_a_target : RoeConfig → Bool
has_a_target c = not (scope_empty c.scope) || c.osint.enabled

-- The configuration with the values that its validators return.
abbrev pub validated : RoeConfig → ScopeList → ScopeList → OsintPolicy → RoeConfig
validated c allowed barred osint = record c {
  scope = record { allowed = allowed; barred = barred };
  evasion = record c.evasion { user_agents = sane_uas c.evasion.user_agents };
  osint = osint;
  recon = cleaned c.recon;
}

-- `RoEConfig.model_validate`
unfoldable pub validate : RoeConfig → Result RoEError RoeConfig
unfolding valid_list sane_uas valid_osint
validate c = do
  check (meta_valid c.engagement)
  allowed ← valid_list c.scope.allowed
  barred ← valid_list c.scope.barred
  check (limits_valid c.rate_limits && jitter_valid c.evasion.jitter)
  osint ← valid_osint c.osint
  check (recon_valid c.recon)
  check (has_a_target (validated c allowed barred osint))
  ok (validated c allowed barred osint)

-- The bytes of a text in UTF-8.
unfoldable pub utf8_length : Text → ℕ
utf8_length [] = 0
utf8_length (c ∷ s) =
    (if ltb c 0x80 then 1 else if ltb c 0x800 then 2 else if ltb c 0x10000 then 3 else 4)
    + utf8_length s

-- What the load leaves to others: YAML without aliases, the reading of the fields by pydantic, and
-- the digest of the canonical JSON.
pub record Loader : Type 1 where
  pub Data : Type 0
  pub yaml : Text → Result RoEError Data
  pub is_mapping : Data → Bool
  pub fields : Data → Result RoEError RoeConfig
  pub digest : Data → Text

module _ (by : Loader) where
  -- `_safe_load`
  unfoldable pub safe_load : Text → Result RoEError by.Data
  unfolding utf8_length
  safe_load raw = if ltb 262144 (utf8_length raw) then err roe_error else by.yaml raw

  unfoldable pub canonical_hash : Text → Result RoEError Text
  canonical_hash raw = do doc ← safe_load raw; ok (by.digest doc)

  unfoldable pub load_roe : Text → Result RoEError (RoeConfig × Text)
  load_roe raw = do
    doc ← safe_load raw
    check (by.is_mapping doc)
    config ← by.fields doc
    valid ← validate config
    ok (valid, by.digest doc)
