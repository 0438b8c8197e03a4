-- ===== src/Roe/Loaded.antt =====
-- recon/core/roe.py: what a document that loads is sure of.
use recon_platform.Prelude.{
  length, Result, ◌>>◌, leb, ◌≡◌, refl, ap, subst, Bool, true, false, ◌&&◌, List, [], ◌∷◌,
  if◌then◌else◌, ok, err, Bool-cases, ok_inj, >>=-eq-ok, ◌>>=◌, inl, inr, arith,
}
use recon_platform.Prelude.Text.{Text, is_empty, strip}
use recon_platform.Prelude.Text.Strip.{strip-strip, normal-normal}
use recon_platform.Scope.{ScopeList}
use recon_platform.Roe.Clean.{clean-clean}
use recon_platform.Roe.{
  RoEError, roe_error, validated, RoeConfig, OsintPolicy, normal, valid_names, valid_cidrs,
  valid_seeds, valid_list, sane_uas, valid_osint, domain_pattern, plain_host, check, meta_valid,
  limits_valid, jitter_valid, has_a_pivot, has_a_target, validate, recon_valid, cleaned,
  ReconPolicy, Loader, safe_load, canonical_hash, load_roe,
}

valid_names-again :
    (matches : Text → Bool) (names : List Text) {out : List Text}
    → valid_names matches names ≡ ok out
    → valid_names matches out ≡ ok out
unfolding valid_names
valid_names-again matches [] e = subst (λ out. valid_names matches out ≡ ok out) (ok_inj e) refl
valid_names-again matches (s ∷ names) {out} e = elim (Bool-cases (matches (normal s))) [
  | inr refused ↦ ground (arith, e, refused)
  | inl matched ↦
      let (rest, one, same) =
        >>=-eq-ok (valid_names matches names) (λ out. ok (normal s ∷ out))
          (subst
            (λ b.
              (if b
                then (valid_names matches names >>= λ out. ok (normal s ∷ out))
                else err roe_error)
              ≡ ok out)
            matched e) in
      subst (λ out. valid_names matches out ≡ ok out) (ok_inj same)
        (rw (normal-normal s, matched, valid_names-again matches names one) refl)
]

sane_uas-sane_uas : (uas : List Text) → sane_uas (sane_uas uas) ≡ sane_uas uas
unfolding sane_uas
sane_uas-sane_uas [] = refl
sane_uas-sane_uas (ua ∷ uas) = elim (Bool-cases (is_empty (strip ua))) [
  | inl blank ↦ rw blank (sane_uas-sane_uas uas)
  | inr kept ↦ rw (kept, strip-strip ua, kept, sane_uas-sane_uas uas) refl
]

checked :
    {A : Type 0} (b : Bool) {r : Result RoEError A} {a : A}
    → (check b >> r) ≡ ok a
    → (b ≡ true) × (r ≡ ok a)
checked true e = (refl, e)
checked false e = cc

-- The names of a list are in the form that the validators give, and validate.
pub record IsNormal (list : ScopeList) : Type 0 where
  domains : valid_names domain_pattern list.domains ≡ ok list.domains
  hosts : valid_names plain_host list.hosts ≡ ok list.hosts

valid_list-IsNormal : (list : ScopeList) {out : ScopeList} → valid_list list ≡ ok out → IsNormal out
unfolding valid_list
valid_list-IsNormal list e =
    let (domains, p, e1) = >>=-eq-ok (valid_names domain_pattern list.domains) _ e in
    let (cidrs, q, e2) = >>=-eq-ok (valid_cidrs list.cidrs) _ e1 in
    let (hosts, r, e3) = >>=-eq-ok (valid_names plain_host list.hosts) _ e2 in
    subst IsNormal (ok_inj e3) (record {
      domains = valid_names-again domain_pattern list.domains p;
      hosts = valid_names-again plain_host list.hosts r;
    })

valid_osint-pivot :
    (o : OsintPolicy) {out : OsintPolicy} → valid_osint o ≡ ok out → has_a_pivot out ≡ true
unfolding valid_osint
valid_osint-pivot o e =
    let (seeds, p, e1) = >>=-eq-ok (valid_seeds o.seed_domains) _ e in
    let (holds, e2) =
      checked (leb (length o.company) 200 && has_a_pivot (record o { seed_domains = seeds })) e1 in
    subst (λ (y : OsintPolicy). has_a_pivot y ≡ true) (ok_inj e2) (ground arith)

-- What holds of the rules that were loaded.
pub record IsLoaded (c : RoeConfig) : Type 0 where
  meta : meta_valid c.engagement ≡ true
  allowed : IsNormal c.scope.allowed
  barred : IsNormal c.scope.barred
  limits : limits_valid c.rate_limits && jitter_valid c.evasion.jitter ≡ true
  agents : sane_uas c.evasion.user_agents ≡ c.evasion.user_agents
  pivot : has_a_pivot c.osint ≡ true
  bounds : recon_valid c.recon ≡ true
  names : cleaned c.recon ≡ c.recon
  target : has_a_target c ≡ true

cleaned-cleaned : (p : ReconPolicy) → cleaned (cleaned p) ≡ cleaned p
cleaned-cleaned p =
    rw
      (
        clean-clean p.passive_sources.disable,
        clean-clean p.passive_sources.enable,
        clean-clean p.templates.exclude_tags,
      )
      refl

validate-IsLoaded : (c : RoeConfig) {out : RoeConfig} → validate c ≡ ok out → IsLoaded out
unfolding validate
validate-IsLoaded c e =
    let (meta, e1) = checked (meta_valid c.engagement) e in
    let (allowed, p, e2) = >>=-eq-ok (valid_list c.scope.allowed) _ e1 in
    let (barred, q, e3) = >>=-eq-ok (valid_list c.scope.barred) _ e2 in
    let (limits, e4) = checked (limits_valid c.rate_limits && jitter_valid c.evasion.jitter) e3 in
    let (osint, r, e5) = >>=-eq-ok (valid_osint c.osint) _ e4 in
    let (bounds, e6) = checked (recon_valid c.recon) e5 in
    let (target, e7) = checked (has_a_target (validated c allowed barred osint)) e6 in
    subst IsLoaded (ok_inj e7) (record {
      meta = meta;
      allowed = valid_list-IsNormal c.scope.allowed p;
      barred = valid_list-IsNormal c.scope.barred q;
      limits = limits;
      agents = sane_uas-sane_uas c.evasion.user_agents;
      pivot = valid_osint-pivot c.osint r;
      bounds = bounds;
      names = cleaned-cleaned c.recon;
      target = target;
    })

-- A document that loads has an in-scope target, or an OSINT run with a pivot to start from; its window
-- is ordered, and its rates, delays and recon policies are within the bounds. The domains and hosts of
-- both lists, the user agents and the names of the policies validate again, to the same texts. The
-- hash that the load returns is the one of `canonical_hash`.
pub load_roe-IsLoaded :
    (by : Loader) (raw : Text) {out : RoeConfig} {hash : Text}
    → load_roe by raw ≡ ok (out, hash)
    → IsLoaded out × (canonical_hash by raw ≡ ok hash)
unfolding load_roe canonical_hash
load_roe-IsLoaded by raw {out} {hash} e =
    let (doc, p, e1) = >>=-eq-ok (safe_load by raw) _ e in
    let (_, e2) = checked (by.is_mapping doc) e1 in
    let (config, q, e3) = >>=-eq-ok (by.fields doc) _ e2 in
    let (valid, r, e4) = >>=-eq-ok (validate config) _ e3 in
    let same = ok_inj e4 in
    (
      subst IsLoaded (ap (λ (y : RoeConfig × Text). y.0) same) (validate-IsLoaded config r),
      rw p (ap (λ (y : RoeConfig × Text). ok y.1) same),
    )
