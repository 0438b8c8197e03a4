-- ===== src/Targets/Resolve.antt =====
-- recon/modules/_targets.py, `resolve_targets`, from the raw candidates on: each is classified and
-- checked for its form, the best of each target is kept, and networks in scope that no address
-- covers are accounted for. The queries that yield the raw candidates are the argument.
use recon_platform.Prelude.{
  ℕ, ◌+◌, ◌-◌, ◌^◌, ltb, leb, ◌==◌, String, Bool, true, false, ◌&&◌, ◌||◌, not, Option, none, some,
  List, [], ◌∷◌, ◌++◌, any, if◌then◌else◌, Result, ok, err, ◌>>=◌,
}
use recon_platform.Prelude.Text.{Text, text, text_eq, is_empty, has_char}
use recon_platform.Scope.{ScopeStatus, in_scope, flagged, excluded, Rules, classify}
use recon_platform.Scope.Ip.{Network, same_version, width}
use recon_platform.Scope.Networks.{ip_network}
use recon_platform.Scope.Urls.{ValueError, value_error}
use recon_platform.Targets.{is_safe_target, safe_url_root}

-- The types of targets, in the order of their names.
pub data TargetType : Type 0 where
  cidr hostname ip url : TargetType

pub data SourceKind : Type 0 where
  roe_host roe_domain roe_cidr current_dns current_discovery current_web prior_asset : SourceKind

-- Why a candidate is left out, in the order of the names.
pub data ExclusionReason : Type 0 where
  explicit out_of_scope unaccounted_cidr unsafe_form : ExclusionReason

pub record Provenance : Type 0 where
  pub source_module : Option String
  pub evidence_id : Option String
  pub scan_run_id : Option String

pub record RawCandidate : Type 0 where
  pub value : Text
  pub target_type : TargetType
  pub source_kind : SourceKind
  pub source : Provenance
  pub resolved_ips : List Text

pub record TargetCandidate : Type 0 where
  pub value : Text
  pub target_type : TargetType
  pub source_kind : SourceKind
  pub source : Provenance
  pub scope_status : ScopeStatus
  pub exclusion_reason : Option ExclusionReason
  pub resolved_ips : List Text

pub record TargetResolution : Type 0 where
  pub eligible : List TargetCandidate
  pub excluded_ones : List TargetCandidate

abbrev pub type_rank : TargetType → ℕ
type_rank cidr = 0
type_rank hostname = 1
type_rank ip = 2
type_rank url = 3

abbrev pub reason_rank : Option ExclusionReason → ℕ
reason_rank none = 0
reason_rank (some explicit) = 1
reason_rank (some out_of_scope) = 2
reason_rank (some unaccounted_cidr) = 3
reason_rank (some unsafe_form) = 4

-- `_rank`: a source of the current run before the rules, and those before an older asset.
abbrev source_rank : SourceKind → ℕ
source_rank current_dns = 0
source_rank current_discovery = 0
source_rank current_web = 0
source_rank roe_host = 1
source_rank roe_domain = 1
source_rank roe_cidr = 1
source_rank prior_asset = 2

abbrev pub rank : TargetCandidate → ℕ
rank c = elim c.exclusion_reason [
  | none ↦ source_rank c.source_kind
  | some _ ↦ 3 + source_rank c.source_kind
]

-- The two have the same key.
abbrev pub same_target : TargetCandidate → TargetCandidate → Bool
same_target a b = type_rank a.target_type == type_rank b.target_type && text_eq a.value b.value

-- `_stash`
unfoldable pub stash : TargetCandidate → List TargetCandidate → List TargetCandidate
stash c [] = c ∷ []
stash c (old ∷ store) =
    let rest = stash c store in
    if same_target old c
    then (if ltb (rank c) (rank old) then c ∷ store else old ∷ store)
    else old ∷ rest

abbrev is_url : TargetType → Bool
is_url url = true
is_url _ = false

-- The form that the loop asks of a value of this type.
unfoldable pub form_ok : TargetType → Text → Bool
unfolding is_safe_target safe_url_root
form_ok type value = if is_url type then safe_url_root value else is_safe_target value

abbrev pub reason_for : Bool → ScopeStatus → Option ExclusionReason
reason_for allow_oos excluded = some explicit
reason_for allow_oos flagged = if allow_oos then none else some out_of_scope
reason_for allow_oos _ = none

abbrev pub candidate : RawCandidate → ScopeStatus → Option ExclusionReason → TargetCandidate
candidate raw status reason = record {
  value = raw.value;
  target_type = raw.target_type;
  source_kind = raw.source_kind;
  source = raw.source;
  scope_status = status;
  exclusion_reason = reason;
  resolved_ips = raw.resolved_ips;
}

-- The body of the loop up to the store: the form, then the scope.
unfoldable pub judge : Rules → Bool → RawCandidate → Result ValueError TargetCandidate
unfolding form_ok classify
judge roe allow_oos raw =
    if form_ok raw.target_type raw.value
    then (classify roe raw.value raw.resolved_ips >>= λ d.
        ok (candidate raw d.status (reason_for allow_oos d.status)))
    else ok (candidate raw flagged (some unsafe_form))

abbrev pub accepts : List TargetType → TargetType → Bool
accepts types t = any (λ u. type_rank u == type_rank t) types

abbrev pub put_as : Option ExclusionReason → TargetCandidate → TargetResolution → TargetResolution
put_as none c r = record r { eligible = stash c r.eligible }
put_as (some _) c r = record r { excluded_ones = stash c r.excluded_ones }

abbrev pub put : TargetCandidate → TargetResolution → TargetResolution
put c r = put_as c.exclusion_reason c r

-- The loop over the raw candidates.
unfoldable pub sift :
    Rules
    → Bool
    → List TargetType
    → List RawCandidate
    → TargetResolution
    → Result ValueError TargetResolution
unfolding judge stash
sift roe allow_oos types [] r = ok r
sift roe allow_oos types (raw ∷ raws) r =
    let skip = sift roe allow_oos types raws r in
    let next = λ (c : TargetCandidate). sift roe allow_oos types raws (put c r) in
    if not (accepts types raw.target_type) || is_empty raw.value
    then skip
    else judge roe allow_oos raw >>= next

-- `a.subnet_of(b)`, where the versions agree.
abbrev last_of : Network → ℕ
last_of net = net.first.number + 2 ^ (width net.first.version - net.prefixlen) - 1

abbrev subnet_of : Network → Network → Bool
subnet_of a b =
    same_version a.first.version b.first.version
    && leb b.first.number a.first.number
    && leb (last_of a) (last_of b)

-- The networks of the single addresses that are eligible.
unfoldable pub discovered : List TargetCandidate → Result ValueError (List Network)
unfolding ip_network has_char
discovered [] = ok []
discovered (c ∷ cs) =
    let rest = discovered cs in
    let width_text = if has_char b':' c.value then text "/128" else text "/32" in
    if type_rank c.target_type == 2
    then elim (ip_network false (c.value ++ width_text)) [
      | none ↦ err value_error
      | some net ↦ rest >>= λ nets. ok (net ∷ nets)
    ]
    else rest

abbrev unaccounted : Text → TargetCandidate
unaccounted value = record {
  value = value;
  target_type = cidr;
  source_kind = roe_cidr;
  source = record { source_module = none; evidence_id = none; scan_run_id = none };
  scope_status = in_scope;
  exclusion_reason = some unaccounted_cidr;
  resolved_ips = [];
}

-- The loop over the networks in scope.
unfoldable pub account_cidrs :
    List Network → List Text → List TargetCandidate → Result ValueError (List TargetCandidate)
unfolding ip_network stash
account_cidrs nets [] store = ok store
account_cidrs nets (c ∷ cs) store =
    let covered = account_cidrs nets cs store in
    let open_one = account_cidrs nets cs (stash (unaccounted c) store) in
    elim (ip_network false c) [
      | none ↦ err value_error
      | some net ↦ if any (λ d. subnet_of d net) nets then covered else open_one
    ]
