-- ===== src/Targets/Eligible.antt =====
-- recon/modules/_targets.py: what `resolve_targets` hands to an active module.
use recon_platform.Prelude.{◌≡◌, ◌≢◌, Bool, true, ok}
use recon_platform.Prelude.Text.{Text}
use recon_platform.Scope.{flagged, excluded, Rules, ScopeDecision, classify}
use recon_platform.Targets.Forms.{IsSafeHost, IsSafeUrl}
use recon_platform.Targets.Resolve.{TargetType, url, TargetCandidate}

-- A form that is safe for the type.
abbrev pub IsSafe : TargetType → Text → Type 0
IsSafe url s = IsSafeUrl s
IsSafe _ s = IsSafeHost s

-- A module may act on it: its form is safe, and the rules put it in scope, or only flag it while the
-- run has an override.
pub record IsEligible (roe : Rules) (allow_oos : Bool) (c : TargetCandidate) : Type 0 where
  pub form : IsSafe c.target_type c.value
  pub decision : ScopeDecision
  pub classified : classify roe c.value c.resolved_ips ≡ ok decision
  pub barred : decision.status ≢ excluded
  pub override : decision.status ≡ flagged → allow_oos ≡ true
