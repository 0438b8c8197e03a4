-- ===== src/Net/KillSwitch.antt =====
-- recon/orchestrator/killswitch.py: the operator's emergency stop.
use recon_platform.Prelude.{
  ℕ, String, str_eq, ◌≡◌, Bool, true, false, not, Option, none, some, List, [], ◌∷◌, if◌then◌else◌,
  Result, ok, err, ◌↔◌, arith,
}

-- `clear` is the event that modules wait for: scanning is permitted while it is set.
pub record KillSwitch : Type 0 where
  pub clear : Bool
  pub reason : Option String
  pub engaged_at : Option ℕ
  pub engaged_by : Option String

pub record KillSwitchEngaged : Type 0 where
  pub message : String

abbrev pub new_switch : KillSwitch
new_switch = record { clear = true; reason = none; engaged_at = none; engaged_by = none }

unfoldable pub is_engaged : KillSwitch → Bool
is_engaged k = not k.clear

unfoldable pub engage : String → Option String → ℕ → KillSwitch → KillSwitch
engage reason by_user now k = record {
  clear = false;
  reason = some reason;
  engaged_at = some now;
  engaged_by = by_user;
}

unfoldable pub reset : KillSwitch → KillSwitch
reset k = record { clear = true; reason = none; engaged_at = none; engaged_by = none }

-- `self.reason or "global stop engaged"`
abbrev message_of : Option String → String
message_of none = "global stop engaged"
message_of (some reason) = if str_eq reason "" then "global stop engaged" else reason

unfoldable pub raise_if_engaged : KillSwitch → Result KillSwitchEngaged (Unit {0})
unfolding is_engaged
raise_if_engaged k = if is_engaged k then err (record { message = message_of k.reason }) else ok tt

pub data SwitchCall : Type 0 where
  engaging : String → Option String → ℕ → SwitchCall
  resetting : SwitchCall

unfoldable pub switch_calls : List SwitchCall → KillSwitch → KillSwitch
unfolding engage reset
switch_calls [] k = k
switch_calls (engaging r u t ∷ cs) k = switch_calls cs (engage r u t k)
switch_calls (resetting ∷ cs) k = switch_calls cs (reset k)

-- Whether the last of the calls engages the switch; `before` if there is none.
abbrev pub stopped_by : Bool → List SwitchCall → Bool
stopped_by before [] = before
stopped_by before (engaging _ _ _ ∷ cs) = stopped_by true cs
stopped_by before (resetting ∷ cs) = stopped_by false cs

-- A module's check raises after a sequence of calls exactly if the last of them engages the switch,
-- or if there is none and it was engaged before: no earlier reset lifts a later stop.
pub raise_if_engaged-switch_calls :
    (cs : List SwitchCall) (k : KillSwitch)
    → (raise_if_engaged (switch_calls cs k) ≡ ok tt) ↔ (stopped_by (is_engaged k) cs ≡ false)
unfolding raise_if_engaged switch_calls is_engaged engage reset
raise_if_engaged-switch_calls [] k = ground arith
raise_if_engaged-switch_calls (engaging r u t ∷ cs) k =
    raise_if_engaged-switch_calls cs (engage r u t k)
raise_if_engaged-switch_calls (resetting ∷ cs) k = raise_if_engaged-switch_calls cs (reset k)
