-- ===== src/Scans/Tests.antt =====
-- Runs of scans.py, and the theorems of its modules at concrete states.
use recon_platform.Prelude.{
  ◌≢◌, sym, ◌∙◌, ◌⊎◌, ◌≡◌, refl, String, true, false, Option, none, some, List, [], ◌∷◌, find, map,
}
use recon_platform.Prelude.Names.{contains, sorted, for_each}
use recon_platform.Registry.{
  osint, passive, active, ReconModule, Registry, resolve_order, resolve_names, pull, check_phases,
  toposort, visit,
}
use recon_platform.Scans.{
  returned, interrupted, killed, RunStatus, completed, ScanRun, ScanModuleRun, ModuleStatus,
  skipped, SkipReason, not_configured, resumed_prior_run, Service, raised, Environment, is_row,
  skip_if_pending, is_cancelled, active_ok,
}
use recon_platform.Scans.Run.{execute_inner, conclude, run_modules, execute}
use recon_platform.Scans.Api.{Call, start, resume, run_task, call, calls, init}
use recon_platform.Scans.Checkpoint.{calls-Guarded}
use recon_platform.Scans.Checkpoint.State.{Guarded}
use recon_platform.Scans.Settled.{IsSettled, execute-IsSettled}
use recon_platform.Scans.Resilience.{Completes, run_modules-Completes}
use recon_platform.Scans.Resilience.Steps.{IsCalm}
use recon_platform.Scans.Skips.{skip_if_pending-row}

abbrev search : ReconModule
search = record { name = "search"; phase = osint; depends_on = []; max_runtime_seconds = none }

abbrev dns : ReconModule
dns = record { name = "dns"; phase = passive; depends_on = []; max_runtime_seconds = none }

abbrev port_scan : ReconModule
port_scan = record {
  name = "port_scan";
  phase = active;
  depends_on = "dns" ∷ [];
  max_runtime_seconds = some 7200;
}

abbrev modules : Registry
modules = port_scan ∷ search ∷ dns ∷ []

-- Each module fails.
abbrev failing : Environment
failing = record {
  turn = λ m. record { before = []; during = []; outcome = raised "error" };
  correlates = true;
  rules_load = true;
}

abbrev script : List Call
script =
    start "run" "eng" ("port_scan" ∷ "search" ∷ []) false
    ∷ run_task failing "run"
    ∷ resume "run"
    ∷ run_task failing "run"
    ∷ []

script_status : map (λ r. r.status) (calls modules script init).runs ≡ completed ∷ []
unfolding calls resolve_order resolve_names pull check_phases toposort visit for_each contains
    sorted conclude
script_status = refl

calls-Guarded_example : Guarded (calls modules script init).events
calls-Guarded_example = calls-Guarded modules script

abbrev started : Service
started = call modules (start "run" "eng" ("dns" ∷ []) false) init

returned-ne-interrupted : returned ≢ interrupted
returned-ne-interrupted e = cc

failing_ends : (execute_inner modules failing "run" started).0 ≡ returned
unfolding execute_inner call resolve_order resolve_names pull check_phases toposort visit for_each
    contains sorted conclude
failing_ends = refl

-- A shutdown that does not wait for the module any longer: the run stays RUNNING.
abbrev killing : Environment
killing = record failing { turn = λ m. record { before = []; during = []; outcome = killed } }

killed_run :
    map (λ r. r.status) (execute modules killing "run" started).runs ≡ RunStatus.running ∷ []
unfolding execute call resolve_order resolve_names pull check_phases toposort visit for_each
    contains sorted conclude
killed_run = refl

execute-IsSettled_example : IsSettled "run" (execute modules failing "run" started)
execute-IsSettled_example =
    execute-IsSettled modules failing "run" started
      (λ e. absurd (returned-ne-interrupted (sym failing_ends ∙ e)))

abbrev row : String → ModuleStatus → Option SkipReason → ScanModuleRun
row name status reason = record {
  scan_run_id = "run";
  module_name = name;
  phase = osint;
  status = status;
  order_index = 0;
  skip_reason = reason;
  error = none;
}

abbrev one_run : ScanRun
one_run = record {
  id = "run";
  engagement_id = "eng";
  modules_requested = "search" ∷ "dns" ∷ [];
  modules_completed = [];
  status = RunStatus.running;
  allow_out_of_scope = false;
  active_confirmed = false;
  current_phase = some osint;
  error = none;
}

abbrev resumed_state : Service
resumed_state = record {
  runs = one_run ∷ [];
  rows = row "search" skipped (some not_configured) ∷ row "dns" ModuleStatus.pending none ∷ [];
  handles = ("run", false) ∷ [];
  kill_engaged = false;
  events = [];
}

failing-IsCalm : IsCalm failing
failing-IsCalm = record {
  before = λ m. refl;
  during = λ m. refl;
  outcome = λ m e. cc;
  alive = λ m e. cc;
  correlation = refl;
}

run_modules-Completes_example :
    Completes "run" (run_modules failing "run" (search ∷ dns ∷ []) [] resumed_state)
unfolding is_cancelled active_ok
run_modules-Completes_example =
    run_modules-Completes failing "run" (search ∷ dns ∷ []) [] resumed_state failing-IsCalm
      (record { calm = refl; listed = (refl, (refl, tt)); allowed = (refl, (refl, tt)) })

-- A module that was not configured before the checkpoint is counted as carried over behind it.
skip_if_pending-row_example :
    (◌≡◌ {A = ModuleStatus} skipped ModuleStatus.completed
        ⊎ ◌≡◌ {A = ModuleStatus} skipped ModuleStatus.failed
      → find (is_row "run" "search") (skip_if_pending "run" "search" resumed_state).1.rows
        ≡ some (row "search" skipped (some not_configured)))
    × (◌≡◌ {A = ModuleStatus} skipped ModuleStatus.pending
          ⊎ ◌≡◌ {A = ModuleStatus} skipped ModuleStatus.running
          ⊎ ◌≡◌ {A = ModuleStatus} skipped skipped
        → find (is_row "run" "search") (skip_if_pending "run" "search" resumed_state).1.rows
          ≡ some (row "search" skipped (some resumed_prior_run)))
skip_if_pending-row_example =
    skip_if_pending-row "run" "search" resumed_state (row "search" skipped (some not_configured))
      refl
