-- ===== src/Scans/Api.antt =====
-- recon/orchestrator/scans.py, the public methods, and the sequences of calls that reach a state
-- of the service.
use recon_platform.Prelude.{
  ℕ, ◌+◌, String, Bool, true, false, ◌||◌, not, none, some, List, [], ◌∷◌, ◌++◌, map, Result, ok,
  err, update_where, if◌then◌else◌,
}
use recon_platform.Registry.{Phase, passive, ReconModule, Registry, resolve_order}
use recon_platform.Scans.{
  ScanRun, RunStatus, running, paused, awaiting_checkpoint, ModuleStatus, ScanModuleRun, Service,
  Signal, ScanError, no_modules, kill_switch_engaged, bad_order, run_not_found, cannot_resume,
  get_run, set_run, signals, Environment,
}
use recon_platform.Scans.Run.{execute, without_handle}

-- `_launch`: a fresh handle, and a task that will execute the run.
abbrev launch : String → Service → Service
launch id s = record s { handles = (id, false) ∷ without_handle id s.handles }

abbrev new_rows : String → ℕ → List ReconModule → List ScanModuleRun
new_rows id i [] = []
new_rows id i (m ∷ ms) =
    record {
      scan_run_id = id;
      module_name = m.name;
      phase = m.phase;
      status = ModuleStatus.pending;
      order_index = i;
      skip_reason = none;
      error = none;
    }
    ∷ new_rows id (i + 1) ms

abbrev first_phase : List ReconModule → Phase
first_phase [] = passive
first_phase (m ∷ _) = m.phase

abbrev pub new_run : String → String → Bool → List ReconModule → ScanRun
new_run id engagement_id allow_oos ordered = record {
  id = id;
  engagement_id = engagement_id;
  modules_requested = map (λ m. m.name) ordered;
  modules_completed = [];
  status = running;
  allow_out_of_scope = allow_oos;
  active_confirmed = false;
  current_phase = some (first_phase ordered);
  error = none;
}

abbrev no_names : List String → Bool
no_names [] = true
no_names (_ ∷ _) = false

-- `start_scan`; `id` is the id that the new row gets.
unfoldable pub start_scan :
    Registry → String → String → List String → Bool → Service → Result ScanError Service
start_scan reg id engagement_id names allow_oos s =
    if no_names names
    then err no_modules
    else if s.kill_engaged
    then err kill_switch_engaged
    else elim (resolve_order reg names) [
      | err _ ↦ err bad_order
      | ok ordered ↦ ok (
          launch id (record s {
            runs = new_run id engagement_id allow_oos ordered ∷ s.runs;
            rows = s.rows ++ new_rows id 0 ordered;
          }))
    ]

abbrev resumable : RunStatus → Bool
resumable awaiting_checkpoint = true
resumable paused = true
resumable _ = false

abbrev pub at_checkpoint : RunStatus → Bool
at_checkpoint awaiting_checkpoint = true
at_checkpoint _ = false

abbrev pub resumed : ScanRun → ScanRun
resumed r = record r {
  status = running;
  active_confirmed = at_checkpoint r.status || r.active_confirmed;
  error = none;
}

-- `resume_scan`
unfoldable pub resume_scan : String → Service → Result ScanError Service
resume_scan id s = elim (get_run s id) [
  | none ↦ err run_not_found
  | some r ↦
      if not (resumable r.status)
      then err (cannot_resume r.status)
      else if s.kill_engaged
      then err kill_switch_engaged
      else ok (launch id (set_run id resumed s))
]

abbrev pub reap_run : ScanRun → ScanRun
reap_run r = record r { status = paused; error = some "interrupted by a restart" }

abbrev pub is_running_run : ScanRun → Bool
is_running_run r = elim r.status [ running ↦ true | _ ↦ false ]

abbrev is_running_row : ScanModuleRun → Bool
is_running_row row = elim row.status [ ModuleStatus.running ↦ true | _ ↦ false ]

-- `reap_orphans`, when the service starts: no handle is left from the process that died.
unfoldable pub reap_orphans : Service → Service
reap_orphans s = record s {
  runs = update_where is_running_run reap_run s.runs;
  rows = update_where is_running_row (λ row. record row { status = ModuleStatus.pending }) s.rows;
  handles = [];
}

-- A call of the service, or a task that the event loop runs.
pub data Call : Type 0 where
  start : String → String → List String → Bool → Call
  resume : String → Call
  send : List Signal → Call
  restart : Call
  run_task : Environment → String → Call

-- A call that raises changes nothing.
abbrev pub or_same : Result ScanError Service → Service → Service
or_same (ok s') s = s'
or_same (err _) s = s

unfoldable pub call : Registry → Call → Service → Service
unfolding start_scan resume_scan reap_orphans execute signals
call reg (start id engagement_id names allow_oos) s =
    or_same (start_scan reg id engagement_id names allow_oos s) s
call reg (resume id) s = or_same (resume_scan id s) s
call reg (send xs) s = signals xs s
call reg restart s = reap_orphans s
call reg (run_task env id) s = execute reg env id s

unfoldable pub calls : Registry → List Call → Service → Service
unfolding call
calls reg [] s = s
calls reg (c ∷ cs) s = calls reg cs (call reg c s)

abbrev pub init : Service
init = record { runs = []; rows = []; handles = []; kill_engaged = false; events = [] }
