-- ===== src/Scans/Run.antt =====
-- recon/orchestrator/scans.py, `_execute` and what it calls: the run of one scan.
use recon_platform.Prelude.{
  String, str_eq, Bool, true, false, ◌&&◌, not, none, some, List, [], ◌∷◌, ◌++◌, map, Result, ok,
  err, find, if◌then◌else◌,
}
use recon_platform.Prelude.Names.{contains}
use recon_platform.Registry.{active, is_phase, ReconModule, Registry, RegistryError, resolve_order}
use recon_platform.Scans.{
  ScanRun, ModuleStatus, ScanModuleRun, scan_started, module_started, module_completed,
  module_failed, module_skipped, scan_failed, Service, Outcome, finished, marked_skipped, cancelled,
  timed_out, killed, raised, Turn, Environment, Ending, returned, stopped, crashed, interrupted,
  get_run, set_run, is_row, set_row, publish, is_running, is_cancelled, signals, pause, finish,
  await_checkpoint, active_ok, correlate, append_completed, skip_if_pending, RunStatus,
}

abbrev row_failed : String → ScanModuleRun → ScanModuleRun
row_failed reason row = record row { status = ModuleStatus.failed; error = some reason }

abbrev pub row_pending : ScanModuleRun → ScanModuleRun
row_pending row = record row { status = ModuleStatus.pending }

abbrev row_completed : ModuleStatus → Bool
row_completed ModuleStatus.completed = true
row_completed _ = false

abbrev row_running : ModuleStatus → Bool
row_running ModuleStatus.running = true
row_running _ = false

-- The row when the module has returned: completed, unless the module marked it as skipped.
unfoldable pub settle_row : ScanModuleRun → ScanModuleRun
settle_row row =
    if row_running row.status then record row { status = ModuleStatus.completed } else row

-- `mod.run(ctx)` and the handlers behind it, from the row's RUNNING state on.
unfoldable pub conclude : String → ReconModule → Outcome → Service → Ending × Service
unfolding settle_row append_completed pause
conclude id m finished s =
    let s' = append_completed id m.name (set_row id m.name settle_row s) in
    (returned, publish id (module_completed m.name) s')
conclude id m (marked_skipped reason) s =
    let marked =
      set_row id m.name (λ row. record row { status = ModuleStatus.skipped; skip_reason = reason })
        s in
    let s' = append_completed id m.name (set_row id m.name settle_row marked) in
    (returned, publish id (module_skipped m.name reason) s')
conclude id m cancelled s =
    (stopped, pause id "cancelled during module run" (set_row id m.name row_pending s))
conclude id m killed s = (interrupted, s)
conclude id m timed_out s =
    let s' =
      set_row id m.name
        (λ row. if row_completed row.status then row else row_failed "timed out" row) s in
    (returned, publish id (module_failed m.name) s')
conclude id m (raised reason) s =
    (returned, publish id (module_failed m.name) (set_row id m.name (row_failed reason) s))

-- `_run_one_module`. A row that is not there raises.
unfoldable pub run_one_module : Turn → String → ReconModule → Service → Ending × Service
unfolding signals
run_one_module turn id m s = elim (find (is_row id m.name) s.rows) [
  | none ↦ (crashed, s)
  | some _ ↦
      let begun = set_row id m.name (λ row. record row { status = ModuleStatus.running }) s in
      let started = publish id (module_started m.name m.phase) begun in
      conclude id m turn.outcome (signals turn.during started)
]

-- The rest of a coroutine, if what stands before it returned.
abbrev pub proceed : Ending × Service → (Service → Ending × Service) → Ending × Service
proceed (returned, s) k = k s
proceed (stopped, s) k = (stopped, s)
proceed (crashed, s) k = (crashed, s)
proceed (interrupted, s) k = (interrupted, s)

-- The checkpoint: the loop correlates and then holds the run.
unfoldable pub hold : Environment → String → Service → Ending × Service
unfolding correlate await_checkpoint
hold env id s = proceed (correlate env.correlates id s) (λ s'. (returned, await_checkpoint id s'))

-- The end of the loop.
unfoldable pub wind_up : Environment → String → Service → Ending × Service
unfolding correlate finish
wind_up env id s = proceed (correlate env.correlates id s) (λ s'. (returned, finish id s'))

-- The loop of `_execute_inner`; `done` is its local set `completed`.
unfoldable pub run_modules :
    Environment → String → List ReconModule → List String → Service → Ending × Service
unfolding signals run_one_module hold wind_up skip_if_pending is_cancelled pause active_ok contains
run_modules env id [] done s = wind_up env id s
run_modules env id (m ∷ rest) done s =
    let turn = env.turn m in
    let s' = signals turn.before s in
    let skip = proceed (skip_if_pending id m.name s') (run_modules env id rest done) in
    let run =
      proceed (run_one_module turn id m s') (λ t.
        run_modules env id rest (if is_cancelled id t then done else done ++ m.name ∷ []) t) in
    if is_cancelled id s'
    then (returned, pause id "cancelled or kill switch engaged" s')
    else if contains done m.name
    then skip
    else if is_phase active m.phase && not (active_ok id s')
    then hold env id s'
    else run

abbrev pub start_order :
    Environment
    → String
    → ScanRun
    → Service
    → Result RegistryError (List ReconModule)
    → Ending × Service
start_order env id run s (err _) = (crashed, s)
start_order env id run s (ok ordered) =
    run_modules env id ordered run.modules_completed
      (publish id (scan_started (map (λ m. m.name) ordered)) s)

-- `_execute_inner`: a run that is not there, an engagement that is not there or whose rules are not
-- valid any more, and modules without an order raise.
unfoldable pub execute_inner : Registry → Environment → String → Service → Ending × Service
unfolding run_modules
execute_inner reg env id s = elim (get_run s id) [
  | none ↦ (crashed, s)
  | some run ↦
      let begun = start_order env id run s (resolve_order reg run.modules_requested) in
      if env.rules_load then begun else (crashed, s)
]

abbrev pub without_handle : String → List (String × Bool) → List (String × Bool)
without_handle id [] = []
without_handle id (h ∷ hs) =
    let rest = without_handle id hs in if str_eq h.0 id then rest else h ∷ rest

-- The handler of `_execute`: an exception fails a run that is still running. CancelledError is none
-- that it handles.
unfoldable pub recover : String → Ending × Service → Service
recover id (returned, s) = s
recover id (stopped, s) = s
recover id (interrupted, s) = s
recover id (crashed, s) = publish id scan_failed (
    set_run id
      (λ r.
        if is_running r.status
        then record r { status = RunStatus.failed; error = some "traceback" }
        else r)
      s)

-- `_execute`
unfoldable pub execute : Registry → Environment → String → Service → Service
unfolding execute_inner recover
execute reg env id s =
    let s' = recover id (execute_inner reg env id s) in
    record s' { handles = without_handle id s'.handles }
