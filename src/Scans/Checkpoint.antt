-- ===== src/Scans/Checkpoint.antt =====
-- recon/orchestrator/scans.py: no active module starts in a run before the run was held at its
-- checkpoint, whatever the calls, the operator's signals and the modules do.
pub mod State
mod Steps
use recon_platform.Prelude.{
  ℕ, zero, suc, ◌+◌, ◌≡◌, refl, String, str_eq, eq_iff, Bool, true, false, ◌&&◌, ◌||◌, not, Option,
  none, some, List, [], ◌∷◌, ◌++◌, map, Result, Result-cases, ok, err, any, find, update_where,
  if◌then◌else◌, arith, All, Bool-cases, Option-cases, ◌⊎◌, inl, inr,
}
use recon_platform.Prelude.Names.{contains}
use recon_platform.Registry.{
  Phase, osint, passive, active, is_phase, ReconModule, Registry, RegistryError, resolve_order,
}
use recon_platform.Scans.{
  ScanError, ScanRun, RunStatus, awaiting_checkpoint, Event, module_started, checkpoint_reached,
  Service, Signal, cancel, engage, reset, Outcome, finished, marked_skipped, cancelled, timed_out,
  raised, Turn, Environment, Ending, returned, stopped, crashed, interrupted, get_run, set_run,
  publish, is_row, is_cancelled, signal, signals, pause, finish, await_checkpoint, active_ok,
  correlate, settled, append_completed, skip_if_pending,
}
use recon_platform.Scans.Run.{
  conclude, run_one_module, proceed, start_order, hold, wind_up, run_modules, execute_inner,
  recover, execute,
}
use recon_platform.Scans.Api.{
  Call, start, resume, send, restart, run_task, start_scan, resume_scan, reap_orphans, call, calls,
  init, at_checkpoint, new_run, resumed, reap_run, or_same, is_running_run,
}
use recon_platform.Scans.Checkpoint.Steps.{Safe, execute_inner-Safe}
use recon_platform.Scans.Checkpoint.State.{
  All-update, Guarded, Inv, publish-Inv, same_tables, set_run-Inv, signals-Inv,
}

recover-Inv : (id : String) (p : Ending × Service) → Safe p → Inv (recover id p)
unfolding recover
recover-Inv id (returned, s) v = v.at
recover-Inv id (stopped, s) v = v.at
recover-Inv id (interrupted, s) v = v.at
recover-Inv id (crashed, s) v =
    publish-Inv id _ _ refl (set_run-Inv id _ s (λ r h k. ground (arith, h)) v.at)

execute-Inv :
    (reg : Registry) (env : Environment) (id : String) (s : Service)
    → Inv s
    → Inv (execute reg env id s)
unfolding execute
execute-Inv reg env id s v =
    same_tables _ _ (recover-Inv id _ (execute_inner-Safe reg env id s v)) refl refl

or_same-Inv :
    (r : Result ScanError Service) (s : Service)
    → Inv s
    → ((t : Service) → r ≡ ok t → Inv t)
    → Inv (or_same r s)
or_same-Inv (ok t) s v h = h t refl
or_same-Inv (err e) s v h = v

abbrev with_run : ScanRun → Service → Service
with_run r s = record s { runs = r ∷ s.runs }

start_scan-Inv :
    (reg : Registry) (id e : String) (names : List String) (oos : Bool) (s t : Service)
    → Inv s
    → start_scan reg id e names oos s ≡ ok t
    → Inv t
unfolding start_scan
start_scan-Inv reg id e names oos s t v h = elim (Result-cases (resolve_order reg names)) [
  | inl (ms, ordered) ↦
      same_tables (with_run (new_run id e oos ms) s) t
        (record { guarded = v.guarded; runs = ((λ k. cc), v.runs) }) (ground (arith, ordered))
        (ground (arith, ordered))
  | inr (x, refused) ↦ absurd (ground (arith, refused))
]

resume_scan-Inv : (id : String) (s t : Service) → Inv s → resume_scan id s ≡ ok t → Inv t
unfolding resume_scan
resume_scan-Inv id s t v h = elim (Option-cases (get_run s id)) [
  | inl missing ↦ absurd (ground (arith, missing))
  | inr (r, there) ↦
      same_tables (set_run id resumed s) t (set_run-Inv id resumed s (λ r h k. ground (arith, h)) v)
        (ground (arith, there)) (ground (arith, there))
]

reap_orphans-Inv : (s : Service) → Inv s → Inv (reap_orphans s)
unfolding reap_orphans
reap_orphans-Inv s v = record {
  guarded = v.guarded;
  runs = All-update _ reap_run s.runs (λ r hit h k. ground (arith, h)) v.runs;
}

call-Inv : (reg : Registry) (c : Call) (s : Service) → Inv s → Inv (call reg c s)
unfolding call
call-Inv reg (start id e names oos) s v =
    or_same-Inv _ s v (λ t h. start_scan-Inv reg id e names oos s t v h)
call-Inv reg (resume id) s v = or_same-Inv _ s v (λ t h. resume_scan-Inv id s t v h)
call-Inv reg (send xs) s v = signals-Inv xs s v
call-Inv reg restart s v = reap_orphans-Inv s v
call-Inv reg (run_task env id) s v = execute-Inv reg env id s v

calls-Inv : (reg : Registry) (cs : List Call) (s : Service) → Inv s → Inv (calls reg cs s)
unfolding calls
calls-Inv reg [] s v = v
calls-Inv reg (c ∷ cs) s v = calls-Inv reg cs (call reg c s) (call-Inv reg c s v)

-- Whatever calls, signals and module outcomes lead to it, in every reachable state of the service
-- each start of an active module comes after the checkpoint event of the same run.
pub calls-Guarded : (reg : Registry) (cs : List Call) → Guarded (calls reg cs init).events
calls-Guarded reg cs = (calls-Inv reg cs init (record { guarded = tt; runs = tt })).guarded
