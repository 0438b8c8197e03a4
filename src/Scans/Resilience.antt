-- ===== src/Scans/Resilience.antt =====
-- recon/orchestrator/scans.py: in a calm environment, a run whose modules are ready completes, and
-- no module that fails, times out or has nothing to do keeps it from that.
pub mod Steps
use mathlib.Core.List.{head?}
use recon_platform.Prelude.{
  ◌≡◌, ◌≢◌, refl, String, str_eq, eq_iff, Bool, true, false, ◌&&◌, ◌||◌, not, Option, none, some,
  List, [], ◌∷◌, ◌++◌, Result, ok, err, any, find, update_where, if◌then◌else◌, arith, All,
  Bool-cases, Option-cases, inl, inr, ◌∙◌,
}
use recon_platform.Prelude.Names.{contains}
use recon_platform.Registry.{active, is_phase, ReconModule, Registry, RegistryError, resolve_order}
use recon_platform.Scans.{
  Event, scan_completed, skip_row, ScanRun, ScanModuleRun, Service, Outcome, finished,
  marked_skipped, cancelled, timed_out, raised, Turn, Environment, RunStatus, Ending, returned,
  stopped, crashed, interrupted, get_run, set_run, set_row, publish, is_row, is_running,
  is_cancelled, signals, pause, finish, await_checkpoint, active_ok, correlate, skip_if_pending,
  settled, append_completed,
}
use recon_platform.Scans.Run.{
  settle_row, conclude, run_one_module, proceed, start_order, hold, wind_up, run_modules,
  execute_inner, recover, execute,
}
use recon_platform.Scans.Resilience.Steps.{
  Goes, IsCalm, IsReady, IsReady-tail, run_one_module-Goes, skip_if_pending-Goes,
}

-- The run completes: its row says so, and the last event does.
pub record Completes (id : String) (p : Ending × Service) : Type 0 where
  pub ends : p.0 ≡ returned
  pub rows : All (λ r. str_eq r.id id ≡ true → r.status ≡ RunStatus.completed) p.1.runs
  pub last : head? p.1.events ≡ some (id, scan_completed)

proceed-Completes :
    (id : String) (ms : List ReconModule) (p : Ending × Service) (k : Service → Ending × Service)
    → Goes id ms p
    → ((s : Service) → IsReady id ms s → Completes id (k s))
    → Completes id (proceed p k)
proceed-Completes id ms (returned, s) k g step = step s g.ready
proceed-Completes id ms (stopped, s) k g step = absurd (ground (arith, g.ends))
proceed-Completes id ms (crashed, s) k g step = absurd (ground (arith, g.ends))
proceed-Completes id ms (interrupted, s) k g step = absurd (ground (arith, g.ends))

All-completed :
    (id : String) (rs : List ScanRun)
    → All
        (λ r. str_eq r.id id ≡ true → r.status ≡ RunStatus.completed)
        (update_where
          (λ r. str_eq r.id id)
          (λ r. record r { status = RunStatus.completed; current_phase = none })
          rs)
All-completed id [] = tt
All-completed id (r ∷ rs) = (λ k. ground arith, All-completed id rs)

wind_up-Completes :
    (env : Environment) (id : String) (s : Service)
    → env.correlates ≡ true
    → Completes id (wind_up env id s)
unfolding wind_up
wind_up-Completes env id s works =
    rw (works, wind_up, correlate)
      (record { ends = refl; rows = All-completed id s.runs; last = refl })

-- The loop runs to its end, and the run completes, whatever modules fail, time out or skip themselves.
-- The environment is calm: the operator gives no signal, no module is cancelled or killed, and the
-- correlation works. The run is ready: it is not cancelled, each module of the loop has its row, and
-- the checkpoint is confirmed if one of them is active.
pub run_modules-Completes :
    (env : Environment) (id : String) (ms : List ReconModule) (done : List String) (s : Service)
    → IsCalm env
    → IsReady id ms s
    → Completes id (run_modules env id ms done s)
unfolding run_modules
run_modules-Completes env id [] done s calm h = wind_up-Completes env id s calm.correlation
run_modules-Completes env id (m ∷ rest) done s calm h =
    let tail = IsReady-tail id m rest s h in
    elim (Bool-cases (contains done m.name)) [
      | inl old ↦
          rw (calm.before m, signals)
            (rw (h.calm, old)
              (proceed-Completes id rest (skip_if_pending id m.name s) _
                (skip_if_pending-Goes id m.name rest s h.listed.0 tail)
                (λ t g. run_modules-Completes env id rest done t calm g)))
      | inr new ↦
          rw (calm.before m, signals)
            (rw (h.calm, new)
              (rw (h.allowed.0) (
                proceed-Completes id rest (run_one_module (env.turn m) id m s) _
                  (run_one_module-Goes (env.turn m) id m rest s (calm.during m) (calm.outcome m)
                    (calm.alive m) h.listed.0 tail)
                  (λ t g. run_modules-Completes env id rest _ t calm g))))
    ]
