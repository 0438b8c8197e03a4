-- ===== src/Scans/Settled.antt =====
-- recon/orchestrator/scans.py: a task that has ended leaves its run out of RUNNING, unless it was cancelled.
use recon_platform.Prelude.{
  ◌≡◌, ◌≢◌, refl, String, str_eq, true, false, ◌&&◌, not, List, [], ◌∷◌, Result, ok, err, find,
  update_where, arith, All, Bool-cases, Option-cases, inl, inr,
}
use recon_platform.Prelude.Names.{contains}
use recon_platform.Registry.{active, is_phase, ReconModule, Registry, RegistryError, resolve_order}
use recon_platform.Scans.{
  ScanRun, Service, Outcome, finished, marked_skipped, cancelled, timed_out, killed, raised, Turn,
  Environment, Ending, returned, stopped, crashed, interrupted, get_run, set_row, is_row,
  is_running, is_cancelled, signals, pause, active_ok, correlate, skip_if_pending, settled,
}
use recon_platform.Scans.Run.{
  row_pending, conclude, run_one_module, proceed, start_order, hold, wind_up, run_modules,
  execute_inner, recover, execute,
}

-- No row of the run is RUNNING.
abbrev pub IsSettled : String → Service → Type 0
IsSettled id s = All (λ r. str_eq r.id id ≡ true → is_running r.status ≡ false) s.runs

-- What a coroutine that ends by itself has settled.
abbrev Done : String → Ending × Service → Type 0
Done id (returned, s) = IsSettled id s
Done id (stopped, s) = IsSettled id s
Done id (crashed, s) = Unit
Done id (interrupted, s) = Unit

abbrev Halted : String → Ending × Service → Type 0
Halted id (returned, s) = Unit
Halted id (stopped, s) = IsSettled id s
Halted id (crashed, s) = Unit
Halted id (interrupted, s) = Unit

settle :
    (id : String) (f : ScanRun → ScanRun) (rs : List ScanRun)
    → ((r : ScanRun) → is_running (f r).status ≡ false)
    → ((r : ScanRun) → (f r).id ≡ r.id)
    → All
        (λ r. str_eq r.id id ≡ true → is_running r.status ≡ false)
        (update_where (λ r. str_eq r.id id) f rs)
settle id f [] stops same = tt
settle id f (r ∷ rs) stops same = elim (Bool-cases (str_eq r.id id)) [
  | inl hit ↦ rw hit ((λ _. stops r), settle id f rs stops same)
  | inr miss ↦ rw miss ((λ k. cc), settle id f rs stops same)
]

pause-IsSettled : (id reason : String) (s : Service) → IsSettled id (pause id reason s)
unfolding pause
pause-IsSettled id reason s = settle id _ s.runs (λ r. ground arith) (λ r. ground arith)

hold-Done : (env : Environment) (id : String) (s : Service) → Done id (hold env id s)
unfolding hold
hold-Done env id s = elim (Bool-cases env.correlates) [
  | inl works ↦ rw (works, hold, correlate) (settle id _ s.runs (λ r. refl) (λ r. refl))
  | inr fails ↦ rw (fails, hold, correlate) tt
]

wind_up-Done : (env : Environment) (id : String) (s : Service) → Done id (wind_up env id s)
unfolding wind_up
wind_up-Done env id s = elim (Bool-cases env.correlates) [
  | inl works ↦ rw (works, wind_up, correlate) (settle id _ s.runs (λ r. refl) (λ r. refl))
  | inr fails ↦ rw (fails, wind_up, correlate) tt
]

proceed-Done :
    (id : String) (p : Ending × Service) (k : Service → Ending × Service)
    → Halted id p
    → ((s : Service) → Done id (k s))
    → Done id (proceed p k)
proceed-Done id (returned, s) k h step = step s
proceed-Done id (stopped, s) k h step = h
proceed-Done id (crashed, s) k h step = tt
proceed-Done id (interrupted, s) k h step = tt

skip_if_pending-Halted : (id name : String) (s : Service) → Halted id (skip_if_pending id name s)
unfolding skip_if_pending
skip_if_pending-Halted id name s = elim (Option-cases (find (is_row id name) s.rows)) [
  | inl missing ↦ rw (missing, skip_if_pending) tt
  | inr (row, there) ↦ elim (Bool-cases (settled row.status)) [
    | inl old ↦ rw (there, skip_if_pending) (rw old tt)
    | inr new ↦ rw (there, skip_if_pending) (rw new tt)
  ]
]

conclude-Halted :
    (id : String) (m : ReconModule) (o : Outcome) (s : Service) → Halted id (conclude id m o s)
unfolding conclude
conclude-Halted id m cancelled s = pause-IsSettled id _ (set_row id m.name row_pending s)
conclude-Halted id m finished s = tt
conclude-Halted id m (marked_skipped reason) s = tt
conclude-Halted id m timed_out s = tt
conclude-Halted id m killed s = tt
conclude-Halted id m (raised reason) s = tt

run_one_module-Halted :
    (t : Turn) (id : String) (m : ReconModule) (s : Service) → Halted id (run_one_module t id m s)
unfolding run_one_module
run_one_module-Halted t id m s = elim (Option-cases (find (is_row id m.name) s.rows)) [
  | inl missing ↦ rw (missing, run_one_module) tt
  | inr (row, there) ↦ rw (there, run_one_module) (conclude-Halted id m t.outcome _)
]

run_modules-Done :
    (env : Environment) (id : String) (ms : List ReconModule) (done : List String) (s : Service)
    → Done id (run_modules env id ms done s)
unfolding run_modules
run_modules-Done env id [] done s = wind_up-Done env id s
run_modules-Done env id (m ∷ rest) done s =
    let s' = signals (env.turn m).before s in
    elim (Bool-cases (is_cancelled id s')) [
      | inl stop ↦ rw stop (pause-IsSettled id _ s')
      | inr go_on ↦ elim (Bool-cases (contains done m.name)) [
        | inl old ↦
            rw (go_on, old)
              (proceed-Done id (skip_if_pending id m.name s') _
                (skip_if_pending-Halted id m.name s') (λ t. run_modules-Done env id rest done t))
        | inr new ↦ elim (Bool-cases (is_phase active m.phase && not (active_ok id s'))) [
          | inl held ↦ rw (go_on, new, held) (hold-Done env id s')
          | inr free ↦
              rw (go_on, new, free)
                (proceed-Done id (run_one_module (env.turn m) id m s') _
                  (run_one_module-Halted (env.turn m) id m s')
                  (λ t. run_modules-Done env id rest _ t))
        ]
      ]
    ]

start_order-Done :
    (env : Environment) (id : String) (run : ScanRun) (s : Service)
    (r : Result RegistryError (List ReconModule))
    → Done id (start_order env id run s r)
start_order-Done env id run s (err e) = tt
start_order-Done env id run s (ok ms) = run_modules-Done env id ms run.modules_completed _

execute_inner-Done :
    (reg : Registry) (env : Environment) (id : String) (s : Service)
    → Done id (execute_inner reg env id s)
unfolding execute_inner
execute_inner-Done reg env id s = elim (Option-cases (get_run s id)) [
  | inl missing ↦ rw (missing, execute_inner) tt
  | inr (run, there) ↦ elim (Bool-cases env.rules_load) [
    | inl valid ↦
        rw (there, execute_inner, valid)
          (start_order-Done env id run s (resolve_order reg run.modules_requested))
    | inr invalid ↦ rw (there, execute_inner, invalid) tt
  ]
]

recover-IsSettled :
    (id : String) (p : Ending × Service)
    → p.0 ≢ interrupted
    → Done id p
    → IsSettled id (recover id p)
unfolding recover
recover-IsSettled id (returned, s) alone d = d
recover-IsSettled id (stopped, s) alone d = d
recover-IsSettled id (interrupted, s) alone d = absurd (alone refl)
recover-IsSettled id (crashed, s) alone d =
    settle id _ s.runs (λ r. ground arith) (λ r. ground arith)

-- When the task of a run has ended, the run is not RUNNING any more, whether the task returned, a
-- module stopped it, or it raised an exception; the task was not cancelled from outside, which a
-- shutdown does when a module does not end in time.
pub execute-IsSettled :
    (reg : Registry) (env : Environment) (id : String) (s : Service)
    → (execute_inner reg env id s).0 ≢ interrupted
    → IsSettled id (execute reg env id s)
unfolding execute
execute-IsSettled reg env id s alone =
    recover-IsSettled id (execute_inner reg env id s) alone (execute_inner-Done reg env id s)
