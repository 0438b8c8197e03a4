-- ===== src/Scans/Checkpoint/Steps.antt =====
-- recon/orchestrator/scans.py: each part of a run keeps the invariant of the checkpoint.
use recon_platform.Prelude.{
  ◌≡◌, refl, String, str_eq, eq_iff, Bool, true, false, ◌&&◌, not, none, some, List, [], ◌∷◌,
  Result, ok, err, find, arith, All, Bool-cases, Option-cases, inl, inr,
}
use recon_platform.Prelude.Names.{contains}
use recon_platform.Registry.{active, is_phase, ReconModule, Registry, RegistryError, resolve_order}
use recon_platform.Scans.{
  ScanRun, Event, module_started, Service, Outcome, finished, marked_skipped, cancelled, timed_out,
  killed, raised, Turn, Environment, Ending, returned, stopped, crashed, interrupted, get_run,
  publish, is_row, is_cancelled, signals, active_ok, correlate, settled, skip_if_pending,
}
use recon_platform.Scans.Run.{
  conclude, run_one_module, proceed, start_order, hold, wind_up, run_modules, execute_inner,
}
use recon_platform.Scans.Checkpoint.State.{
  Inv, RunOk, RunOk-mono, append_completed-Inv, await_checkpoint-Inv, finish-Inv, is_active_start,
  pause-Inv, publish-Inv, reached, same_tables, signals-Inv,
}

pub record Safe (p : Ending × Service) : Type 0 where
  pub at : Inv p.1

-- The tables of runs and the events stay as they are.
unmoved : (e : Ending) (s t : Service) → Inv s → t.events ≡ s.events → t.runs ≡ s.runs → Safe (e, t)
unmoved e s t v x y = record { at = same_tables s t v x y }

published :
    (e : Ending) (id : String) (x : Event) (s : Service)
    → is_active_start x ≡ false
    → Inv s
    → Safe (e, publish id x s)
published e id x s quiet v = record { at = publish-Inv id x s quiet v }

conclude-Safe :
    (id : String) (m : ReconModule) (o : Outcome) (s : Service) → Inv s → Safe (conclude id m o s)
unfolding conclude
conclude-Safe id m finished s v =
    published _ id _ _ refl (append_completed-Inv id m.name _ (same_tables s _ v refl refl))
conclude-Safe id m (marked_skipped reason) s v =
    published _ id _ _ refl (append_completed-Inv id m.name _ (same_tables s _ v refl refl))
conclude-Safe id m cancelled s v = record { at = pause-Inv id _ _ (same_tables s _ v refl refl) }
conclude-Safe id m killed s v = record { at = v }
conclude-Safe id m timed_out s v = published _ id _ _ refl (same_tables s _ v refl refl)
conclude-Safe id m (raised reason) s v = published _ id _ _ refl (same_tables s _ v refl refl)

-- An active module is run only where the run has been at its checkpoint.
run_one_module-Safe :
    (t : Turn) (id : String) (m : ReconModule) (s : Service)
    → (is_phase active m.phase ≡ true → reached id s.events ≡ true)
    → Inv s
    → Safe (run_one_module t id m s)
unfolding run_one_module
run_one_module-Safe t id m s allowed v = elim (Option-cases (find (is_row id m.name) s.rows)) [
  | inl missing ↦ rw (missing, run_one_module) (record { at = v })
  | inr (row, there) ↦
      rw (there, run_one_module)
        (conclude-Safe id m t.outcome _ (
          signals-Inv t.during _ (record {
            guarded = (λ k. allowed (ground arith), v.guarded);
            runs = RunOk-mono id (module_started m.name m.phase) s.events s.runs v.runs;
          })))
]

correlate-Safe : (b : Bool) (id : String) (s : Service) → Inv s → Safe (correlate b id s)
unfolding correlate
correlate-Safe true id s v = published _ id _ _ refl (publish-Inv id _ _ refl v)
correlate-Safe false id s v = published _ id _ _ refl v

proceed-Safe :
    (p : Ending × Service) (k : Service → Ending × Service)
    → Safe p
    → ((s : Service) → Inv s → Safe (k s))
    → Safe (proceed p k)
proceed-Safe (returned, s) k v step = step s v.at
proceed-Safe (stopped, s) k v step = v
proceed-Safe (crashed, s) k v step = v
proceed-Safe (interrupted, s) k v step = v

hold-Safe : (env : Environment) (id : String) (s : Service) → Inv s → Safe (hold env id s)
unfolding hold
hold-Safe env id s v =
    proceed-Safe (correlate env.correlates id s) _ (correlate-Safe env.correlates id s v)
      (λ t w. record { at = await_checkpoint-Inv id t w })

wind_up-Safe : (env : Environment) (id : String) (s : Service) → Inv s → Safe (wind_up env id s)
unfolding wind_up
wind_up-Safe env id s v =
    proceed-Safe (correlate env.correlates id s) _ (correlate-Safe env.correlates id s v)
      (λ t w. record { at = finish-Inv id t w })

skip_if_pending-Safe : (id name : String) (s : Service) → Inv s → Safe (skip_if_pending id name s)
unfolding skip_if_pending
skip_if_pending-Safe id name s v = elim (Option-cases (find (is_row id name) s.rows)) [
  | inl missing ↦ rw (missing, skip_if_pending) (record { at = v })
  | inr (row, there) ↦
      rw (there, skip_if_pending)
        (elim (Bool-cases (settled row.status)) [
          | inl old ↦ rw old (record { at = v })
          | inr new ↦ rw new (published _ id _ _ refl (same_tables s _ v refl refl))
        ])
]

-- A run that is found confirmed has been at its checkpoint.
active_ok-reached :
    (id : String) (s : Service) → Inv s → active_ok id s ≡ true → reached id s.events ≡ true
unfolding active_ok
active_ok-reached id s v = go s.runs v.runs
  where
    go :
        (rs : List ScanRun)
        → All (RunOk s.events) rs
        → elim (find (λ (r : ScanRun). str_eq r.id id) rs) [
          | none ↦ false
          | some r ↦ r.active_confirmed
        ]
          ≡ true
        → reached id s.events ≡ true
    go [] h k = cc
    go (r ∷ rs) (h, hs) k = elim (Bool-cases (str_eq r.id id)) [
      | inl hit ↦ let e : r.id ≡ id = (eq_iff r.id id).0 hit in rw e at (h (ground (arith, hit)))
      | inr miss ↦ go rs hs (ground arith)
    ]

run_modules-Safe :
    (env : Environment) (id : String) (ms : List ReconModule) (done : List String) (s : Service)
    → Inv s
    → Safe (run_modules env id ms done s)
unfolding run_modules
run_modules-Safe env id [] done s v = wind_up-Safe env id s v
run_modules-Safe env id (m ∷ rest) done s v =
    let s' = signals (env.turn m).before s in
    let v' = signals-Inv (env.turn m).before s v in
    elim (Bool-cases (is_cancelled id s')) [
      | inl stop ↦ rw stop (record { at = pause-Inv id _ _ v' })
      | inr go_on ↦ elim (Bool-cases (contains done m.name)) [
        | inl old ↦
            rw (go_on, old)
              (proceed-Safe (skip_if_pending id m.name s') _ (skip_if_pending-Safe id m.name s' v')
                (λ t w. run_modules-Safe env id rest done t w))
        | inr new ↦ elim (Bool-cases (is_phase active m.phase && not (active_ok id s'))) [
          | inl held ↦ rw (go_on, new, held) (hold-Safe env id s' v')
          | inr free ↦
              rw (go_on, new, free)
                (proceed-Safe (run_one_module (env.turn m) id m s') _
                  (run_one_module-Safe (env.turn m) id m s'
                    (λ is_active. active_ok-reached id s' v' (ground arith)) v')
                  (λ t w. run_modules-Safe env id rest _ t w))
        ]
      ]
    ]

ordered-Safe :
    (env : Environment) (id : String) (run : ScanRun) (s : Service)
    (r : Result RegistryError (List ReconModule))
    → Inv s
    → Safe (start_order env id run s r)
ordered-Safe env id run s (err e) v = record { at = v }
ordered-Safe env id run s (ok ms) v =
    run_modules-Safe env id ms run.modules_completed _ (publish-Inv id _ s refl v)

pub execute_inner-Safe :
    (reg : Registry) (env : Environment) (id : String) (s : Service)
    → Inv s
    → Safe (execute_inner reg env id s)
unfolding execute_inner
execute_inner-Safe reg env id s v = elim (Option-cases (get_run s id)) [
  | inl missing ↦ rw (missing, execute_inner) (record { at = v })
  | inr (run, there) ↦ elim (Bool-cases env.rules_load) [
    | inl valid ↦
        rw (there, execute_inner, valid)
          (ordered-Safe env id run s (resolve_order reg run.modules_requested) v)
    | inr invalid ↦ rw (there, execute_inner, invalid) (record { at = v })
  ]
]
