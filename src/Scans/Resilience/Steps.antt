-- ===== src/Scans/Resilience/Steps.antt =====
-- recon/orchestrator/scans.py: in a calm environment each part of a run leaves the rest of the loop
-- ready.
use recon_platform.Prelude.{
  ◌≡◌, ◌≢◌, refl, String, str_eq, Bool, true, false, ◌&&◌, not, Option, none, some, List, [], ◌∷◌,
  ◌++◌, any, any-update_where, find, update_where, if◌then◌else◌, arith, All, Bool-cases, inl, inr,
  ◌∙◌,
}
use recon_platform.Prelude.Names.{contains}
use recon_platform.Registry.{active, is_phase, ReconModule}
use recon_platform.Scans.{
  Event, skip_row, ScanRun, ScanModuleRun, Service, Outcome, finished, marked_skipped, cancelled,
  timed_out, killed, raised, Turn, Environment, Ending, returned, set_row, publish, is_row,
  is_cancelled, signals, active_ok, skip_if_pending, settled, append_completed,
}
use recon_platform.Scans.Run.{settle_row, conclude, run_one_module}

-- The operator does nothing, no module is cancelled or killed, and the correlation works.
pub record IsCalm (env : Environment) : Type 0 where
  pub before : (m : ReconModule) → (env.turn m).before ≡ []
  pub during : (m : ReconModule) → (env.turn m).during ≡ []
  pub outcome : (m : ReconModule) → (env.turn m).outcome ≢ cancelled
  pub alive : (m : ReconModule) → (env.turn m).outcome ≢ killed
  pub correlation : env.correlates ≡ true

-- The run is not cancelled, each of its modules has a row, and none of them waits for the checkpoint.
pub record IsReady (id : String) (ms : List ReconModule) (s : Service) : Type 0 where
  pub calm : is_cancelled id s ≡ false
  pub listed : All (λ m. any (is_row id m.name) s.rows ≡ true) ms
  pub allowed : All (λ m. (is_phase active m.phase && not (active_ok id s)) ≡ false) ms

find-any :
    (p : ScanModuleRun → Bool) (rows : List ScanModuleRun)
    → any p rows ≡ true
    → (r : ScanModuleRun) × (find p rows ≡ some r)
find-any p [] h = cc
find-any p (r ∷ rows) h = elim (Bool-cases (p r)) [
  | inl hit ↦ (r, rw hit)
  | inr miss ↦ let (r', e) = find-any p rows (ground (arith, miss)) in (r', rw miss e)
]

-- The rows of a state, seen by the modules that still have to run.
All-rows :
    (id : String) (q : ScanModuleRun → Bool) (f : ScanModuleRun → ScanModuleRun)
    (rows : List ScanModuleRun) (ms : List ReconModule)
    → ((name : String) (r : ScanModuleRun) → is_row id name (f r) ≡ is_row id name r)
    → All (λ m. any (is_row id m.name) rows ≡ true) ms
    → All (λ m. any (is_row id m.name) (update_where q f rows) ≡ true) ms
All-rows id q f rows [] same h = tt
All-rows id q f rows (m ∷ ms) same (h, hs) = (
  any-update_where (is_row id m.name) q f (same m.name) rows ∙ h,
  All-rows id q f rows ms same hs,
)

set_row-IsReady :
    (id name : String) (f : ScanModuleRun → ScanModuleRun) (ms : List ReconModule) (s : Service)
    → ((n : String) (r : ScanModuleRun) → is_row id n (f r) ≡ is_row id n r)
    → IsReady id ms s
    → IsReady id ms (set_row id name f s)
unfolding is_cancelled active_ok
set_row-IsReady id name f ms s same h = record {
  calm = h.calm;
  listed = All-rows id _ f s.rows ms same h.listed;
  allowed = h.allowed;
}

publish-IsReady :
    (id : String) (e : Event) (ms : List ReconModule) (s : Service)
    → IsReady id ms s
    → IsReady id ms (publish id e s)
unfolding is_cancelled active_ok
publish-IsReady id e ms s h = record { calm = h.calm; listed = h.listed; allowed = h.allowed }

abbrev confirmed? : Option ScanRun → Bool
confirmed? none = false
confirmed? (some r) = r.active_confirmed

append_completed-active_ok :
    (id name : String) (s : Service) → active_ok id (append_completed id name s) ≡ active_ok id s
unfolding active_ok append_completed
append_completed-active_ok id name s = go s.runs
  where
    go :
        (rs : List ScanRun)
        → confirmed? (
            find
              (λ r. str_eq r.id id)
              (update_where
                (λ r. str_eq r.id id)
                (λ r.
                  if contains r.modules_completed name
                  then r
                  else record r { modules_completed = r.modules_completed ++ name ∷ [] })
                rs))
          ≡ confirmed? (find (λ r. str_eq r.id id) rs)
    go [] = refl
    go (r ∷ rs) = ground (arith, go rs)

settle_row-is_row : (id n : String) (r : ScanModuleRun) → is_row id n (settle_row r) ≡ is_row id n r
unfolding settle_row
settle_row-is_row id n r = ground arith

append_completed-IsReady :
    (id name : String) (ms : List ReconModule) (s : Service)
    → IsReady id ms s
    → IsReady id ms (append_completed id name s)
append_completed-IsReady id name ms s h = record {
  calm = unfold is_cancelled append_completed in h.calm;
  listed = unfold append_completed in h.listed;
  allowed = rw append_completed-active_ok h.allowed;
}

pub IsReady-tail :
    (id : String) (m : ReconModule) (ms : List ReconModule) (s : Service)
    → IsReady id (m ∷ ms) s
    → IsReady id ms s
IsReady-tail id m ms s h = record { calm = h.calm; listed = h.listed.1; allowed = h.allowed.1 }

-- The coroutine returned, and the rest of the loop is ready.
pub record Goes (id : String) (ms : List ReconModule) (p : Ending × Service) : Type 0 where
  pub ends : p.0 ≡ returned
  pub ready : IsReady id ms p.1

conclude-Goes :
    (id : String) (m : ReconModule) (ms : List ReconModule) (o : Outcome) (s : Service)
    → o ≢ cancelled
    → o ≢ killed
    → IsReady id ms s
    → Goes id ms (conclude id m o s)
unfolding conclude
conclude-Goes id m ms finished s no_stop alive h = record {
  ends = refl;
  ready = publish-IsReady id _ ms _ (
      append_completed-IsReady id m.name ms _
        (set_row-IsReady id m.name settle_row ms s (λ n r. settle_row-is_row id n r) h));
}
conclude-Goes id m ms (marked_skipped reason) s no_stop alive h = record {
  ends = refl;
  ready = publish-IsReady id _ ms _ (
      append_completed-IsReady id m.name ms _ (
        set_row-IsReady id m.name settle_row ms _ (λ n r. settle_row-is_row id n r)
          (set_row-IsReady id m.name _ ms s (λ n r. refl) h)));
}
conclude-Goes id m ms cancelled s no_stop alive h = absurd (no_stop refl)
conclude-Goes id m ms killed s no_stop alive h = absurd (alive refl)
conclude-Goes id m ms timed_out s no_stop alive h = record {
  ends = refl;
  ready = publish-IsReady id _ ms _ (set_row-IsReady id m.name _ ms s (λ n r. ground arith) h);
}
conclude-Goes id m ms (raised reason) s no_stop alive h = record {
  ends = refl;
  ready = publish-IsReady id _ ms _ (set_row-IsReady id m.name _ ms s (λ n r. refl) h);
}

pub run_one_module-Goes :
    (t : Turn) (id : String) (m : ReconModule) (ms : List ReconModule) (s : Service)
    → t.during ≡ []
    → t.outcome ≢ cancelled
    → t.outcome ≢ killed
    → any (is_row id m.name) s.rows ≡ true
    → IsReady id ms s
    → Goes id ms (run_one_module t id m s)
unfolding signals run_one_module
run_one_module-Goes t id m ms s quiet no_stop alive here h =
    let (row, there) = find-any (is_row id m.name) s.rows here in
    rw (there, run_one_module)
      (rw quiet (
        conclude-Goes id m ms t.outcome _ no_stop alive
          (publish-IsReady id _ ms _ (set_row-IsReady id m.name _ ms s (λ n r. refl) h))))

pub skip_if_pending-Goes :
    (id name : String) (ms : List ReconModule) (s : Service)
    → any (is_row id name) s.rows ≡ true
    → IsReady id ms s
    → Goes id ms (skip_if_pending id name s)
unfolding skip_if_pending
skip_if_pending-Goes id name ms s here h =
    let (row, there) = find-any (is_row id name) s.rows here in
    elim (Bool-cases (settled row.status)) [
      | inl old ↦ rw (there, skip_if_pending) (rw old (record { ends = refl; ready = h }))
      | inr new ↦
          rw (there, skip_if_pending)
            (rw new (record {
              ends = refl;
              ready =
                  publish-IsReady id _ ms _
                    (set_row-IsReady id name skip_row ms s (λ n r. ground arith) h);
            }))
    ]
