-- ===== src/Scans/Checkpoint/State.antt =====
-- recon/orchestrator/scans.py: the invariant of the checkpoint, and the writes of state that keep it.
use recon_platform.Prelude.{
  ◌≡◌, refl, String, str_eq, eq_iff, Bool, true, false, ◌&&◌, ◌||◌, some, List, [], ◌∷◌, any,
  update_where, arith, All, Bool-cases, inl, inr,
}
use recon_platform.Registry.{active}
use recon_platform.Scans.{
  ScanRun, awaiting_checkpoint, Event, module_started, checkpoint_reached, Service, Signal, cancel,
  engage, reset, set_run, publish, signal, signals, pause, finish, await_checkpoint,
  append_completed,
}
use recon_platform.Scans.Run.{}
use recon_platform.Scans.Api.{at_checkpoint}

abbrev pub is_active_start : Event → Bool
is_active_start (module_started _ active) = true
is_active_start _ = false

abbrev is_checkpoint : Event → Bool
is_checkpoint checkpoint_reached = true
is_checkpoint _ = false

-- Whether the run was held at its checkpoint, by the events so far.
abbrev pub reached : String → List (String × Event) → Bool
reached id log = any (λ e. is_checkpoint e.1 && str_eq e.0 id) log

-- The events, the newest first: each start of an active module comes after the checkpoint of its run.
abbrev pub Guarded : List (String × Event) → Type 0
Guarded [] = Unit
Guarded ((id, e) ∷ past) = (is_active_start e ≡ true → reached id past ≡ true) × Guarded past

-- A run that is confirmed or held has been at its checkpoint.
abbrev pub RunOk : List (String × Event) → ScanRun → Type 0
RunOk log r = (r.active_confirmed || at_checkpoint r.status) ≡ true → reached r.id log ≡ true

pub record Inv (s : Service) : Type 0 where
  pub guarded : Guarded s.events
  pub runs : All (RunOk s.events) s.runs

pub RunOk-mono :
    (id : String) (e : Event) (log : List (String × Event)) (rs : List ScanRun)
    → All (RunOk log) rs
    → All (RunOk ((id, e) ∷ log)) rs
RunOk-mono id e log [] h = tt
RunOk-mono id e log (r ∷ rs) (h, hs) = (λ k. ground (arith, h k), RunOk-mono id e log rs hs)

pub publish-Inv :
    (id : String) (e : Event) (s : Service)
    → is_active_start e ≡ false
    → Inv s
    → Inv (publish id e s)
publish-Inv id e s quiet v = record {
  guarded = (λ k. cc, v.guarded);
  runs = RunOk-mono id e s.events s.runs v.runs;
}

pub All-update :
    {P : ScanRun → Type 0} (p : ScanRun → Bool) (f : ScanRun → ScanRun) (rs : List ScanRun)
    → ((r : ScanRun) → p r ≡ true → P r → P (f r))
    → All P rs
    → All P (update_where p f rs)
All-update p f [] keep h = tt
All-update p f (r ∷ rs) keep (h, hs) = elim (Bool-cases (p r)) [
  | inl hit ↦ rw hit (keep r hit h, All-update p f rs keep hs)
  | inr miss ↦ rw miss (h, All-update p f rs keep hs)
]

pub set_run-Inv :
    (id : String) (f : ScanRun → ScanRun) (s : Service)
    → ((r : ScanRun) → RunOk s.events r → RunOk s.events (f r))
    → Inv s
    → Inv (set_run id f s)
set_run-Inv id f s keep v = record {
  guarded = v.guarded;
  runs = All-update _ f s.runs (λ r _ h. keep r h) v.runs;
}

pub pause-Inv : (id reason : String) (s : Service) → Inv s → Inv (pause id reason s)
unfolding pause
pause-Inv id reason s v =
    publish-Inv id _ _ refl (set_run-Inv id _ s (λ r h k. ground (arith, h)) v)

pub finish-Inv : (id : String) (s : Service) → Inv s → Inv (finish id s)
unfolding finish
finish-Inv id s v = publish-Inv id _ _ refl (set_run-Inv id _ s (λ r h k. ground (arith, h)) v)

pub append_completed-Inv :
    (id name : String) (s : Service) → Inv s → Inv (append_completed id name s)
unfolding append_completed
append_completed-Inv id name s v = set_run-Inv id _ s (λ r h k. ground (arith, h)) v

reached_now :
    (id : String) (log : List (String × Event)) (r : ScanRun)
    → str_eq r.id id ≡ true
    → reached r.id ((id, checkpoint_reached) ∷ log) ≡ true
reached_now id log r hit = ground (arith, eq_iff r.id id, eq_iff id r.id)

pub await_checkpoint-Inv : (id : String) (s : Service) → Inv s → Inv (await_checkpoint id s)
unfolding await_checkpoint
await_checkpoint-Inv id s v = record {
  guarded = (λ k. cc, v.guarded);
  runs =
      All-update (λ r. str_eq r.id id)
        (λ r. record r { status = awaiting_checkpoint; current_phase = some active }) s.runs
        (λ r hit h k. reached_now id s.events r hit)
        (RunOk-mono id checkpoint_reached s.events s.runs v.runs);
}

pub signals-Inv : (xs : List Signal) (s : Service) → Inv s → Inv (signals xs s)
unfolding signals
signals-Inv [] s v = v
signals-Inv (cancel id ∷ xs) s v =
    signals-Inv xs (signal (cancel id) s) (record { guarded = v.guarded; runs = v.runs })
signals-Inv (engage ∷ xs) s v =
    signals-Inv xs (signal engage s) (record { guarded = v.guarded; runs = v.runs })
signals-Inv (reset ∷ xs) s v =
    signals-Inv xs (signal reset s) (record { guarded = v.guarded; runs = v.runs })

pub same_tables : (s t : Service) → Inv s → t.events ≡ s.events → t.runs ≡ s.runs → Inv t
same_tables s t v e r = record { guarded = rw e v.guarded; runs = rw (e, r) v.runs }
