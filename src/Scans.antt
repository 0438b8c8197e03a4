-- ===== src/Scans.antt =====
-- recon/orchestrator/scans.py: the scan service. Its database is the two tables of runs and module
-- rows, its events are kept newest first, and a module's behaviour is what the environment chooses.
pub mod Run
pub mod Api
pub mod Checkpoint
pub mod Settled
pub mod Resilience
pub mod Skips
mod Tests
use recon_platform.Prelude.{
  ℕ, zero, suc, ◌+◌, String, str_eq, Bool, true, false, ◌&&◌, ◌||◌, not, Option, none, some, List,
  [], ◌∷◌, ◌++◌, map, Result, ok, err, any, find, update_where, if◌then◌else◌,
}
use recon_platform.Prelude.Names.{contains}
use recon_platform.Registry.{Phase, passive, active, ReconModule, Registry, resolve_order}

pub data RunStatus : Type 0 where
  running completed failed paused awaiting_checkpoint : RunStatus

pub data ModuleStatus : Type 0 where
  pending running completed failed skipped : ModuleStatus

pub data SkipReason : Type 0 where
  resumed_prior_run zero_eligible_targets not_configured missing_binary : SkipReason
  capability_unavailable unverified_targets : SkipReason

pub record ScanRun : Type 0 where
  pub id : String
  pub engagement_id : String
  pub modules_requested : List String
  pub modules_completed : List String
  pub status : RunStatus
  pub allow_out_of_scope : Bool
  pub active_confirmed : Bool
  pub current_phase : Option Phase
  pub error : Option String

pub record ScanModuleRun : Type 0 where
  pub scan_run_id : String
  pub module_name : String
  pub phase : Phase
  pub status : ModuleStatus
  pub order_index : ℕ
  pub skip_reason : Option SkipReason
  pub error : Option String

pub data Event : Type 0 where
  scan_started : List String → Event
  module_started : String → Phase → Event
  module_completed module_failed : String → Event
  module_skipped : String → Option SkipReason → Event
  correlation_started correlation_completed checkpoint_reached scan_completed scan_failed : Event
  scan_paused : String → Event

-- The service: its tables, the handles with their cancel flags, the global kill switch, and the
-- events that were published, the newest first.
pub record Service : Type 0 where
  pub runs : List ScanRun
  pub rows : List ScanModuleRun
  pub handles : List (String × Bool)
  pub kill_engaged : Bool
  pub events : List (String × Event)

pub data ScanError : Type 0 where
  no_modules kill_switch_engaged bad_order run_not_found : ScanError
  cannot_resume : RunStatus → ScanError

-- What an operator does while a run is executed.
pub data Signal : Type 0 where
  cancel : String → Signal
  engage reset : Signal

-- How `mod.run(ctx)` ends. A module that returns may have marked its row as skipped; `killed` is the
-- CancelledError of the task itself, which `shutdown` cancels when it has waited long enough.
pub data Outcome : Type 0 where
  finished : Outcome
  marked_skipped : Option SkipReason → Outcome
  cancelled timed_out killed : Outcome
  raised : String → Outcome

-- The operator and a module, in one round of the loop.
pub record Turn : Type 0 where
  pub before : List Signal
  pub during : List Signal
  pub outcome : Outcome

pub record Environment : Type 0 where
  pub turn : ReconModule → Turn
  pub correlates : Bool
  pub rules_load : Bool

-- How a coroutine ends: it returns, it raises ScanCancelled or another exception, or it is cancelled.
pub data Ending : Type 0 where
  returned stopped crashed interrupted : Ending

abbrev pub get_run : Service → String → Option ScanRun
get_run s id = find (λ r. str_eq r.id id) s.runs

abbrev pub set_run : String → (ScanRun → ScanRun) → Service → Service
set_run id f s = record s { runs = update_where (λ r. str_eq r.id id) f s.runs }

abbrev pub is_row : String → String → ScanModuleRun → Bool
is_row id name row = str_eq row.scan_run_id id && str_eq row.module_name name

abbrev pub set_row : String → String → (ScanModuleRun → ScanModuleRun) → Service → Service
set_row id name f s = record s { rows = update_where (is_row id name) f s.rows }

abbrev pub publish : String → Event → Service → Service
publish id e s = record s { events = (id, e) ∷ s.events }

abbrev pub is_running : RunStatus → Bool
is_running running = true
is_running _ = false

-- `_is_cancelled`
unfoldable pub is_cancelled : String → Service → Bool
is_cancelled id s = any (λ h. str_eq h.0 id && h.1) s.handles || s.kill_engaged

-- `cancel_scan`
unfoldable pub cancel_scan : String → Service → Service
cancel_scan id s = record s {
  handles = update_where (λ h. str_eq h.0 id) (λ h. (h.0, true)) s.handles;
}

abbrev pub signal : Signal → Service → Service
signal (cancel id) s = cancel_scan id s
signal engage s = record s { kill_engaged = true }
signal reset s = record s { kill_engaged = false }

unfoldable pub signals : List Signal → Service → Service
unfolding cancel_scan
signals [] s = s
signals (x ∷ xs) s = signals xs (signal x s)

-- `_pause`
unfoldable pub pause : String → String → Service → Service
pause id reason s = publish id (scan_paused reason) (
    set_run id
      (λ r. if is_running r.status then record r { status = paused; error = some reason } else r) s)

-- `_finish`
unfoldable pub finish : String → Service → Service
finish id s =
    publish id scan_completed
      (set_run id (λ r. record r { status = RunStatus.completed; current_phase = none }) s)

-- `_await_checkpoint`
unfoldable pub await_checkpoint : String → Service → Service
await_checkpoint id s =
    publish id checkpoint_reached
      (set_run id (λ r. record r { status = awaiting_checkpoint; current_phase = some active }) s)

-- `_active_ok`
unfoldable pub active_ok : String → Service → Bool
active_ok id s = elim (get_run s id) [ none ↦ false | some r ↦ r.active_confirmed ]

-- `_correlate`: the engine may raise.
unfoldable pub correlate : Bool → String → Service → Ending × Service
correlate works id s =
    let s' = publish id correlation_started s in
    if works then (returned, publish id correlation_completed s') else (crashed, s')

-- `_append_completed`
unfoldable pub append_completed : String → String → Service → Service
append_completed id name = set_run id (λ r.
    if contains r.modules_completed name
    then r
    else record r { modules_completed = r.modules_completed ++ name ∷ [] })

abbrev pub settled : ModuleStatus → Bool
settled ModuleStatus.completed = true
settled ModuleStatus.failed = true
settled _ = false

abbrev pub skip_row : ScanModuleRun → ScanModuleRun
skip_row row =
    if settled row.status
    then row
    else record row { status = ModuleStatus.skipped; skip_reason = some resumed_prior_run }

-- `_skip_if_pending`, and the event that the caller publishes if the row was skipped. A row that
-- is not there raises.
unfoldable pub skip_if_pending : String → String → Service → Ending × Service
skip_if_pending id name s = elim (find (is_row id name) s.rows) [
  | none ↦ (crashed, s)
  | some row ↦ if settled row.status then (returned, s) else (
    returned,
    publish id (module_skipped name (some resumed_prior_run)) (set_row id name skip_row s),
  )
]
