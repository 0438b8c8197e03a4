-- ===== src/Context.antt =====
-- recon/modules/base.py: ModuleContext, the channel through which a module acts. The session holds the
-- rows that are not committed yet; a rollback drops them. Tables and rows are those of one engagement,
-- and only a row's fields that the context reads or writes are kept.
pub mod Reading
pub mod Buffer
pub mod Progress
pub mod Tests
use recon_platform.Prelude.{
  ℕ, ◌+◌, ltb, leb, ◌==◌, String, Bool, true, false, ◌&&◌, ◌||◌, not, Option, none, some, List, [],
  ◌∷◌, ◌++◌, length, take, if◌then◌else◌, Result, ok, err,
}
use recon_platform.Prelude.Text.{Text, text, text_eq, is_empty}
use recon_platform.Scans.{ModuleStatus, skipped, SkipReason}
use recon_platform.Correlation.Route.{RawHint}
use recon_platform.ScanDiff.{ScanDelta}
use recon_platform.Journal.AuditLog.{LogEntry}

-- A row of evidence: `raw_data` as texts by their keys, and its relationships.
pub record EvidenceRow : Type 0 where
  pub subject_type : Text
  pub subject_value : Text
  pub is_absent : Bool
  pub is_error : Bool
  pub raw : List (Text × Text)
  pub relationships : Option (List RawHint)

pub record Snapshot : Type 0 where
  pub signature_set : List Text

-- What a module adds to the session.
pub data Added : Type 0 where
  evidence : EvidenceRow → Added
  artifact : Text → Added
  snapshot : Snapshot → Added
  delta : ScanDelta → Added
  audit : LogEntry → Added

-- The row of the module in the run. The coverage metadata are texts by their keys.
pub record ModuleRun : Type 0 where
  pub evidence_count : ℕ
  pub error_count : ℕ
  pub status : ModuleStatus
  pub skip_reason : Option SkipReason
  pub error : Option Text
  pub coverage : List (Text × Text)

-- `emit_event`: the percentage of progress is there if a total is.
pub data Emitted : Type 0 where
  found : Text → Text → Bool → Emitted
  progressed : Text → Option ℕ → Option ℕ → Option ℕ → Emitted

-- The tables, the rows that are not committed yet, and how many of those, the first ones, the session
-- has sent to the database.
pub record Context : Type 0 where
  pub committed : List Added
  pub pending : List Added
  pub flushed : ℕ
  pub saved_run : ModuleRun
  pub module_run : ModuleRun
  pub since_commit : ℕ
  pub emitted : List Emitted

pub data Halt : Type 0 where
  scan_cancelled module_timeout : Halt

-- `check_alive`, with what the flag and the clock say.
unfoldable pub check_alive : Bool → Option ℕ → ℕ → Result Halt (Unit {0})
check_alive cancelled deadline now = if cancelled then err scan_cancelled else elim deadline [
  | none ↦ ok tt
  | some limit ↦ if leb limit now then err module_timeout else ok tt
]

-- `session.commit()`
abbrev pub commit : Context → Context
commit c = record c {
  committed = c.committed ++ c.pending;
  pending = [];
  flushed = 0;
  saved_run = c.module_run;
  since_commit = 0;
}

abbrev commit_every : ℕ
commit_every = 25

-- `_tick`
unfoldable pub tick : Context → Context
tick c =
    let ticked : Context = record c { since_commit = c.since_commit + 1 } in
    if leb commit_every ticked.since_commit then commit ticked else ticked

-- `flush`
unfoldable pub flush : Context → Context
flush c = commit c

-- `session.rollback()`
unfoldable pub rollback : Context → Context
rollback c = record c { pending = []; flushed = 0; module_run = c.saved_run }

abbrev pub put : Added → Context → Context
put x c = record c { pending = c.pending ++ x ∷ [] }

-- `payload.setdefault("relationships", relationships)`
abbrev with_relationships : List RawHint → Option (List RawHint) → Option (List RawHint)
with_relationships given (some own) = some own
with_relationships given none = if is_empty given then none else some given

-- `add_evidence`
unfoldable pub add_evidence : EvidenceRow → List RawHint → Context → Context
add_evidence row relationships c =
    let stored : EvidenceRow = record row {
      subject_value = take 1024 row.subject_value;
      is_error = false;
      relationships = with_relationships relationships row.relationships;
    } in
    let added : Context = put (evidence stored) c in
    let counted : Context = record added {
      module_run = record added.module_run { evidence_count = added.module_run.evidence_count + 1 };
    } in
    let ticked = tick counted in
    record ticked {
      emitted = ticked.emitted ++ found row.subject_type row.subject_value row.is_absent ∷ [];
    }

-- `add_negative`
unfoldable pub add_negative : EvidenceRow → Context → Context
add_negative row c = add_evidence (record row { is_absent = true }) [] c

-- `add_error`
unfoldable pub add_error : Text → List (Text × Text) → Context → Context
add_error value raw c =
    let stored : EvidenceRow = record {
      subject_type = text "error";
      subject_value = take 1024 value;
      is_absent = false;
      is_error = true;
      raw = raw;
      relationships = none;
    } in
    let added : Context = put (evidence stored) c in
    tick (record added {
      module_run = record added.module_run { error_count = added.module_run.error_count + 1 };
    })

-- `mark_skipped`
unfoldable pub mark_skipped : Text → Context → Context
mark_skipped reason c = tick (record c {
  module_run = record c.module_run { status = skipped; error = some (take 4000 reason) };
})

-- `SkipReason(reason).value`
abbrev reason_text : SkipReason → Text
reason_text SkipReason.resumed_prior_run = text "resumed_prior_run"
reason_text SkipReason.zero_eligible_targets = text "zero_eligible_targets"
reason_text SkipReason.not_configured = text "not_configured"
reason_text SkipReason.missing_binary = text "missing_binary"
reason_text SkipReason.capability_unavailable = text "capability_unavailable"
reason_text SkipReason.unverified_targets = text "unverified_targets"

-- `mark_no_input`
unfoldable pub mark_no_input : SkipReason → Context → Context
mark_no_input reason c = tick (record c {
  module_run = record c.module_run {
    status = skipped;
    skip_reason = some reason;
    error = some (text "no input: " ++ reason_text reason);
  };
})

-- `set_coverage_metadata`
unfoldable pub set_coverage_metadata : List (Text × Text) → Context → Context
set_coverage_metadata metadata c =
    tick (record c { module_run = record c.module_run { coverage = metadata } })

-- `md[key] = value`
set_key : Text → Text → List (Text × Text) → List (Text × Text)
unfolding text_eq
set_key key value [] = (key, value) ∷ []
set_key key value ((k, v) ∷ rest) =
    if text_eq k key then (k, value) ∷ rest else (k, v) ∷ set_key key value rest

-- `record_target_accounting`, with the text of the accounting.
unfoldable pub record_target_accounting : Text → Context → Context
unfolding set_key
record_target_accounting accounting c = tick (record c {
  module_run = record c.module_run {
    coverage = set_key (text "target_accounting") accounting c.module_run.coverage;
  };
})

-- `add_artifact`, with the row that the store returns.
unfoldable pub add_artifact : Text → Context → Context
add_artifact digest c = tick (put (artifact digest) c)

-- `write_asset_snapshot`
unfoldable pub write_asset_snapshot : Snapshot → Context → Context
write_asset_snapshot snap c = tick (put (snapshot snap) c)

-- `write_scan_delta`
unfoldable pub write_scan_delta : ScanDelta → Context → Context
write_scan_delta d c = tick (put (delta d) c)

-- `session.flush()`
abbrev pub send : Context → Context
send c = record c { flushed = length c.pending }

-- `record_audit`, on which `audit_action` and the HTTP client call. It is the one call that flushes the
-- session without a commit.
unfoldable pub record_audit : LogEntry → Context → Context
record_audit entry c = tick (send (put (audit entry) c))
