-- ===== src/Context/Buffer.antt =====
-- recon/modules/base.py: what a module writes is counted and soon committed.
use recon_platform.Prelude.{
  ℕ, ◌+◌, ◌≤◌, ◌<◌, leb, ◌≡◌, refl, Bool, true, false, not, List, [], ◌∷◌, ◌++◌, length,
  length-append, if◌then◌else◌, Bool-cases, inl, inr, arith,
}
use recon_platform.Prelude.Text.{Text}
use recon_platform.Scans.{SkipReason}
use recon_platform.Correlation.Route.{RawHint}
use recon_platform.ScanDiff.{ScanDelta}
use recon_platform.Journal.AuditLog.{LogEntry}
use recon_platform.Context.{
  EvidenceRow, Snapshot, Added, evidence, artifact, snapshot, delta, audit, ModuleRun, Emitted,
  Context, commit, tick, flush, rollback, add_evidence, add_negative, add_error, mark_skipped,
  mark_no_input, set_coverage_metadata, record_target_accounting, add_artifact,
  write_asset_snapshot, write_scan_delta, record_audit,
}

-- What a module, the client or the service calls on a context.
pub data Call : Type 0 where
  adds_evidence : EvidenceRow → List RawHint → Call
  adds_negative : EvidenceRow → Call
  adds_error : Text → List (Text × Text) → Call
  marks_skipped : Text → Call
  marks_no_input : SkipReason → Call
  sets_coverage : List (Text × Text) → Call
  records_accounting : Text → Call
  adds_artifact : Text → Call
  writes_snapshot : Snapshot → Call
  writes_delta : ScanDelta → Call
  records_audit : LogEntry → Call
  flushes rolls_back : Call

abbrev pub call : Call → Context → Context
call (adds_evidence row hints) c = add_evidence row hints c
call (adds_negative row) c = add_negative row c
call (adds_error value raw) c = add_error value raw c
call (marks_skipped reason) c = mark_skipped reason c
call (marks_no_input reason) c = mark_no_input reason c
call (sets_coverage metadata) c = set_coverage_metadata metadata c
call (records_accounting accounting) c = record_target_accounting accounting c
call (adds_artifact digest) c = add_artifact digest c
call (writes_snapshot snap) c = write_asset_snapshot snap c
call (writes_delta d) c = write_scan_delta d c
call (records_audit entry) c = record_audit entry c
call flushes c = flush c
call rolls_back c = rollback c

abbrev pub calls : List Call → Context → Context
calls [] c = c
calls (x ∷ xs) c = calls xs (call x c)

-- How many rows are evidence of errors, or of anything else.
unfoldable pub count_rows : Bool → List Added → ℕ
count_rows error [] = 0
count_rows error (evidence row ∷ rows) =
    (if (if error then row.is_error else not row.is_error) then 1 else 0) + count_rows error rows
count_rows error (_ ∷ rows) = count_rows error rows

count_rows-append :
    (error : Bool) (xs ys : List Added)
    → count_rows error (xs ++ ys) ≡ count_rows error xs + count_rows error ys
unfolding count_rows
count_rows-append error [] ys = omega arith
count_rows-append error (evidence row ∷ xs) ys = omega (arith, count_rows-append error xs ys)
count_rows-append error (artifact _ ∷ xs) ys = count_rows-append error xs ys
count_rows-append error (snapshot _ ∷ xs) ys = count_rows-append error xs ys
count_rows-append error (delta _ ∷ xs) ys = count_rows-append error xs ys
count_rows-append error (audit _ ∷ xs) ys = count_rows-append error xs ys

-- The counts of a module's row are those of the rows of evidence, on top of the counts it began with.
abbrev Counts : ℕ → ℕ → ModuleRun → ℕ → ℕ → Type 0
Counts found errors run good bad =
    (run.evidence_count ≡ found + good) × (run.error_count ≡ errors + bad)

abbrev all_rows : Bool → Context → ℕ
all_rows error c = count_rows error c.committed + count_rows error c.pending

pub record IsBuffered (found errors : ℕ) (c : Context) : Type 0 where
  pub few : c.since_commit < 25
  pub short : length c.pending ≤ c.since_commit
  pub saved :
      Counts found errors c.saved_run (count_rows false c.committed) (count_rows true c.committed)
  pub counted : Counts found errors c.module_run (all_rows false c) (all_rows true c)

module _ {found errors : ℕ} where
  commit-IsBuffered :
      (c : Context)
      → Counts found errors c.module_run (all_rows false c) (all_rows true c)
      → IsBuffered found errors (commit c)
  unfolding count_rows
  commit-IsBuffered c h =
      let good = count_rows-append false c.committed c.pending in
      let bad = count_rows-append true c.committed c.pending in
      record {
        few = omega arith;
        short = omega arith;
        saved = (omega (arith, h, good), omega (arith, h, bad));
        counted = (omega (arith, h, good), omega (arith, h, bad));
      }

  -- A tick, where the session holds one row more at most than it counts.
  tick-IsBuffered :
      (c : Context)
      → c.since_commit < 25
      → length c.pending ≤ c.since_commit + 1
      → Counts found errors c.saved_run (count_rows false c.committed) (count_rows true c.committed)
      → Counts found errors c.module_run (all_rows false c) (all_rows true c)
      → IsBuffered found errors (tick c)
  unfolding tick
  tick-IsBuffered c few short saved counted = elim (Bool-cases (leb 25 (c.since_commit + 1))) [
    | inl full ↦
        rw full (commit-IsBuffered (record c { since_commit = c.since_commit + 1 }) counted)
    | inr room ↦
        rw room (record { few = ground arith; short = short; saved = saved; counted = counted })
  ]

  -- A write to the module's row that leaves its counts alone.
  touch-IsBuffered :
      (c : Context) (run : ModuleRun)
      → run.evidence_count ≡ c.module_run.evidence_count
      → run.error_count ≡ c.module_run.error_count
      → IsBuffered found errors c
      → IsBuffered found errors (tick (record c { module_run = run }))
  touch-IsBuffered c run same same' h =
      tick-IsBuffered (record c { module_run = run }) h.few (omega (arith, h.short)) h.saved
        (omega (arith, same, h.counted), omega (arith, same', h.counted))

  -- A row that is put into the session, flushed or not, with the counts that go with it.
  put-IsBuffered :
      (c : Context) (x : Added) (run : ModuleRun) (sent : ℕ)
      → run.evidence_count ≡ c.module_run.evidence_count + count_rows false (x ∷ [])
      → run.error_count ≡ c.module_run.error_count + count_rows true (x ∷ [])
      → IsBuffered found errors c
      → IsBuffered found errors
          (tick (record c { pending = c.pending ++ x ∷ []; flushed = sent; module_run = run }))
  put-IsBuffered c x run sent good bad h =
      let c' : Context = record c {
        pending = c.pending ++ x ∷ [];
        flushed = sent;
        module_run = run;
      } in
      let more_good = count_rows-append false c.pending (x ∷ []) in
      let more_bad = count_rows-append true c.pending (x ∷ []) in
      tick-IsBuffered c' h.few (omega (arith, length-append c.pending (x ∷ []), h.short)) h.saved
        (omega (arith, good, h.counted, more_good), omega (arith, bad, h.counted, more_bad))

  said-IsBuffered :
      (c : Context) (said : List Emitted)
      → IsBuffered found errors c
      → IsBuffered found errors (record c { emitted = said })
  said-IsBuffered c said h = record {
    few = h.few;
    short = h.short;
    saved = h.saved;
    counted = h.counted;
  }

  call-IsBuffered :
      (x : Call) (c : Context) → IsBuffered found errors c → IsBuffered found errors (call x c)
  unfolding count_rows add_evidence add_negative add_error mark_skipped mark_no_input
      set_coverage_metadata record_target_accounting add_artifact write_asset_snapshot
      write_scan_delta record_audit flush rollback
  call-IsBuffered (adds_evidence row hints) c h =
      said-IsBuffered _ _ (put-IsBuffered c _ _ _ (omega arith) (omega arith) h)
  call-IsBuffered (adds_negative row) c h =
      said-IsBuffered _ _ (put-IsBuffered c _ _ _ (omega arith) (omega arith) h)
  call-IsBuffered (adds_error value raw) c h = put-IsBuffered c _ _ _ (omega arith) (omega arith) h
  call-IsBuffered (marks_skipped reason) c h = touch-IsBuffered c _ refl refl h
  call-IsBuffered (marks_no_input reason) c h = touch-IsBuffered c _ refl refl h
  call-IsBuffered (sets_coverage metadata) c h = touch-IsBuffered c _ refl refl h
  call-IsBuffered (records_accounting accounting) c h = touch-IsBuffered c _ refl refl h
  call-IsBuffered (adds_artifact digest) c h =
      put-IsBuffered c (artifact digest) c.module_run _ (omega arith) (omega arith) h
  call-IsBuffered (writes_snapshot snap) c h =
      put-IsBuffered c (snapshot snap) c.module_run _ (omega arith) (omega arith) h
  call-IsBuffered (writes_delta d) c h =
      put-IsBuffered c (delta d) c.module_run _ (omega arith) (omega arith) h
  call-IsBuffered (records_audit entry) c h =
      put-IsBuffered c (audit entry) c.module_run _ (omega arith) (omega arith) h
  call-IsBuffered flushes c h = commit-IsBuffered c h.counted
  call-IsBuffered rolls_back c h = record {
    few = h.few;
    short = omega arith;
    saved = h.saved;
    counted = (omega (arith, h.saved), omega (arith, h.saved));
  }

  -- After any sequence of calls, the service's flushes and rollbacks among them, fewer than 25 rows wait
  -- for a commit, and the counts of the module's row, in the session and in the database, are those of
  -- the rows of evidence that are there: errors count as errors, and all else as evidence.
  pub calls-IsBuffered :
      (xs : List Call) (c : Context)
      → IsBuffered found errors c
      → IsBuffered found errors (calls xs c)
  calls-IsBuffered [] c h = h
  calls-IsBuffered (x ∷ xs) c h = calls-IsBuffered xs (call x c) (call-IsBuffered x c h)
