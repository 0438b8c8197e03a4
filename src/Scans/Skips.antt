-- ===== src/Scans/Skips.antt =====
-- recon/orchestrator/scans.py: what the resumption of a run does to the rows of the modules that
-- have run before the checkpoint.
use recon_platform.Prelude.{
  ◌≡◌, ap, String, Bool, true, false, Option, some, List, [], ◌∷◌, find, update_where, arith,
  Bool-cases, inl, inr, ◌⊎◌, ◌∙◌,
}
use recon_platform.Scans.{
  ScanModuleRun, ModuleStatus, resumed_prior_run, Service, is_row, settled, skip_row,
  skip_if_pending,
}

abbrev row_of : String → String → Service → Option ScanModuleRun
row_of id name s = find (is_row id name) s.rows

find-update :
    (p : ScanModuleRun → Bool) (f : ScanModuleRun → ScanModuleRun) (rows : List ScanModuleRun)
    (r : ScanModuleRun)
    → ((x : ScanModuleRun) → p (f x) ≡ p x)
    → find p rows ≡ some r
    → find p (update_where p f rows) ≡ some (f r)
find-update p f [] r same h = cc
find-update p f (x ∷ rows) r same h = elim (Bool-cases (p x)) [
  | inl hit ↦
      let e : x ≡ r = ground (arith, hit) in rw hit (rw (same x) (rw hit (ap (λ y. some (f y)) e)))
  | inr miss ↦ rw miss (rw miss (find-update p f rows r same (ground (arith, miss))))
]

-- On a module that has been run before, `_skip_if_pending` leaves a COMPLETED or FAILED row as it is,
-- and makes every other row SKIPPED, with the reason RESUMED_PRIOR_RUN: a PENDING or RUNNING one, and
-- also one that the module itself had marked as skipped for another reason.
pub skip_if_pending-row :
    (id name : String) (s : Service) (row : ScanModuleRun)
    → row_of id name s ≡ some row
    → (row.status ≡ ModuleStatus.completed ⊎ row.status ≡ ModuleStatus.failed
        → row_of id name (skip_if_pending id name s).1 ≡ some row)
      × (row.status ≡ ModuleStatus.pending
            ⊎ row.status ≡ ModuleStatus.running
            ⊎ row.status ≡ ModuleStatus.skipped
          → row_of id name (skip_if_pending id name s).1
            ≡ some (record row {
              status = ModuleStatus.skipped;
              skip_reason = some resumed_prior_run;
            }))
unfolding skip_if_pending
skip_if_pending-row id name s row there = (
  λ old.
      let done : settled row.status ≡ true = ground (arith, old) in
      rw (there, skip_if_pending) (rw done there),
  λ other.
      let new : settled row.status ≡ false = ground (arith, other) in
      let e : skip_row row
          ≡ record row { status = ModuleStatus.skipped; skip_reason = some resumed_prior_run } =
        ground (arith, new) in
      rw (there, skip_if_pending)
        (rw new
          (find-update (is_row id name) skip_row s.rows row (λ x. ground arith) there ∙ ap some e)),
)
