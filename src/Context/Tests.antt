-- ===== src/Context/Tests.antt =====
-- Runs of the module context.
use recon_platform.Prelude.{◌≡◌, refl, false, none, some, List, [], ◌∷◌, err, arith}
use recon_platform.Prelude.Text.{text}
use recon_platform.Scans.{running}
use recon_platform.Context.{
  EvidenceRow, ModuleRun, Context, check_alive, module_timeout, tick, add_evidence, add_error,
  flush, rollback,
}
use recon_platform.Context.Buffer.{
  Call, adds_evidence, adds_error, flushes, rolls_back, calls, IsBuffered, count_rows,
  calls-IsBuffered,
}
use recon_platform.Context.Reading.{known_values}
use recon_platform.Context.Progress.{percent}

abbrev fresh_run : ModuleRun
fresh_run = record {
  evidence_count = 0;
  error_count = 0;
  status = running;
  skip_reason = none;
  error = none;
  coverage = [];
}

abbrev pub fresh : Context
fresh = record {
  committed = [];
  pending = [];
  flushed = 0;
  saved_run = fresh_run;
  module_run = fresh_run;
  since_commit = 0;
  emitted = [];
}

abbrev a_host : EvidenceRow
a_host = record {
  subject_type = text "subdomain";
  subject_value = text "www";
  is_absent = false;
  is_error = false;
  raw = [];
  relationships = none;
}

-- The rows that were not flushed go with the rollback, and so do their counts.
abbrev session : List Call
session =
    adds_evidence a_host []
    ∷ adds_error (text "x") []
    ∷ flushes
    ∷ adds_evidence a_host []
    ∷ rolls_back
    ∷ []

rolled_back :
    (calls session fresh).module_run ≡ record fresh_run { evidence_count = 1; error_count = 1 }
unfolding add_evidence add_error tick flush rollback
rolled_back = refl

-- A row that was only added to the session is not seen by a query; a flush sends it.
unseen : known_values (text "subdomain" ∷ []) (add_evidence a_host [] fresh) ≡ []
unfolding known_values add_evidence tick
unseen = refl

seen_once :
    known_values
      (text "subdomain" ∷ [])
      (flush (add_evidence a_host [] (add_evidence a_host [] fresh)))
    ≡ text "www" ∷ []
unfolding known_values add_evidence tick flush
seen_once = refl

past_deadline : check_alive false (some 5) 5 ≡ err module_timeout
unfolding check_alive
past_deadline = refl

fresh-IsBuffered : IsBuffered 0 0 fresh
unfolding count_rows
fresh-IsBuffered = record {
  few = omega arith;
  short = omega arith;
  saved = (refl, refl);
  counted = (refl, refl);
}

calls-IsBuffered_example : IsBuffered 0 0 (calls session fresh)
calls-IsBuffered_example = calls-IsBuffered session fresh fresh-IsBuffered

-- Halfway, to the even number.
half : percent (some 1) 200 ≡ 0
unfolding percent
half = refl
