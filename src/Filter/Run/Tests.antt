-- ===== src/Filter/Run/Tests.antt =====
-- The theorems on runs, with a handler that reads all and one that declines.
use mod_perl.Prelude.{◌≡◌, refl, true, false, some, [], ◌∷◌, ◌++◌}
use mod_perl.Status.{ok, declined}
use mod_perl.Filter.{bytes, input_mode, Filter, Env}
use mod_perl.Filter.Flush.Eos.{input_filter_flush_none}
use mod_perl.Filter.Run.{
  Runtime, returned, filter_new, settle_eos, reset_ok, close_input, close_run, run_filter,
  passed_through, input_outcome, input_filter_handler,
}
use mod_perl.Filter.Run.Eos.{ended, run_filter-input_eos}

abbrev env : Env
env = record {
  bufsize = 4;
  pass_brigade = λ sent. ok;
  get_brigade = ([], ok);
  scan_headers = λ r b. (r, ok);
}

-- A handler that reads to the end and writes a byte.
abbrev reads_all : Runtime
reads_all = record {
  env = env;
  callback = λ f. (
    record f { bb_in = some []; bb_out = f.bb_out ++ (bytes (9 ∷ []) ∷ []); seen_eos = true },
    [],
    ok,
  );
  errsv = λ status. status;
  is_reset = λ status. false;
  filter_error = ok;
}

abbrev before : Filter
before = filter_new [] input_mode false

run_filter-input_eos_example :
    run_filter reads_all before
    ≡ returned
        (ended reads_all (record (reads_all.callback before).0 { eos = true; seen_eos = false }))
        ok
unfolding filter_new
run_filter-input_eos_example = run_filter-input_eos reads_all before refl refl refl refl

-- A handler that declines without a read.
abbrev declines : Runtime
declines = record reads_all { callback = λ f. (f, [], declined) }

declined_through : input_filter_handler declines false [] ≡ passed_through
unfolding input_filter_handler input_outcome run_filter filter_new settle_eos reset_ok close_input
    close_run
declined_through =
    let quiet = input_filter_flush_none (filter_new [] input_mode false) refl refl in rw quiet refl
