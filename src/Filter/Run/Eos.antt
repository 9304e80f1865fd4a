-- ===== src/Filter/Run/Eos.antt =====
-- The end of a stream at the end of a run, and when a brigade is left to the next filter.
use mod_perl.Prelude.{
  ◌≡◌, ◌⊎◌, refl, sym, ◌∙◌, inl, inr, Bool, true, false, none, ◌++◌, if◌then◌else◌, Option-cases,
  arith,
}
use mod_perl.Status.{Status, ok, is_ok, is_declined}
use mod_perl.Filter.{Brigade, input_mode, Filter}
use mod_perl.Filter.Flush.Eos.{owed, input_filter_flush_eos}
use mod_perl.Filter.Run.{
  Runtime, returned, passed_through, filter_new, settle_eos, reset_ok, close_input, close_run,
  run_filter, input_outcome, input_filter_handler,
}

module _ (rt : Runtime) where
  -- The filter `f` once its stream has ended: all that it owed is in the brigade that it filled.
  abbrev pub ended : Filter → Filter
  ended f = record f {
    bb_in = none;
    bb_out = f.bb_out ++ owed f;
    flush = false;
    eos = false;
    sent_eos = true;
    rc = ok;
  }

  close_input-eos :
      (f : Filter) (status : Status)
      → f.eos ≡ true
      → f.sent_eos ≡ false
      → is_declined status ≡ false
      → close_input rt f status ≡ returned (ended f) status
  unfolding close_input reset_ok
  close_input-eos f status e s d = elim (Option-cases f.bb_in) [
    | inl absent ↦ let flushed = input_filter_flush_eos f s e in ground (arith, flushed, absent)
    | inr (bb, present) ↦
        let flushed = input_filter_flush_eos (record f { bb_in = none }) s e in
        ground (arith, flushed, present)
  ]

  close_input-passed_through :
      (f : Filter) (status : Status)
      → input_outcome rt (close_input rt f status) ≡ passed_through
      → (is_declined status ≡ true) × (f.bb_in ≡ none)
  unfolding close_input reset_ok input_outcome
  close_input-passed_through f status h = ground arith

  -- The status of a run, before the filter is flushed.
  abbrev pub run_status : Filter → Status
  run_status f = let called = (rt.callback f).2 in if is_ok called then called else rt.errsv called

  -- Where the handler of a filter in input mode read the brigade up to its EOS, no EOS was sent yet
  -- and the status is not DECLINED, the run returns that status, and it leaves the filter with what
  -- it owed, the EOS last, behind what the handler wrote, and with the EOS noted as sent.
  pub run_filter-input_eos :
      (f : Filter)
      → (rt.callback f).0.mode ≡ input_mode
      → (rt.callback f).0.seen_eos ≡ true
      → (rt.callback f).0.sent_eos ≡ false
      → is_declined (run_status f) ≡ false
      → run_filter rt f
        ≡ returned
            (ended (record (rt.callback f).0 { eos = true; seen_eos = false }))
            (run_status f)
  unfolding run_filter close_run settle_eos
  run_filter-input_eos f m s t d =
      let f' : Filter = record (rt.callback f).0 { eos = true; seen_eos = false } in
      let closed = close_input-eos f' (run_status f) refl t d in ground (arith, closed)

  settle_eos-bb_in : (f : Filter) → (settle_eos f).bb_in ≡ f.bb_in
  unfolding settle_eos
  settle_eos-bb_in f = ground arith

  run_filter-passed_through :
      (f : Filter)
      → (rt.callback f).0.mode ≡ input_mode
      → input_outcome rt (run_filter rt f) ≡ passed_through
      → (is_declined (run_status f) ≡ true) × ((rt.callback f).0.bb_in ≡ none)
  unfolding run_filter close_run
  run_filter-passed_through f m h =
      let settled = settle_eos (rt.callback f).0 in
      let closed : input_outcome rt (close_input rt settled (run_status f)) ≡ passed_through =
        ground arith in
      let (declined, absent) = close_input-passed_through settled (run_status f) closed in
      (declined, sym (settle_eos-bb_in (rt.callback f).0) ∙ absent)

  -- A filter that stays in input mode leaves the brigade to the next filter only where its EOS was
  -- sent before, or where its handler returned DECLINED without having read.
  pub input_filter_handler-passed_through :
      (sent_eos : Bool) (bb : Brigade)
      → let f = filter_new bb input_mode sent_eos in
        (rt.callback f).0.mode ≡ input_mode
        → input_filter_handler rt sent_eos bb ≡ passed_through
        → (sent_eos ≡ true)
          ⊎ ((is_declined (run_status f) ≡ true) × ((rt.callback f).0.bb_in ≡ none))
  unfolding input_filter_handler
  input_filter_handler-passed_through true bb m h = inl refl
  input_filter_handler-passed_through false bb m h =
      inr (run_filter-passed_through (filter_new bb input_mode false) m h)
