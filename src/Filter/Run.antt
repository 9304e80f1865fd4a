-- ===== src/Filter/Run.antt =====
-- modperl_filter_new, modperl_run_filter and the two handlers that httpd calls, in
-- src/modules/perl/modperl_filter.c. A Perl handler is a parameter: what it leaves of the filter,
-- what it passed on itself before it wrote anything, and the status of its call.
pub mod Eos
pub mod Tests
use mod_perl.Prelude.{Bool, true, false, Option, none, some, List, [], ◌∷◌, ◌||◌, if◌then◌else◌}
use mod_perl.Status.{Status, ok, is_ok, is_declined, same_status, http_internal_server_error}
use mod_perl.Filter.{Brigade, Mode, input_mode, output_mode, Filter, Env, Wbucket}
use mod_perl.Filter.Flush.{input_filter_flush, output_filter_flush}

-- What httpd and Perl do for a run: the call of the handler, modperl_errsv, the statuses of a
-- connection that the client has dropped, MODPERL_FILTER_ERROR, and the next filters of the chain.
pub record Runtime : Type 0 where
  pub env : Env
  pub callback : Filter → Filter × List Brigade × Status
  pub errsv : Status → Status
  pub is_reset : Status → Bool
  pub filter_error : Status

-- A run returns a status, or it throws one to Perl.
pub data Ran : Type 0 where
  returned : Filter → Status → Ran
  threw : Filter → Status → Ran

-- modperl_filter_new; the brigade is the one to fill (input) or the one that came in (output).
pub filter_new : Brigade → Mode → Bool → Filter
filter_new bb input_mode sent_eos = record {
  seen_eos = false;
  eos = false;
  flush = false;
  sent_eos = sent_eos;
  leftover = [];
  bucket = none;
  bb_in = none;
  bb_out = bb;
  wbucket = none;
  rc = ok;
  mode = input_mode;
}
filter_new bb output_mode sent_eos = record {
  seen_eos = false;
  eos = false;
  flush = false;
  sent_eos = sent_eos;
  leftover = [];
  bucket = none;
  bb_in = some bb;
  bb_out = [];
  wbucket = none;
  rc = ok;
  mode = output_mode;
}

-- The EOS that a read met is owed from here on.
pub settle_eos : Filter → Filter
settle_eos f = if f.seen_eos then record f { eos = true; seen_eos = false } else f

module _ (rt : Runtime) where
  -- MP_RUN_CROAK_RESET_OK around a flush.
  pub reset_ok : Filter × Status → Status → Ran
  reset_ok (f, rc) status = if is_ok rc || rt.is_reset rc then returned f status else threw f rc

  -- The end of an input run, with a brigade that was read or without one.
  pub close_input : Filter → Status → Ran
  unfolding reset_ok
  close_input f status =
      let closed = record f { bb_in = none } in
      elim f.bb_in [
        | none ↦ reset_ok (input_filter_flush f) status
        | some _ ↦
            if is_declined status
            then threw f rt.filter_error
            else reset_ok (input_filter_flush closed) status
      ]

  pub close_run : Mode → Filter → List Brigade → Status → Ran
  unfolding close_input reset_ok
  close_run input_mode f sent status = close_input f status
  close_run output_mode f sent status = reset_ok (output_filter_flush rt.env f sent) status

  pub run_filter : Filter → Ran
  unfolding settle_eos close_run
  run_filter f =
      let (f', sent, called) = rt.callback f in
      let status = if is_ok called then called else rt.errsv called in
      close_run f'.mode (settle_eos f') sent status

-- What a filter handler does next for httpd: it returns a status, it leaves the brigade to the next
-- filter, or it throws to the Perl code that called it.
pub data Outcome : Type 0 where
  answered : Status → Outcome
  passed_through : Outcome
  died : Status → Outcome

module _ (rt : Runtime) where
  pub output_outcome : Ran → Outcome
  output_outcome (threw f rc) = died rc
  output_outcome (returned f status) =
      if is_ok status
      then answered ok
      else if is_declined status
      then passed_through
      else answered status

  pub input_outcome : Ran → Outcome
  input_outcome (threw f rc) = died rc
  input_outcome (returned f status) =
      if is_ok status
      then answered ok
      else if is_declined status
      then passed_through
      else if same_status status http_internal_server_error
      then answered rt.filter_error
      else answered status

  pub output_filter_handler : Bool → Brigade → Outcome
  unfolding output_outcome filter_new run_filter
  output_filter_handler sent_eos bb =
      let ran = run_filter rt (filter_new bb output_mode sent_eos) in
      if sent_eos then passed_through else output_outcome ran

  pub input_filter_handler : Bool → Brigade → Outcome
  unfolding input_outcome filter_new run_filter
  input_filter_handler sent_eos bb =
      let ran = run_filter rt (filter_new bb input_mode sent_eos) in
      if sent_eos then passed_through else input_outcome ran
