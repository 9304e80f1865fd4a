-- ===== src/Filter/Flush.antt =====
-- The flushes at the end of an invocation, the writes of a handler, and the reads that it calls.
pub mod Eos
pub mod Output
use mod_perl.Prelude.{
  ℕ, Bool, true, false, not, ◌&&◌, Option, none, some, List, [], ◌∷◌, ◌++◌, ◌==◌, if◌then◌else◌,
  length,
}
use mod_perl.Status.{Status, ok, is_ok}
use mod_perl.Cgi.{Bytes, Request}
use mod_perl.Filter.{Bucket, bytes, unreadable, eos, flush, Brigade, Filter, Env, Wbucket}
use mod_perl.Filter.Buffer.{wbucket_flush, wbucket_write, send_output_eos}
use mod_perl.Filter.Read.{ReadResult, got, croaked, filter_read}

pub send_input_flush : Filter → Filter × Status
send_input_flush f = (record f { bb_out = f.bb_out ++ (flush ∷ []) }, ok)

pub send_input_eos : Filter → Filter × Status
send_input_eos f = (record f { bb_out = f.bb_out ++ (eos ∷ []); sent_eos = true }, ok)

-- The two tests of modperl_input_filter_flush, each with its assignments.
pub input_flush_step : Filter → Filter
unfolding send_input_flush
input_flush_step f =
    let (f', rc) = send_input_flush f in if f.flush then record f' { rc = rc; flush = false } else f

pub input_eos_step : Filter → Filter
unfolding send_input_eos
input_eos_step f =
    let (f', rc) = send_input_eos f in if f.eos then record f' { rc = rc; eos = false } else f

pub input_filter_flush : Filter → Filter × Status
unfolding input_flush_step input_eos_step
input_filter_flush f =
    let done = input_eos_step (input_flush_step f) in
    if f.sent_eos then (f, f.rc) else (done, done.rc)

-- The empty request of WBUCKET_INIT: `wb->r` is NULL, and nothing reads it since `header_parse` is 0.
abbrev pub no_request : Request
no_request = record {
  status = ok;
  location = none;
  method = [];
  method_number = 0;
  content_length = none;
  redirects = [];
  rcfg_status = ok;
}

abbrev pub new_wbucket : List Brigade → Wbucket
new_wbucket sent = record { outbuf = []; header_parse = false; r = no_request; sent = sent }

-- WBUCKET_INIT. `sent` is what the filter has passed on before it has a write buffer.
pub wbucket_init : Filter → List Brigade → Wbucket
wbucket_init f sent = elim f.wbucket [ none ↦ new_wbucket sent | some wb ↦ wb ]

module _ (env : Env) where
  -- The EOS of modperl_output_filter_flush, behind a flush of the buffer that succeeded.
  pub output_eos_step : Filter → Wbucket → Filter × Status
  output_eos_step f wb =
      let (wb', rc) = send_output_eos env wb in
      if f.eos
      then (
        record f { wbucket = some wb'; rc = rc; sent_eos = true; bb_in = none; eos = false },
        rc,
      )
      else (record f { wbucket = some wb; rc = ok }, ok)

  pub output_filter_flush : Filter → List Brigade → Filter × Status
  unfolding wbucket_init output_eos_step
  output_filter_flush f sent =
      let (wb, rc) = wbucket_flush env (wbucket_init f sent) f.flush in
      let quiet = record f { flush = false } in
      if f.sent_eos
      then (f, f.rc)
      else if is_ok rc
      then output_eos_step quiet wb
      else (record quiet { wbucket = some wb; rc = rc }, rc)

  -- The buffer, the status and `*len`.
  pub output_filter_write : Filter → List Brigade → Bytes → Filter × Status × ℕ
  unfolding wbucket_init
  output_filter_write f sent buf =
      let (wb, rc, len) = wbucket_write env (wbucket_init f sent) buf in
      (record f { wbucket = some wb }, rc, len)

  -- `if (filter->flush && len == 0)` behind a read, with the flush that is made and its status.
  abbrev flush_after : (Filter → Filter × Status) → ReadResult → ReadResult
  flush_after flushing (got f buffer len) =
      let (f', rc) = flushing f in
      if f.flush && (len == 0)
      then (if is_ok rc then got f' buffer len else croaked f' rc)
      else got f buffer len
  flush_after flushing (croaked f status) = croaked f status

  pub output_filter_read : Filter → List Brigade → ℕ → ReadResult
  output_filter_read f sent wanted =
      flush_after (λ f'. output_filter_flush f' sent) (filter_read f wanted)

  -- Only the first read of an invocation retrieves a brigade from the next filter.
  pub input_filter_read : Filter → ℕ → ReadResult
  input_filter_read f wanted =
      let (bb, rc) = env.get_brigade in
      let retrieved = record f { bb_in = some bb } in
      elim f.bb_in [
        | some _ ↦ flush_after input_filter_flush (filter_read f wanted)
        | none ↦
            if is_ok rc
            then flush_after input_filter_flush (filter_read retrieved wanted)
            else croaked retrieved rc
      ]

pub input_filter_write : Filter → Bytes → Filter × Status
input_filter_write f buf = (record f { bb_out = f.bb_out ++ (bytes buf ∷ []) }, ok)
