-- ===== src/Filter/Flush/Output.antt =====
-- The flush at the end of an output filter: the data first, the EOS last.
use mod_perl.Prelude.{◌≡◌, ◌∙◌, true, false, none, some, List, [], ◌∷◌, arith}
use mod_perl.Status.{ok}
use mod_perl.Filter.{eos, Brigade, Filter, Env, Wbucket, delivered}
use mod_perl.Filter.Buffer.{wbucket_flush, send_output_eos}
use mod_perl.Filter.Buffer.Delivery.{
  written, wbucket_flush_lem, wbucket_flush-all_ok, send_output_eos_lem,
}
use mod_perl.Filter.Flush.{wbucket_init, output_eos_step, output_filter_flush}

pub wbucket_init-some :
    (f : Filter) (sent : List Brigade) (wb : Wbucket)
    → f.wbucket ≡ some wb
    → wbucket_init f sent ≡ wb
unfolding wbucket_init
wbucket_init-some f sent wb e = ground (arith, e)

module _ (env : Env) where
  -- Where the stream has ended, its EOS was not sent yet, there are no headers to parse and the next
  -- filter takes every brigade, the flush of an output filter passes on what was in the buffer and
  -- then a brigade with the EOS alone, notes that the EOS was sent, and drops the incoming brigade.
  pub output_filter_flush-eos :
      (f : Filter) (sent : List Brigade)
      → f.eos ≡ true
      → f.sent_eos ≡ false
      → (wbucket_init f sent).header_parse ≡ false
      → ((bbs : List Brigade) → env.pass_brigade bbs ≡ ok)
      → let f' = (output_filter_flush env f sent).0 in
        (wb : Wbucket) × (before : List Brigade) × (f'.wbucket ≡ some wb)
        × (wb.sent ≡ (eos ∷ []) ∷ before)
        × (delivered before ≡ written (wbucket_init f sent))
        × (wb.outbuf ≡ [])
        × (f'.sent_eos ≡ true)
        × (f'.bb_in ≡ none)
        × (f'.eos ≡ false)
  unfolding output_filter_flush output_eos_step
  output_filter_flush-eos f sent e s h good =
      let flushed = wbucket_flush env (wbucket_init f sent) f.flush in
      let data_ = wbucket_flush_lem env (wbucket_init f sent) f.flush h in
      let fine = wbucket_flush-all_ok env (wbucket_init f sent) f.flush h good in
      let ended = send_output_eos_lem env flushed.0 in
      (
        (send_output_eos env flushed.0).0,
        flushed.0.sent,
        ground (arith, fine),
        ended.0,
        data_.0,
        ended.1 ∙ data_.1,
        ground (arith, fine),
        ground (arith, fine),
        ground (arith, fine),
      )
