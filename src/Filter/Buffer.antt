-- ===== src/Filter/Buffer.antt =====
-- The write buffer of modperl_filter.c: modperl_wbucket_pass, _flush and _write, and the sending of
-- a FLUSH or EOS bucket in a brigade of its own.
pub mod Delivery
use mod_perl.Prelude.{
  ℕ, ◌+◌, Bool, true, false, Option, none, some, List, [], ◌∷◌, ◌++◌, ◌==◌, ltb, leb, if◌then◌else◌,
  length,
}
use mod_perl.Status.{Status, ℤ, pos, negsuc, ok, http_moved_temporarily, is_ok, same_status}
use mod_perl.Cgi.{Bytes, Request, header_parse}
use mod_perl.Filter.{Bucket, bytes, eos, flush, Brigade, Env, Wbucket}

abbrev or_empty : Option Bytes → Bytes
or_empty none = []
or_empty (some b) = b

module _ (env : Env) where
  pub pass_on : Wbucket → Brigade → Wbucket × Status
  pass_on wb bb = let sent = bb ∷ wb.sent in (record wb { sent = sent }, env.pass_brigade sent)

  pub send_output_flush : Wbucket → Wbucket × Status
  unfolding pass_on
  send_output_flush wb = pass_on wb (flush ∷ [])

  pub send_output_eos : Wbucket → Wbucket × Status
  unfolding pass_on
  send_output_eos wb = pass_on wb (eos ∷ [])

  -- The brigade with the data, and with a FLUSH bucket behind it if one is asked for.
  pub send_data : Wbucket → Bytes → Bool → Wbucket × Status
  unfolding pass_on
  send_data wb buf add_flush_bucket =
      pass_on wb (bytes buf ∷ (if add_flush_bucket then flush ∷ [] else []))

  pub wbucket_pass : Wbucket → Bytes → Bool → Wbucket × Status
  unfolding send_data
  wbucket_pass wb buf add_flush_bucket =
      let emptied = record wb { outbuf = [] } in
      let parsed = header_parse env.scan_headers wb.r (some buf) (length buf) in
      let once = record emptied { header_parse = false; r = parsed.request } in
      if wb.header_parse
      then (if same_status parsed.status http_moved_temporarily
          then (once, ok)
          else if is_ok parsed.status
          then (if parsed.len == 0
              then (once, ok)
              else send_data once (or_empty parsed.body) add_flush_bucket)
          else (record once { r = record parsed.request { status = parsed.status } }, ok))
      else send_data emptied buf add_flush_bucket

  pub wbucket_flush : Wbucket → Bool → Wbucket × Status
  unfolding send_output_flush
  wbucket_flush wb add_flush_bucket =
      if length wb.outbuf == 0
      then (if add_flush_bucket then send_output_flush wb else (wb, ok))
      else wbucket_pass wb wb.outbuf add_flush_bucket

  -- The part of `write` behind its flush: the new buffer, the status and `*wlen`.
  pub write_rest : Wbucket → Bytes → Wbucket × Status × ℕ
  write_rest wb buf =
      if leb env.bufsize (length buf)
      then (let (wb', rv) = wbucket_pass wb buf false in (wb', rv, length buf))
      else (record wb { outbuf = wb.outbuf ++ buf }, ok, length buf)

  pub wbucket_write : Wbucket → Bytes → Wbucket × Status × ℕ
  unfolding write_rest
  wbucket_write wb buf =
      let (flushed, rv) = wbucket_flush wb false in
      if ltb env.bufsize (length buf + length wb.outbuf)
      then (if is_ok rv then write_rest flushed buf else (flushed, rv, 0))
      else write_rest wb buf
