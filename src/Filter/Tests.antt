-- ===== src/Filter/Tests.antt =====
-- The theorems on filters: a buffer of four bytes, and a brigade of five bytes and an EOS.
use mod_perl.Prelude.{
  ℕ, ◌≡◌, ◌⊎◌, refl, ap, true, false, none, some, List, [], ◌∷◌, ◌++◌, take, arith,
}
use mod_perl.Status.{ok, is_ok}
use mod_perl.Filter.{bytes, eos, Brigade, input_mode, Filter, Env, Wbucket, delivered}
use mod_perl.Filter.Buffer.{wbucket_write, wbucket_flush}
use mod_perl.Filter.Buffer.Delivery.{
  written, IsBuffer, wbucket_write_lem, write_all, delivered-flush-write_all,
}
use mod_perl.Filter.Read.{got, filter_read}
use mod_perl.Filter.Read.Stream.{Reads, filter_read_lem, filter_read_eos}
use mod_perl.Cgi.{Bytes}
use mod_perl.Handler.{Handler}
use mod_perl.Filter.Add.{Configured}
use mod_perl.Filter.Flush.{new_wbucket}
use mod_perl.Filter.Flush.{output_filter_flush, wbucket_init}
use mod_perl.Filter.Flush.Output.{output_filter_flush-eos, wbucket_init-some}

abbrev env : Env
env = record {
  bufsize = 4;
  pass_brigade = λ sent. ok;
  get_brigade = ([], ok);
  scan_headers = λ r b. (r, ok);
}

-- Three bytes in a buffer of four.
abbrev buffer : Wbucket
buffer = record (new_wbucket []) { outbuf = 1 ∷ (2 ∷ (3 ∷ [])) }

buffer-IsBuffer : IsBuffer env buffer
buffer-IsBuffer = record { fits = omega arith; plain = refl }

wbucket_write_lem_example :
    let r = wbucket_write env buffer (4 ∷ (5 ∷ [])) in
    (written r.0 ≡ written buffer ++ take r.2 (4 ∷ (5 ∷ [])))
    × IsBuffer env r.0
    × ((r.2 ≡ 2) ⊎ ((r.2 ≡ 0) × (is_ok r.1 ≡ false)))
wbucket_write_lem_example = wbucket_write_lem env buffer (4 ∷ (5 ∷ [])) buffer-IsBuffer

delivered-flush-write_all_example :
    delivered
      (wbucket_flush env (write_all env buffer ((4 ∷ (5 ∷ [])) ∷ ((6 ∷ []) ∷ []))) true).0.sent
    ≡ 1 ∷ (2 ∷ (3 ∷ (4 ∷ (5 ∷ (6 ∷ [])))))
delivered-flush-write_all_example =
    delivered-flush-write_all env buffer ((4 ∷ (5 ∷ [])) ∷ ((6 ∷ []) ∷ [])) true buffer-IsBuffer
      (λ sent. refl)

abbrev incoming : Brigade
incoming = bytes (1 ∷ (2 ∷ (3 ∷ []))) ∷ (bytes (4 ∷ (5 ∷ [])) ∷ (eos ∷ []))

abbrev reader : Filter
reader = record {
  seen_eos = false;
  eos = false;
  flush = false;
  sent_eos = false;
  leftover = [];
  bucket = none;
  bb_in = some incoming;
  bb_out = [];
  wbucket = none;
  rc = ok;
  mode = input_mode;
}

filter_read_lem_example : Reads 4 (1 ∷ (2 ∷ (3 ∷ (4 ∷ (5 ∷ []))))) (filter_read reader 4)
filter_read_lem_example = filter_read_lem reader 4 (omega arith) refl

abbrev done : Filter
done = record reader { seen_eos = true }

filter_read_eos_example : filter_read done 4 ≡ got done [] 0
filter_read_eos_example = filter_read_eos done 4 refl

abbrev owing : Filter
owing = record reader { bb_out = bytes (9 ∷ []) ∷ []; flush = true; eos = true }

-- The end of an output filter that has three bytes in its buffer.
abbrev ending : Filter
ending = record reader { eos = true; wbucket = some buffer }

ending-plain : (wbucket_init ending []).header_parse ≡ false
ending-plain = ap (λ (wb : Wbucket). wb.header_parse) (wbucket_init-some ending [] buffer refl)

output_filter_flush-eos_example :
    let f' = (output_filter_flush env ending []).0 in
    (wb : Wbucket) × (before : List Brigade) × (f'.wbucket ≡ some wb)
    × (wb.sent ≡ (eos ∷ []) ∷ before)
    × (delivered before ≡ written (wbucket_init ending []))
    × (wb.outbuf ≡ [])
    × (f'.sent_eos ≡ true)
    × (f'.bb_in ≡ none)
    × (f'.eos ≡ false)
output_filter_flush-eos_example =
    output_filter_flush-eos env ending [] refl refl ending-plain (λ bbs. refl)

-- A filter for connections, one for requests that is initialised, and one of httpd.
abbrev with_attrs : Bytes → ℕ → Handler
with_attrs name attrs = record {
  mgv_obj = none;
  mgv_cv = none;
  name = name;
  autoload = false;
  dynamic = false;
  attrs = attrs;
}

abbrev configured : List Configured
configured =
    record { handler = with_attrs (b'C' ∷ []) 0x01; next = none }
    ∷ (record { handler = with_attrs (b'R' ∷ []) 0x06; next = some (with_attrs (b'I' ∷ []) 0x08) }
        ∷ (record { handler = with_attrs (b'D' ∷ []) 0x10; next = none } ∷ []))
