-- ===== src/Io/Request.antt =====
-- xs/Apache2/RequestIO/Apache2__RequestIO.h: what $r->puts, print, printf, write, rflush, sendfile
-- and read do with the buffer of the response and the body of the request.
pub mod Print
use mod_perl.Prelude.{
  ℕ, zero, suc, ◌+◌, ◌-◌, ◌%◌, ◌^◌, Bool, true, false, not, ◌&&◌, Option, none, some, List, [], ◌∷◌,
  ◌++◌, ◌==◌, ltb, leb, length, take, drop, replicate, if◌then◌else◌,
}
use mod_perl.Status.{Status, pos, ok, is_ok}
use mod_perl.Cgi.{Bytes}
use mod_perl.Filter.{Env, Wbucket}
use mod_perl.Filter.Buffer.{wbucket_write, wbucket_flush}
use mod_perl.Io.{Input, RequestRead, returned, request_read}

-- A value for Perl, or a croak: with a status, before the response phase, where there is no buffer
-- yet, or a read of memory outside of the string.
pub data Output (A : Type 0) : Type 0 where
  value : A → Output A
  died : Status → Output A
  too_early outside : Output A

-- newSVuv(bytes), or "0E0".
pub data Printed : Type 0 where
  count : ℕ → Printed
  zero_but_true : Printed

abbrev pub printed : ℕ → Printed
printed bytes = if bytes == 0 then zero_but_true else count bytes

module _ (env : Env) where
  -- MP_RUN_CROAK: a status that is not APR_SUCCESS croaks.
  abbrev pub run_croak : {A : Type 0} → Wbucket × Status → A → Wbucket × Output A
  run_croak (wb, rc) a = if is_ok rc then (wb, value a) else (wb, died rc)

  -- mpxs_write_loop, with what `bytes` is so far.
  pub write_loop : Wbucket → List Bytes → ℕ → Wbucket × Output ℕ
  write_loop wb [] total = (wb, value total)
  write_loop wb (buf ∷ args) total =
      let (wb', rc, wlen) = wbucket_write env wb buf in
      let rest = write_loop wb' args (total + wlen) in if is_ok rc then rest else (wb', died rc)

  -- MP_CHECK_WBUCKET_INIT in front of the rest of a function.
  abbrev pub with_wbucket :
      {A : Type 0} → Option Wbucket → (Wbucket → Wbucket × Output A) → Option Wbucket × Output A
  with_wbucket none run = (none, too_early)
  with_wbucket (some wb) run = let (wb', out) = run wb in (some wb', out)

  pub rvputs : Option Wbucket → List Bytes → Option Wbucket × Output ℕ
  unfolding write_loop
  rvputs wbucket args = with_wbucket wbucket (λ wb. write_loop wb args 0)

  -- mpxs_output_flush; the flag is IoFLUSH(PL_defoutgv), which is $|.
  pub output_flush : {A : Type 0} → Bool → Wbucket → A → Wbucket × Output A
  output_flush autoflush wb a =
      if autoflush then run_croak (wbucket_flush env wb true) a else (wb, value a)

  pub flush_behind : Bool → Wbucket × Output ℕ → Wbucket × Output Printed
  unfolding output_flush
  flush_behind autoflush (wb, value bytes) = output_flush autoflush wb (printed bytes)
  flush_behind autoflush (wb, died rc) = (wb, died rc)
  flush_behind autoflush (wb, too_early) = (wb, too_early)
  flush_behind autoflush (wb, outside) = (wb, outside)

  pub print : Bool → Option Wbucket → List Bytes → Option Wbucket × Output Printed
  unfolding write_loop flush_behind
  print autoflush wbucket args =
      with_wbucket wbucket (λ wb. flush_behind autoflush (write_loop wb args 0))

  -- $r->printf, with the string that sprintf made.
  pub rprintf : Bool → Option Wbucket → Bytes → Option Wbucket × Output ℕ
  unfolding output_flush
  rprintf autoflush wbucket sv = with_wbucket wbucket (λ wb.
      let (wb', rc, bytes) = wbucket_write env wb sv in
      if is_ok rc then output_flush autoflush wb' bytes else (wb', died rc))

  -- `wlen`: a length that is not given is -1. The subtraction is one of apr_size_t, of 64 bits.
  abbrev pub write_length : Option ℕ → ℕ → ℕ → ℕ
  write_length none offset avail = if offset == 0 then avail else (avail + 2 ^ 64 - offset) % 2 ^ 64
  write_length (some len) offset avail = len

  -- $r->write, at an offset that is not negative. Nothing compares the length with the string's.
  pub write : Option Wbucket → Bytes → Option ℕ → ℕ → Option Wbucket × Output ℕ
  write wbucket buffer len offset = with_wbucket wbucket (λ wb.
      let wlen = write_length len offset (length buffer) in
      let (wb', rc, taken) = wbucket_write env wb (take wlen (drop offset buffer)) in
      if ltb (length buffer) (offset + wlen) then (wb, outside) else run_croak (wb', rc) taken)

  -- $r->rflush; `is_reset` is APR_STATUS_IS_ECONNRESET or APR_STATUS_IS_ECONNABORTED, which are
  -- logged. The value is whether it was.
  pub rflush : (Status → Bool) → Option Wbucket → Option Wbucket × Output Bool
  rflush is_reset wbucket = with_wbucket wbucket (λ wb.
      let (wb', rc) = wbucket_flush env wb true in
      if is_ok rc
      then (wb', value false)
      else if is_reset rc
      then (wb', value true)
      else (wb', died rc))

  -- What httpd does for $r->sendfile: apr_file_open, the size by apr_file_info_get, and ap_send_fd.
  pub record File : Type 0 where
    pub open_rc : Status
    pub size : ℕ
    pub send_fd : ℕ → ℕ → Status

  abbrev pub void_croak : Bool → Wbucket → Status → Wbucket × Output Status
  void_croak is_void wb rc = if is_void && not (is_ok rc) then (wb, died rc) else (wb, value rc)

  -- The length to be sent; a subtraction of 64 bits again.
  abbrev pub send_length : ℕ → ℕ → ℕ → ℕ
  send_length zero offset size = (size + 2 ^ 64 - offset) % 2 ^ 64
  send_length (suc len) offset size = suc len

  pub send_behind : File → Bool → ℕ → ℕ → Wbucket → Wbucket × Output Status
  send_behind file is_void offset len wb =
      let rc = file.send_fd offset (send_length len offset file.size) in
      let (wb', flushed) = wbucket_flush env wb true in
      if length wb.outbuf == 0
      then void_croak is_void wb rc
      else if is_ok flushed
      then void_croak is_void wb' rc
      else (wb', died flushed)

  pub sendfile : File → Bool → Option Wbucket → ℕ → ℕ → Option Wbucket × Output Status
  unfolding send_behind
  sendfile file is_void wbucket offset len =
      if is_ok file.open_rc
      then with_wbucket wbucket (send_behind file is_void offset len)
      else if is_void
      then (wbucket, died file.open_rc)
      else (wbucket, value file.open_rc)

-- The offset of $r->read: from the front, or a negative one from the end of the buffer.
pub data Offset : Type 0 where
  front back : ℕ → Offset

-- The end of $r->read: the buffer and the count; the croaks about LENGTH and the offset; or what
-- modperl_request_read croaked with.
pub data SvRead (S : Type 0) : Type 0 where
  filled : S → Bytes → ℕ → SvRead S
  negative_length outside_string : SvRead S
  failed : RequestRead S → SvRead S

abbrev pub read_offset : ℕ → Offset → Option ℕ
read_offset blen (front n) = some n
read_offset blen (back n) = if ltb blen n then none else some (blen - n)

-- The buffer in front of the offset, with NULs where it did not reach.
abbrev pub padded : Bytes → ℕ → Bytes
padded buffer offset = take offset (buffer ++ replicate (offset - length buffer) 0)

abbrev pub or_empty : Option Bytes → Bytes
or_empty none = []
or_empty (some b) = b

abbrev pub filled_by : {S : Type 0} → Bytes → RequestRead S → SvRead S
filled_by prefix (returned s data_) = filled s (prefix ++ data_) (length data_)
filled_by prefix r = failed r

-- $r->read, where a buffer that is undef is `none`. LENGTH is an apr_size_t, so only 0 is refused.
pub read : {S : Type 0} → Input S → ℕ → S → Option Bytes → ℕ → Offset → SvRead S
read input fuel s buffer len offset =
    let old = or_empty buffer in
    if len == 0 then negative_length else elim (read_offset (length old) offset) [
      | none ↦ outside_string
      | some at ↦ filled_by (padded old at) (request_read input fuel s len)
    ]

-- The client block interface of httpd: r->read_length, and what ap_setup_client_block,
-- ap_should_client_block and ap_get_client_block for one byte give.
pub record ClientBlock : Type 0 where
  pub read_length : ℕ
  pub setup : Status
  pub should : Bool
  pub block : Bytes

pub setup_client_block : ClientBlock → Status
setup_client_block c = if c.read_length == 0 then c.setup else ok

abbrev pub one_byte : Bytes → Option ℕ
one_byte [] = none
one_byte (c ∷ []) = some c
one_byte (c ∷ (d ∷ b)) = none

-- $r->GETC, which is undef unless one byte came.
pub getc : ClientBlock → Option ℕ
unfolding setup_client_block
getc c =
    if is_ok (setup_client_block c)
    then (if not (c.read_length == 0)
        then one_byte c.block
        else if c.should
        then one_byte c.block
        else none)
    else none
