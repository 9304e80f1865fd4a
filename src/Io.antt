-- ===== src/Io.antt =====
-- src/modules/perl/modperl_io_apache.c: modperl_request_read, and the layer of PerlIO that reads
-- from a request and writes to it. Request is xs/Apache2/RequestIO/Apache2__RequestIO.h.
pub mod Layer
pub mod Request
pub mod Handle
pub mod Stream
pub mod Tests
use mod_perl.Prelude.{
  ℕ, zero, suc, ◌-◌, Bool, true, false, not, ◌&&◌, List, [], ◌∷◌, ◌++◌, ◌==◌, ltb, length,
  if◌then◌else◌,
}
use mod_perl.Status.{Status, is_ok}
use mod_perl.Cgi.{Bytes}
use mod_perl.Filter.{Bucket, eos, Brigade}

-- ap_get_brigade on r->input_filters, in the mode AP_MODE_READBYTES with APR_BLOCK_READ, as a step
-- of the filters; apr_brigade_flatten, with the bytes that it copies; and whether
-- apr_brigade_create has a brigade.
pub record Input (S : Type 0) : Type 0 where
  pub get_brigade : S → ℕ → S × Brigade × Status
  pub flatten : Brigade → ℕ → Bytes × Status
  pub creates : Bool

-- How a read ends: the filters and the bytes; a croak with a status, and whether
-- r->connection->keepalive becomes AP_CONN_CLOSE; the croaks without a brigade and about an empty
-- one. `unfinished` is a run out of fuel.
pub data RequestRead (S : Type 0) : Type 0 where
  returned : S → Bytes → RequestRead S
  croaked : S → Status → Bool → RequestRead S
  no_brigade : RequestRead S
  broken_filter : S → RequestRead S
  unfinished : RequestRead S

abbrev pub is_empty : Brigade → Bool
is_empty [] = true
is_empty (b ∷ bb) = false

abbrev pub is_eos : Bucket → Bool
is_eos eos = true
is_eos b = false

-- APR_BUCKET_IS_EOS(APR_BRIGADE_LAST(bb)).
abbrev pub ends_with_eos : Brigade → Bool
ends_with_eos [] = false
ends_with_eos (b ∷ []) = is_eos b
ends_with_eos (b ∷ (c ∷ bb)) = ends_with_eos (c ∷ bb)

module _ {S : Type 0} (input : Input S) where
  -- The loop: the bytes in front of `tmp`, and what is left of `len`.
  pub brigade_loop : ℕ → S → Bytes → ℕ → RequestRead S
  brigade_loop zero s total len = unfinished
  brigade_loop (suc fuel) s total len =
      let (s', bb, rc) = input.get_brigade s len in
      let (read, flat) = input.flatten bb len in
      let again = brigade_loop fuel s' (total ++ read) (len - length read) in
      if not (is_ok rc)
      then croaked s' rc true
      else if is_empty bb
      then broken_filter s'
      else if not (is_ok flat)
      then croaked s' flat false
      else if ltb 0 (len - length read) && not (ends_with_eos bb)
      then again
      else returned s' (total ++ read)

  pub request_read : ℕ → S → ℕ → RequestRead S
  unfolding brigade_loop
  request_read fuel s len =
      if len == 0
      then returned s []
      else if not input.creates
      then no_brigade
      else brigade_loop fuel s [] len
