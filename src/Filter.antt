-- ===== src/Filter.antt =====
-- src/modules/perl/modperl_filter.c: the data of a filter invocation. A brigade is the list of its
-- buckets; the functions of httpd that the filters call are the fields of `Env`.
pub mod Buffer
pub mod Read
pub mod Flush
pub mod Run
pub mod Add
pub mod Tests
use mod_perl.Prelude.{ℕ, Bool, Option, List, [], ◌∷◌, ◌++◌}
use mod_perl.Status.{Status}
use mod_perl.Cgi.{Bytes, Request}

-- A bucket, by what the filters do with it: one whose read gives bytes, one whose read fails with
-- a status, and the two kinds of metadata that they look at.
pub data Bucket : Type 0 where
  bytes : Bytes → Bucket
  unreadable : Status → Bucket
  eos : Bucket
  flush : Bucket

abbrev pub Brigade : Type 0
Brigade = List Bucket

-- ap_pass_brigade to the next filter, as the status of the last of the brigades passed so far (the
-- last one first); ap_get_brigade from the next filter; and ap_scan_script_header_err_strs.
-- `bufsize` is MP_IOBUFSIZE, which httpd's headers may set.
pub record Env : Type 0 where
  pub bufsize : ℕ
  pub pass_brigade : List Brigade → Status
  pub get_brigade : Brigade × Status
  pub scan_headers : Request → Bytes → Request × Status

-- modperl_wbucket_t with the brigades that were passed on through its filters, the last one
-- first. `outbuf` holds the first `outcnt` bytes of the array, so `outcnt` is its length.
pub record Wbucket : Type 0 where
  pub outbuf : Bytes
  pub header_parse : Bool
  pub r : Request
  pub sent : List Brigade

pub data Mode : Type 0 where
  input_mode output_mode : Mode

-- modperl_filter_t, with the `sent_eos` of its context. `leftover` holds the `remaining` bytes of the
-- bucket that was read last; `bucket` is NULL, or the part of `bb_in` that begins with the bucket.
pub record Filter : Type 0 where
  pub seen_eos : Bool
  pub eos : Bool
  pub flush : Bool
  pub sent_eos : Bool
  pub leftover : Bytes
  pub bucket : Option Brigade
  pub bb_in : Option Brigade
  pub bb_out : Brigade
  pub wbucket : Option Wbucket
  pub rc : Status
  pub mode : Mode

-- The bytes in a brigade, and in the brigades passed on, in order.
abbrev pub payload : Brigade → Bytes
payload [] = []
payload (bytes b ∷ rest) = b ++ payload rest
payload (_ ∷ rest) = payload rest

abbrev pub delivered : List Brigade → Bytes
delivered [] = []
delivered (bb ∷ before) = delivered before ++ payload bb
