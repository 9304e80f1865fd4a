-- ===== src/Io/Layer.antt =====
-- The :Apache2 layer of PerlIO in modperl_io_apache.c: PerlIOApache_pushed, _read, _write, _flush
-- and _close, on a handle's flags.
use mod_perl.Prelude.{ℕ, Bool, true, false, not, ◌||◌, Option, [], if◌then◌else◌}
use mod_perl.Status.{Status}
use mod_perl.Cgi.{Bytes}
use mod_perl.Filter.{Env, Wbucket}
use mod_perl.Filter.Buffer.{wbucket_write, wbucket_flush}
use mod_perl.Io.{Input, RequestRead, returned, request_read}
use mod_perl.Io.Request.{Output, value, run_croak, with_wbucket}

-- PerlIOApache with the flags of its base; `has_r` is whether `st->r` is set.
pub record Layer : Type 0 where
  pub has_r : Bool
  pub can_read : Bool
  pub can_write : Bool
  pub at_eof : Bool
  pub has_error : Bool

-- PerlIOApache_read, with the fuel of modperl_request_read.
pub layer_read : {S : Type 0} → Input S → ℕ → Layer → S → ℕ → RequestRead S
layer_read input fuel f s count =
    if not f.can_read || (f.at_eof || f.has_error)
    then returned s []
    else request_read input fuel s count

module _ (env : Env) where
  -- PerlIOApache_write: the number of bytes.
  pub layer_write : Layer → Option Wbucket → Bytes → Option Wbucket × Output ℕ
  layer_write f wbucket vbuf =
      let (wbucket', out) =
        with_wbucket env wbucket (λ wb.
          let (wb', rc, bytes) = wbucket_write env wb vbuf in run_croak env (wb', rc) bytes) in
      if not f.can_write then (wbucket, value 0) else (wbucket', out)

  -- PerlIOApache_flush: whether it gives 0, and not -1.
  pub layer_flush : (Status → Bool) → Layer → Option Wbucket → Option Wbucket × Output Bool
  layer_flush is_reset f wbucket =
      let (wbucket', out) = with_wbucket env wbucket (λ wb.
        let (wb', rc) = wbucket_flush env wb false in
        if is_reset rc then (wb', value true) else run_croak env (wb', rc) true) in
      if not f.has_r || not f.can_write then (wbucket, value false) else (wbucket', out)

-- PerlIOApache_close, behind PerlIOBase_close.
pub layer_close : Layer → Layer
layer_close f = record f { has_r = false }
