-- ===== src/Io/Handle.antt =====
-- src/modules/perl/modperl_io.c: STDIN and STDOUT of Perl, tied to a request or opened on the
-- :Apache2 layer.
use mod_perl.Prelude.{ℕ, Bool, true, false, not, Option, none, some, if◌then◌else◌}
use mod_perl.Status.{Status}
use mod_perl.Mgv.{Name, same_name}
use mod_perl.Filter.{Env, Wbucket}
use mod_perl.Io.Request.{Output, value, died, too_early, outside}
use mod_perl.Io.Layer.{Layer, layer_flush, layer_close}

-- A handle: the package and the object that it is tied to, and $| of the handle that is selected.
pub record Handle : Type 0 where
  pub tied : Option (Name × ℕ)
  pub autoflush : Bool

abbrev pub other_package : Name → Option (Name × ℕ) → Bool
other_package classname none = false
other_package classname (some (name, obj)) = not (same_name name classname)

-- modperl_io_handle_tied: whether it is tied to another package.
pub handle_tied : Handle → Name → Bool
handle_tied handle classname = other_package classname handle.tied

pub handle_untie : Handle → Handle
handle_untie handle = record handle { tied = none }

pub handle_tie : Handle → Name → ℕ → Handle
unfolding handle_untie
handle_tie handle classname ptr = record (handle_untie handle) { tied = some (classname, ptr) }

-- modperl_io_tie_stdin and modperl_io_tie_stdout; `classname` is "Apache2::RequestRec".
pub tie_stdin : Name → Handle → ℕ → Handle
unfolding handle_tied handle_tie
tie_stdin classname handle r =
    if handle_tied handle classname then handle else handle_tie handle classname r

pub tie_stdout : Name → Handle → ℕ → Handle
unfolding handle_tied handle_tie
tie_stdout classname handle r =
    if handle_tied handle classname
    then handle
    else handle_tie (record handle { autoflush = false }) classname r

pub data StdMode : Type 0 where
  stdin stdout : StdMode

abbrev pub writes : StdMode → Bool
writes stdin = false
writes stdout = true

-- modperl_io_perlio_override_stdhandle: the new handle, where do_open9 succeeds; else it croaks.
pub override_stdhandle : StdMode → Bool → Option Layer
override_stdhandle mode opened =
    if opened
    then some (record {
      has_r = true;
      can_read = not (writes mode);
      can_write = writes mode;
      at_eof = false;
      has_error = false;
    })
    else none

-- The end of modperl_io_perlio_restore_stdhandle, behind a flush: `none` is the croak about one
-- that gives -1.
abbrev pub closed_behind : Layer → Output Bool → Output (Option Layer)
closed_behind f (value true) = value (some (layer_close f))
closed_behind f (value false) = value none
closed_behind f (died rc) = died rc
closed_behind f too_early = too_early
closed_behind f outside = outside

module _ (env : Env) where
  pub restore_stdhandle :
      (Status → Bool) → StdMode → Layer → Option Wbucket → Option Wbucket × Output (Option Layer)
  restore_stdhandle is_reset stdin f wbucket = (wbucket, value (some (layer_close f)))
  restore_stdhandle is_reset stdout f wbucket =
      let (wbucket', out) = layer_flush env is_reset f wbucket in (wbucket', closed_behind f out)
