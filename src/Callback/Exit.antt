-- ===== src/Callback/Exit.antt =====
-- The status of a handler that dies or that calls ModPerl::Util::exit.
use mod_perl.Prelude.{◌≡◌, Bool, some, none, if◌then◌else◌, arith}
use mod_perl.Status.{ok, http_internal_server_error}
use mod_perl.Callback.{Called, callback, errsv_status}

-- The status of a call, behind modperl_errsv: what the sub returned, OK if that was nothing; but if
-- it died, 500, and OK where it died of ModPerl::Util::exit, whatever $@ was before the call.
pub errsv_status-callback :
    (called : Called) (errsv exited : Bool)
    → errsv_status called.errsv exited (callback ok (some called) errsv) ≡ (
        if called.errsv
        then (if exited then ok else http_internal_server_error)
        else elim called.value [ none ↦ ok | some value ↦ value ])
unfolding errsv_status callback
errsv_status-callback called errsv exited = ground arith
