-- ===== src/Config/Cleanup/Tests.antt =====
-- A cleanup handler that populates %ENV and then fails.
use mathlib.Core.Option
use mod_perl.Prelude.{
  ℕ, suc, ◌≡◌, ◌≤◌, arith, true, false, Option, none, some, refl, List, [], ◌∷◌, length,
}
use mod_perl.Mgv.{Name}
use mod_perl.Hash.Assoc.{assoc}
use mod_perl.AprTable.Entries.{entries}
use mod_perl.Status.{Status, http_internal_server_error}
use mod_perl.Handler.{Handler}
use mod_perl.Callback.{Phase, run_all}
use mod_perl.Env.{request_populate}
use mod_perl.Env.Request.{variable}
use mod_perl.Config.Cleanup.{
  EnvTables, WithEnv, callback_per_dir, config_request_cleanup, env_undone, undone,
  config_request_cleanup_lem,
}

abbrev tz : Name
tz = b'T' ∷ b'Z' ∷ []

abbrev uri : Name
uri = b'U' ∷ []

abbrev server_tables : EnvTables assoc entries
server_tables = record { srv_set = (tz, b'1' ∷ []) ∷ []; srv_pass = []; dir_set = [] }

-- A request for which nothing has been configured, with a number.
abbrev fresh_request : WithEnv assoc entries ℕ
fresh_request = (
  record {
    env = record { table = []; magical = true };
    subprocess_env = (uri, b'/' ∷ []) ∷ [];
    setup_env = false;
    perl_set_env_dir = false;
    perl_set_env_srv = false;
  },
  0,
)

abbrev sub : Handler
sub = record {
  mgv_obj = none;
  mgv_cv = none;
  name = b'h' ∷ [];
  autoload = false;
  dynamic = false;
  attrs = 0;
}

abbrev fails : Handler → WithEnv assoc entries ℕ → WithEnv assoc entries ℕ × Status
fails h s =
    ((request_populate assoc entries (λ table. table) s.0, suc s.1), http_internal_server_error)

abbrev cleanup_phase : Phase (WithEnv assoc entries ℕ)
cleanup_phase = record {
  call = fails;
  handlers = λ s. some (sub ∷ []);
  errsv = λ s. false;
  errsv_of = λ s status. status;
}

cleanup_phase-Bounded :
    (s : WithEnv assoc entries ℕ) (av : List Handler)
    → cleanup_phase.handlers s ≡ some av
    → length av ≤ 1
cleanup_phase-Bounded s av e = ground arith

config_request_cleanup_lem_example :
    (r : WithEnv assoc entries ℕ × Status) × (callback_per_dir assoc entries cleanup_phase
        server_tables run_all 1 true fresh_request
      ≡ some r)
    × (config_request_cleanup assoc entries cleanup_phase server_tables 1 true fresh_request
        ≡ some (env_undone assoc entries r.0, r.1))
    × (variable assoc entries (env_undone assoc entries r.0).0 uri ≡ undone assoc entries r.0.0 uri)
    × ((env_undone assoc entries r.0).0.setup_env ≡ false)
config_request_cleanup_lem_example =
    config_request_cleanup_lem assoc entries cleanup_phase server_tables 1 true fresh_request uri
      cleanup_phase-Bounded

-- Behind it the variable of the request is gone, and so is that of the server, which the
-- subprocess_env had been given too.
cleanup_left :
    Option.map {B = Option Name × Option Name × Status}
      (λ r. (variable assoc entries r.0.0 uri, variable assoc entries r.0.0 tz, r.1))
      (config_request_cleanup assoc entries cleanup_phase server_tables 1 true fresh_request)
    ≡ some (none, none, http_internal_server_error)
unfolding config_request_cleanup request_populate
cleanup_left = refl
