-- ===== src/Env/Tests.antt =====
-- A request with one variable that was there before, on a server that sets it.
use mod_perl.Prelude.{◌≡◌, true, false, none, some, List, [], ◌∷◌, if◌then◌else◌}
use mod_perl.Mgv.{Name}
use mod_perl.Hash.Assoc.{assoc}
use mod_perl.AprTable.Entries.{entries}
use mod_perl.Env.{EnvRequest, request_populate, request_unpopulate}
use mod_perl.Env.Magic.{
  PerlVtbl, MagicState, request_tie, request_untie, magic_get, magic_set, magic_clear,
  magic_clear_all, set_write, clear_all_write, write_all, request_untie-write_all,
}
use mod_perl.Env.Populate.{is_listed}
use mod_perl.Env.Request.{variable, request_unpopulate-request_populate}

abbrev tz : Name
tz = b'T' ∷ b'Z' ∷ []

abbrev uri : Name
uri = b'U' ∷ []

abbrev pending : EnvRequest assoc entries
pending = record {
  env = record { table = (tz, record { value = b'0' ∷ []; tied = true }) ∷ []; magical = true };
  subprocess_env = [];
  setup_env = false;
  perl_set_env_dir = false;
  perl_set_env_srv = false;
}

-- The variables that httpd adds.
abbrev cgi_vars : List (Name × Name) → List (Name × Name)
cgi_vars table = (uri, b'/' ∷ []) ∷ (tz, b'3' ∷ []) ∷ table

request_unpopulate-request_populate_example :
    let during = request_populate assoc entries cgi_vars pending in
    let after = request_unpopulate assoc entries during in
    (variable assoc entries after tz
      ≡ (if is_listed during.subprocess_env tz then none else some (b'0' ∷ [])))
    × (request_unpopulate assoc entries after ≡ after)
request_unpopulate-request_populate_example =
    request_unpopulate-request_populate assoc entries cgi_vars pending tz

-- A process whose environment is a list that only grows.
abbrev process : PerlVtbl (List Name)
process = record {
  env_set = λ environ es. environ;
  env_clear_all = λ environ. [];
  envelem_set = λ environ key val. key ∷ environ;
  envelem_clear = λ environ key. environ;
}

abbrev untied : MagicState entries process
untied = record { request_env = none; environ = tz ∷ [] }

request_untie-write_all_example :
    let tied =
      write_all entries process
        (set_write uri (b'1' ∷ []) ∷ clear_all_write ∷ [])
        (request_tie entries process untied []) in
    ((request_untie entries process tied).environ ≡ tz ∷ [])
    × (magic_get entries process tz none (magic_set entries process tz uri tied) ≡ some uri)
    × (magic_get entries process tz none (magic_clear entries process tz tied) ≡ none)
    × (magic_get entries process tz none (magic_clear_all entries process tied) ≡ none)
request_untie-write_all_example =
    request_untie-write_all entries process untied []
      (set_write uri (b'1' ∷ []) ∷ clear_all_write ∷ []) tz uri none
