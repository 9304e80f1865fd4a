-- ===== src/Cmd/Load.antt =====
-- PerlModule, PerlRequire, PerlConfigRequire, PerlPostConfigRequire, PerlLoadModule, PerlSwitches and
-- the directives that only stand for others.
use mod_perl.Prelude.{ℕ, Bool, Option, none, some, List, [], ◌∷◌, ◌++◌, if◌then◌else◌}
use mod_perl.Mgv.{Name}
use mod_perl.Hash.{Hash}
use mod_perl.PerlGlobal.{Ehv}
use mod_perl.Env.{sync_table}
use mod_perl.AprTable.{AprTable}
use mod_perl.Options.{FlagTable}
use mod_perl.Config.Server.{SrvConfig, argv_push}
use mod_perl.Cmd.{
  Message, vhost_failed, died, too_late, Parms, Cmd, set_scfg, server_or_htaccess, vhost_is_running,
  cmd_options, begins_caseless,
}

abbrev pub push_name : Option (List Name) → Name → Option (List Name)
push_name none arg = none
push_name (some names) arg = some (names ++ (arg ∷ []))

-- "+inherit" and the option that it stands for.
abbrev inherit_prefix : Name
inherit_prefix = b'+' ∷ b'i' ∷ b'n' ∷ b'h' ∷ b'e' ∷ b'r' ∷ b'i' ∷ b't' ∷ []

abbrev inherit_switches : Name
inherit_switches =
    (b'+' ∷ b'I' ∷ b'n' ∷ b'h' ∷ b'e' ∷ b'r' ∷ b'i' ∷ b't' ∷ [])
    ++ (b'S' ∷ b'w' ∷ b'i' ∷ b't' ∷ b'c' ∷ b'h' ∷ b'e' ∷ b's' ∷ [])

abbrev signed : Bool → Name → Name
signed on name = (if on then b'+' else b'-') ∷ name

-- What the directives ask of the rest: modperl_init_vhost, which says whether it is OK;
-- modperl_run; and modperl_require_module or _file, which gives the text of $@ where it fails.
pub record Loads {ℓ} (H : Hash) (t : AprTable) (S : Type ℓ) : Type ℓ where
  pub init_vhost : Cmd H t S → Cmd H t S × Bool
  pub run : Cmd H t S → Cmd H t S
  pub require_module : Ehv H × S → Name → (Ehv H × S) × Option Name
  pub require_file : Ehv H × S → Name → (Ehv H × S) × Option Name

module _ {ℓ} {H : Hash} {t : AprTable} {S : Type ℓ} where
  -- modperl_env_sync_srv_env_hash2table and _dir_env_hash2table.
  unfoldable pub sync_tables : Cmd H t S → Cmd H t S
  sync_tables w = record w {
    scfg = record w.scfg {
      set_env = sync_table H t w.env w.scfg.set_env;
      pass_env = sync_table H t w.env w.scfg.pass_env;
    };
    dcfg = record w.dcfg { set_env = sync_table H t w.env w.dcfg.set_env };
  }

  abbrev pub set_perl : Cmd H t S → Ehv H × S → Cmd H t S
  set_perl w (env, perl) = record w { env = env; perl = perl }

  -- The code is loaded at once.
  pub load_now :
      (Ehv H × S → Name → (Ehv H × S) × Option Name) → Cmd H t S → Name → Cmd H t S × Option Message
  unfolding sync_tables
  load_now require w arg =
      let (perl, errsv) = require (w.env, w.perl) arg in
      elim errsv [
        | some e ↦ (set_perl w perl, some (died e))
        | none ↦ (sync_tables (set_perl w perl), none)
      ]

  -- The two branches of PerlModule and PerlRequire: `push` notes the name for the start.
  pub load_or_push :
      Loads H t S
      → (Ehv H × S → Name → (Ehv H × S) × Option Name)
      → (SrvConfig t → SrvConfig t)
      → Parms
      → Cmd H t S
      → Name
      → Cmd H t S × Option Message
  unfolding load_now server_or_htaccess
  load_or_push loads require push parms w arg = elim (server_or_htaccess parms) [
    | some e ↦ (w, some e)
    | none ↦
        let (ready, is_ok) = loads.init_vhost w in
        let loaded = load_now require ready arg in
        if w.running
        then (if is_ok then loaded else (ready, some vhost_failed))
        else (set_scfg w (push w.scfg), none)
  ]

  pub cmd_modules : Loads H t S → Parms → Cmd H t S → Name → Cmd H t S × Option Message
  unfolding load_or_push
  cmd_modules loads parms w arg =
      load_or_push loads loads.require_module
        (λ scfg. record scfg { perl_module = push_name scfg.perl_module arg }) parms w arg

  pub cmd_requires : Loads H t S → Parms → Cmd H t S → Name → Cmd H t S × Option Message
  unfolding load_or_push
  cmd_requires loads parms w arg =
      load_or_push loads loads.require_file
        (λ scfg. record scfg { perl_require = push_name scfg.perl_require arg }) parms w arg

  pub cmd_config_requires : Loads H t S → Parms → Cmd H t S → Name → Cmd H t S × Option Message
  unfolding cmd_requires
  cmd_config_requires loads parms w arg = cmd_requires loads parms (loads.run w) arg

  pub cmd_load_module : Loads H t S → Parms → Cmd H t S → Name → Cmd H t S × Option Message
  unfolding cmd_modules
  cmd_load_module loads parms w arg = cmd_modules loads parms (loads.run w) arg

  -- `dcfg` is the address of the directory's configuration.
  pub cmd_post_config_requires : ℕ → Cmd H t S → Name → Cmd H t S
  cmd_post_config_requires dcfg w arg = set_scfg w (record w.scfg {
    perl_post_config_require = elim w.scfg.perl_post_config_require [
      | none ↦ none
      | some requires ↦ some (requires ++ ((arg, dcfg) ∷ []))
    ];
  })

  pub cmd_switches : FlagTable → Parms → Cmd H t S → Name → Cmd H t S × Option Message
  unfolding vhost_is_running cmd_options
  cmd_switches table parms w arg =
      if vhost_is_running parms w
      then (w, some (too_late parms.name))
      else if begins_caseless arg inherit_prefix
      then ((cmd_options table parms w inherit_switches).0, none)
      else (set_scfg w (argv_push t w.scfg arg), none)

  -- The directives of mod_perl 1 that stand for others; `on` is their flag.
  pub cmd_taint_check : FlagTable → Parms → Cmd H t S → Bool → Cmd H t S × Option Message
  unfolding cmd_switches
  cmd_taint_check table parms w on =
      if on then cmd_switches table parms w (b'-' ∷ (b'T' ∷ [])) else (w, none)

  pub cmd_warn : FlagTable → Parms → Cmd H t S → Bool → Cmd H t S × Option Message
  unfolding cmd_switches
  cmd_warn table parms w on =
      if on then cmd_switches table parms w (b'-' ∷ (b'w' ∷ [])) else (w, none)

  pub cmd_send_header : FlagTable → Parms → Cmd H t S → Bool → Cmd H t S × Option Message
  unfolding cmd_options
  cmd_send_header table parms w on = cmd_options table parms w (
      signed on
        (b'P' ∷ b'a' ∷ b'r' ∷ b's' ∷ b'e' ∷ b'H' ∷ b'e' ∷ b'a' ∷ b'd' ∷ b'e' ∷ b'r' ∷ b's' ∷ []))

  pub cmd_setup_env : FlagTable → Parms → Cmd H t S → Bool → Cmd H t S × Option Message
  unfolding cmd_options
  cmd_setup_env table parms w on =
      cmd_options table parms w
        (signed on (b'S' ∷ b'e' ∷ b't' ∷ b'u' ∷ b'p' ∷ b'E' ∷ b'n' ∷ b'v' ∷ []))

  -- modperl_cmd_init_handlers: the generated directives for the two phases are parameters.
  pub cmd_init_handlers :
      (Cmd H t S → Name → Cmd H t S)
      → (Cmd H t S → Name → Cmd H t S)
      → Parms
      → Cmd H t S
      → Name
      → Cmd H t S
  cmd_init_handlers header_parser post_read_request parms w arg =
      if parms.path then header_parser w arg else post_read_request w arg
