-- ===== src/Config/Server.antt =====
-- The configuration of a server: its creation and its merge, the loading of modules and files, and
-- whether an option is enabled.
pub mod Load
use mod_perl.Prelude.{
  ℕ, Bool, true, false, not, ◌||◌, Option, none, some, List, [], ◌∷◌, ◌++◌, ◌==◌, bit_and, bit_or,
  if◌then◌else◌, length,
}
use mod_perl.Mgv.{Name}
use mod_perl.Status.{Status, is_ok}
use mod_perl.Options.{FlagTable, Options, options_new, options_merge, lookup_failed}
use mod_perl.Tipool.{TipoolConfig}
use mod_perl.Interp.{Scope, undef, request}
use mod_perl.AprTable.{AprTable}
use mod_perl.Config.{
  Handlers, merge_item, merge_scope, ConfigFlags, has_option, merge_handlers, table_overlap,
  merge_config_add_vars,
}

-- The pool's configuration that a server begins with.
abbrev pub default_pool_cfg : TipoolConfig
default_pool_cfg = record { start = 3; max_spare = 3; min_spare = 3; max = 5; max_requests = 2000 }

module _ (t : AprTable) where
  open t use {Table, make}

  -- modperl_config_srv_t under threads. The arrays of names are never NULL once it is made;
  -- `modules` and `mip` are addresses, and a file of PerlPostConfigRequire goes with that of its
  -- directory's configuration.
  pub record SrvConfig : Type 0 where
    pub modules : Option ℕ
    pub perl_module : Option (List Name)
    pub perl_require : Option (List Name)
    pub perl_post_config_require : Option (List (Name × ℕ))
    pub setvars : Table
    pub configvars : Table
    pub set_env : Table
    pub pass_env : Table
    pub handlers_per_srv : Handlers
    pub handlers_files : Handlers
    pub handlers_process : Handlers
    pub handlers_pre_connection : Handlers
    pub handlers_connection : Handlers
    pub mip : Option ℕ
    pub interp_pool_cfg : Option TipoolConfig
    pub interp_scope : Scope
    pub argv : List Name
    pub flags : Options
    pub server : Option ℕ

  pub argv_push : SrvConfig → Name → SrvConfig
  argv_push scfg arg = record scfg { argv = scfg.argv ++ (arg ∷ []) }

  -- modperl_config_srv_argv_init, which pushes "-e;0".
  pub srv_argv_init : SrvConfig → SrvConfig × ℕ
  unfolding argv_push
  srv_argv_init scfg =
      let pushed = argv_push scfg (b'-' ∷ b'e' ∷ b';' ∷ b'0' ∷ []) in (pushed, length pushed.argv)

  module _ (c : ConfigFlags) where
    -- `argv0` is `s->process->argv[0]`.
    pub srv_new : Name → SrvConfig
    unfolding argv_push
    srv_new argv0 =
        let flags = options_new c.flag_table c.flag_table.srv_type in
        argv_push
          (record {
            modules = none;
            perl_module = some [];
            perl_require = some [];
            perl_post_config_require = some [];
            setvars = make;
            configvars = make;
            set_env = make;
            pass_env = make;
            handlers_per_srv = λ i. none;
            handlers_files = λ i. none;
            handlers_process = λ i. none;
            handlers_pre_connection = λ i. none;
            handlers_connection = λ i. none;
            mip = none;
            interp_pool_cfg = none;
            interp_scope = undef;
            argv = [];
            flags = record flags { opts = bit_or (bit_or flags.opts c.enable) c.hooks_all };
            server = none;
          })
          argv0

    -- The globals of the process and the trace level that the main server sets are left out.
    pub srv_create : Name → ℕ → SrvConfig
    unfolding srv_new
    srv_create argv0 s = record (srv_new argv0) {
      interp_pool_cfg = some default_pool_cfg;
      interp_scope = request;
      server = some s;
    }

    -- The merge up to modperl_init_vhost.
    pub srv_merge_items : Name → SrvConfig → SrvConfig → SrvConfig
    unfolding srv_new table_overlap merge_config_add_vars merge_handlers
    srv_merge_items argv0 base add =
        let flags = options_merge base.flags add.flags in
        let merge = has_option flags c.srv_merge_handlers in
        record (srv_new argv0) {
          modules = merge_item base.modules add.modules;
          perl_module = merge_item base.perl_module add.perl_module;
          perl_require = merge_item base.perl_require add.perl_require;
          perl_post_config_require =
              merge_item base.perl_post_config_require add.perl_post_config_require;
          set_env = table_overlap t base.set_env add.set_env;
          pass_env = table_overlap t base.pass_env add.pass_env;
          configvars = merge_config_add_vars t base.configvars add.setvars add.configvars;
          setvars = table_overlap t base.setvars add.setvars;
          server = merge_item base.server add.server;
          interp_pool_cfg = merge_item base.interp_pool_cfg add.interp_pool_cfg;
          interp_scope = merge_scope base.interp_scope add.interp_scope;
          argv = if has_option add.flags c.inherit_switches then base.argv else add.argv;
          flags = flags;
          handlers_per_srv = merge_handlers merge base.handlers_per_srv add.handlers_per_srv;
          handlers_files = merge_handlers merge base.handlers_files add.handlers_files;
          handlers_process = merge_handlers merge base.handlers_process add.handlers_process;
          handlers_pre_connection =
              merge_handlers merge base.handlers_pre_connection add.handlers_pre_connection;
          handlers_connection =
              merge_handlers merge base.handlers_connection add.handlers_connection;
        }

    -- `init_vhost` is the status of modperl_init_vhost, where the server is running; `none` is exit(1).
    pub srv_merge : Option Status → Name → SrvConfig → SrvConfig → Option SrvConfig
    unfolding srv_merge_items
    srv_merge none argv0 base add =
        some (record (srv_merge_items argv0 base add) { mip = merge_item base.mip add.mip })
    srv_merge (some init_vhost) argv0 base add =
        if is_ok init_vhost
        then some (record (srv_merge_items argv0 base add) { mip = merge_item base.mip add.mip })
        else none

-- modperl_config_is_perl_option_enabled, for the options of the directory, if there is a request,
-- and of the server. `none` is the exception.
pub is_perl_option_enabled : FlagTable → Option Options → Options → Name → Option Bool
is_perl_option_enabled table (some dir) srv name =
    let flag = table.lookup_dir name in
    if flag == lookup_failed then none else some (has_option dir flag)
is_perl_option_enabled table none srv name =
    let flag = table.lookup_srv name in
    if flag == lookup_failed then none else some (has_option srv flag)

-- modperl_config_apply_PerlModule and _PerlRequire: `require` is modperl_require_module or _file on
-- the state of Perl.
unfoldable pub apply_all : {S : Type 0} → (S → Name → S × Bool) → List Name → S → S × Bool
apply_all require [] perl = (perl, true)
apply_all require (entry ∷ entries) perl =
    let (perl', loaded) = require perl entry in
    if loaded then apply_all require entries perl' else (perl', false)

-- modperl_config_apply_PerlPostConfigRequire: `sync` is what the two syncs of the environment do
-- for a directory's configuration.
unfoldable pub apply_post_config_require :
    {S : Type 0} → (S → Name → S × Bool) → (S → ℕ → S) → List (Name × ℕ) → S → S × Bool
apply_post_config_require require sync [] perl = (perl, true)
apply_post_config_require require sync ((file, dcfg) ∷ requires) perl =
    let (perl', loaded) = require perl file in
    let synced = sync perl' dcfg in
    if loaded then apply_post_config_require require sync requires synced else (synced, false)
