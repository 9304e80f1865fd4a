-- ===== src/Config.antt =====
-- src/modules/perl/modperl_config.c: the configuration of servers and directories and how httpd has
-- them merged.
pub mod Tables
pub mod Merge
pub mod Server
pub mod Insert
pub mod Cleanup
pub mod Tests
use mod_perl.Prelude.{
  ℕ, Bool, true, false, not, ◌||◌, Option, none, some, List, [], ◌∷◌, ◌++◌, ◌==◌, bit_and, bit_or,
  if◌then◌else◌,
}
use mod_perl.Mgv.{Name}
use mod_perl.Status.{Status, is_ok}
use mod_perl.Options.{FlagTable, Options, options_new, options_merge}
use mod_perl.Handler.{Handler, handler_array_merge}
use mod_perl.Tipool.{TipoolConfig}
use mod_perl.Interp.{Scope, undef, request, same_scope}
use mod_perl.AprTable.{AprTable}

-- The arrays of handlers of one group, by the index of the phase; `none` is NULL.
abbrev pub Handlers : Type 0
Handlers = ℕ → Option (List Handler)

-- merge_item for a pointer.
abbrev pub merge_item {ℓ} : {A : Type ℓ} → Option A → Option A → Option A
merge_item base none = base
merge_item base (some add) = some add

-- merge_item for a scope, MP_INTERP_SCOPE_UNDEF being 0.
abbrev pub merge_scope : Scope → Scope → Scope
merge_scope base add = if same_scope add undef then base else add

-- What the build generates besides the FlagTable: the type of a directory's options, the options of
-- a server that are on at first, and the bits of MergeHandlers and InheritSwitches.
pub record ConfigFlags : Type 0 where
  pub flag_table : FlagTable
  pub dir_type : ℕ
  pub enable : ℕ
  pub hooks_all : ℕ
  pub srv_merge_handlers : ℕ
  pub dir_merge_handlers : ℕ
  pub inherit_switches : ℕ

-- An option's bit in `flags->opts`.
abbrev pub has_option : Options → ℕ → Bool
has_option o bit = not (bit_and o.opts bit == 0)

-- merge_handlers, for the flag of the merged options.
pub merge_handlers : Bool → Handlers → Handlers → Handlers
merge_handlers merge base add i =
    if merge then handler_array_merge (base i) (add i) else merge_item (base i) (add i)

module _ (t : AprTable) where
  open t use {Table, make, elts, unset, overlay, compress_set}

  -- modperl_config_dir_t; `location` none is NULL.
  pub record DirConfig : Type 0 where
    pub location : Option Name
    pub handlers_per_dir : Handlers
    pub set_env : Table
    pub setvars : Table
    pub configvars : Table
    pub flags : Options
    pub interp_scope : Scope

  pub table_overlap : Table → Table → Table
  table_overlap base add = compress_set (overlay base add)

  -- The loop of merge_config_add_vars.
  pub unset_loop : Table → List (Name × Name) → Table
  unset_loop temp [] = temp
  unset_loop temp ((key, value) ∷ entries) = unset_loop (unset temp key) entries

  pub merge_config_add_vars : Table → Table → Table → Table
  unfolding unset_loop
  merge_config_add_vars base unset_ add = overlay (unset_loop base (elts unset_)) add

  module _ (c : ConfigFlags) where
    pub dir_new : DirConfig
    dir_new = record {
      location = none;
      handlers_per_dir = λ i. none;
      set_env = make;
      setvars = make;
      configvars = make;
      flags = options_new c.flag_table c.dir_type;
      interp_scope = undef;
    }

    pub dir_create : Option Name → DirConfig
    unfolding dir_new
    dir_create dir = record dir_new { location = dir; interp_scope = undef }

    pub dir_merge : DirConfig → DirConfig → DirConfig
    unfolding dir_new merge_config_add_vars table_overlap merge_handlers
    dir_merge base add =
        let flags = options_merge base.flags add.flags in
        record dir_new {
          interp_scope = merge_scope base.interp_scope add.interp_scope;
          flags = flags;
          location = merge_item base.location add.location;
          set_env = table_overlap base.set_env add.set_env;
          configvars = merge_config_add_vars base.configvars add.setvars add.configvars;
          setvars = table_overlap base.setvars add.setvars;
          handlers_per_dir =
              merge_handlers (has_option flags c.dir_merge_handlers) base.handlers_per_dir
                add.handlers_per_dir;
        }
