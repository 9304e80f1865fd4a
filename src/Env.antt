-- ===== src/Env.antt =====
-- src/modules/perl/modperl_env.c: %ENV and the tables that it is filled from: PerlSetEnv,
-- PerlPassEnv and r->subprocess_env.
pub mod Populate
pub mod Request
pub mod Sync
pub mod Magic
pub mod Tests
use mod_perl.Prelude.{ℕ, Bool, true, false, not, Option, none, some, List, [], ◌∷◌, if◌then◌else◌}
use mod_perl.Mgv.{Name}
use mod_perl.Hash.{Hash}
use mod_perl.PerlGlobal.{Elem, Ehv}
use mod_perl.AprTable.{AprTable}

-- MP_env_const_vars, with the version strings of the build, and MP_env_pass_defaults.
abbrev pub env_const_vars : Name → Name → List (Name × Name)
env_const_vars version api_version =
    (b'M' ∷ b'O' ∷ b'D' ∷ b'_' ∷ b'P' ∷ b'E' ∷ b'R' ∷ b'L' ∷ [], version)
    ∷ (
      b'M' ∷ b'O' ∷ b'D' ∷ b'_' ∷ b'P' ∷ b'E' ∷ b'R' ∷ b'L' ∷ b'_' ∷ b'A' ∷ b'P' ∷ b'I' ∷ b'_'
          ∷ b'V' ∷ b'E' ∷ b'R' ∷ b'S' ∷ b'I' ∷ b'O' ∷ b'N' ∷ [],
      api_version,
    )
    ∷ []

abbrev pub env_pass_defaults : List Name
env_pass_defaults = (b'P' ∷ b'A' ∷ b'T' ∷ b'H' ∷ []) ∷ (b'T' ∷ b'Z' ∷ []) ∷ []

module _ (H : Hash) where
  open H use {Hv, new, fetch, store, delete}

  -- What is stored under a key that has the element `old`, if any.
  abbrev pub stored_elem : Option Elem → Name → Elem
  stored_elem none val = record { value = val; tied = true }
  stored_elem (some old) val = record old { value = val }

  -- MP_ENV_HV_STORE.
  pub env_hv_store : Hv Elem → Name → Name → Hv Elem
  env_hv_store hv key val = store hv key (stored_elem (fetch hv key) val)

  -- modperl_env_hv_delete, for what hv_exists finds.
  pub delete_found : Hv Elem → Name → Option Elem → Hv Elem
  delete_found hv key none = hv
  delete_found hv key (some old) = delete hv key

  pub env_hv_delete : Hv Elem → Name → Hv Elem
  unfolding delete_found
  env_hv_delete hv key = delete_found hv key (fetch hv key)

  -- The magic of %ENV is off while the hash itself is changed, and then as it was.
  pub env_clear : Ehv H → Ehv H
  env_clear env = record env { table = new }

  pub populate_loop : Hv Elem → List (Name × Name) → Hv Elem
  unfolding env_hv_store
  populate_loop hv [] = hv
  populate_loop hv ((key, val) ∷ elts) = populate_loop (env_hv_store hv key val) elts

  pub unpopulate_loop : Hv Elem → List (Name × Name) → Hv Elem
  unfolding env_hv_delete
  unpopulate_loop hv [] = hv
  unpopulate_loop hv ((key, val) ∷ elts) = unpopulate_loop (env_hv_delete hv key) elts

  pub default_loop : Hv Elem → List (Name × Name) → Hv Elem
  default_loop hv [] = hv
  default_loop hv ((key, val) ∷ ents) =
      default_loop (store hv key (record { value = val; tied = true })) ents

  pub default_populate : Name → Name → Ehv H → Ehv H
  unfolding default_loop
  default_populate version api_version env = record env {
    table = default_loop env.table (env_const_vars version api_version);
  }

  module _ (t : AprTable) where
    open t use {Table, elts, get, set_value, overlay}

    pub table_populate : Ehv H → Table → Ehv H
    unfolding populate_loop
    table_populate env table = record env { table = populate_loop env.table (elts table) }

    pub table_unpopulate : Ehv H → Table → Ehv H
    unfolding unpopulate_loop
    table_unpopulate env table = record env { table = unpopulate_loop env.table (elts table) }

    -- `if (svp)`.
    pub sync_found : Table → Name → Option Elem → Table
    sync_found table key none = table
    sync_found table key (some elem) = set_value table key elem.value

    -- The loop of modperl_env_sync_table, over the entries that the table had at first.
    pub sync_loop : Hv Elem → List (Name × Name) → Table → Table
    unfolding sync_found
    sync_loop hv [] table = table
    sync_loop hv ((key, val) ∷ elts) table = sync_loop hv elts (sync_found table key (fetch hv key))

    pub sync_table : Ehv H → Table → Table
    unfolding sync_loop
    sync_table env table = sync_loop env.table (elts table) table

    -- The loop over MP_env_pass_defaults; `getenv` is that of C.
    pub pass_loop : (Name → Option Name) → Table → List Name → Table → Table
    pass_loop getenv set_env [] pass_env = pass_env
    pass_loop getenv set_env (key ∷ keys) pass_env = elim (get set_env key) [
      | some val ↦ pass_loop getenv set_env keys pass_env
      | none ↦ elim (get pass_env key) [
        | some val ↦ pass_loop getenv set_env keys pass_env
        | none ↦ elim (getenv key) [
          | none ↦ pass_loop getenv set_env keys pass_env
          | some val ↦ pass_loop getenv set_env keys (set_value pass_env key val)
        ]
      ]
    ]

    -- %ENV and PassEnv behind it.
    pub configure_server : (Name → Option Name) → Ehv H → Table → Table → Ehv H × Table
    unfolding pass_loop table_populate
    configure_server getenv env set_env pass_env =
        let pass_env' = pass_loop getenv set_env env_pass_defaults pass_env in
        (table_populate (table_populate env set_env) pass_env', pass_env')

    -- What a request has of it: %ENV, its subprocess_env and the flags of its configuration.
    pub record EnvRequest : Type 0 where
      pub env : Ehv H
      pub subprocess_env : Table
      pub setup_env : Bool
      pub perl_set_env_dir : Bool
      pub perl_set_env_srv : Bool

    abbrev pub is_empty : List (Name × Name) → Bool
    is_empty [] = true
    is_empty (e ∷ es) = false

    -- apr_table_overlap with APR_OVERLAP_TABLES_SET: each entry is set.
    pub overlap_set : Table → List (Name × Name) → Table
    overlap_set table [] = table
    overlap_set table ((key, val) ∷ entries) = overlap_set (set_value table key val) entries

    unfoldable pub configure_request_dir : EnvRequest → Table → EnvRequest
    unfolding table_populate overlap_set
    configure_request_dir r set_env =
        let filled = record r {
          env = table_populate r.env set_env;
          subprocess_env = overlap_set r.subprocess_env (elts set_env);
        } in
        record (if is_empty (elts set_env) then r else filled) { perl_set_env_dir = true }

    -- One of the two steps of modperl_env_configure_request_srv.
    pub add_table : EnvRequest → Table → EnvRequest
    unfolding table_populate
    add_table r table = if is_empty (elts table) then r else record r {
      env = table_populate r.env table;
      subprocess_env = overlay r.subprocess_env table;
    }

    unfoldable pub configure_request_srv : EnvRequest → Table → Table → EnvRequest
    unfolding add_table
    configure_request_srv r set_env pass_env = record (add_table (add_table r set_env) pass_env) {
      perl_set_env_srv = true;
    }

    -- `add_vars` is ap_add_common_vars and ap_add_cgi_vars.
    unfoldable pub request_populate : (Table → Table) → EnvRequest → EnvRequest
    unfolding table_populate
    request_populate add_vars r =
        let subprocess_env = if r.setup_env then r.subprocess_env else add_vars r.subprocess_env in
        record r {
          env = table_populate r.env subprocess_env;
          subprocess_env = subprocess_env;
          setup_env = true;
        }

    unfoldable pub request_unpopulate : EnvRequest → EnvRequest
    unfolding table_unpopulate
    request_unpopulate r =
        if not r.setup_env
        then r
        else record r { env = table_unpopulate r.env r.subprocess_env; setup_env = false }
