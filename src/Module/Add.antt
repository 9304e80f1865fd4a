-- ===== src/Module/Add.antt =====
-- A Perl module becomes one of httpd's: modperl_module_add, and how Perl code finds the module's
-- object.
use mod_perl.Prelude.{
  ℕ, suc, ◌≡◌, Bool, Option, none, some, List, [], ◌∷◌, ◌++◌, ◌==◌, if◌then◌else◌, update, length,
  false,
}
use mod_perl.Mgv.{Name, Symbol, separator, colon, mgv_compile, same_name}
use mod_perl.Module.{World, ModuleInfo, object}
use mod_perl.Module.Command.{EntryCalls, Entry, Command, CmdError, Added, added, error, add_cmds}

-- module: the slots that differ from one Perl module to another.
pub record HttpdModule : Type 0 where
  pub name : Name
  pub minfo : ModuleInfo
  pub cmds : List Command

-- What of the process and of the server changes: `mods` by address, with `fresh` the next one; the
-- list behind perl_module.next; the modules that httpd has loaded; those whose removal is a cleanup
-- of the pool; the server's `scfg->modules`, NULL being `none`; the interpreter noted in the pool,
-- with `parent` that of the server.
pub record Loader : Type 0 where
  pub mods : ℕ → Option HttpdModule
  pub fresh : ℕ
  pub next : List ℕ
  pub loaded : List ℕ
  pub removals : List ℕ
  pub modules : Option (List (Name × ℕ))
  pub pool_interp : Option ℕ
  pub parent : ℕ

-- apr_hash_get and apr_hash_set on a table of modules.
abbrev pub hash_get : Option (List (Name × ℕ)) → Name → Option ℕ
hash_get none name = none
hash_get (some []) name = none
hash_get (some ((key, modp) ∷ rest)) name =
    let further = hash_get (some rest) name in if same_name key name then some modp else further

abbrev pub hash_set : Option (List (Name × ℕ)) → Name → ℕ → List (Name × ℕ)
hash_set none name modp = (name, modp) ∷ []
hash_set (some rest) name modp = (name, modp) ∷ rest

-- modperl_module_insert.
pub module_insert : ℕ → List ℕ → List ℕ
module_insert modp next = modp ∷ next

abbrev key_dir_create : Name
key_dir_create = b'D' ∷ b'I' ∷ b'R' ∷ b'_' ∷ b'C' ∷ b'R' ∷ b'E' ∷ b'A' ∷ b'T' ∷ b'E' ∷ []

abbrev key_dir_merge : Name
key_dir_merge = b'D' ∷ b'I' ∷ b'R' ∷ b'_' ∷ b'M' ∷ b'E' ∷ b'R' ∷ b'G' ∷ b'E' ∷ []

abbrev server_prefix : Name
server_prefix = b'S' ∷ b'E' ∷ b'R' ∷ b'V' ∷ b'E' ∷ b'R' ∷ b'_' ∷ []

abbrev key_server_create : Name
key_server_create = server_prefix ++ (b'C' ∷ b'R' ∷ b'E' ∷ b'A' ∷ b'T' ∷ b'E' ∷ [])

abbrev key_server_merge : Name
key_server_merge = server_prefix ++ (b'M' ∷ b'E' ∷ b'R' ∷ b'G' ∷ b'E' ∷ [])

abbrev name_length : Name → ℕ
name_length [] = 0
name_length (c ∷ name) = suc (name_length name)

-- The part behind modperl_module_add_cmds.
pub add_module : HttpdModule → Loader → Loader
unfolding module_insert
add_module modp l = record l {
  mods = update l.mods l.fresh (some modp);
  fresh = suc l.fresh;
  next = module_insert l.fresh l.next;
  loaded = l.fresh ∷ l.loaded;
  removals = l.fresh ∷ l.removals;
  modules = some (hash_set l.modules modp.name l.fresh);
  pool_interp = elim l.pool_interp [ none ↦ some l.parent | some interp ↦ some interp ];
}

-- `has_method` is gv_fetchmethod_autoload with isGV.
module _ {ℓ} {S : Type ℓ} (calls : EntryCalls S) (has_method : S → Name → Name → Bool)
    (perl_hash : Name → ℕ) where
  pub fetch_method : S → Name → Name → Option Symbol
  unfolding mgv_compile
  fetch_method perl name method =
      if has_method perl name method
      then some (mgv_compile perl_hash (name ++ (separator ++ method)))
      else none

  pub module_info : S → Name → ModuleInfo
  unfolding fetch_method
  module_info perl name = record {
    dir_create = fetch_method perl name key_dir_create;
    dir_merge = fetch_method perl name key_dir_merge;
    srv_create = fetch_method perl name key_server_create;
    srv_merge = fetch_method perl name key_server_merge;
    namelen = name_length name;
  }

  -- modperl_module_add: the state of Perl, the loader, and the message.
  unfoldable pub module_add : S → Name → List Entry → Loader → S × Loader × Option CmdError
  unfolding module_info add_module add_cmds
  module_add perl name mod_cmds l =
      let minfo = module_info perl name in
      let (perl, cmds) = add_cmds calls perl mod_cmds in
      elim cmds [
        | error e ↦ (perl, l, some e)
        | added cmds ↦
            (perl, add_module (record { name = name; minfo = minfo; cmds = cmds }) l, none)
      ]

-- modperl_module_config_get_obj; `get_module_config` is ap_get_module_config on the vector, and the
-- undefined value is `none`.
abbrev non_null : ℕ → Option ℕ
non_null ptr = if ptr == 0 then none else some ptr

pub config_get_obj {ℓ} :
    {S : Type ℓ} → Option (List (Name × ℕ)) → (ℕ → ℕ) → Name → World S → Option ℕ
config_get_obj modules get_module_config name w = elim (hash_get modules name) [
  | none ↦ none
  | some modp ↦ elim (non_null (get_module_config modp)) [
    | none ↦ none
    | some ptr ↦ elim w.config_table [ none ↦ none | some table ↦ non_null (object w ptr) ]
  ]
]

-- The interpreter of a pool: its own, or else another.
abbrev pub first_of : Option ℕ → ℕ → Option ℕ
first_of (some interp) parent = some interp
first_of none parent = some parent

-- What the server is like behind the addition of a module with these methods and commands.
abbrev pub IsAdded : Loader → Name → ModuleInfo → List Command → Loader → Type 0
IsAdded l name minfo cmds after =
    (after.next ≡ l.fresh ∷ l.next)
    × (after.loaded ≡ l.fresh ∷ l.loaded)
    × (after.removals ≡ l.fresh ∷ l.removals)
    × (after.mods l.fresh ≡ some (record { name = name; minfo = minfo; cmds = cmds }))
    × ((other : ℕ) → (l.fresh == other) ≡ false → after.mods other ≡ l.mods other)
    × ((other : Name)
        → hash_get after.modules other
          ≡ (if same_name name other then some l.fresh else hash_get l.modules other))
    × (after.pool_interp ≡ first_of l.pool_interp l.parent)

module _ {ℓ} {S : Type ℓ} (calls : EntryCalls S) (has_method : S → Name → Name → Bool)
    (perl_hash : Name → ℕ) where
  -- The symbol of a method of the package, where the package has it.
  abbrev pub method_of : S → Name → Name → Option Symbol
  method_of perl name method =
      if has_method perl name method
      then some (mgv_compile perl_hash (name ++ (colon ∷ (colon ∷ method))))
      else none

  -- The methods are those of these names, whose letters are written out.
  abbrev pub methods_of : S → Name → ModuleInfo
  methods_of perl name = record {
    dir_create =
        method_of perl name
          (b'D' ∷ b'I' ∷ b'R' ∷ b'_' ∷ b'C' ∷ b'R' ∷ b'E' ∷ b'A' ∷ b'T' ∷ b'E' ∷ []);
    dir_merge =
        method_of perl name (b'D' ∷ b'I' ∷ b'R' ∷ b'_' ∷ b'M' ∷ b'E' ∷ b'R' ∷ b'G' ∷ b'E' ∷ []);
    srv_create = method_of perl name (
        b'S' ∷ b'E' ∷ b'R' ∷ b'V' ∷ b'E' ∷ b'R' ∷ b'_' ∷ b'C' ∷ b'R' ∷ b'E' ∷ b'A' ∷ b'T' ∷ b'E'
        ∷ []);
    srv_merge =
        method_of perl name
          (b'S' ∷ b'E' ∷ b'R' ∷ b'V' ∷ b'E' ∷ b'R' ∷ b'_' ∷ b'M' ∷ b'E' ∷ b'R' ∷ b'G' ∷ b'E' ∷ []);
    namelen = length name;
  }

  -- The end of an addition, by what became of the commands.
  abbrev pub Adds :
      S → Name → Loader → S × Added (List Command) → S × Loader × Option CmdError → Type ℓ
  Adds perl name l (perl', error e) r = r ≡ (perl', l, some e)
  Adds perl name l (perl', added cmds) (perl″, after, message) =
      (perl″ ≡ perl') × (message ≡ none) × IsAdded l name (methods_of perl name) cmds after
