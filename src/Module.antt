-- ===== src/Module.antt =====
-- src/modules/perl/modperl_module.c: modules that are written in Perl. httpd has a
-- modperl_module_cfg_t for each directory and server; the Perl object that goes with it stands in a
-- table of the interpreter.
pub mod Merge
pub mod Create
pub mod Requests
pub mod Command
pub mod Directive
pub mod Add
pub mod Tests
use mod_perl.Prelude.{
  ℕ, suc, ◌≡◌, Bool, true, false, not, ◌&&◌, ◌||◌, Option, none, some, List, [], ◌∷◌, ◌==◌,
  if◌then◌else◌, update,
}
use mod_perl.Mgv.{Name, Symbol}
use mod_perl.SvptrTable.{Table, table_new, table_fetch, table_store, table_delete}

-- modperl_module_info_t; `none` is a method that the package does not have.
pub record ModuleInfo : Type 0 where
  pub dir_create : Option Symbol
  pub dir_merge : Option Symbol
  pub srv_create : Option Symbol
  pub srv_merge : Option Symbol
  pub namelen : ℕ

-- modperl_module_cfg_t once a directive has been met; until then both fields are NULL.
pub record Used : Type 0 where
  pub server : ℕ
  pub minfo : ModuleInfo

-- What a Perl sub is called with.
pub data Arg : Type 0 where
  sv : ℕ → Arg
  text : Name → Arg
  cmd_parms : Arg

-- How a call under G_EVAL|G_SCALAR came back: the SV, 0 for none, and $@ if it is true.
pub record Returned {ℓ} (S : Type ℓ) : Type ℓ where
  pub perl : S
  pub value : ℕ
  pub errsv : Option Name

-- What the code asks of Perl, whose state is `S`: the lookup of a symbol, calls of a sub and of a
-- method, `bless {}, $class`, the log of $@ by modperl_errsv, and the text of an SV that has one.
pub record PerlCalls {ℓ} (S : Type ℓ) : Type ℓ where
  pub mgv_lookup : S → Symbol → Option ℕ
  pub call_sv : S → ℕ → List Arg → Returned S
  pub call_method : S → Name → List Arg → Returned S
  pub bless_new : S → Name → S × ℕ
  pub log_errsv : S → S
  pub sv_text : S → ℕ → Option Name

-- A modperl_module_cfg_t is known by its address, and `fresh` is the next one; 0 is NULL.
-- `cleanups` are the addresses that a pool has a cleanup for, the last one registered first.
pub record World {ℓ} (S : Type ℓ) : Type ℓ where
  pub cfgs : ℕ → Option Used
  pub fresh : ℕ
  pub config_table : Option Table
  pub cleanups : List ℕ
  pub perl : S

abbrev pub or_new : Option Table → Table
or_new none = table_new
or_new (some table) = table

-- modperl_module_config_table_get, with `create`.
abbrev pub table_get {ℓ} : {S : Type ℓ} → World S → Table
table_get w = or_new w.config_table

-- The Perl object of a configuration, 0 for none.
abbrev pub object {ℓ} : {S : Type ℓ} → World S → ℕ → ℕ
object w cfg = table_fetch (table_get w) cfg

-- modperl_module_config_dir_create and _srv_create.
pub cfg_create {ℓ} : {S : Type ℓ} → World S → World S × ℕ
cfg_create w = (record w { cfgs = update w.cfgs w.fresh none; fresh = suc w.fresh }, w.fresh)

-- modperl_module_config_obj_cleanup_register, which is called unless the server starts.
abbrev pub cleanup_register {ℓ} : {S : Type ℓ} → Bool → ℕ → World S → World S
cleanup_register is_startup ptr w = record w {
  cleanups = if is_startup then w.cleanups else ptr ∷ w.cleanups;
}

-- modperl_module_config_obj_cleanup for each address, as the pool is cleared.
pub cleanup_loop : List ℕ → Table → Table
cleanup_loop [] table = table
cleanup_loop (ptr ∷ ptrs) table = cleanup_loop ptrs (table_delete table ptr).0

pub run_cleanups {ℓ} : {S : Type ℓ} → World S → World S
unfolding cleanup_loop
run_cleanups w = record w {
  config_table = some (cleanup_loop w.cleanups (table_get w));
  cleanups = [];
}

pub data MergeType : Type 0 where
  merge_dir merge_srv : MergeType

abbrev pub merge_method : MergeType → ModuleInfo → Option Symbol
merge_method merge_dir minfo = minfo.dir_merge
merge_method merge_srv minfo = minfo.srv_merge

module _ {ℓ} {S : Type ℓ} (calls : PerlCalls S) where
  -- `method && (gv = modperl_mgv_lookup(aTHX_ method))`.
  pub method_gv : S → Option Symbol → Option ℕ
  method_gv perl none = none
  method_gv perl (some method) = calls.mgv_lookup perl method

  -- What the method is to make of two objects; an exception is logged.
  pub merge_call : Option Symbol → ℕ → ℕ → S → S × ℕ
  unfolding method_gv
  merge_call method base_obj add_obj perl = elim (method_gv perl method) [
    | none ↦ (perl, add_obj)
    | some gv ↦
        let back = calls.call_sv perl gv (sv base_obj ∷ sv add_obj ∷ []) in
        (elim back.errsv [ none ↦ back.perl | some e ↦ calls.log_errsv back.perl ], back.value)
  ]

  -- The part behind the tests.
  pub merge_objs : Bool → Option Symbol → ℕ → ℕ → Used → World S → World S × ℕ
  unfolding merge_call
  merge_objs is_startup method base_obj add_obj used w =
      let mrg = w.fresh in
      let (perl, mrg_obj) = merge_call method base_obj add_obj w.perl in
      (
        cleanup_register is_startup mrg (record w {
          cfgs = update w.cfgs mrg (some used);
          fresh = suc w.fresh;
          config_table = some (table_store (table_get w) mrg mrg_obj);
          perl = perl;
        }),
        mrg,
      )

  -- The part behind `s = tmp->server`.
  pub merge_used : Bool → MergeType → ℕ → ℕ → Used → World S → World S × ℕ
  unfolding merge_objs
  merge_used is_startup type base add used w =
      let made = record w { config_table = some (table_get w) } in
      if object w base == 0 || (object w base == object w add)
      then (made, add)
      else merge_objs is_startup (merge_method type used.minfo) (object w base) (object w add) used
          made

  abbrev pub is_used : Option Used → Bool
  is_used none = false
  is_used (some used) = true

  -- The configuration that is read for the server: the base, if it has one.
  abbrev pub merge_tmp : ℕ → ℕ → World S → ℕ
  merge_tmp base add w = if not (base == 0) && is_used (w.cfgs base) then base else add

  -- `if (tmp && !tmp->server)`: without a directive of the module there is nothing to merge.
  pub merge_found : Bool → MergeType → ℕ → ℕ → World S → Option Used → World S × ℕ
  unfolding merge_used
  merge_found is_startup type base add w none = (w, base)
  merge_found is_startup type base add w (some used) = merge_used is_startup type base add used w

  -- modperl_module_config_merge; `none` where it would read through NULL.
  pub config_merge : Bool → MergeType → ℕ → ℕ → World S → Option (World S × ℕ)
  unfolding merge_found
  config_merge is_startup type base add w =
      let tmp = merge_tmp base add w in
      if tmp == 0 then none else some (merge_found is_startup type base add w (w.cfgs tmp))

  -- Behind the call of the method: the object is stored.
  pub create_store : Bool → ℕ → S → ℕ → World S → World S × ℕ × Option Name
  create_store is_startup cfg perl obj w = (
    record (cleanup_register is_startup cfg w) {
      config_table = some (table_store (table_get w) cfg obj);
      perl = perl;
    },
    obj,
    none,
  )

  -- modperl_module_config_create_obj: the object and the message. `mname` is the module's name.
  pub create_obj : Bool → Name → Used → ℕ → Option Symbol → World S → World S × ℕ × Option Name
  unfolding method_gv create_store
  create_obj is_startup mname used cfg method w =
      let found = object w cfg in
      let marked = record w { cfgs = update w.cfgs cfg (some used) } in
      let created : World S × ℕ × Option Name = elim (method_gv w.perl method) [
        | none ↦
            let (perl, obj) = calls.bless_new w.perl mname in
            create_store is_startup cfg perl obj marked
        | some gv ↦
            let back = calls.call_sv w.perl gv (text mname ∷ cmd_parms ∷ []) in
            elim back.errsv [
              | some e ↦ (record marked { perl = back.perl }, back.value, some e)
              | none ↦ create_store is_startup cfg back.perl back.value marked
            ]
      ] in
      if found == 0 then created else (w, found, none)
