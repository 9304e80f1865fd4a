-- ===== src/Module/Tests.antt =====
-- A module with a DIR_MERGE that gives the sum of two objects; the state of Perl counts the calls.
use mod_perl.Prelude.{
  ℕ, suc, ◌+◌, ◌≡◌, refl, true, false, none, some, List, [], ◌∷◌, ◌==◌, if◌then◌else◌, arith,
  update,
}
use mod_perl.Mgv.{Name, Symbol, same_name}
use mod_perl.SvptrTable.{Table, table_new, table_store}
use mod_perl.SvptrTable.Valid.{IsValid}
use mod_perl.SvptrTable.Fetch.{table_new_lem, fetch-store}
use mod_perl.Module.{
  PerlCalls, Arg, sv, World, Used, ModuleInfo, object, create_obj, run_cleanups, cfg_create,
}
use mod_perl.Module.Create.{create_obj_again}
use mod_perl.Module.Requests.{made, created, Reachable, here, next, IsWorld, object-run_cleanups}
use mod_perl.Module.Command.{EntryCalls, Entry, hash, other, take1, not_entry}
use mod_perl.Module.Directive.{Met, module_cmd_take123, behind_dir, module_cmd_take123_lem}
use mod_perl.Module.Add.{Loader, module_add}

abbrev merge_symbol : Symbol
merge_symbol = record { name = b'm' ∷ []; hash = 7 } ∷ []

abbrev my_module : ModuleInfo
my_module = record {
  dir_create = none;
  dir_merge = some merge_symbol;
  srv_create = none;
  srv_merge = none;
  namelen = 1;
}

abbrev on_server : Used
on_server = record { server = 90; minfo = my_module }

abbrev sum_of : List Arg → ℕ
sum_of (sv a ∷ (sv b ∷ [])) = a + b
sum_of _ = 0

abbrev counting : PerlCalls ℕ
counting = record {
  mgv_lookup = λ perl symbol. some 5;
  call_sv = λ perl gv args. record { perl = suc perl; value = sum_of args; errsv = none };
  call_method = λ perl name args. record { perl = suc perl; value = 0; errsv = some name };
  bless_new = λ perl class. (perl, 60);
  log_errsv = λ perl. perl;
  sv_text = λ perl val. none;
}

-- The base has the object 30 and the section the object 12.
abbrev two_objects : Table
two_objects = table_store (table_store table_new 1 30) 2 12

two_objects-IsValid : IsValid two_objects
two_objects-IsValid = (fetch-store _ 2 12 (fetch-store table_new 1 30 table_new_lem.0).0).0

abbrev configured : World ℕ
configured = record {
  cfgs = λ cfg. if cfg == 3 then none else some on_server;
  fresh = 4;
  config_table = some two_objects;
  cleanups = [];
  perl = 0;
}

object_of_configured :
    (j : ℕ) → object configured j ≡ (if 2 == j then 12 else if 1 == j then 30 else 0)
object_of_configured j =
    let first = fetch-store table_new 1 30 table_new_lem.0 in
    let second = fetch-store (table_store table_new 1 30) 2 12 first.0 in
    ground (arith, second.1 j, first.1 j, table_new_lem.1 j)

configured-IsWorld : IsWorld configured
configured-IsWorld = record {
  valid = two_objects-IsValid;
  beyond = λ j h. ground (arith, object_of_configured j, h);
}

-- A request makes a configuration and an object for an older one.
abbrev served : World ℕ
served = (create_obj counting false (b'M' ∷ []) on_server 3 none (cfg_create configured).0).0

served-Reachable : Reachable counting configured served
served-Reachable =
    next (next here made)
      (created (b'M' ∷ []) on_server 3 none (unfold cfg_create in omega arith) refl)

object-run_cleanups_example : object (run_cleanups served) 3 ≡ object configured 3
object-run_cleanups_example =
    object-run_cleanups counting 3 configured-IsWorld refl served-Reachable

-- Nothing has been met yet, and there is no table.
abbrev untouched : World ℕ
untouched = record { cfgs = λ cfg. none; fresh = 4; config_table = none; cleanups = []; perl = 0 }

abbrev first_directive : World ℕ
first_directive = record {
  cfgs = update untouched.cfgs 3 (some on_server);
  fresh = 4;
  config_table = some (table_store table_new 3 60);
  cleanups = [];
  perl = 0;
}

first_created :
    create_obj counting true (b'M' ∷ []) on_server 3 none untouched ≡ (first_directive, 60, none)
unfolding create_obj
first_created = rw (table_new_lem.1 3) refl

create_obj_again_example :
    create_obj counting true (b'M' ∷ []) on_server 3 (some merge_symbol) first_directive
    ≡ (first_directive, 60, none)
create_obj_again_example =
    create_obj_again counting (b'M' ∷ []) true true on_server on_server 3 60 none
      (some merge_symbol) untouched first_directive table_new_lem.0 first_created (omega arith)

-- A directive of a virtual host that has no table of modules of its own yet; its method dies.
abbrev met : Met
met = record {
  is_virtual = true;
  is_startup = true;
  mname = b'M' ∷ [];
  used = on_server;
  func_name = b'F' ∷ [];
  takes_args = true;
  cfg = 3;
  srv_cfg = none;
  base_modules = some 8;
  decline_cmd = 7 ∷ (8 ∷ []);
}

-- It is made an object, 60, in front of the call.
module_cmd_take123_lem_example :
    module_cmd_take123 counting met ((b'a' ∷ []) ∷ []) untouched (some none)
    ≡ behind_dir counting met
        ((b'a' ∷ []) ∷ [])
        (some none)
        (create_obj counting true (b'M' ∷ []) on_server 3 none untouched)
module_cmd_take123_lem_example =
    module_cmd_take123_lem counting met ((b'a' ∷ []) ∷ []) untouched (some none)

-- An entry that has only a name.
abbrev entry_calls : EntryCalls ℕ
entry_calls = record {
  call_method = λ perl name obj. record { perl = suc perl; value = 0; errsv = none };
  is_true = λ perl val. true;
  sv_pv = λ perl val. val ∷ [];
  sv_iv = λ perl val. some val;
  apache2_const = λ name. 0;
  cmd_how = λ n. take1;
  or_all = 31;
}

abbrev one_name : List Entry
one_name =
    hash (λ key. if same_name key (b'n' ∷ b'a' ∷ b'm' ∷ b'e' ∷ []) then some b'F' else none) ∷ []

abbrev loader : Loader
loader = record {
  mods = λ modp. none;
  fresh = 5;
  next = 2 ∷ [];
  loaded = 2 ∷ [];
  removals = [];
  modules = none;
  pool_interp = none;
  parent = 1;
}

abbrev perl_hash : Name → ℕ
perl_hash name = 7

-- An entry that is no object and no hash stops it.
not_added :
    module_add entry_calls
      (λ perl name method. true)
      perl_hash
      0
      (b'M' ∷ [])
      (other ∷ one_name)
      loader
    ≡ (0, loader, some not_entry)
unfolding module_add
not_added = refl
