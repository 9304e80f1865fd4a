-- ===== src/Interp/Select/Tests.antt =====
-- A server with one interpreter, a request and its subrequest.
use mod_perl.Prelude.{ℕ, ◌≡◌, refl, true, false, none, some, [], ◌∷◌, arith}
use mod_perl.Tipool.{Node, Tipool, pop_grow, pop_take, tipool_putback_data}
use mod_perl.Interp.{
  undef, request, Interp, Server, Request, World, Setup, set_interp_at, set_pool_at, tipool_pop,
  take_head, interp_get, interp_unselect,
}
use mod_perl.Interp.Unselect.{unselects, interp_unselect-unselects}
use mod_perl.Interp.Walk.{Mip}
use mod_perl.Interp.Vhost.{Vhost, Startup, init_vhost, SharesOne, SharesOne-init_vhost}
use mod_perl.Interp.Select.{
  interp_select, select_threaded, select_found, select_got, select_new, pool_lookup, else_lookup,
  request_lookup, connection_lookup, select_scope,
}
use mod_perl.Interp.Select.Again.{interp_select_again}
use mod_perl.Interp.Select.Shared.{interp_select-IsSubrequest}

abbrev one_node : Node
one_node = record { addr = 1; item = 10 }

abbrev one_idle : Tipool
one_idle = record { idle = one_node ∷ []; busy = []; in_use = 0; size = 1; fresh = 2 }

abbrev one_busy : Tipool
one_busy = record { idle = []; busy = one_node ∷ []; in_use = 1; size = 1; fresh = 2 }

abbrev setup : Setup
setup = record {
  cfg = λ mip. record { start = 1; min_spare = 1; max_spare = 3; max = 3; max_requests = 2000 };
  func = λ mip. record { sgrow = λ p. 10; rgrow = none };
  threaded = true;
  request_cleanup = λ r w. w;
}

abbrev unused_interp : Interp
unused_interp = record {
  mip = 0;
  perl = 20;
  num_requests = 0;
  in_use = false;
  putback = false;
  request = none;
  refcnt = 0;
}

abbrev idle_world : World
idle_world = record {
  pools = λ mip. one_idle;
  interps = λ a. unused_interp;
  userdata = λ p. none;
  cleanups = λ p. [];
  rcfgs = λ r. record { interp = none; cleanup_registered = false };
  thx = λ perl. none;
  context = 0;
}

abbrev server : Server
server = record { mip = 0; parent = 9; interp_scope = request }

abbrev main_request : Request
main_request = record {
  id = 1;
  pool = 100;
  mains = [];
  connection_pool = 99;
  dir_scope = some undef;
}

abbrev sub_request : Request
sub_request = record {
  id = 2;
  pool = 101;
  mains = 100 ∷ [];
  connection_pool = 99;
  dir_scope = none;
}

-- The world once the interpreter at 10 was popped, and once it was selected.
abbrev popped_world : World
popped_world =
    set_interp_at (set_pool_at idle_world 0 one_busy) 10 (record unused_interp { in_use = true })

abbrev selected_world : World
selected_world = (select_new popped_world (some main_request) request (some 100) 10).0

selects :
    interp_select setup idle_world (some main_request) none server ≡ some (selected_world, some 10)
unfolding interp_select select_threaded select_found select_got select_new pool_lookup else_lookup
    request_lookup connection_lookup select_scope interp_get take_head tipool_pop pop_grow pop_take
selects = refl

interp_select_again_example :
    interp_select setup selected_world (some main_request) none server
    ≡ some (selected_world, some 10)
unfolding select_scope
interp_select_again_example =
    interp_select_again setup idle_world selected_world (some main_request) none server 10 refl
      selects

interp_select-IsSubrequest_example :
    interp_select setup selected_world (some sub_request) none server
    ≡ some (selected_world, some 10)
unfolding select_scope
interp_select-IsSubrequest_example =
    interp_select-IsSubrequest setup idle_world selected_world main_request sub_request none server
      10 refl (refl, refl, refl) refl refl refl refl selects

-- An interpreter that two others hold as well.
abbrev held_world : World
held_world = set_interp_at popped_world 10 (record unused_interp { in_use = true; refcnt = 2 })

interp_unselect-unselects_example :
    let held = unselects setup 2 held_world 10 in
    let freed = interp_unselect setup held 10 in
    (held.pools ≡ held_world.pools)
    × ((held.interps 10).in_use ≡ true)
    × (freed.pools 0 ≡ tipool_putback_data (setup.cfg 0) (setup.func 0) one_busy 10 0)
    × ((freed.interps 10).in_use ≡ false)
    × (freed.thx 20 ≡ none)
interp_unselect-unselects_example = interp_unselect-unselects setup held_world 10 refl

-- A main server and two hosts, of which one shares its pool.
abbrev main_mip : Mip
main_mip = record { addr = 1; parent_perl = 20; idle_perls = 21 ∷ 22 ∷ [] }

abbrev host_mip : Mip
host_mip = record { addr = 2; parent_perl = 30; idle_perls = 31 ∷ [] }

-- A host that asks for a pool of its own and loads one module.
abbrev cloned_host : Vhost
cloned_host = record {
  mip = none;
  is_virtual = true;
  enable = true;
  parent = false;
  clone = true;
  perl_require = [];
  perl_module = (b'A' ∷ []) ∷ [];
}

abbrev starting : Startup ℕ
starting = record {
  startup = host_mip;
  interp_init = record { addr = 3; parent_perl = 20; idle_perls = [] };
  require_file = λ perl name. (perl, true);
  require_module = λ perl name. (perl, true);
}

cloned_runs : (init_vhost starting main_mip cloned_host 0).0 ≡ some starting.interp_init
unfolding init_vhost
cloned_runs = refl

cloned_host-SharesOne : SharesOne starting main_mip (init_vhost starting main_mip cloned_host 0).0
cloned_host-SharesOne =
    SharesOne-init_vhost starting main_mip cloned_host 0 (λ e. refl)
      (λ e. absurd (ground (arith, e))) tt
