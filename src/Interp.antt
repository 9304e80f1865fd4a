-- ===== src/Interp.antt =====
-- src/modules/perl/modperl_interp.c under threads: which interpreter a request, a connection or an
-- APR pool works with, and when it goes back to the pool of its server.
-- Interpreters are known by their addresses, the items of Tipool; an interpreter pool (`mip`), a Perl,
-- an APR pool and a request are known by theirs.
pub mod Select
pub mod Unselect
pub mod Walk
pub mod Vhost
use mod_perl.Prelude.{
  update, update_self, update_ne, ℕ, suc, ◌-◌, Bool, true, false, not, ◌&&◌, ◌||◌, Option, none,
  some, List, [], ◌∷◌, ◌==◌, if◌then◌else◌,
}
use mod_perl.Tipool.{Node, TipoolConfig, Tipool, Vtbl, pop_grow, pop_take, tipool_putback_data}

-- modperl_interp_scope_e.
pub data Scope : Type 0 where
  undef handler subrequest request connection : Scope

abbrev pub same_scope : Scope → Scope → Bool
same_scope undef undef = true
same_scope handler handler = true
same_scope subrequest subrequest = true
same_scope request request = true
same_scope connection connection = true
same_scope _ _ = false

-- modperl_interp_t. `in_use` and `putback` are its two flags that the code uses besides MpInterpBASE.
pub record Interp : Type 0 where
  pub mip : ℕ
  pub perl : ℕ
  pub num_requests : ℕ
  pub in_use : Bool
  pub putback : Bool
  pub request : Option ℕ
  pub refcnt : ℕ

-- What modperl_config_req_t has of it.
pub record ReqConfig : Type 0 where
  pub interp : Option ℕ
  pub cleanup_registered : Bool

-- modperl_config_srv_t, as far as it is used: its mip, the parent of that, and its scope.
pub record Server : Type 0 where
  pub mip : ℕ
  pub parent : ℕ
  pub interp_scope : Scope

-- request_rec: its pool, those of `main`, `main->main` and so on, that of its connection, and the
-- scope of its directory configuration, if it has one.
pub record Request : Type 0 where
  pub id : ℕ
  pub pool : ℕ
  pub mains : List ℕ
  pub connection_pool : ℕ
  pub dir_scope : Option Scope

-- All that the functions change: the pools of interpreters, the interpreters, the MODPERL_INTERP of
-- each APR pool, the interpreters that its end unselects, the configurations of the requests, the
-- interpreter noted in each Perl, and the Perl of the thread. An interpreter that a pool has not
-- made yet is zeroed memory.
pub record World : Type 0 where
  pub pools : ℕ → Tipool
  pub interps : ℕ → Interp
  pub userdata : ℕ → Option ℕ
  pub cleanups : ℕ → List ℕ
  pub rcfgs : ℕ → ReqConfig
  pub thx : ℕ → Option ℕ
  pub context : ℕ

-- The set-up: the configuration and functions of each pool, whether the MPM is threaded, and
-- modperl_config_request_cleanup of a request, which runs its cleanup handlers.
pub record Setup : Type 0 where
  pub cfg : ℕ → TipoolConfig
  pub func : ℕ → Vtbl
  pub threaded : Bool
  pub request_cleanup : ℕ → World → World

abbrev pub set_interp_at : World → ℕ → Interp → World
set_interp_at w i x = record w { interps = update w.interps i x }

abbrev pub set_pool_at : World → ℕ → Tipool → World
set_pool_at w mip tipool = record w { pools = update w.pools mip tipool }

pub pool_set : World → ℕ → ℕ → Bool → World
pool_set w p interp cleanup = record w {
  userdata = update w.userdata p (some interp);
  cleanups = if cleanup then update w.cleanups p (interp ∷ w.cleanups p) else w.cleanups;
}

module _ (setup : Setup) where
  -- modperl_tipool_pop; `none` where every item is in use and none may be added: there the thread
  -- waits.
  pub tipool_pop : ℕ → Tipool → Option (Tipool × Node)
  unfolding pop_grow pop_take
  tipool_pop mip tipool =
      let grown = pop_grow (setup.cfg mip) (setup.func mip) tipool in
      if grown.size == grown.in_use then none else pop_take (setup.cfg mip) (setup.func mip) grown

  -- The part behind modperl_tipool_pop.
  pub take_head : World → ℕ → Option (Tipool × Node) → Option (World × ℕ)
  take_head w mip none = none
  take_head w mip (some (tipool, head)) = some (
    set_interp_at (set_pool_at w mip tipool) head.item
        (record (w.interps head.item) { in_use = true }),
    head.item,
  )

  pub interp_get : World → Server → Option (World × ℕ)
  unfolding tipool_pop take_head
  interp_get w s = take_head w s.mip (tipool_pop s.mip (w.pools s.mip))

  -- The part of modperl_interp_unselect for an interpreter that no one else refers to, behind the
  -- cleanup of its request.
  pub give_back : World → ℕ → ℕ → World
  unfolding tipool_putback_data
  give_back w mip interp =
      let x = w.interps interp in
      let tipool = w.pools mip in
      set_pool_at
        (record w {
          interps = update w.interps interp (record x { in_use = false; putback = false });
          thx = update w.thx x.perl none;
        })
        mip (tipool_putback_data (setup.cfg mip) (setup.func mip) tipool interp x.num_requests)

  -- The cleanup of the request of an interpreter of handler scope.
  pub clean_request : World → Option ℕ → World
  clean_request w none = w
  clean_request w (some r) =
      let cleaned = setup.request_cleanup r w in
      record cleaned {
        rcfgs = update cleaned.rcfgs r (record (cleaned.rcfgs r) { cleanup_registered = false });
      }

  pub interp_unselect : World → ℕ → World
  unfolding give_back clean_request
  interp_unselect w interp =
      let x = w.interps interp in
      if not (x.refcnt == 0)
      then set_interp_at w interp (record x { refcnt = x.refcnt - 1 })
      else give_back (clean_request w x.request) x.mip interp

  -- The part of modperl_interp_pool_select behind modperl_interp_get.
  pub pool_got : ℕ → Option (World × ℕ) → Option (World × ℕ)
  unfolding pool_set
  pool_got p none = none
  pool_got p (some (w, interp)) = some (pool_set w p interp true, interp)

  -- The part for what modperl_interp_pool_get finds.
  pub pool_found : World → ℕ → Server → Option ℕ → Option (World × ℕ)
  unfolding pool_got interp_get
  pool_found w p s (some interp) = some (w, interp)
  pool_found w p s none = pool_got p (interp_get w s)

  -- For a server with its configuration and mip.
  pub pool_select : World → ℕ → Server → Bool → Option (World × ℕ)
  unfolding pool_found
  pool_select w p s is_startup =
      if is_startup || not setup.threaded
      then some (w, s.parent)
      else pool_found w p s (w.userdata p)
