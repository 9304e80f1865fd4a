-- ===== src/Interp/Select.antt =====
-- modperl_interp_select: the search for an interpreter, and the choice of a new one.
pub mod Lookup
pub mod Again
pub mod Shared
pub mod Tests
use mod_perl.Prelude.{
  update, update_self, update_ne, ℕ, suc, Bool, true, false, not, ◌&&◌, Option, none, some, List,
  [], ◌∷◌, if◌then◌else◌,
}
use mod_perl.Interp.{
  Scope, undef, handler, request, connection, same_scope, Interp, ReqConfig, Server, Request, World,
  Setup, set_interp_at, pool_set, interp_get,
}

-- The scope: that of the directory, if it has one, else that of the server for a request.
pub select_scope : Server → Option Request → Scope
select_scope s none = connection
select_scope s (some r) = elim r.dir_scope [
  | none ↦ s.interp_scope
  | some scope ↦ if same_scope scope undef then s.interp_scope else scope
]

-- The loop over the main requests: what was found, and the pool that was asked last.
pub main_lookup : (ℕ → Option ℕ) → List ℕ → Option ℕ → Option ℕ × Option ℕ
main_lookup userdata [] p = (none, p)
main_lookup userdata (main_pool ∷ mains) p = elim (userdata main_pool) [
  | some interp ↦ (some interp, some main_pool)
  | none ↦ main_lookup userdata mains (some main_pool)
]

-- `r->main`, for the main requests of `r`.
abbrev pub is_subrequest : List ℕ → Bool
is_subrequest [] = false
is_subrequest (main_pool ∷ mains) = true

-- The search for a request in its pool or in those of its main requests.
pub request_lookup : (ℕ → Option ℕ) → Request → Scope → Option ℕ × Option ℕ
unfolding main_lookup
request_lookup userdata r scope =
    if is_subrequest r.mains && same_scope scope request
    then main_lookup userdata r.mains none
    else (userdata r.pool, some r.pool)

-- The search goes on in the pool of the request's connection, where a handler for connections may
-- have set it.
pub connection_lookup : (ℕ → Option ℕ) → Request → Option ℕ × Option ℕ → Option ℕ × Option ℕ
connection_lookup userdata r (some interp, p) = (some interp, p)
connection_lookup userdata r (none, p) = (userdata r.connection_pool, p)

-- `else if (r)`.
pub else_lookup : (ℕ → Option ℕ) → Option Request → Scope → Option ℕ × Option ℕ
unfolding request_lookup connection_lookup
else_lookup userdata none scope = (none, none)
else_lookup userdata (some r) scope = connection_lookup userdata r (request_lookup userdata r scope)

-- The search behind the configuration of the request: what was found, and `p`. The connection is
-- given by its pool.
pub pool_lookup : (ℕ → Option ℕ) → Option Request → Option ℕ → Scope → Option ℕ × Option ℕ
unfolding else_lookup
pool_lookup userdata r none scope = else_lookup userdata r scope
pool_lookup userdata r (some c) scope =
    if same_scope scope connection then (userdata c, some c) else else_lookup userdata r scope

-- `interp->request` and the registration of the cleanup, for handler scope.
pub hold_for_handler : World → Option Request → ℕ → World
hold_for_handler w none interp =
    set_interp_at w interp (record (w.interps interp) { request = none; putback = true })
hold_for_handler w (some r) interp =
    record (set_interp_at w interp
      (record (w.interps interp) { request = some r.id; putback = true })) {
        rcfgs = update w.rcfgs r.id (record (w.rcfgs r.id) { cleanup_registered = true });
      }

-- PERL_SET_CONTEXT and modperl_thx_interp_set.
pub set_context : World → ℕ → World
set_context w interp = record w {
  thx = update w.thx (w.interps interp).perl (some interp);
  context = (w.interps interp).perl;
}

-- The part for the other scopes: no pool, no result.
pub note_in_pool : World → Option ℕ → ℕ → World × Option ℕ
unfolding pool_set set_context
note_in_pool w none interp = (w, none)
note_in_pool w (some pool) interp = (set_context (pool_set w pool interp true) interp, some interp)

-- The part behind modperl_interp_get, for the interpreter `interp`. The second part of the result
-- is what the function returns.
pub select_new : World → Option Request → Scope → Option ℕ → ℕ → World × Option ℕ
unfolding note_in_pool hold_for_handler set_context
select_new w r scope p interp =
    let x = w.interps interp in
    let counted = set_interp_at w interp (record x { num_requests = suc x.num_requests }) in
    if same_scope scope handler
    then (set_context (hold_for_handler counted r interp) interp, some interp)
    else note_in_pool counted p interp

-- `rcfg->interp`, where there is a request.
abbrev pub request_interp : World → Option Request → Option ℕ
request_interp w none = none
request_interp w (some r) = (w.rcfgs r.id).interp

-- The part behind modperl_interp_get, for its result.
pub select_got : Option Request → Scope → Option ℕ → Option (World × ℕ) → Option (World × Option ℕ)
unfolding select_new
select_got r scope p none = none
select_got r scope p (some (w, interp)) = some (select_new w r scope p interp)

module _ (setup : Setup) where
  -- The part behind the search, for what was found and the pool `p`.
  pub select_found :
      World → Option Request → Server → Option ℕ × Option ℕ → Option (World × Option ℕ)
  unfolding select_got select_scope interp_get
  select_found w r s (some interp, p) = some (w, some interp)
  select_found w r s (none, p) = select_got r (select_scope s r) p (interp_get setup w s)

  -- The part behind the test of the MPM, for `rcfg->interp`.
  pub select_threaded :
      World → Option Request → Option ℕ → Server → Option ℕ → Option (World × Option ℕ)
  unfolding select_found pool_lookup select_scope
  select_threaded w r c s (some interp) = some (w, some interp)
  select_threaded w r c s none = select_found w r s (pool_lookup w.userdata r c (select_scope s r))

  -- `none` where the thread waits for an interpreter.
  pub interp_select : World → Option Request → Option ℕ → Server → Option (World × Option ℕ)
  unfolding select_threaded
  interp_select w r c s =
      if not setup.threaded
      then some (record w { context = (w.interps s.parent).perl }, some s.parent)
      else select_threaded w r c s (request_interp w r)
