-- ===== src/Interp/Select/Shared.antt =====
-- A subrequest works with the interpreter of its main request.
use mod_perl.Prelude.{
  ℕ, ◌≡◌, refl, sym, ap, ◌∙◌, true, false, not, ◌&&◌, Option, none, some, [], ◌∷◌, if_true,
  if_false, Option-cases, inl, inr,
}
use mod_perl.Interp.{request, handler, same_scope, Server, Request, World, Setup}
use mod_perl.Interp.Select.{
  select_scope, main_lookup, is_subrequest, request_lookup, connection_lookup, else_lookup,
  pool_lookup, interp_select, select_threaded, request_interp,
}
use mod_perl.Interp.Select.Again.{select_found-found, select_found-some, request_interp_frame}

main_lookup_one :
    (userdata : ℕ → Option ℕ) (m : ℕ) → main_lookup userdata (m ∷ []) none ≡ (userdata m, some m)
unfolding main_lookup
main_lookup_one userdata m = elim (Option-cases (userdata m)) [
  | inl e ↦ rw (e, main_lookup) refl
  | inr (i, e) ↦ rw (e, main_lookup) refl
]

module _ (m r : Request) where
  -- `r` is a subrequest of the request `m`, which is none.
  abbrev pub IsSubrequest : Type 0
  IsSubrequest = (m.mains ≡ []) × (r.mains ≡ m.pool ∷ []) × (r.connection_pool ≡ m.connection_pool)

  request_lookup-IsSubrequest :
      (userdata : ℕ → Option ℕ)
      → IsSubrequest
      → request_lookup userdata r request ≡ request_lookup userdata m request
  unfolding request_lookup
  request_lookup-IsSubrequest userdata (main, sub, conn) =
      let top : (is_subrequest m.mains && true) ≡ false =
        ap (λ ms. is_subrequest ms && true) main in
      let below : (is_subrequest r.mains && true) ≡ true =
        ap (λ ms. is_subrequest ms && true) sub in
      if_true _ _ _ below
      ∙ ap (λ ms. main_lookup userdata ms none) sub
      ∙ main_lookup_one userdata m.pool
      ∙ sym (if_false _ _ _ top)

  connection_lookup_same :
      (userdata : ℕ → Option ℕ) (found : Option ℕ × Option ℕ)
      → r.connection_pool ≡ m.connection_pool
      → connection_lookup userdata r found ≡ connection_lookup userdata m found
  unfolding connection_lookup
  connection_lookup_same userdata (some interp, p) h = refl
  connection_lookup_same userdata (none, p) h = ap (λ c. (userdata c, p)) h

  else_lookup-IsSubrequest :
      (userdata : ℕ → Option ℕ)
      → IsSubrequest
      → else_lookup userdata (some r) request ≡ else_lookup userdata (some m) request
  unfolding else_lookup
  else_lookup-IsSubrequest userdata (main, sub, conn) =
      connection_lookup_same userdata (request_lookup userdata r request) conn
      ∙ ap (connection_lookup userdata m) (request_lookup-IsSubrequest userdata (main, sub, conn))

  pool_lookup-IsSubrequest :
      (userdata : ℕ → Option ℕ) (c : Option ℕ)
      → IsSubrequest
      → pool_lookup userdata (some r) c request ≡ pool_lookup userdata (some m) c request
  unfolding pool_lookup
  pool_lookup-IsSubrequest userdata none h = else_lookup-IsSubrequest userdata h
  pool_lookup-IsSubrequest userdata (some c) h = else_lookup-IsSubrequest userdata h

module _ (setup : Setup) where
  -- Under a threaded MPM, where a request and its subrequest have the scope of requests and no
  -- interpreter of their own, the subrequest gets the interpreter that the request selected, and
  -- this changes nothing more.
  pub interp_select-IsSubrequest :
      (w w' : World) (m r : Request) (c : Option ℕ) (s : Server) (interp : ℕ)
      → not setup.threaded ≡ false
      → IsSubrequest m r
      → select_scope s (some m) ≡ request
      → select_scope s (some r) ≡ request
      → request_interp w (some m) ≡ none
      → request_interp w (some r) ≡ none
      → interp_select setup w (some m) c s ≡ some (w', some interp)
      → interp_select setup w' (some r) c s ≡ some (w', some interp)
  unfolding interp_select select_threaded
  interp_select-IsSubrequest w w' m r c s interp threads sub scope_m scope_r own_m own_r h =
      let chosen =
        sym (if_false _ _ _ threads ∙ ap (select_threaded setup w (some m) c s) own_m) ∙ h in
      let plain : same_scope (select_scope s (some m)) handler ≡ false =
        ap (λ scope. same_scope scope handler) scope_m in
      let (configs, found) =
        select_found-found setup w w' (some m) c s
          (pool_lookup w.userdata (some m) c (select_scope s (some m))) interp plain refl chosen in
      let own = request_interp_frame setup w w' (some r) configs ∙ own_r in
      let found_r =
        ap (λ scope. (pool_lookup w'.userdata (some r) c scope).0) scope_r
        ∙ ap (λ q. q.0) (pool_lookup-IsSubrequest m r w'.userdata c sub)
        ∙ ap (λ scope. (pool_lookup w'.userdata (some m) c scope).0) (sym scope_m)
        ∙ found in
      if_false _ _ _ threads
      ∙ ap (select_threaded setup w' (some r) c s) own
      ∙ select_found-some setup w' (some r) s
          (pool_lookup w'.userdata (some r) c (select_scope s (some r))) interp found_r
