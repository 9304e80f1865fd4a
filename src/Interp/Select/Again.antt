-- ===== src/Interp/Select/Again.antt =====
-- A second selection for the same request and connection.
use mod_perl.Prelude.{
  update, ℕ, ◌≡◌, refl, sym, ap, ◌∙◌, false, not, Option, none, some, Bool-cases, inl, inr,
  some_injective, if_true, if_false, arith,
}
use mod_perl.Tipool.{Node, Tipool}
use mod_perl.Interp.{
  take_head, tipool_pop, Scope, handler, same_scope, Server, Request, World, Setup, pool_set,
  interp_get,
}
use mod_perl.Interp.Select.{
  select_scope, pool_lookup, select_new, select_found, select_got, select_threaded, interp_select,
  request_interp, note_in_pool, set_context,
}
use mod_perl.Interp.Select.Lookup.{pool_lookup-update}

module _ (setup : Setup) where
  -- interp_get looks at no pool of APR and at no request.
  take_head_frame :
      (w w' : World) (mip : ℕ) (taken : Option (Tipool × Node)) (interp : ℕ)
      → take_head setup w mip taken ≡ some (w', interp)
      → (w'.userdata ≡ w.userdata) × (w'.rcfgs ≡ w.rcfgs)
  unfolding take_head
  take_head_frame w w' mip none interp h = absurd (ground (arith, h))
  take_head_frame w w' mip (some (tipool, head)) interp h =
      let same = some_injective _ _ h in
      (ap (λ q. q.0.userdata) (sym same), ap (λ q. q.0.rcfgs) (sym same))

  select_new_frame :
      (w w' : World) (r : Option Request) (scope : Scope) (p : Option ℕ) (new interp : ℕ)
      → same_scope scope handler ≡ false
      → select_new w r scope p new ≡ (w', some interp)
      → (pool : ℕ) × (p ≡ some pool)
        × (w'.rcfgs ≡ w.rcfgs)
        × (w'.userdata ≡ update w.userdata pool (some interp))
  unfolding select_new note_in_pool pool_set set_context
  select_new_frame w w' r scope none new interp e h =
      let none_set = sym (if_false _ _ _ e) ∙ h in absurd (ground (arith, ap (λ q. q.1) none_set))
  select_new_frame w w' r scope (some pool) new interp e h =
      let set = sym (if_false _ _ _ e) ∙ h in
      let same : new ≡ interp = some_injective _ _ (ap (λ q. q.1) set) in
      (
        pool,
        refl,
        ap (λ q. q.0.rcfgs) (sym set),
        ap (λ q. q.0.userdata) (sym set) ∙ ap (λ i. update w.userdata pool (some i)) same,
      )

  select_got-found :
      (w w' : World) (got : Option (World × ℕ)) (r : Option Request) (c : Option ℕ) (s : Server)
      (p : Option ℕ) (interp : ℕ)
      → same_scope (select_scope s r) handler ≡ false
      → interp_get setup w s ≡ got
      → pool_lookup w.userdata r c (select_scope s r) ≡ (none, p)
      → select_got r (select_scope s r) p got ≡ some (w', some interp)
      → (w'.rcfgs ≡ w.rcfgs) × ((pool_lookup w'.userdata r c (select_scope s r)).0 ≡ some interp)
  unfolding select_got interp_get
  select_got-found w w' none r c s p interp e g f h = absurd (ground (arith, h))
  select_got-found w w' (some (got, new)) r c s p interp e g f h =
      let (data_, configs) =
        take_head_frame w got s.mip (tipool_pop setup s.mip (w.pools s.mip)) new g in
      let (pool, asked, configs', data') =
        select_new_frame got w' r (select_scope s r) p new interp e (some_injective _ _ h) in
      let noted : w'.userdata ≡ update w.userdata pool (some interp) =
        data' ∙ ap (λ d. update d pool (some interp)) data_ in
      let unfound = f ∙ ap (λ q. (none, q)) asked in
      (
        configs' ∙ configs,
        ap (λ d. (pool_lookup d r c (select_scope s r)).0) noted
            ∙ pool_lookup-update w.userdata r c (select_scope s r) pool interp unfound,
      )

  -- After a selection by the search, the request still has no interpreter of its own, and the search
  -- finds the one that was selected.
  pub select_found-found :
      (w w' : World) (r : Option Request) (c : Option ℕ) (s : Server) (found : Option ℕ × Option ℕ)
      (interp : ℕ)
      → same_scope (select_scope s r) handler ≡ false
      → pool_lookup w.userdata r c (select_scope s r) ≡ found
      → select_found setup w r s found ≡ some (w', some interp)
      → (w'.rcfgs ≡ w.rcfgs) × ((pool_lookup w'.userdata r c (select_scope s r)).0 ≡ some interp)
  unfolding select_found
  select_found-found w w' r c s (some old, p) interp e f h =
      let same = some_injective _ _ h in
      (
        ap (λ q. q.0.rcfgs) (sym same),
        ap (λ q. (pool_lookup q.0.userdata r c (select_scope s r)).0) (sym same)
            ∙ ap (λ q. q.0) f
            ∙ ap (λ q. q.1) same,
      )
  select_found-found w w' r c s (none, p) interp e f h =
      select_got-found w w' (interp_get setup w s) r c s p interp e refl f h

  pub select_found-some :
      (w : World) (r : Option Request) (s : Server) (found : Option ℕ × Option ℕ) (interp : ℕ)
      → found.0 ≡ some interp
      → select_found setup w r s found ≡ some (w, some interp)
  unfolding select_found
  select_found-some w r s (found, p) interp h = ap (λ f. select_found setup w r s (f, p)) h

  pub request_interp_frame :
      (w w' : World) (r : Option Request)
      → w'.rcfgs ≡ w.rcfgs
      → request_interp w' r ≡ request_interp w r
  request_interp_frame w w' none h = refl
  request_interp_frame w w' (some r) h = ap (λ configs. (configs r.id).interp) h

  select_threaded_again :
      (w w' : World) (own : Option ℕ) (r : Option Request) (c : Option ℕ) (s : Server) (interp : ℕ)
      → same_scope (select_scope s r) handler ≡ false
      → request_interp w r ≡ own
      → select_threaded setup w r c s own ≡ some (w', some interp)
      → select_threaded setup w' r c s (request_interp w' r) ≡ some (w', some interp)
  unfolding select_threaded
  select_threaded_again w w' (some old) r c s interp e o h =
      let same = some_injective _ _ h in
      let kept : request_interp w' r ≡ some interp =
        ap (λ q. request_interp q.0 r) (sym same) ∙ o ∙ ap (λ q. q.1) same in
      ap (select_threaded setup w' r c s) kept
  select_threaded_again w w' none r c s interp e o h =
      let (configs, found) =
        select_found-found w w' r c s (pool_lookup w.userdata r c (select_scope s r)) interp e refl
          h in
      ap (select_threaded setup w' r c s) (request_interp_frame w w' r configs ∙ o)
      ∙ select_found-some w' r s (pool_lookup w'.userdata r c (select_scope s r)) interp found

  -- Where the scope is not that of a handler, a selection that gave an interpreter gives the same
  -- one when it is made again for the same request, connection and server, and changes nothing
  -- more.
  pub interp_select_again :
      (w w' : World) (r : Option Request) (c : Option ℕ) (s : Server) (interp : ℕ)
      → same_scope (select_scope s r) handler ≡ false
      → interp_select setup w r c s ≡ some (w', some interp)
      → interp_select setup w' r c s ≡ some (w', some interp)
  unfolding interp_select
  interp_select_again w w' r c s interp e h = elim (Bool-cases (not setup.threaded)) [
    | inl single ↦
        let same = some_injective _ _ (sym (if_true _ _ _ single) ∙ h) in
        if_true _ _ _ single
        ∙ ap (λ q. some (record q.0 { context = (q.0.interps s.parent).perl }, some s.parent))
            (sym same)
        ∙ ap some same
    | inr threads ↦
        if_false _ _ _ threads
        ∙ select_threaded_again w w' (request_interp w r) r c s interp e refl
            (sym (if_false _ _ _ threads) ∙ h)
  ]
