-- ===== src/Env/Request.antt =====
-- The environment of a request: which table wins, and what is left behind.
use mod_perl.Prelude.{
  ◌≡◌, refl, sym, ap, ◌∙◌, true, false, ◌&&◌, Option, none, List, [], ◌∷◌, if◌then◌else◌, if_true,
  if_false, Bool-cases, inl, inr, arith,
}
use mod_perl.Mgv.{Name, same_name}
use mod_perl.Hash.{Hash}
use mod_perl.AprTable.{AprTable, last_value, or_later}
use mod_perl.Env.{
  EnvRequest, is_empty, table_populate, table_unpopulate, add_table, configure_request_srv,
  configure_request_dir, request_populate, request_unpopulate,
}
use mod_perl.Env.Populate.{
  is_listed, env_get, env_get-populate_loop, env_get-unpopulate_loop, last_value-is_listed,
}

module _ (H : Hash) (t : AprTable) where
  -- A variable of a request.
  abbrev pub variable : EnvRequest H t → Name → Option Name
  variable r key = env_get H r.env.table key

  -- The last value of a variable in a table.
  abbrev pub setting : t.Table → Name → Option Name
  setting table key = last_value same_name (t.elts table) key

  -- Nothing is set by an empty table.
  setting_empty :
      (es : List (Name × Name)) (key : Name)
      → is_empty H t es ≡ true
      → last_value same_name es key ≡ none
  setting_empty [] key h = refl
  setting_empty (e ∷ es) key h = absurd (ground (arith, h))

  variable-add_table :
      (r : EnvRequest H t) (table : t.Table) (key : Name)
      → variable (add_table H t r table) key ≡ or_later (variable r key) (setting table key)
  unfolding add_table table_populate
  variable-add_table r table key = elim (Bool-cases (is_empty H t (t.elts table))) [
    | inl e ↦
        ap (λ r. variable r key) (if_true _ _ _ e)
        ∙ sym (ap (or_later (variable r key)) (setting_empty (t.elts table) key e))
    | inr e ↦
        ap (λ r. variable r key) (if_false _ _ _ e)
        ∙ env_get-populate_loop H (t.elts table) r.env.table key
  ]

  variable-configure_request_dir :
      (r : EnvRequest H t) (table : t.Table) (key : Name)
      → variable (configure_request_dir H t r table) key
        ≡ or_later (variable r key) (setting table key)
  unfolding configure_request_dir table_populate
  variable-configure_request_dir r table key = elim (Bool-cases (is_empty H t (t.elts table))) [
    | inl e ↦
        ap (λ (r : EnvRequest H t). variable r key) (if_true _ _ _ e)
        ∙ sym (ap (or_later (variable r key)) (setting_empty (t.elts table) key e))
    | inr e ↦
        ap (λ (r : EnvRequest H t). variable r key) (if_false _ _ _ e)
        ∙ env_get-populate_loop H (t.elts table) r.env.table key
  ]

  -- For a request that was configured for its server and then for its directory, a variable has the
  -- value of the directory's PerlSetEnv, else that of PerlPassEnv, else that of the server's
  -- PerlSetEnv, else the one it had.
  pub configure_request_lem :
      (r : EnvRequest H t) (set_env pass_env dir_env : t.Table) (key : Name)
      → variable
          (configure_request_dir H t (configure_request_srv H t r set_env pass_env) dir_env)
          key
        ≡ or_later
            (or_later (or_later (variable r key) (setting set_env key)) (setting pass_env key))
            (setting dir_env key)
  unfolding configure_request_srv
  configure_request_lem r set_env pass_env dir_env key =
      variable-configure_request_dir (configure_request_srv H t r set_env pass_env) dir_env key
      ∙ ap (λ o. or_later o (setting dir_env key))
          (variable-add_table (add_table H t r set_env) pass_env key
            ∙ ap (λ o. or_later o (setting pass_env key)) (variable-add_table r set_env key))

  unlisted :
      (es : List (Name × Name)) (key : Name) (old : Option Name)
      → (if is_listed es key then none else or_later old (last_value same_name es key))
        ≡ (if is_listed es key then none else old)
  unlisted es key old = elim (Bool-cases (is_listed es key)) [
    | inl e ↦ if_true _ _ _ e ∙ sym (if_true _ _ _ e)
    | inr e ↦
        if_false _ _ _ e
        ∙ ap (or_later old) (last_value-is_listed H es key e)
        ∙ sym (if_false _ _ _ e)
  ]

  pub variable-request_unpopulate :
      (r : EnvRequest H t) (key : Name)
      → variable (request_unpopulate H t r) key
        ≡ (if r.setup_env && is_listed (t.elts r.subprocess_env) key then none else variable r key)
  unfolding request_unpopulate table_unpopulate
  variable-request_unpopulate r key = elim (Bool-cases r.setup_env) [
    | inl e ↦ rw e (env_get-unpopulate_loop H (t.elts r.subprocess_env) r.env.table key)
    | inr e ↦ rw e refl
  ]

  pub setup_env-request_unpopulate :
      (r : EnvRequest H t) → (request_unpopulate H t r).setup_env ≡ false
  unfolding request_unpopulate
  setup_env-request_unpopulate r = elim (Bool-cases r.setup_env) [
    | inl e ↦ rw e refl
    | inr e ↦ rw e refl
  ]

  -- When what a request put into %ENV is taken out again, the variables of its subprocess_env are
  -- gone, also those that had a value before; the others are as they were, and taking it out once
  -- more changes nothing.
  pub request_unpopulate-request_populate :
      (add_vars : t.Table → t.Table) (r : EnvRequest H t) (key : Name)
      → let during = request_populate H t add_vars r in
        let after = request_unpopulate H t during in
        (variable after key
          ≡ (if is_listed (t.elts during.subprocess_env) key then none else variable r key))
        × (request_unpopulate H t after ≡ after)
  unfolding request_populate request_unpopulate table_populate table_unpopulate
  request_unpopulate-request_populate add_vars r key =
      let during = request_populate H t add_vars r in
      let es = t.elts during.subprocess_env in
      (
        env_get-unpopulate_loop H es during.env.table key
            ∙ ap (λ o. if is_listed es key then none else o)
                (env_get-populate_loop H es r.env.table key)
            ∙ unlisted es key (variable r key),
        refl,
      )
