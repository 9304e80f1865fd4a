-- ===== src/Cmd/Vars.antt =====
-- PerlSetVar, PerlAddVar, PerlSetEnv and PerlPassEnv.
use mod_perl.Prelude.{
  ◌≡◌, refl, sym, ap, ◌∙◌, true, not, Option, none, some, List, [], ◌∷◌, ◌++◌, if◌then◌else◌,
  Bool-cases, inl, inr, append_assoc,
}
use mod_perl.Mgv.{Name}
use mod_perl.Hash.{Hash}
use mod_perl.Env.{env_hv_store}
use mod_perl.AprTable.{AprTable, values, first_value}
use mod_perl.Config.{DirConfig, merge_config_add_vars}
use mod_perl.Config.Server.{SrvConfig}
use mod_perl.Config.Tables.{values-merge_config_add_vars, values-append, has_key, kept, is_some}
use mod_perl.Cmd.{Parms, Cmd, set_scfg, set_dcfg, vhost_is_running}

module _ (t : AprTable) where
  open t use {Table, same_key, elts, get, set_value, add}

  -- modperl_cmd_addvar_func and _setvar_func, on `configvars` and `setvars`.
  pub addvar_func : Table × Table → Name → Name → Table × Table
  addvar_func (configvars, setvars) key val = (add configvars key val, setvars)

  pub setvar_func : Table × Table → Name → Name → Table × Table
  setvar_func (configvars, setvars) key val =
      (set_value configvars key val, set_value setvars key val)

  abbrev pub modvar_dir : (Table × Table → Table × Table) → DirConfig t → DirConfig t
  modvar_dir varfunc dcfg =
      let (configvars, setvars) = varfunc (dcfg.configvars, dcfg.setvars) in
      record dcfg { configvars = configvars; setvars = setvars }

  abbrev pub modvar_srv : (Table × Table → Table × Table) → SrvConfig t → SrvConfig t
  modvar_srv varfunc scfg =
      let (configvars, setvars) = varfunc (scfg.configvars, scfg.setvars) in
      record scfg { configvars = configvars; setvars = setvars }

  -- The values that a variable has once a section is merged into `base`.
  abbrev pub merged_values : Table → Table × Table → Name → List Name
  merged_values base (configvars, setvars) key =
      values same_key (elts (merge_config_add_vars t base setvars configvars)) key

  abbrev pub dir_vars : DirConfig t → Table × Table
  dir_vars dcfg = (dcfg.configvars, dcfg.setvars)

  abbrev pub srv_vars : SrvConfig t → Table × Table
  srv_vars scfg = (scfg.configvars, scfg.setvars)

module _ {ℓ} {H : Hash} {t : AprTable} {S : Type ℓ} where
  open t use {Table, same_key, elts, get, set_value, add}

  -- modperl_cmd_modvar: outside of every section the server has the variable too.
  pub modvar : (Table × Table → Table × Table) → Parms → Cmd H t S → Cmd H t S
  modvar varfunc parms w =
      let with_dir = set_dcfg w (modvar_dir t varfunc w.dcfg) in
      if not parms.path then set_scfg with_dir (modvar_srv t varfunc w.scfg) else with_dir

  pub cmd_add_var : Parms → Cmd H t S → Name → Name → Cmd H t S
  unfolding modvar addvar_func
  cmd_add_var parms w arg1 arg2 = modvar (λ vars. addvar_func t vars arg1 arg2) parms w

  pub cmd_set_var : Parms → Cmd H t S → Name → Name → Cmd H t S
  unfolding modvar setvar_func
  cmd_set_var parms w arg1 arg2 = modvar (λ vars. setvar_func t vars arg1 arg2) parms w

  -- modperl_env_hv_store on the interpreter of the server, if that runs.
  abbrev pub store_env : Parms → Cmd H t S → Name → Name → Cmd H t S
  store_env parms w key val =
      if vhost_is_running parms w
      then record w { env = record w.env { table = env_hv_store H w.env.table key val } }
      else w

  pub cmd_set_env : Parms → Cmd H t S → Name → Name → Cmd H t S
  unfolding vhost_is_running
  cmd_set_env parms w arg1 arg2 =
      let with_srv = set_scfg w (record w.scfg { set_env = set_value w.scfg.set_env arg1 arg2 }) in
      let top = if not parms.path then store_env parms with_srv arg1 arg2 else w in
      set_dcfg top (record top.dcfg { set_env = set_value top.dcfg.set_env arg1 arg2 })

  -- `val` is getenv of the argument.
  pub cmd_pass_env : Parms → Cmd H t S → Name → Option Name → Cmd H t S
  unfolding vhost_is_running
  cmd_pass_env parms w arg none = w
  cmd_pass_env parms w arg (some val) =
      store_env parms (set_scfg w (record w.scfg { pass_env = set_value w.scfg.pass_env arg val }))
        arg val

module _ (t : AprTable) where
  open t use {Table, same_key, elts, get, set_value, add}

  has_key-first_value :
      (es : List (Name × Name)) (key : Name)
      → has_key t es key ≡ is_some (first_value same_key es key)
  has_key-first_value [] key = refl
  has_key-first_value ((k, v) ∷ es) key = elim (Bool-cases (same_key k key)) [
    | inl e ↦ rw e refl
    | inr e ↦ rw e (has_key-first_value es key)
  ]

  has_key-set_value :
      (table : Table) (k v key : Name)
      → has_key t (elts (set_value table k v)) key
        ≡ (if same_key k key then true else has_key t (elts table) key)
  has_key-set_value table k v key =
      has_key-first_value (elts (set_value table k v)) key
      ∙ ap is_some (sym (t.get-elts (set_value table k v) key) ∙ t.get-set_value table k v key)
      ∙ (elim (Bool-cases (same_key k key)) [
        | inl e ↦ rw e refl
        | inr e ↦
            rw e (ap is_some (t.get-elts table key) ∙ sym (has_key-first_value (elts table) key))
      ])

  merged_set :
      (base configvars setvars : Table) (k v key : Name)
      → merged_values t base (setvar_func t (configvars, setvars) k v) key
        ≡ (if same_key k key then v ∷ [] else merged_values t base (configvars, setvars) key)
  unfolding setvar_func
  merged_set base configvars setvars k v key =
      values-merge_config_add_vars t base (set_value setvars k v) (set_value configvars k v) key
      ∙ (elim (Bool-cases (same_key k key)) [
        | inl e ↦
            rw (has_key-set_value setvars k v key, t.values-set_value configvars k v key, e) refl
        | inr e ↦
            rw (has_key-set_value setvars k v key, t.values-set_value configvars k v key, e)
              (sym (values-merge_config_add_vars t base setvars configvars key))
      ])

  merged_add :
      (base configvars setvars : Table) (k v key : Name)
      → merged_values t base (addvar_func t (configvars, setvars) k v) key
        ≡ merged_values t base (configvars, setvars) key ++ (if same_key k key then v ∷ [] else [])
  unfolding addvar_func
  merged_add base configvars setvars k v key =
      let old = kept (has_key t (elts setvars) key) (values same_key (elts base) key) in
      let more = if same_key k key then v ∷ [] else [] in
      values-merge_config_add_vars t base setvars (add configvars k v) key
      ∙ ap (λ es. old ++ values same_key es key) (t.elts-add configvars k v)
      ∙ ap (λ vs. old ++ vs) (values-append same_key (elts configvars) ((k, v) ∷ []) key)
      ∙ sym (append_assoc old (values same_key (elts configvars) key) more)
      ∙ ap (λ vs. vs ++ more) (sym (values-merge_config_add_vars t base setvars configvars key))

module _ {ℓ} {H : Hash} {t : AprTable} {S : Type ℓ} where
  open t use {Table, same_key, elts, get, set_value, add}

  -- Behind PerlSetVar, and a merge into a base, the variable has that one value, whatever the base
  -- and the configuration had; behind PerlAddVar it has the value behind those that the merge gave
  -- before; other variables are merged as before. The server's variables change in the same way
  -- outside of a section, and in a section they stay.
  pub vars-merge :
      (parms : Parms) (w : Cmd H t S) (base : Table) (k v key : Name)
      → let set = cmd_set_var parms w k v in
        let added = cmd_add_var parms w k v in
        let dir = merged_values t base (dir_vars t w.dcfg) key in
        let srv = merged_values t base (srv_vars t w.scfg) key in
        (merged_values t base (dir_vars t set.dcfg) key ≡ (if same_key k key then v ∷ [] else dir))
        × (merged_values t base (dir_vars t added.dcfg) key
            ≡ dir ++ (if same_key k key then v ∷ [] else []))
        × (merged_values t base (srv_vars t set.scfg) key
            ≡ (if parms.path then srv else if same_key k key then v ∷ [] else srv))
        × (merged_values t base (srv_vars t added.scfg) key
            ≡ (if parms.path then srv else srv ++ (if same_key k key then v ∷ [] else [])))
  unfolding cmd_set_var cmd_add_var modvar
  vars-merge parms w base k v key =
      let (dc, ds) = dir_vars t w.dcfg in
      let (sc, ss) = srv_vars t w.scfg in
      elim (Bool-cases parms.path) [
        | inl section ↦
            rw section
              (merged_set t base dc ds k v key, merged_add t base dc ds k v key, refl, refl)
        | inr outside ↦ rw outside (
          merged_set t base dc ds k v key,
          merged_add t base dc ds k v key,
          merged_set t base sc ss k v key,
          merged_add t base sc ss k v key,
        )
      ]
