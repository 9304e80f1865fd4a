-- ===== src/Config/Merge.antt =====
-- Merging the configurations of directories, in whatever order httpd brackets them.
use mod_perl.Prelude.{
  ◌≡◌, refl, sym, ap, ap₂, ◌∙◌, Bool, true, false, Option, none, some, List, ◌++◌, append_assoc,
  if◌then◌else◌,
}
use mod_perl.Mgv.{Name}
use mod_perl.AprTable.{AprTable, values, last_value, or_later}
use mod_perl.Interp.{Scope, undef, handler, subrequest, request, connection}
use mod_perl.Config.{
  merge_item, merge_scope, ConfigFlags, DirConfig, table_overlap, merge_config_add_vars, dir_merge,
}
use mod_perl.Config.Tables.{
  kept, has_key, or_later_assoc, values-merge_config_add_vars, get-table_overlap,
  last_value-table_overlap, has_key-table_overlap,
}

merge_item_assoc :
    {A : Type 0} (a b c : Option A) → merge_item (merge_item a b) c ≡ merge_item a (merge_item b c)
merge_item_assoc a b none = refl
merge_item_assoc a b (some c) = refl

merge_scope_assoc :
    (a b c : Scope) → merge_scope (merge_scope a b) c ≡ merge_scope a (merge_scope b c)
merge_scope_assoc a b undef = refl
merge_scope_assoc a b handler = refl
merge_scope_assoc a b subrequest = refl
merge_scope_assoc a b request = refl
merge_scope_assoc a b connection = refl

-- The values of a base, of a section behind it and of one behind that; `b` and `c` tell that the
-- key is set there.
kept_assoc :
    (b c : Bool) (xs ys zs : List Name)
    → kept c (kept b xs ++ ys) ++ zs ≡ kept (if b then true else c) xs ++ (kept c ys ++ zs)
kept_assoc true true xs ys zs = refl
kept_assoc true false xs ys zs = refl
kept_assoc false true xs ys zs = refl
kept_assoc false false xs ys zs = append_assoc xs ys zs

module _ (t : AprTable) where
  merge_config_add_vars_assoc :
      (a b_set b c_set c : t.Table) (key : Name)
      → values t.same_key
          (t.elts (merge_config_add_vars t (merge_config_add_vars t a b_set b) c_set c))
          key
        ≡ values t.same_key
            (t.elts (
              merge_config_add_vars t a
                (table_overlap t b_set c_set)
                (merge_config_add_vars t b c_set c)))
            key
  merge_config_add_vars_assoc a b_set b c_set c key =
      let vars = λ (u : t.Table). values t.same_key (t.elts u) key in
      let has = λ (u : t.Table). has_key t (t.elts u) key in
      values-merge_config_add_vars t (merge_config_add_vars t a b_set b) c_set c key
      ∙ ap (λ vs. kept (has c_set) vs ++ vars c) (values-merge_config_add_vars t a b_set b key)
      ∙ kept_assoc (has b_set) (has c_set) (vars a) (vars b) (vars c)
      ∙ ap₂ (λ p vs. kept p (vars a) ++ vs) (sym (has_key-table_overlap t b_set c_set key))
          (sym (values-merge_config_add_vars t b c_set c key))
      ∙ sym (
          values-merge_config_add_vars t a (table_overlap t b_set c_set)
            (merge_config_add_vars t b c_set c) key)

  table_overlap_assoc :
      (a b c : t.Table) (key : Name)
      → t.get (table_overlap t (table_overlap t a b) c) key
        ≡ t.get (table_overlap t a (table_overlap t b c)) key
  table_overlap_assoc a b c key =
      let last = λ (u : t.Table). last_value t.same_key (t.elts u) key in
      get-table_overlap t (table_overlap t a b) c key
      ∙ ap (λ o. or_later o (last c)) (last_value-table_overlap t a b key)
      ∙ sym (or_later_assoc t.same_key (last a) (last b) (last c))
      ∙ ap (or_later (last a)) (sym (last_value-table_overlap t b c key))
      ∙ sym (get-table_overlap t a (table_overlap t b c) key)

  -- Three sections give the same configuration of variables, environment, location and scope,
  -- whether the first two or the last two are merged first.
  pub dir_merge_assoc :
      (flags : ConfigFlags) (a b c : DirConfig t) (key : Name)
      → let left = dir_merge t flags (dir_merge t flags a b) c in
        let right = dir_merge t flags a (dir_merge t flags b c) in
        (values t.same_key (t.elts left.configvars) key
          ≡ values t.same_key (t.elts right.configvars) key)
        × (t.get left.setvars key ≡ t.get right.setvars key)
        × (t.get left.set_env key ≡ t.get right.set_env key)
        × (left.location ≡ right.location)
        × (left.interp_scope ≡ right.interp_scope)
  unfolding dir_merge
  dir_merge_assoc flags a b c key = (
    merge_config_add_vars_assoc a.configvars b.setvars b.configvars c.setvars c.configvars key,
    table_overlap_assoc a.setvars b.setvars c.setvars key,
    table_overlap_assoc a.set_env b.set_env c.set_env key,
    merge_item_assoc a.location b.location c.location,
    merge_scope_assoc a.interp_scope b.interp_scope c.interp_scope,
  )
