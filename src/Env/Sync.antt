-- ===== src/Env/Sync.antt =====
-- PerlSetEnv and PerlPassEnv in step with %ENV.
use mod_perl.Prelude.{
  ◌≡◌, refl, sym, ap, ◌∙◌, Option, none, some, List, [], ◌∷◌, if◌then◌else◌, if_true, if_false,
  Bool-cases, inl, inr,
}
use mod_perl.Mgv.{Name}
use mod_perl.Hash.{Hash}
use mod_perl.PerlGlobal.{Elem, Ehv}
use mod_perl.AprTable.{AprTable, or_later}
use mod_perl.Config.Tables.{or_later_assoc}
use mod_perl.Env.{sync_loop, sync_found, sync_table}
use mod_perl.Env.Populate.{env_get, value_of}

module _ (H : Hash) (t : AprTable) where
  -- The value that %ENV has for the last of the entries that the table takes for `key` and that
  -- %ENV knows.
  abbrev pub env_value : H.Hv Elem → List (Name × Name) → Name → Option Name
  env_value hv [] key = none
  env_value hv ((k, v) ∷ es) key =
      or_later (if t.same_key k key then env_get H hv k else none) (env_value hv es key)

  get-sync_found :
      (table : t.Table) (k key : Name) (found : Option Elem)
      → t.get (sync_found H t table k found) key
        ≡ or_later (t.get table key) (if t.same_key k key then value_of found else none)
  unfolding sync_found
  get-sync_found table k key none = elim (Bool-cases (t.same_key k key)) [
    | inl e ↦ sym (ap (or_later (t.get table key)) (if_true _ _ _ e))
    | inr e ↦ sym (ap (or_later (t.get table key)) (if_false _ _ _ e))
  ]
  get-sync_found table k key (some elem) = elim (Bool-cases (t.same_key k key)) [
    | inl e ↦
        t.get-set_value table k elem.value key
        ∙ if_true _ _ _ e
        ∙ sym (ap (or_later (t.get table key)) (if_true _ _ _ e))
    | inr e ↦
        t.get-set_value table k elem.value key
        ∙ if_false _ _ _ e
        ∙ sym (ap (or_later (t.get table key)) (if_false _ _ _ e))
  ]

  get-sync_loop :
      (hv : H.Hv Elem) (es : List (Name × Name)) (table : t.Table) (key : Name)
      → t.get (sync_loop H t hv es table) key ≡ or_later (t.get table key) (env_value hv es key)
  unfolding sync_loop
  get-sync_loop hv [] table key = refl
  get-sync_loop hv ((k, v) ∷ es) table key =
      get-sync_loop hv es (sync_found H t table k (H.fetch hv k)) key
      ∙ ap (λ o. or_later o (env_value hv es key)) (get-sync_found table k key (H.fetch hv k))
      ∙ sym (
          or_later_assoc t.same_key (t.get table key)
            (if t.same_key k key then env_get H hv k else none) (env_value hv es key))

  -- A sync gives a key of the table the value that %ENV has for it, and leaves those alone that
  -- %ENV does not have.
  pub get-sync_table :
      (env : Ehv H) (table : t.Table) (key : Name)
      → t.get (sync_table H t env table) key
        ≡ or_later (t.get table key) (env_value env.table (t.elts table) key)
  unfolding sync_table
  get-sync_table env table key = get-sync_loop env.table (t.elts table) table key
