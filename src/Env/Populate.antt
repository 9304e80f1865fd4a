-- ===== src/Env/Populate.antt =====
-- What %ENV holds once a table was put into it, or taken out.
use mod_perl.Prelude.{
  ◌≡◌, refl, sym, ap, ap₂, ◌∙◌, Bool, true, false, Option, none, some, List, [], ◌∷◌, if◌then◌else◌,
  if_true, if_false, Bool-cases, inl, inr, arith,
}
use mod_perl.Mgv.{Name, same_name}
use mod_perl.Mgv.Equal.{same_name→≡}
use mod_perl.Hash.{Hash}
use mod_perl.PerlGlobal.{Elem}
use mod_perl.AprTable.{last_value, or_later}
use mod_perl.Config.Tables.{or_later_assoc}
use mod_perl.Env.{
  env_hv_store, env_hv_delete, delete_found, populate_loop, unpopulate_loop, stored_elem,
}

-- The key stands in the list, as Perl spells it.
abbrev pub is_listed : List (Name × Name) → Name → Bool
is_listed [] key = false
is_listed ((k, v) ∷ es) key = if same_name k key then true else is_listed es key

abbrev pub value_of : Option Elem → Option Name
value_of none = none
value_of (some elem) = some elem.value

if_if :
    (b c : Bool) (o : Option Name)
    → (if b then none else if c then none else o) ≡ (if if c then true else b then none else o)
if_if true true o = refl
if_if true false o = refl
if_if false true o = refl
if_if false false o = refl

module _ (H : Hash) where
  open H use {Hv, fetch, delete, fetch-store, fetch-delete}

  -- The value of a variable.
  abbrev pub env_get : Hv Elem → Name → Option Name
  env_get hv key = value_of (fetch hv key)

  value_of-stored_elem :
      (old : Option Elem) (val : Name) → value_of (some (stored_elem H old val)) ≡ some val
  value_of-stored_elem none val = refl
  value_of-stored_elem (some old) val = refl

  env_get-env_hv_store :
      (hv : Hv Elem) (k val key : Name)
      → env_get (env_hv_store H hv k val) key
        ≡ or_later (env_get hv key) (if same_name k key then some val else none)
  unfolding env_hv_store
  env_get-env_hv_store hv k val key =
      let got = ap value_of (fetch-store hv k (stored_elem H (fetch hv k) val) key) in
      elim (Bool-cases (same_name k key)) [
        | inl e ↦
            got
            ∙ ap value_of (if_true _ _ _ e)
            ∙ value_of-stored_elem (fetch hv k) val
            ∙ sym (ap (or_later (env_get hv key)) (if_true _ _ _ e))
        | inr e ↦
            got
            ∙ ap value_of (if_false _ _ _ e)
            ∙ sym (ap (or_later (env_get hv key)) (if_false _ _ _ e))
      ]

  -- Behind a table each of its variables has its last value in the table, and the others are as
  -- they were.
  pub env_get-populate_loop :
      (es : List (Name × Name)) (hv : Hv Elem) (key : Name)
      → env_get (populate_loop H hv es) key
        ≡ or_later (env_get hv key) (last_value same_name es key)
  unfolding populate_loop
  env_get-populate_loop [] hv key = refl
  env_get-populate_loop ((k, v) ∷ es) hv key =
      env_get-populate_loop es (env_hv_store H hv k v) key
      ∙ ap (λ o. or_later o (last_value same_name es key)) (env_get-env_hv_store hv k v key)
      ∙ sym (
          or_later_assoc same_name (env_get hv key) (if same_name k key then some v else none)
            (last_value same_name es key))

  env_get-delete_found :
      (hv : Hv Elem) (k key : Name) (found : Option Elem)
      → fetch hv k ≡ found
      → env_get (delete_found H hv k found) key ≡ (if same_name k key then none else env_get hv key)
  unfolding delete_found
  env_get-delete_found hv k key none h = elim (Bool-cases (same_name k key)) [
    | inl e ↦ sym (ap (env_get hv) (same_name→≡ k key e)) ∙ ap value_of h ∙ sym (if_true _ _ _ e)
    | inr e ↦ sym (if_false _ _ _ e)
  ]
  env_get-delete_found hv k key (some old) h = elim (Bool-cases (same_name k key)) [
    | inl e ↦ ap value_of (fetch-delete hv k key ∙ if_true _ _ _ e) ∙ sym (if_true _ _ _ e)
    | inr e ↦ ap value_of (fetch-delete hv k key ∙ if_false _ _ _ e) ∙ sym (if_false _ _ _ e)
  ]

  pub env_get-unpopulate_loop :
      (es : List (Name × Name)) (hv : Hv Elem) (key : Name)
      → env_get (unpopulate_loop H hv es) key ≡ (if is_listed es key then none else env_get hv key)
  unfolding unpopulate_loop env_hv_delete
  env_get-unpopulate_loop [] hv key = refl
  env_get-unpopulate_loop ((k, v) ∷ es) hv key =
      env_get-unpopulate_loop es (env_hv_delete H hv k) key
      ∙ ap (λ o. if is_listed es key then none else o)
          (env_get-delete_found hv k key (fetch hv k) refl)
      ∙ if_if (is_listed es key) (same_name k key) (env_get hv key)

  pub last_value-is_listed :
      (es : List (Name × Name)) (key : Name)
      → is_listed es key ≡ false
      → last_value same_name es key ≡ none
  last_value-is_listed [] key h = refl
  last_value-is_listed ((k, v) ∷ es) key h = elim (Bool-cases (same_name k key)) [
    | inl e ↦ absurd (ground (arith, sym (if_true _ _ _ e) ∙ h))
    | inr e ↦
        ap₂ (λ p q. or_later p q) (if_false _ _ _ e)
          (last_value-is_listed es key (sym (if_false _ _ _ e) ∙ h))
  ]
