-- ===== src/AprTable.antt =====
-- apr_table_t, as the code uses it. The interface states what apr_tables.h documents;
-- AprTable.Entries shows that it can be met.
pub mod Entries
use mod_perl.Prelude.{
  ◌≡◌, Bool, true, false, Option, none, some, List, [], ◌∷◌, ◌++◌, if◌then◌else◌,
}
use mod_perl.Mgv.{Name}

-- The second value, if there is one.
abbrev pub or_later {ℓ} : {A : Type ℓ} → Option A → Option A → Option A
or_later earlier none = earlier
or_later earlier (some later) = some later

-- Keys are compared without case; a list of entries may have a key more than once.
module _ (same_key : Name → Name → Bool) where
  abbrev pub first_value : List (Name × Name) → Name → Option Name
  first_value [] key = none
  first_value ((k, v) ∷ es) key = if same_key k key then some v else first_value es key

  abbrev pub last_value : List (Name × Name) → Name → Option Name
  last_value [] key = none
  last_value ((k, v) ∷ es) key =
      or_later (if same_key k key then some v else none) (last_value es key)

  -- All the values of a key, in their order.
  abbrev pub values : List (Name × Name) → Name → List Name
  values [] key = []
  values ((k, v) ∷ es) key = if same_key k key then v ∷ values es key else values es key

  abbrev pub without : List (Name × Name) → Name → List (Name × Name)
  without [] key = []
  without ((k, v) ∷ es) key = if same_key k key then without es key else (k, v) ∷ without es key

pub record AprTable : Type 1 where
  pub Table : Type 0
  pub same_key : Name → Name → Bool
  pub make : Table
  pub elts : Table → List (Name × Name)
  pub get : Table → Name → Option Name
  pub set_value : Table → Name → Name → Table
  pub add : Table → Name → Name → Table
  pub unset : Table → Name → Table
  pub overlay : Table → Table → Table
  pub compress_set : Table → Table
  pub same_key_refl : (k : Name) → same_key k k ≡ true
  pub same_key_comm : (k l : Name) → same_key k l ≡ same_key l k
  pub same_key_trans : (k l n : Name) → same_key k l ≡ true → same_key k n ≡ same_key l n
  pub elts-make : elts make ≡ []
  pub get-elts : (t : Table) (key : Name) → get t key ≡ first_value same_key (elts t) key
  pub get-set_value :
      (t : Table) (k v key : Name)
      → get (set_value t k v) key ≡ (if same_key k key then some v else get t key)
  pub values-set_value :
      (t : Table) (k v key : Name)
      → values same_key (elts (set_value t k v)) key
        ≡ (if same_key k key then v ∷ [] else values same_key (elts t) key)
  pub elts-add : (t : Table) (k v : Name) → elts (add t k v) ≡ elts t ++ ((k, v) ∷ [])
  pub elts-unset : (t : Table) (key : Name) → elts (unset t key) ≡ without same_key (elts t) key
  pub elts-overlay : (t u : Table) → elts (overlay t u) ≡ elts t ++ elts u
  pub get-compress_set :
      (t : Table) (key : Name) → get (compress_set t) key ≡ last_value same_key (elts t) key
  pub last_value-compress_set :
      (t : Table) (key : Name)
      → last_value same_key (elts (compress_set t)) key ≡ last_value same_key (elts t) key
