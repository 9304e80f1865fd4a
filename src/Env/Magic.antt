-- ===== src/Env/Magic.antt =====
-- The magic of %ENV: while a request is tied to it, its subprocess_env stands in for the
-- environment of the process.
use mod_perl.Prelude.{
  ◌≡◌, refl, ap, ◌∙◌, Bool, true, false, Option, none, some, List, [], ◌∷◌, if◌then◌else◌, if_true,
  Bool-cases, inl, inr,
}
use mod_perl.Mgv.{Name}
use mod_perl.AprTable.{AprTable, first_value, without}

-- The methods of Perl's own tables, PL_vtbl_env and PL_vtbl_envelem, on the environment of the process.
pub record PerlVtbl (E : Type 0) : Type 0 where
  pub env_set : E → List (Name × Name) → E
  pub env_clear_all : E → E
  pub envelem_set : E → Name → Name → E
  pub envelem_clear : E → Name → E

module _ (t : AprTable) {E : Type 0} (perl : PerlVtbl E) where
  open t use {Table, make, get, set_value, unset}

  -- The `subprocess_env` of the request that EnvMgObj is, if it is one, and the environment of the
  -- process.
  pub record MagicState : Type 0 where
    pub request_env : Option Table
    pub environ : E

  pub request_tie : MagicState → Table → MagicState
  request_tie m subprocess_env = record m { request_env = some subprocess_env }

  pub request_untie : MagicState → MagicState
  request_untie m = record m { request_env = none }

  -- The loop over the hash under `local %ENV = (...)`.
  pub set_each : Table → List (Name × Name) → Table
  set_each table [] = table
  set_each table ((key, val) ∷ entries) = set_each (set_value table key val) entries

  pub magic_set_all : Bool → List (Name × Name) → MagicState → MagicState
  unfolding set_each
  magic_set_all localizing entries m = elim m.request_env [
    | some table ↦
        if localizing then record m { request_env = some (set_each table entries) } else m
    | none ↦ record m { environ = perl.env_set m.environ entries }
  ]

  pub magic_clear_all : MagicState → MagicState
  magic_clear_all m = elim m.request_env [
    | some table ↦ record m { request_env = some make }
    | none ↦ record m { environ = perl.env_clear_all m.environ }
  ]

  pub magic_set : Name → Name → MagicState → MagicState
  magic_set key val m = elim m.request_env [
    | some table ↦ record m { request_env = some (set_value table key val) }
    | none ↦ record m { environ = perl.envelem_set m.environ key val }
  ]

  pub magic_clear : Name → MagicState → MagicState
  magic_clear key m = elim m.request_env [
    | some table ↦ record m { request_env = some (unset table key) }
    | none ↦ record m { environ = perl.envelem_clear m.environ key }
  ]

  -- What the value `sv` of an element is after it is read.
  pub magic_get : Name → Option Name → MagicState → Option Name
  magic_get key sv m = elim m.request_env [ some table ↦ get table key | none ↦ sv ]

  -- One write to %ENV.
  pub data Write : Type 0 where
    set_write : Name → Name → Write
    clear_write : Name → Write
    set_all_write : Bool → List (Name × Name) → Write
    clear_all_write : Write

  abbrev pub write : Write → MagicState → MagicState
  write (set_write key val) m = magic_set key val m
  write (clear_write key) m = magic_clear key m
  write (set_all_write localizing entries) m = magic_set_all localizing entries m
  write clear_all_write m = magic_clear_all m

  abbrev pub write_all : List Write → MagicState → MagicState
  write_all [] m = m
  write_all (w ∷ ws) m = write_all ws (write w m)

  -- A write while a request is tied.
  abbrev pub write_table : Write → Table → Table
  write_table (set_write key val) table = set_value table key val
  write_table (clear_write key) table = unset table key
  write_table (set_all_write localizing entries) table =
      if localizing then set_each table entries else table
  write_table clear_all_write table = make

  write_tied :
      (w : Write) (table : Table) (environ : E)
      → write w (record { request_env = some table; environ = environ })
        ≡ record { request_env = some (write_table w table); environ = environ }
  unfolding magic_set magic_clear magic_set_all magic_clear_all
  write_tied (set_write key val) table environ = refl
  write_tied (clear_write key) table environ = refl
  write_tied (set_all_write true entries) table environ = refl
  write_tied (set_all_write false entries) table environ = refl
  write_tied clear_all_write table environ = refl

  abbrev pub write_tables : List Write → Table → Table
  write_tables [] table = table
  write_tables (w ∷ ws) table = write_tables ws (write_table w table)

  write_all_tied :
      (ws : List Write) (table : Table) (environ : E)
      → write_all ws (record { request_env = some table; environ = environ })
        ≡ record { request_env = some (write_tables ws table); environ = environ }
  write_all_tied [] table environ = refl
  write_all_tied (w ∷ ws) table environ =
      ap (write_all ws) (write_tied w table environ)
      ∙ write_all_tied ws (write_table w table) environ

  first_value-without_self :
      (es : List (Name × Name)) (key : Name)
      → first_value t.same_key (without t.same_key es key) key ≡ none
  first_value-without_self [] key = refl
  first_value-without_self ((k, v) ∷ es) key = elim (Bool-cases (t.same_key k key)) [
    | inl e ↦ rw e (first_value-without_self es key)
    | inr e ↦ rw (e, e) (first_value-without_self es key)
  ]

  -- Between the tie and the untie of a request no write to %ENV reaches the environment of the
  -- process; a variable that is read after it was set has that value, and one that was cleared, by
  -- itself or with all, has none.
  pub request_untie-write_all :
      (m : MagicState) (subprocess_env : Table) (ws : List Write) (key val : Name)
      (sv : Option Name)
      → let tied = write_all ws (request_tie m subprocess_env) in
        ((request_untie tied).environ ≡ m.environ)
        × (magic_get key sv (magic_set key val tied) ≡ some val)
        × (magic_get key sv (magic_clear key tied) ≡ none)
        × (magic_get key sv (magic_clear_all tied) ≡ none)
  unfolding request_tie request_untie magic_get magic_set magic_clear magic_clear_all
  request_untie-write_all m subprocess_env ws key val sv =
      let tied = write_all_tied ws subprocess_env m.environ in
      let table = write_tables ws subprocess_env in
      (
        ap (λ (n : MagicState). n.environ) tied,
        ap (λ n. magic_get key sv (magic_set key val n)) tied
            ∙ t.get-set_value table key val key
            ∙ if_true _ _ _ (t.same_key_refl key),
        ap (λ n. magic_get key sv (magic_clear key n)) tied
            ∙ t.get-elts (unset table key) key
            ∙ ap (λ es. first_value t.same_key es key) (t.elts-unset table key)
            ∙ first_value-without_self (t.elts table) key,
        ap (λ n. magic_get key sv (magic_clear_all n)) tied
            ∙ t.get-elts make key
            ∙ ap (λ es. first_value t.same_key es key) t.elts-make,
      )
