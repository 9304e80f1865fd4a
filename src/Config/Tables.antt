-- ===== src/Config/Tables.antt =====
-- What the merged tables answer.
use mod_perl.Prelude.{
  ◌≡◌, refl, sym, ap, ap₂, ◌∙◌, Bool, true, false, Option, none, some, List, [], ◌∷◌, ◌++◌,
  if◌then◌else◌, Bool-cases, inl, inr, arith,
}
use mod_perl.Mgv.{Name}
use mod_perl.AprTable.{AprTable, last_value, values, without, or_later}
use mod_perl.Config.{table_overlap, unset_loop, merge_config_add_vars}

module _ (same_key : Name → Name → Bool) where
  pub or_later_assoc :
      {A : Type 0} (a b c : Option A) → or_later a (or_later b c) ≡ or_later (or_later a b) c
  or_later_assoc a b none = refl
  or_later_assoc a b (some c) = refl

  pub or_later-none : {A : Type 0} (o : Option A) → or_later none o ≡ o
  or_later-none none = refl
  or_later-none (some a) = refl

  pub last_value-append :
      (es fs : List (Name × Name)) (key : Name)
      → last_value same_key (es ++ fs) key
        ≡ or_later (last_value same_key es key) (last_value same_key fs key)
  last_value-append [] fs key = sym (or_later-none (last_value same_key fs key))
  last_value-append ((k, v) ∷ es) fs key =
      let one = if same_key k key then some v else none in
      ap (or_later one) (last_value-append es fs key)
      ∙ or_later_assoc one (last_value same_key es key) (last_value same_key fs key)

  pub values-append :
      (es fs : List (Name × Name)) (key : Name)
      → values same_key (es ++ fs) key ≡ values same_key es key ++ values same_key fs key
  values-append [] fs key = refl
  values-append ((k, v) ∷ es) fs key = elim (Bool-cases (same_key k key)) [
    | inl e ↦ rw e (ap (λ l. v ∷ l) (values-append es fs key))
    | inr e ↦ rw e (values-append es fs key)
  ]

-- The values of a key that is gone, or is not.
abbrev pub kept : Bool → List Name → List Name
kept true vs = []
kept false vs = vs

kept_nil : (gone : Bool) → [] ≡ kept gone []
kept_nil true = refl
kept_nil false = refl

kept-kept :
    (gone also : Bool) (vs : List Name)
    → kept gone (kept also vs) ≡ kept (if also then true else gone) vs
kept-kept true true vs = refl
kept-kept true false vs = refl
kept-kept false true vs = refl
kept-kept false false vs = refl

abbrev pub is_some : Option Name → Bool
is_some none = false
is_some (some a) = true

is_some_now : (v : Name) (o : Option Name) → is_some (or_later (some v) o) ≡ true
is_some_now v none = refl
is_some_now v (some a) = refl

is_some-or_later :
    (a b : Option Name) → is_some (or_later a b) ≡ (if is_some a then true else is_some b)
is_some-or_later none none = refl
is_some-or_later none (some b) = refl
is_some-or_later (some a) none = refl
is_some-or_later (some a) (some b) = refl

module _ (t : AprTable) where
  open t use {Table, same_key, elts, get, unset}

  values-without :
      (es : List (Name × Name)) (gone key : Name)
      → values same_key (without same_key es gone) key
        ≡ kept (same_key gone key) (values same_key es key)
  values-without [] gone key = kept_nil (same_key gone key)
  values-without ((k, v) ∷ es) gone key =
      let rest = values-without es gone key in
      elim (Bool-cases (same_key k gone)) [
        | inl e ↦
            let at_key : same_key k key ≡ same_key gone key = t.same_key_trans k gone key e in
            elim (Bool-cases (same_key gone key)) [
              | inl f ↦ rw (e, at_key, f) (rest ∙ ap (λ b. kept b (values same_key es key)) f)
              | inr f ↦ rw (e, at_key, f) (rest ∙ ap (λ b. kept b (values same_key es key)) f)
            ]
        | inr e ↦ elim (Bool-cases (same_key k key)) [
          | inl f ↦
              let other : same_key gone key ≡ false = elim (Bool-cases (same_key gone key)) [
                | inl g ↦
                    let both =
                      sym e ∙ t.same_key_trans k key gone f ∙ t.same_key_comm key gone ∙ g in
                    absurd (ground (arith, both))
                | inr g ↦ g
              ] in
              rw (e, f, other)
                (ap (λ l. v ∷ l) (rest ∙ ap (λ b. kept b (values same_key es key)) other))
          | inr f ↦ rw (e, f) rest
        ]
      ]

  -- Whether a list has the key.
  abbrev pub has_key : List (Name × Name) → Name → Bool
  has_key [] key = false
  has_key ((k, v) ∷ es) key = if same_key k key then true else has_key es key

  values-unset_loop :
      (us : List (Name × Name)) (temp : Table) (key : Name)
      → values same_key (elts (unset_loop t temp us)) key
        ≡ kept (has_key us key) (values same_key (elts temp) key)
  unfolding unset_loop
  values-unset_loop [] temp key = refl
  values-unset_loop ((k, v) ∷ us) temp key =
      let V = values same_key (elts temp) key in
      values-unset_loop us (unset temp k) key
      ∙ ap (λ es. kept (has_key us key) (values same_key es key)) (t.elts-unset temp k)
      ∙ ap (kept (has_key us key)) (values-without (elts temp) k key)
      ∙ kept-kept (has_key us key) (same_key k key) V

  -- After the merge of the variables a key has the values of the section that is merged in behind
  -- those of the base; those of the base are gone where the section sets the key by PerlSetVar.
  pub values-merge_config_add_vars :
      (base setvars add : Table) (key : Name)
      → values same_key (elts (merge_config_add_vars t base setvars add)) key
        ≡ kept (has_key (elts setvars) key) (values same_key (elts base) key)
          ++ values same_key (elts add) key
  unfolding merge_config_add_vars
  values-merge_config_add_vars base setvars add key =
      let left = unset_loop t base (elts setvars) in
      ap (λ es. values same_key es key) (t.elts-overlay left add)
      ∙ values-append same_key (elts left) (elts add) key
      ∙ ap (λ vs. vs ++ values same_key (elts add) key) (values-unset_loop (elts setvars) base key)

  -- A table that is merged by keys, as that of PerlSetEnv, answers with the last value that the
  -- section has for a key, and where it has none with the last one of the base.
  pub get-table_overlap :
      (base add : Table) (key : Name)
      → get (table_overlap t base add) key
        ≡ or_later (last_value same_key (elts base) key) (last_value same_key (elts add) key)
  unfolding table_overlap
  get-table_overlap base add key =
      t.get-compress_set (t.overlay base add) key
      ∙ ap (λ es. last_value same_key es key) (t.elts-overlay base add)
      ∙ last_value-append same_key (elts base) (elts add) key

  pub last_value-table_overlap :
      (base add : Table) (key : Name)
      → last_value same_key (elts (table_overlap t base add)) key
        ≡ or_later (last_value same_key (elts base) key) (last_value same_key (elts add) key)
  unfolding table_overlap
  last_value-table_overlap base add key =
      t.last_value-compress_set (t.overlay base add) key
      ∙ ap (λ es. last_value same_key es key) (t.elts-overlay base add)
      ∙ last_value-append same_key (elts base) (elts add) key

  -- A key is there if it has a last value.
  has_key-last_value :
      (es : List (Name × Name)) (key : Name) → has_key es key ≡ is_some (last_value same_key es key)
  has_key-last_value [] key = refl
  has_key-last_value ((k, v) ∷ es) key = elim (Bool-cases (same_key k key)) [
    | inl e ↦ rw e (sym (is_some_now v (last_value same_key es key)))
    | inr e ↦ rw e (
        has_key-last_value es key
        ∙ ap is_some (sym (or_later-none same_key (last_value same_key es key))))
  ]

  pub has_key-table_overlap :
      (base add : Table) (key : Name)
      → has_key (elts (table_overlap t base add)) key
        ≡ (if has_key (elts base) key then true else has_key (elts add) key)
  has_key-table_overlap base add key =
      let b = last_value same_key (elts base) key in
      let a = last_value same_key (elts add) key in
      has_key-last_value (elts (table_overlap t base add)) key
      ∙ ap is_some (last_value-table_overlap base add key)
      ∙ is_some-or_later b a
      ∙ ap₂ (λ p q. if p then true else q) (sym (has_key-last_value (elts base) key))
          (sym (has_key-last_value (elts add) key))
