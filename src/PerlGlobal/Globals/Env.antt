-- ===== src/PerlGlobal/Globals/Env.antt =====
-- copyENV: the copy of %ENV that a request has.
use mod_perl.Prelude.{
  ◌≡◌, refl, sym, ap, ◌∙◌, Bool, true, false, not, Option, none, some, List, [], ◌∷◌, Bool-cases,
  inl, inr, arith,
}
use mod_perl.Mgv.{Name, same_name}
use mod_perl.Mgv.Equal.{same_name→≡}
use mod_perl.Hash.{Hash, assoc_get, is_absent, Distinct}
use mod_perl.PerlGlobal.{Elem, Ehv}
use mod_perl.PerlGlobal.Globals.{copy_loop, copy_env}

-- A value of the copy: it is tied, whether the original was or not.
abbrev pub tied_elem : Elem → Elem
tied_elem elem = record { value = elem.value; tied = true }

abbrev pub tied_elem? : Option Elem → Option Elem
tied_elem? none = none
tied_elem? (some elem) = some (tied_elem elem)

assoc_get-is_absent :
    (es : List (Name × Elem)) (key : Name) → is_absent key es ≡ true → assoc_get es key ≡ none
assoc_get-is_absent [] key h = refl
assoc_get-is_absent ((k, v) ∷ es) key h = ground (arith, assoc_get-is_absent es key)

abbrev pub is_empty : List (Name × Elem) → Bool
is_empty [] = true
is_empty (entry ∷ es) = false

module _ (H : Hash) where
  open H use {Hv, fetch, store, each, fetch-new, fetch-store, fetch-each, each-Distinct}

  copy_loop-is_absent :
      (es : List (Name × Elem)) (hv : Hv Elem) (key : Name)
      → is_absent key es ≡ true
      → fetch (copy_loop H es hv) key ≡ fetch hv key
  unfolding copy_loop
  copy_loop-is_absent [] hv key h = refl
  copy_loop-is_absent ((k, v) ∷ es) hv key h =
      let other : same_name k key ≡ false = ground arith in
      let rest : is_absent key es ≡ true = ground arith in
      let stored = fetch-store hv k (tied_elem v) key in
      copy_loop-is_absent es (store hv k (tied_elem v)) key rest ∙ stored ∙ rw other refl

  copy_loop-Distinct :
      (es : List (Name × Elem)) (hv : Hv Elem) (key : Name)
      → Distinct es
      → is_absent key es ≡ false
      → fetch (copy_loop H es hv) key ≡ tied_elem? (assoc_get es key)
  unfolding copy_loop
  copy_loop-Distinct [] hv key d h = absurd (ground arith)
  copy_loop-Distinct ((k, v) ∷ es) hv key (a, d) h = elim (Bool-cases (same_name k key)) [
    | inl e ↦
        let gone : is_absent key es ≡ true =
          sym (ap (λ n. is_absent n es) (same_name→≡ k key e)) ∙ a in
        let stored = fetch-store hv k (tied_elem v) key in
        copy_loop-is_absent es (store hv k (tied_elem v)) key gone ∙ stored ∙ rw e refl
    | inr e ↦
        let rest : is_absent key es ≡ false = ground (arith, e, h) in
        copy_loop-Distinct es (store hv k (tied_elem v)) key d rest ∙ rw e refl
  ]

  copy_loop-each :
      (hv : Hv Elem) (key : Name)
      → fetch (copy_loop H (each hv) H.new) key ≡ tied_elem? (fetch hv key)
  copy_loop-each hv key = elim (Bool-cases (is_absent key (each hv))) [
    | inl e ↦
        copy_loop-is_absent (each hv) H.new key e
        ∙ fetch-new key
        ∙ sym (ap tied_elem? (fetch-each hv key ∙ assoc_get-is_absent (each hv) key e))
    | inr e ↦
        copy_loop-Distinct (each hv) H.new key (each-Distinct hv) e
        ∙ sym (ap tied_elem? (fetch-each hv key))
  ]

  -- copyENV for a hash with these entries.
  copied-each :
      (ohv : Ehv H) (es : List (Name × Elem))
      → each ohv.table ≡ es
      → ((copy_env H ohv).table ≡ copy_loop H es H.new)
        × ((copy_env H ohv).magical ≡ not (is_empty es))
  unfolding copy_env copy_loop
  copied-each ohv [] e = rw (e, copy_env) (refl, refl)
  copied-each ohv (entry ∷ es) e = rw (e, copy_env) (refl, refl)

  -- The copy of %ENV has the keys of the original with their values, each of them tied; the copy
  -- itself has the magic of %ENV unless it is empty.
  pub fetch-copy_env :
      (ohv : Ehv H) (key : Name)
      → (fetch (copy_env H ohv).table key ≡ tied_elem? (fetch ohv.table key))
        × ((copy_env H ohv).magical ≡ not (is_empty (each ohv.table)))
  fetch-copy_env ohv key =
      let (table, magic) = copied-each ohv (each ohv.table) refl in
      (ap (λ hv. fetch hv key) table ∙ copy_loop-each ohv.table key, magic)
