-- ===== src/Hash/Assoc.antt =====
-- Hashes as lists of entries, the last one stored first.
use mathlib.Core.Path.{subst}
use mod_perl.Prelude.{
  none, ◌≡◌, refl, true, false, List, [], ◌∷◌, if◌then◌else◌, arith, Bool-cases, inl, inr, sym, ◌∙◌,
  ap,
}
use mod_perl.Mgv.{Name, same_name}
use mod_perl.Mgv.Equal.{same_name→≡}
use mod_perl.Hash.{assoc_get, is_absent, Distinct, Hash}

module _ {V : Type 0} where
  abbrev pub delete : Name → List (Name × V) → List (Name × V)
  delete key [] = []
  delete key ((k, v) ∷ es) = if same_name k key then delete key es else (k, v) ∷ delete key es

  -- The entries that a later one does not hide.
  abbrev pub live : List (Name × V) → List (Name × V)
  live [] = []
  live ((k, v) ∷ es) = (k, v) ∷ delete k (live es)

  is_absent-delete :
      (key k : Name) (es : List (Name × V))
      → is_absent key es ≡ true
      → is_absent key (delete k es) ≡ true
  is_absent-delete key k [] h = refl
  is_absent-delete key k ((l, v) ∷ es) h = ground (arith, is_absent-delete key k es)

  is_absent-delete_self : (key : Name) (es : List (Name × V)) → is_absent key (delete key es) ≡ true
  is_absent-delete_self key [] = refl
  is_absent-delete_self key ((l, v) ∷ es) = ground (arith, is_absent-delete_self key es)

  delete-Distinct : (key : Name) (es : List (Name × V)) → Distinct es → Distinct (delete key es)
  delete-Distinct key [] h = tt
  delete-Distinct key ((l, v) ∷ es) (a, h) = elim (Bool-cases (same_name l key)) [
    | inl e ↦ rw e (delete-Distinct key es h)
    | inr e ↦ rw e (is_absent-delete l key es a, delete-Distinct key es h)
  ]

  pub live-Distinct : (es : List (Name × V)) → Distinct (live es)
  live-Distinct [] = tt
  live-Distinct ((k, v) ∷ es) =
      (is_absent-delete_self k (live es), delete-Distinct k (live es) (live-Distinct es))

  absent_get :
      (es : List (Name × V)) (key : Name) → is_absent key es ≡ true → assoc_get es key ≡ none
  absent_get [] key h = refl
  absent_get ((l, v) ∷ es) key h = ground (arith, absent_get es key)

  assoc_get-delete :
      (k key : Name) (es : List (Name × V))
      → same_name k key ≡ false
      → assoc_get (delete k es) key ≡ assoc_get es key
  assoc_get-delete k key [] h = refl
  assoc_get-delete k key ((l, v) ∷ es) h = elim (Bool-cases (same_name l k)) [
    | inl e ↦
        let other : same_name l key ≡ false = ap (λ n. same_name n key) (same_name→≡ l k e) ∙ h in
        rw (e, other) (assoc_get-delete k key es h)
    | inr e ↦ let rest = assoc_get-delete k key es h in rw e (ground (arith, rest))
  ]

  pub assoc_get-delete_all :
      (es : List (Name × V)) (k key : Name)
      → assoc_get (delete k es) key ≡ (if same_name k key then none else assoc_get es key)
  assoc_get-delete_all es k key = elim (Bool-cases (same_name k key)) [
    | inl e ↦ rw e (
        absent_get (delete k es) key (
          subst (λ n. is_absent n (delete k es) ≡ true) (same_name→≡ k key e)
            (is_absent-delete_self k es)))
    | inr e ↦ rw e (assoc_get-delete k key es e)
  ]

  pub assoc_get-live :
      (es : List (Name × V)) (key : Name) → assoc_get es key ≡ assoc_get (live es) key
  assoc_get-live [] key = refl
  assoc_get-live ((k, v) ∷ es) key = elim (Bool-cases (same_name k key)) [
    | inl e ↦ rw e refl
    | inr e ↦ rw e (assoc_get-live es key ∙ sym (assoc_get-delete k key (live es) e))
  ]

abbrev pub assoc : Hash
assoc = record {
  Hv = λ V. List (Name × V);
  new = [];
  fetch = assoc_get;
  store = λ hv k v. (k, v) ∷ hv;
  delete = λ hv k. delete k hv;
  each = live;
  fetch-new = λ key. refl;
  fetch-store = λ hv k v key. refl;
  fetch-delete = assoc_get-delete_all;
  fetch-each = assoc_get-live;
  each-Distinct = live-Distinct;
}
