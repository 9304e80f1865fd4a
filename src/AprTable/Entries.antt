-- ===== src/AprTable/Entries.antt =====
-- Tables as lists of entries, with keys of one spelling.
use mod_perl.Prelude.{
  ◌≡◌, refl, sym, ap, ◌∙◌, true, false, Option, none, some, List, [], ◌∷◌, ◌++◌, if◌then◌else◌,
  arith, Bool-cases, inl, inr, if_false,
}
use mod_perl.Mgv.{Name, same_name}
use mod_perl.Mgv.Equal.{same_name_refl, same_name_comm, same_name→≡}
use mod_perl.AprTable.{AprTable, first_value, last_value, or_later, without, values}

-- An entry in front of `es`, unless its key has the value `later` there.
abbrev pub unless_later : Option Name → Name × Name → List (Name × Name) → List (Name × Name)
unless_later none entry es = entry ∷ es
unless_later (some later) entry es = es

-- The entries with the last value of each key.
abbrev pub compressed : List (Name × Name) → List (Name × Name)
compressed [] = []
compressed ((k, v) ∷ es) = unless_later (last_value same_name es k) (k, v) (compressed es)

first_value-unless_later :
    (later last : Option Name) (k v key : Name) (es : List (Name × Name))
    → first_value same_name es key ≡ last
    → (same_name k key ≡ true → later ≡ last)
    → first_value same_name (unless_later later (k, v) es) key
      ≡ or_later (if same_name k key then some v else none) last
first_value-unless_later none none k v key es h same =
    ap (λ l. if same_name k key then some v else l) h
first_value-unless_later none (some l) k v key es h same = elim (Bool-cases (same_name k key)) [
  | inl e ↦ absurd (ground (arith, same e))
  | inr e ↦ if_false _ _ _ e ∙ h
]
first_value-unless_later (some later) none k v key es h same = elim (Bool-cases (same_name k key)) [
  | inl e ↦ absurd (ground (arith, same e))
  | inr e ↦ h ∙ sym (if_false _ _ _ e)
]
first_value-unless_later (some later) (some l) k v key es h same = h

last_value-unless_later :
    (later last : Option Name) (k v key : Name) (es : List (Name × Name))
    → last_value same_name es key ≡ last
    → (same_name k key ≡ true → later ≡ last)
    → last_value same_name (unless_later later (k, v) es) key
      ≡ or_later (if same_name k key then some v else none) last
last_value-unless_later none last k v key es h same =
    ap (or_later (if same_name k key then some v else none)) h
last_value-unless_later (some later) none k v key es h same = elim (Bool-cases (same_name k key)) [
  | inl e ↦ absurd (ground (arith, same e))
  | inr e ↦ h ∙ sym (if_false _ _ _ e)
]
last_value-unless_later (some later) (some l) k v key es h same = h

pub last_value-compressed :
    (es : List (Name × Name)) (key : Name)
    → last_value same_name (compressed es) key ≡ last_value same_name es key
last_value-compressed [] key = refl
last_value-compressed ((k, v) ∷ es) key =
    last_value-unless_later (last_value same_name es k) (last_value same_name es key) k v key
      (compressed es) (last_value-compressed es key)
      (λ h. ap (last_value same_name es) (same_name→≡ k key h))

pub first_value-compressed :
    (es : List (Name × Name)) (key : Name)
    → first_value same_name (compressed es) key ≡ last_value same_name es key
first_value-compressed [] key = refl
first_value-compressed ((k, v) ∷ es) key =
    first_value-unless_later (last_value same_name es k) (last_value same_name es key) k v key
      (compressed es) (first_value-compressed es key)
      (λ h. ap (last_value same_name es) (same_name→≡ k key h))

pub same_name_trans : (k l n : Name) → same_name k l ≡ true → same_name k n ≡ same_name l n
same_name_trans k l n h = ap (λ m. same_name m n) (same_name→≡ k l h)

first_value-without :
    (t : List (Name × Name)) (k key : Name)
    → same_name k key ≡ false
    → first_value same_name (without same_name t k) key ≡ first_value same_name t key
first_value-without [] k key h = refl
first_value-without ((l, v) ∷ t) k key h = elim (Bool-cases (same_name l k)) [
  | inl e ↦
      let other : same_name l key ≡ false = ap (λ n. same_name n key) (same_name→≡ l k e) ∙ h in
      rw (e, other) (first_value-without t k key h)
  | inr e ↦ let rest = first_value-without t k key h in rw e (ground (arith, rest))
]

pub first_value-set :
    (t : List (Name × Name)) (k v key : Name)
    → first_value same_name ((k, v) ∷ without same_name t k) key
      ≡ (if same_name k key then some v else first_value same_name t key)
first_value-set t k v key = elim (Bool-cases (same_name k key)) [
  | inl e ↦ rw e refl
  | inr e ↦ rw e (first_value-without t k key e)
]

values-without_self :
    (t : List (Name × Name)) (k : Name) → values same_name (without same_name t k) k ≡ []
values-without_self [] k = refl
values-without_self ((l, v) ∷ t) k = elim (Bool-cases (same_name l k)) [
  | inl e ↦ rw e (values-without_self t k)
  | inr e ↦ rw (e, e) (values-without_self t k)
]

values-without_other :
    (t : List (Name × Name)) (k key : Name)
    → same_name k key ≡ false
    → values same_name (without same_name t k) key ≡ values same_name t key
values-without_other [] k key h = refl
values-without_other ((l, v) ∷ t) k key h = elim (Bool-cases (same_name l k)) [
  | inl e ↦
      let other : same_name l key ≡ false = ap (λ n. same_name n key) (same_name→≡ l k e) ∙ h in
      rw (e, other) (values-without_other t k key h)
  | inr e ↦ let rest = values-without_other t k key h in rw e (ground (arith, rest))
]

pub values-set :
    (t : List (Name × Name)) (k v key : Name)
    → values same_name ((k, v) ∷ without same_name t k) key
      ≡ (if same_name k key then v ∷ [] else values same_name t key)
values-set t k v key = elim (Bool-cases (same_name k key)) [
  | inl e ↦ rw e (
      ap (λ vs. v ∷ vs)
        (ap (values same_name (without same_name t k)) (sym (same_name→≡ k key e))
          ∙ values-without_self t k))
  | inr e ↦ rw e (values-without_other t k key e)
]

abbrev pub entries : AprTable
entries = record {
  Table = List (Name × Name);
  same_key = same_name;
  make = [];
  elts = λ t. t;
  get = first_value same_name;
  set_value = λ t k v. (k, v) ∷ without same_name t k;
  add = λ t k v. t ++ ((k, v) ∷ []);
  unset = without same_name;
  overlay = λ t u. t ++ u;
  compress_set = compressed;
  same_key_refl = same_name_refl;
  same_key_comm = same_name_comm;
  same_key_trans = same_name_trans;
  elts-make = refl;
  get-elts = λ t key. refl;
  get-set_value = first_value-set;
  values-set_value = values-set;
  elts-add = λ t k v. refl;
  elts-unset = λ t key. refl;
  elts-overlay = λ t u. refl;
  get-compress_set = first_value-compressed;
  last_value-compress_set = last_value-compressed;
}
