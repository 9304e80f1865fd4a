-- ===== src/Tipool/Count.antt =====
-- How often an address occurs on a list, before and behind the operations on lists.
use mathlib.Core.Path.{subst}
use mod_perl.Prelude.{
  ℕ, suc, ◌+◌, ◌≤◌, ◌≡◌, refl, some, List, [], ◌∷◌, ◌++◌, ◌==◌, if◌then◌else◌, length, Bool-cases,
  inl, inr, arith,
}
use mod_perl.Tipool.{Node, list_remove, list_remove_data}

abbrev pub one : ℕ → Node → ℕ
one a n = if n.addr == a then 1 else 0

abbrev pub count : ℕ → List Node → ℕ
count a [] = 0
count a (n ∷ ns) = one a n + count a ns

pub count-append : (a : ℕ) (ns ms : List Node) → count a (ns ++ ms) ≡ count a ns + count a ms
count-append a [] ms = omega arith
count-append a (n ∷ ns) ms = omega (arith, count-append a ns ms)

-- `list'` is `list` without one occurrence of the node.
pub record Removed (list : List Node) (n : Node) (list' : List Node) : Type 0 where
  pub counts : (a : ℕ) → count a list ≡ one a n + count a list'
  pub shorter : length list ≡ suc (length list')

Removed-cons :
    (m : Node) (list : List Node) (n : Node) (list' : List Node)
    → Removed list n list'
    → Removed (m ∷ list) n (m ∷ list')
Removed-cons m list n list' r = record {
  counts = λ a. omega (arith, r.counts a);
  shorter = omega (arith, r.shorter);
}

-- Removing an address that is on the list removes one node of that address.
pub list_remove-Removed :
    (list : List Node) (n : Node) → 1 ≤ count n.addr list → Removed list n (list_remove list n.addr)
unfolding list_remove
list_remove-Removed [] n h = absurd (omega arith)
list_remove-Removed (m ∷ list) n h = elim (Bool-cases (m.addr == n.addr)) [
  | inl same ↦ rw same (record { counts = λ a. ground arith; shorter = refl })
  | inr other ↦
      rw other (
        Removed-cons m list n (list_remove list n.addr) (list_remove-Removed list n (ground arith)))
]

-- A node that is found by its data is removed.
pub list_remove_data-Removed :
    (list : List Node) (item : ℕ) (n : Node)
    → (list_remove_data list item).1 ≡ some n
    → Removed list n (list_remove_data list item).0
unfolding list_remove_data
list_remove_data-Removed [] item n h = absurd (ground arith)
list_remove_data-Removed (m ∷ list) item n h = elim (Bool-cases (m.item == item)) [
  | inl same ↦
      let found : m ≡ n = ground arith in
      rw same (
        subst (λ k. Removed (m ∷ list) k list) found
          (record { counts = λ a. refl; shorter = refl }))
  | inr other ↦ rw other (
      Removed-cons m list n (list_remove_data list item).0
        (list_remove_data-Removed list item n (ground arith)))
]
