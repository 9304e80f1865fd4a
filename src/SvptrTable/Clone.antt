-- ===== src/SvptrTable/Clone.antt =====
-- What a clone holds, and what clearing and destroying a table frees.
use mathlib.Core.Option
use mod_perl.Prelude.{
  ℕ, zero, suc, ◌+◌, ◌≤◌, ◌≡◌, inl, inr, refl, sym, ap, true, false, none, List, [], ◌∷◌, ◌++◌,
  append_assoc, append-nil, bit_and, ◌==◌, if◌then◌else◌, get_or, replicate, length, arith, ltb,
  Bool-cases, length-replicate, get_or-replicate,
}
use native.Mathlib.Nat.{one-le-pow}
use mod_perl.SvptrTable.{
  Entry, Chain, Table, find, bucket, clone_chain, clone_loop, table_clone, clear_loop, table_clear,
  destroy_chain, destroy_loop, table_destroy,
}
use mod_perl.SvptrTable.Valid.{total, IsValid, index-lt}

find-clone_chain :
    (dup : ℕ → ℕ) (key : ℕ) (c : Chain) → find key (clone_chain dup c) ≡ Option.map dup (find key c)
unfolding find clone_chain
find-clone_chain dup key [] = refl
find-clone_chain dup key (e ∷ es) = ground (arith, find-clone_chain dup key es)

get_or-clone_loop :
    (dup : ℕ → ℕ) (n j : ℕ) (src dst : List Chain)
    → n ≤ length src
    → n ≤ length dst
    → get_or (clone_loop dup n src dst) j []
      ≡ (if ltb j n then clone_chain dup (get_or src j []) else get_or dst j [])
unfolding clone_loop
get_or-clone_loop dup zero j src dst h k = ground arith
get_or-clone_loop dup (suc n) j [] dst h k = absurd (omega arith)
get_or-clone_loop dup (suc n) j (s ∷ src) [] h k = absurd (omega arith)
get_or-clone_loop dup (suc n) zero (s ∷ src) (d ∷ dst) h k = ground arith
get_or-clone_loop dup (suc n) (suc j) (s ∷ src) (d ∷ dst) h k =
    ground (arith, get_or-clone_loop dup n j src dst (omega arith) (omega arith))

-- The clone of a valid table answers with the duplicate of what the source holds, but for the keys
-- whose bucket is the last one of the array: to those it answers with nothing, whatever the source
-- holds.
pub find-table_clone :
    (dup : ℕ → ℕ) (t : Table) (key : ℕ)
    → IsValid t
    → find key (bucket (table_clone dup t) key) ≡ (
        if bit_and key t.tbl_max == t.tbl_max
        then none
        else Option.map dup (find key (bucket t key)))
unfolding table_clone
find-table_clone dup t key v =
    let size : length t.tbl_ary ≡ t.tbl_max + 1 =
      omega (arith, v.size, v.mask, one-le-pow v.width 2 (omega arith)) in
    let dst = get_or-replicate {A = Chain} (t.tbl_max + 1) (bit_and key t.tbl_max) [] in
    let width = length-replicate {A = Chain} (t.tbl_max + 1) [] in
    rw
      (get_or-clone_loop dup t.tbl_max (bit_and key t.tbl_max) t.tbl_ary
        (replicate (t.tbl_max + 1) []) (omega (arith, size)) (omega (arith, width)))
      (elim (Bool-cases (ltb (bit_and key t.tbl_max) t.tbl_max)) [
        | inl low ↦
            let differ : (bit_and key t.tbl_max == t.tbl_max) ≡ false = ground arith in
            rw (low, differ) (find-clone_chain dup key (bucket t key))
        | inr high ↦
            let same : (bit_and key t.tbl_max == t.tbl_max) ≡ true =
              ground (arith, index-lt v key, size) in
            rw (high, same) (rw dst (unfold find in refl))
      ])

-- The entries of all chains.
abbrev pub entries : List Chain → List Entry
entries [] = []
entries (c ∷ cs) = c ++ entries cs

clear_loop_lem : (c : Chain) (cs : List Chain) → clear_loop c cs ≡ c ++ entries cs
unfolding clear_loop
clear_loop_lem [] [] = refl
clear_loop_lem [] (c ∷ cs) = clear_loop_lem c cs
clear_loop_lem (e ∷ es) cs = ap (λ (l : List Entry). e ∷ l) (clear_loop_lem es cs)

entries_empty : (cs : List Chain) → total cs ≡ 0 → entries cs ≡ []
entries_empty [] h = refl
entries_empty ([] ∷ cs) h = entries_empty cs (omega arith)
entries_empty ((e ∷ es) ∷ cs) h = absurd (omega arith)

-- Clearing a valid table frees every entry once, in the order of the array, and counts none left.
pub table_clear_lem :
    (t : Table)
    → IsValid t
    → ((table_clear t).1 ≡ entries t.tbl_ary) × ((table_clear t).0.tbl_items ≡ 0)
unfolding table_clear
table_clear_lem t v = elim (Bool-cases (t.tbl_items == 0)) [
  | inl none_left ↦
      rw none_left (sym (entries_empty t.tbl_ary (ground (arith, v.items))), ground arith)
  | inr some_left ↦ rw some_left (clear_loop_lem [] t.tbl_ary, refl)
]

-- The SVs that the entries hold.
abbrev pub svs : List Entry → List ℕ
svs [] = []
svs (e ∷ es) = if e.newval == 0 then svs es else e.newval ∷ svs es

svs-append : (es fs : List Entry) → svs (es ++ fs) ≡ svs es ++ svs fs
svs-append [] fs = refl
svs-append (e ∷ es) fs = ground (arith, svs-append es fs)

destroy_chain_lem : (c : Chain) → (destroy_chain c).0 ≡ svs c
unfolding destroy_chain
destroy_chain_lem [] = refl
destroy_chain_lem (e ∷ es) = ground (arith, destroy_chain_lem es)

destroy_loop_lem :
    (n : ℕ) (cs : List Chain)
    → length cs ≡ n + 1
    → (destroy_loop n cs).0 ++ svs (get_or cs n []) ≡ svs (entries cs)
unfolding destroy_loop
destroy_loop_lem zero [] h = absurd (omega arith)
destroy_loop_lem zero (c ∷ []) h = rw (append-nil c)
destroy_loop_lem zero (c ∷ d ∷ cs) h = absurd (omega arith)
destroy_loop_lem (suc n) [] h = absurd (omega arith)
destroy_loop_lem (suc n) (c ∷ cs) h =
    rw (destroy_chain_lem c, append_assoc, destroy_loop_lem n cs (omega arith))
      (sym (svs-append c (entries cs)))

-- Destroying a valid table drops the count of every SV in it once, but for those in the last
-- bucket of the array: theirs are the ones that are missing.
pub table_destroy_lem :
    (t : Table)
    → IsValid t
    → (table_destroy t).0 ++ svs (get_or t.tbl_ary t.tbl_max []) ≡ svs (entries t.tbl_ary)
unfolding table_destroy
table_destroy_lem t v =
    destroy_loop_lem t.tbl_max t.tbl_ary
      (omega (arith, v.size, v.mask, one-le-pow v.width 2 (omega arith)))
