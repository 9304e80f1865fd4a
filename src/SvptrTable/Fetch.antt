-- ===== src/SvptrTable/Fetch.antt =====
-- Fetch after store and after delete, and that both keep the invariant.
use mod_perl.Prelude.{
  ℕ, zero, suc, ◌+◌, ◌-◌, ◌≤◌, ◌≡◌, ◌∙◌, inl, inr, refl, Option, none, some, List, [], ◌∷◌, ◌&&◌,
  bit_and, ◌==◌, ==_iff, if◌then◌else◌, get_or, replicate, length, arith, ltb, Bool-cases,
  get_or-replicate, Option-cases,
}
use mod_perl.SvptrTable.{
  Chain, Table, find, bucket, replace, unlink, is_empty, table_fetch, table_insert, table_store,
  table_split, table_delete, table_new,
}
use mod_perl.SvptrTable.Doubled.{table_split-IsValid, find-table_split}
use mod_perl.SvptrTable.Valid.{total, ChainsFit, IsValid, absent_of_find}
use mod_perl.SvptrTable.Write.{
  find-replace, All-replace, Distinct-replace, length-replace, find-unlink, All-unlink,
  Distinct-unlink, length-unlink, written, find-written, chain, written-IsValid,
}

-- What a map from keys to values promises of a write at `key`.
abbrev Updated : Table → Table → ℕ → Option ℕ → Type 0
Updated t t' key o =
    IsValid t' × ((j : ℕ) → find j (bucket t' j) ≡ (if key == j then o else find j (bucket t j)))

table_insert-Updated :
    {t : Table} (v : IsValid t) (key new : ℕ)
    → find key (bucket t key) ≡ none
    → Updated t (table_insert t key new) key (some new)
unfolding table_insert
table_insert-Updated {t} v key new absent = (
  written-IsValid v key (record { oldval = key; newval = new } ∷ bucket t key) (t.tbl_items + 1)
      (
        (let e : 0 + bit_and key t.tbl_max ≡ bit_and key t.tbl_max = omega arith in rw e),
        (chain v key).0,
      )
      (absent_of_find key (bucket t key) absent, (chain v key).1) (omega arith),
  λ j.
      find-written v key (record { oldval = key; newval = new } ∷ bucket t key) (t.tbl_items + 1) j
        (some new) (λ _. unfold find in refl),
)

table_split-Updated :
    (t : Table) {t' : Table} (key : ℕ) (o : Option ℕ)
    → Updated t t' key o
    → Updated t (table_split t') key o
table_split-Updated t {t'} key o u =
    (table_split-IsValid t' u.0, λ j. find-table_split u.0 j ∙ u.1 j)

table_replace-Updated :
    {t : Table} (v : IsValid t) (key new old : ℕ)
    → find key (bucket t key) ≡ some old
    → Updated t (written v key (replace key new (bucket t key)) t.tbl_items) key (some new)
table_replace-Updated {t} v key new old present = (
  written-IsValid v key (replace key new (bucket t key)) t.tbl_items
      (All-replace (λ k. bit_and k t.tbl_max ≡ 0 + bit_and key t.tbl_max) key new (bucket t key)
        (chain v key).0)
      (Distinct-replace key new (bucket t key) (chain v key).1)
      (omega (arith, length-replace key new (bucket t key))),
  λ j.
      find-written v key (replace key new (bucket t key)) t.tbl_items j (some new)
        (λ _. find-replace key new j old (bucket t key) present),
)

table_store-Updated :
    {t : Table} (v : IsValid t) (key new : ℕ) → Updated t (table_store t key new) key (some new)
unfolding table_store
table_store-Updated {t} v key new = elim (Option-cases (find key (bucket t key))) [
  | inr (old, present) ↦ rw (present, table_store) (table_replace-Updated v key new old present)
  | inl absent ↦
      rw (absent, table_store)
        (elim (Bool-cases (
          is_empty (bucket t key)
          && ltb (table_insert t key new).tbl_max (table_insert t key new).tbl_items)) [
            | inl full ↦
                rw full
                  (table_split-Updated t key (some new) (table_insert-Updated v key new absent))
            | inr room ↦ rw room (table_insert-Updated v key new absent)
          ])
]

length-le-total : (cs : List Chain) (j : ℕ) → length (get_or cs j []) ≤ total cs
length-le-total [] j = omega arith
length-le-total (c ∷ cs) zero = omega arith
length-le-total (c ∷ cs) (suc j) = omega (arith, length-le-total cs j)

table_delete-Updated :
    {t : Table} (v : IsValid t) (key : ℕ) → Updated t (table_delete t key).0 key none
unfolding table_delete
table_delete-Updated {t} v key = elim (Option-cases (find key (bucket t key))) [
  | inl absent ↦
      rw (absent, table_delete)
        (
          v,
          λ j. elim (Bool-cases (key == j)) [
            | inl hit ↦ rw (hit, ← (==_iff key j).0 hit) absent
            | inr miss ↦ rw miss
          ],
        )
  | inr (old, present) ↦
      rw (present, table_delete)
        (
          written-IsValid v key (unlink key (bucket t key)) (t.tbl_items - 1)
              (All-unlink (λ e. bit_and e.oldval t.tbl_max ≡ 0 + bit_and key t.tbl_max) key
                (bucket t key) (chain v key).0)
              (Distinct-unlink key (bucket t key) (chain v key).1)
              (omega (
                arith,
                length-unlink key old (bucket t key) present,
                length-le-total t.tbl_ary (bit_and key t.tbl_max),
                v.items,
              )),
          λ j.
              find-written v key (unlink key (bucket t key)) (t.tbl_items - 1) j none
                (λ _. find-unlink key j (bucket t key) (chain v key).1),
        )
]

replicate-ChainsFit : (max i n : ℕ) → ChainsFit max i (replicate n [])
replicate-ChainsFit max i zero = tt
replicate-ChainsFit max i (suc n) = (tt, tt, replicate-ChainsFit max (i + 1) n)

-- The new table is valid, and holds nothing.
pub table_new_lem : IsValid table_new × ((j : ℕ) → table_fetch table_new j ≡ 0)
unfolding table_new table_fetch
table_new_lem = (
  record {
    width = 9;
    mask = refl;
    size = refl;
    chains = replicate-ChainsFit 511 0 512;
    items = refl;
  },
  λ j. rw (get_or-replicate {A = Chain} 512 (bit_and j 511) []),
)

-- A valid table stays valid under a store, also where that doubles the array, and a fetch then
-- returns the new value at the stored key and the old value at every other one.
pub fetch-store :
    (t : Table) (key new : ℕ)
    → IsValid t
    → IsValid (table_store t key new)
      × ((j : ℕ)
          → table_fetch (table_store t key new) j ≡ (if key == j then new else table_fetch t j))
unfolding table_fetch
fetch-store t key new v = let u = table_store-Updated v key new in (u.0, λ j. ground (arith, u.1 j))

-- A valid table stays valid under a delete, and a fetch then returns NULL at the deleted key and
-- the old value at every other one; the SV whose count is dropped is the one that was stored.
pub fetch-delete :
    (t : Table) (key : ℕ)
    → IsValid t
    → IsValid (table_delete t key).0
      × ((j : ℕ) → table_fetch (table_delete t key).0 j ≡ (if key == j then 0 else table_fetch t j))
      × ((table_delete t key).1
          ≡ elim (find key (bucket t key)) [ none ↦ [] | some old ↦ old ∷ [] ])
unfolding table_fetch
fetch-delete t key v =
    let u = table_delete-Updated v key in
    (u.0, λ j. ground (arith, u.1 j), unfold table_delete in ground arith)
