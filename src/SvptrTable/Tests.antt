-- ===== src/SvptrTable/Tests.antt =====
-- The theorems on the table at a small one: two buckets, keys 4 and 7.
use mathlib.Core.Option
use mod_perl.Prelude.{ℕ, ◌≡◌, refl, none, some, [], ◌∷◌, ◌==◌, if◌then◌else◌, bit_and}
use mod_perl.SvptrTable.{
  Table, find, bucket, split_chain, split_loop, table_split, table_insert, table_fetch, table_store,
  table_delete, table_clone,
}
use mod_perl.SvptrTable.Valid.{IsValid}
use mod_perl.SvptrTable.Fetch.{fetch-store, fetch-delete}
use mod_perl.SvptrTable.Clone.{find-table_clone}

abbrev small : Table
small = record {
  tbl_ary =
      (record { oldval = 4; newval = 40 } ∷ []) ∷ (record { oldval = 7; newval = 70 } ∷ []) ∷ [];
  tbl_max = 1;
  tbl_items = 2;
}

small-IsValid : IsValid small
small-IsValid = record {
  width = 1;
  mask = refl;
  size = refl;
  chains = ((refl, tt), (tt, tt), ((refl, tt), (tt, tt), tt));
  items = refl;
}

-- The third entry doubles the array.
store_splits :
    (table_store
      (record small {
        tbl_ary =
            (record { oldval = 4; newval = 40 } ∷ record { oldval = 6; newval = 60 } ∷ [])
            ∷ []
            ∷ [];
      })
      7
      70).tbl_max
    ≡ 3
unfolding table_store table_split find table_insert split_loop split_chain
store_splits = refl

fetch-store_example :
    IsValid (table_store small 6 60)
    × ((j : ℕ)
        → table_fetch (table_store small 6 60) j ≡ (if 6 == j then 60 else table_fetch small j))
fetch-store_example = fetch-store small 6 60 small-IsValid

fetch-delete_example :
    IsValid (table_delete small 7).0
    × ((j : ℕ)
        → table_fetch (table_delete small 7).0 j ≡ (if 7 == j then 0 else table_fetch small j))
    × ((table_delete small 7).1
        ≡ elim (find 7 (bucket small 7)) [ none ↦ [] | some old ↦ old ∷ [] ])
fetch-delete_example = fetch-delete small 7 small-IsValid

find-table_clone_example :
    find 7 (bucket (table_clone (λ v. v) small) 7)
    ≡ (if bit_and 7 1 == 1 then none else Option.map (λ v. v) (find 7 (bucket small 7)))
find-table_clone_example = find-table_clone (λ v. v) small 7 small-IsValid
