-- ===== src/SvptrTable.antt =====
-- src/modules/perl/modperl_svptr_table.c: a chained hash table from pointers to SV pointers. A
-- pointer is its address, and 0 is NULL; a bucket is the list of its chain. A reference count that
-- an operation drops is recorded in a list of the SVs concerned.
pub mod Valid
pub mod Split
pub mod Doubled
pub mod Write
pub mod Fetch
pub mod Clone
pub mod Tests
use mod_perl.Prelude.{
  ℕ, zero, suc, ◌+◌, ◌-◌, ◌*◌, ◌^◌, Bool, true, false, not, ◌&&◌, Option, none, some, List, [], ◌∷◌,
  ◌++◌, bit_and, ltb, ◌==◌, if◌then◌else◌, get_or, set, replicate, length,
}

pub record Entry : Type 0 where
  pub oldval : ℕ
  pub newval : ℕ

abbrev pub Chain : Type 0
Chain = List Entry

pub record Table : Type 0 where
  pub tbl_ary : List Chain
  pub tbl_max : ℕ
  pub tbl_items : ℕ

pub table_new : Table
table_new = record { tbl_ary = replicate (511 + 1) []; tbl_max = 511; tbl_items = 0 }

-- The bucket of a key.
abbrev pub bucket : Table → ℕ → Chain
bucket t key = get_or t.tbl_ary (bit_and key t.tbl_max) []

-- The walk of a chain that `fetch` and `store` make.
pub find : ℕ → Chain → Option ℕ
find key [] = none
find key (e ∷ es) = if e.oldval == key then some e.newval else find key es

abbrev pub or_null : Option ℕ → ℕ
or_null none = 0
or_null (some v) = v

pub table_fetch : Table → ℕ → ℕ
unfolding find
table_fetch t key = or_null (find key (bucket t key))

-- The entries of one old bucket: those that stay, and those that move, each pushed in front of
-- the new chain.
pub split_chain : ℕ → ℕ → Chain → Chain → Chain × Chain
split_chain mask i [] moved = ([], moved)
split_chain mask i (e ∷ es) moved =
    let go_on = split_chain mask i es moved in
    let move = split_chain mask i es (e ∷ moved) in
    if bit_and e.oldval mask == i then (e ∷ go_on.0, go_on.1) else move

-- The loop over the old buckets, from `i` up: the lower and the upper half of the new array.
pub split_loop : ℕ → ℕ → List Chain → List Chain × List Chain
split_loop mask i [] = ([], [])
split_loop mask i (c ∷ cs) =
    let (keep, moved) = split_chain mask i c [] in
    let (lower, upper) = split_loop mask (i + 1) cs in (keep ∷ lower, moved ∷ upper)

pub table_split : Table → Table
table_split t =
    let oldsize = t.tbl_max + 1 in
    let newmax = oldsize * 2 - 1 in
    let (lower, upper) = split_loop newmax 0 t.tbl_ary in
    record { tbl_ary = lower ++ upper; tbl_max = newmax; tbl_items = t.tbl_items }

-- `tblent->newval = newv` at the first entry with the key.
pub replace : ℕ → ℕ → Chain → Chain
replace key v [] = []
replace key v (e ∷ es) =
    if e.oldval == key then record e { newval = v } ∷ es else e ∷ replace key v es

abbrev pub is_empty : Chain → Bool
is_empty [] = true
is_empty (e ∷ es) = false

-- The new entry goes in front of its bucket.
pub table_insert : Table → ℕ → ℕ → Table
table_insert t key v = record t {
  tbl_ary =
      set t.tbl_ary (bit_and key t.tbl_max) (record { oldval = key; newval = v } ∷ bucket t key);
  tbl_items = t.tbl_items + 1;
}

pub table_store : Table → ℕ → ℕ → Table
unfolding table_insert
table_store t key v =
    let chain = bucket t key in
    let grown = table_insert t key v in
    elim (find key chain) [
      | some _ ↦ record t { tbl_ary = set t.tbl_ary (bit_and key t.tbl_max) (replace key v chain) }
      | none ↦
          if is_empty chain && ltb grown.tbl_max grown.tbl_items then table_split grown else grown
    ]

-- `*oentry = entry->next` at the first entry with the key.
pub unlink : ℕ → Chain → Chain
unlink key [] = []
unlink key (e ∷ es) = if e.oldval == key then es else e ∷ unlink key es

-- The table, and the SV whose reference count is dropped.
pub table_delete : Table → ℕ → Table × List ℕ
table_delete t key =
    let chain = bucket t key in
    elim (find key chain) [
      | none ↦ (t, [])
      | some v ↦ (
        record t {
          tbl_ary = set t.tbl_ary (bit_and key t.tbl_max) (unlink key chain);
          tbl_items = t.tbl_items - 1;
        },
        v ∷ [],
      )
    ]

-- `my_sv_dup` is Perl's sv_dup_inc.
pub clone_chain : (ℕ → ℕ) → Chain → Chain
clone_chain dup [] = []
clone_chain dup (e ∷ es) = record { oldval = e.oldval; newval = dup e.newval } ∷ clone_chain dup es

-- `for (i = 0; i < tbl_max; i++)` over both arrays, the new one filled with NULL before.
pub clone_loop : (ℕ → ℕ) → ℕ → List Chain → List Chain → List Chain
clone_loop dup zero src dst = dst
clone_loop dup (suc n) (s ∷ src) (d ∷ dst) = clone_chain dup s ∷ clone_loop dup n src dst
clone_loop dup (suc n) _ dst = dst

pub table_clone : (ℕ → ℕ) → Table → Table
unfolding clone_chain clone_loop
table_clone dup source = record source {
  tbl_ary = clone_loop dup source.tbl_max source.tbl_ary (replicate (source.tbl_max + 1) []);
}

-- The entries that the loop frees, in order. The second argument is the rest of the array.
pub clear_loop : Chain → List Chain → List Entry
clear_loop [] [] = []
clear_loop [] (c ∷ cs) = clear_loop c cs
clear_loop (e ∷ es) cs = e ∷ clear_loop es cs

-- The table that is left, whose chains are those freed, and the freed entries.
pub table_clear : Table → Table × List Entry
table_clear t =
    if t.tbl_items == 0 then (t, []) else (record t { tbl_items = 0 }, clear_loop [] t.tbl_ary)

-- The SVs whose counts are dropped in one chain, and the chain with NULL in their place.
pub destroy_chain : Chain → List ℕ × Chain
destroy_chain [] = ([], [])
destroy_chain (e ∷ es) =
    let (svs, rest) = destroy_chain es in
    if e.newval == 0 then (svs, e ∷ rest) else (e.newval ∷ svs, record e { newval = 0 } ∷ rest)

pub destroy_loop : ℕ → List Chain → List ℕ × List Chain
destroy_loop zero cs = ([], cs)
destroy_loop (suc n) [] = ([], [])
destroy_loop (suc n) (c ∷ cs) =
    let (svs, c') = destroy_chain c in
    let (more, cs') = destroy_loop n cs in (svs ++ more, c' ∷ cs')

-- The SVs whose counts are dropped, and the entries that are freed with the table.
pub table_destroy : Table → List ℕ × List Entry
unfolding destroy_chain destroy_loop table_clear
table_destroy t =
    let (svs, ary) = destroy_loop t.tbl_max t.tbl_ary in
    (svs, (table_clear (record t { tbl_ary = ary })).1)
