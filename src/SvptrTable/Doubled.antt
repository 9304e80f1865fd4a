-- ===== src/SvptrTable/Doubled.antt =====
-- modperl_svptr_table_split keeps the invariant and every lookup.
use native.Mathlib.Nat.{one-le-pow, pow-suc}
use mod_perl.Prelude.{
  ℕ, suc, ◌+◌, ◌-◌, ◌*◌, ◌%◌, ◌^◌, ◌<◌, ◌≡◌, ◌≢◌, ◌∙◌, inl, inr, refl, sym, ap, false, Option, none,
  some, List, [], ◌∷◌, ◌++◌, bit_and, ◌==◌, if◌then◌else◌, get_or, length, arith,
  get_or-append_left, get_or-append_right, length-append,
}
use mod_perl.Prelude.Bits.Laws.{bit_and_mask}
use mod_perl.SvptrTable.{Entry, Chain, Table, find, split_chain, split_loop, table_split, bucket}
use mod_perl.SvptrTable.Split.{
  or_else, find-split_chain, All-split_chain, tested-split_chain, Distinct-split_chain,
  get_or-split_loop, length-split_loop, total-append, Apart,
}
use mod_perl.SvptrTable.Valid.{
  All, ChainsFit, IsValid, index, index-lt, mod_double, ChainsFit-get_or,
}

All-and {ℓ} :
    {P Q R : Entry → Type ℓ} (c : Chain)
    → ((e : Entry) → P e → Q e → R e)
    → All P c
    → All Q c
    → All R c
All-and [] f a b = tt
All-and (e ∷ es) f a b = (f e a.0 b.0, All-and es f a.1 b.1)

Apart-nil : (c : Chain) → Apart c []
Apart-nil [] = tt
Apart-nil (e ∷ es) = (tt, Apart-nil es)

-- The array of `2 ^ k` buckets, and the one of twice as many.
module _ (k : ℕ) where
  moved_index :
      (key i : ℕ)
      → bit_and key (2 ^ k - 1) ≡ i
      → bit_and key (2 ^ suc k - 1) ≢ i
      → bit_and key (2 ^ suc k - 1) ≡ i + 2 ^ k
  moved_index key i low away = ground (
    arith,
    bit_and_mask k key,
    bit_and_mask (suc k) key,
    mod_double key (2 ^ k) (one-le-pow k 2 (omega arith)),
    ap (λ (m : ℕ). key % m) (pow-suc 2 k),
  )

  split_loop-lower :
      (i : ℕ) (cs : List Chain)
      → ChainsFit (2 ^ k - 1) i cs
      → ChainsFit (2 ^ suc k - 1) i (split_loop (2 ^ suc k - 1) i cs).0
  unfolding split_loop
  split_loop-lower i [] f = tt
  split_loop-lower i (c ∷ cs) f = (
    (tested-split_chain (2 ^ suc k - 1) i c [] tt).0,
    (Distinct-split_chain (2 ^ suc k - 1) i c [] f.1 tt (Apart-nil c)).0,
    split_loop-lower (i + 1) cs f.2,
  )

  split_loop-upper :
      (i j : ℕ) (cs : List Chain)
      → j ≡ i + 2 ^ k
      → ChainsFit (2 ^ k - 1) i cs
      → ChainsFit (2 ^ suc k - 1) j (split_loop (2 ^ suc k - 1) i cs).1
  unfolding split_loop
  split_loop-upper i j [] e f = tt
  split_loop-upper i j (c ∷ cs) e f = (
    rw e (
        All-and _ (λ x low away. moved_index x.oldval i low away)
          (All-split_chain (λ x. bit_and x.oldval (2 ^ k - 1) ≡ i) (2 ^ suc k - 1) i c [] f.0 tt).1
          (tested-split_chain (2 ^ suc k - 1) i c [] tt).1),
    (Distinct-split_chain (2 ^ suc k - 1) i c [] f.1 tt (Apart-nil c)).1,
    split_loop-upper (i + 1) (j + 1) cs (omega arith) f.2,
  )

ChainsFit-append :
    (max i j : ℕ) (cs ds : List Chain)
    → j ≡ i + length cs
    → ChainsFit max i cs
    → ChainsFit max j ds
    → ChainsFit max i (cs ++ ds)
ChainsFit-append max i j [] ds e f g = let e' : i ≡ j = omega arith in rw e' g
ChainsFit-append max i j (c ∷ cs) ds e f g =
    (f.0, f.1, ChainsFit-append max (i + 1) j cs ds (omega arith) f.2 g)

newmax : {t : Table} (v : IsValid t) → (t.tbl_max + 1) * 2 - 1 ≡ 2 ^ suc v.width - 1
newmax v = omega (arith, v.mask, pow-suc 2 v.width, one-le-pow v.width 2)

-- Splitting keeps the invariant: twice as many buckets, each entry in its new bucket.
pub table_split-IsValid : (t : Table) → IsValid t → IsValid (table_split t)
unfolding table_split
table_split-IsValid t v =
    let r = length-split_loop (2 ^ suc v.width - 1) 0 t.tbl_ary in
    record {
      width = suc v.width;
      mask = newmax v;
      size = rw (newmax v, length-append) (omega (arith, r.0, r.1, v.size, pow-suc 2 v.width));
      chains = rw (newmax v) (
          ChainsFit-append (2 ^ suc v.width - 1) 0 (2 ^ v.width) _ _ (omega (arith, r.0, v.size))
            (split_loop-lower v.width 0 t.tbl_ary (rw v.mask at v.chains))
            (split_loop-upper v.width 0 (2 ^ v.width) t.tbl_ary (omega arith)
              (rw v.mask at v.chains)));
      items = rw (newmax v, total-append) (omega (arith, r.2, v.items));
    }

or_else-none : (o : Option ℕ) → or_else o none ≡ o
or_else-none none = refl
or_else-none (some v) = refl

module _ {t : Table} (v : IsValid t) (key : ℕ) where
  -- the old and the new index of the key, and its chain
  abbrev home : ℕ
  home = bit_and key t.tbl_max

  abbrev mask : ℕ
  mask = 2 ^ suc v.width - 1

  abbrev lower : List Chain
  lower = (split_loop mask 0 t.tbl_ary).0

  abbrev upper : List Chain
  upper = (split_loop mask 0 t.tbl_ary).1

  parts :
      (get_or lower home [] ≡ (split_chain mask home (bucket t key) []).0)
      × (get_or upper home [] ≡ (split_chain mask home (bucket t key) []).1)
  parts =
      let e : 0 + home ≡ home = omega arith in
      rw e at (get_or-split_loop mask 0 home t.tbl_ary (index-lt v key))

  found :
      let (keep, away) = split_chain mask home (bucket t key) [] in
      (find key keep ≡ (if bit_and key mask == home then find key (bucket t key) else none))
      × (find key away ≡ (
          if bit_and key mask == home
          then find key []
          else or_else (find key (bucket t key)) (find key [])))
  found =
      find-split_chain mask home key (bucket t key) []
        (ChainsFit-get_or t.tbl_max 0 home t.tbl_ary v.chains).1

  length-lower : length lower ≡ 2 ^ v.width
  length-lower = omega (arith, (length-split_loop mask 0 t.tbl_ary).0, v.size)

  stays :
      bit_and key mask ≡ home
      → find key (get_or (lower ++ upper) (bit_and key mask) []) ≡ find key (bucket t key)
  stays e =
      let inside : home < length lower = omega (arith, length-lower, v.size, index-lt v key) in
      rw (e, get_or-append_left lower upper home [] inside, parts.0, found.0) (ground (arith, e))

  moves :
      bit_and key mask ≡ home + 2 ^ v.width
      → find key (get_or (lower ++ upper) (bit_and key mask) []) ≡ find key (bucket t key)
  unfolding find
  moves e =
      let e' : bit_and key mask ≡ home + length lower = omega (arith, e, length-lower) in
      let away : (bit_and key mask == home) ≡ false =
        ground (arith, e, one-le-pow v.width 2 (omega arith)) in
      rw (e', get_or-append_right lower upper home [], parts.1, found.1)
        (rw away (or_else-none (find key (bucket t key))))

  -- Splitting loses no lookup.
  pub find-table_split : find key (bucket (table_split t) key) ≡ find key (bucket t key)
  unfolding table_split
  find-table_split =
      rw (newmax v) (elim (mod_double key (2 ^ v.width) (one-le-pow v.width 2 (omega arith))) [
        | inl same ↦ stays (new_index ∙ same ∙ sym (index v key))
        | inr up ↦ moves (new_index ∙ up ∙ ap (λ (n : ℕ). n + 2 ^ v.width) (sym (index v key)))
      ])
    where
      new_index : bit_and key mask ≡ key % (2 ^ v.width * 2)
      new_index = bit_and_mask (suc v.width) key ∙ ap (λ (m : ℕ). key % m) (pow-suc 2 v.width)
