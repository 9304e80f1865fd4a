-- ===== src/SvptrTable/Write.antt =====
-- Writing one bucket: what `replace`, `unlink` and the new array do to the lookups and the invariant.
use mod_perl.Prelude.{
  ℕ, ◌+◌, ◌≡◌, ◌≢◌, ◌∙◌, inl, inr, refl, ap, Option, none, some, [], ◌∷◌, bit_and, ◌==◌, ==_iff,
  if◌then◌else◌, set, length, arith, Bool-cases, length-set, get_or-set_self, get_or-set_ne,
}
use mod_perl.SvptrTable.{Entry, Chain, Table, find, bucket, replace, unlink}
use mod_perl.SvptrTable.Valid.{
  All, Distinct, Placed, IsValid, index-lt, find_absent, ChainsFit-get_or, ChainsFit-set, total-set,
}

pub find-replace :
    (key v j w : ℕ) (c : Chain)
    → find key c ≡ some w
    → find j (replace key v c) ≡ (if key == j then some v else find j c)
unfolding find replace
find-replace key v j w [] h = cc
find-replace key v j w (e ∷ es) h = ground (arith, find-replace key v j w es)

pub All-replace {ℓ} :
    (P : ℕ → Type ℓ) (key v : ℕ) (c : Chain)
    → All (λ e. P e.oldval) c
    → All (λ e. P e.oldval) (replace key v c)
unfolding replace
All-replace P key v [] a = tt
All-replace P key v (e ∷ es) a = elim (Bool-cases (e.oldval == key)) [
  | inl hit ↦ rw hit a
  | inr miss ↦ rw miss (a.0, All-replace P key v es a.1)
]

pub Distinct-replace : (key v : ℕ) (c : Chain) → Distinct c → Distinct (replace key v c)
unfolding replace
Distinct-replace key v [] d = tt
Distinct-replace key v (e ∷ es) d = elim (Bool-cases (e.oldval == key)) [
  | inl hit ↦ rw hit d
  | inr miss ↦ rw miss (All-replace (λ k. k ≢ e.oldval) key v es d.0, Distinct-replace key v es d.1)
]

pub length-replace : (key v : ℕ) (c : Chain) → length (replace key v c) ≡ length c
unfolding replace
length-replace key v [] = refl
length-replace key v (e ∷ es) = ground (arith, length-replace key v es)

pub find-unlink :
    (key j : ℕ) (c : Chain)
    → Distinct c
    → find j (unlink key c) ≡ (if key == j then none else find j c)
unfolding find unlink
find-unlink key j [] d = ground arith
find-unlink key j (e ∷ es) d = ground (arith, find-unlink key j es d.1, find_absent e.oldval es d.0)

pub All-unlink {ℓ} : (P : Entry → Type ℓ) (key : ℕ) (c : Chain) → All P c → All P (unlink key c)
unfolding unlink
All-unlink P key [] a = tt
All-unlink P key (e ∷ es) a = elim (Bool-cases (e.oldval == key)) [
  | inl hit ↦ rw hit a.1
  | inr miss ↦ rw miss (a.0, All-unlink P key es a.1)
]

pub Distinct-unlink : (key : ℕ) (c : Chain) → Distinct c → Distinct (unlink key c)
unfolding unlink
Distinct-unlink key [] d = tt
Distinct-unlink key (e ∷ es) d = elim (Bool-cases (e.oldval == key)) [
  | inl hit ↦ rw hit d.1
  | inr miss ↦
      rw miss (All-unlink (λ x. x.oldval ≢ e.oldval) key es d.0, Distinct-unlink key es d.1)
]

pub length-unlink :
    (key v : ℕ) (c : Chain) → find key c ≡ some v → length (unlink key c) + 1 ≡ length c
unfolding find unlink
length-unlink key v [] h = cc
length-unlink key v (e ∷ es) h = ground (arith, length-unlink key v es)

-- Every operation writes one bucket, at the index of its key.
module _ {t : Table} (v : IsValid t) (key : ℕ) where
  abbrev pub written : Chain → ℕ → Table
  written c n = record t { tbl_ary = set t.tbl_ary (bit_and key t.tbl_max) c; tbl_items = n }

  -- The lookups after the write, from those in the new chain.
  pub find-written :
      (c : Chain) (n j : ℕ) (o : Option ℕ)
      → (bit_and j t.tbl_max ≡ bit_and key t.tbl_max
          → find j c ≡ (if key == j then o else find j (bucket t key)))
      → find j (bucket (written c n) j) ≡ (if key == j then o else find j (bucket t j))
  find-written c n j o h = elim (Bool-cases (bit_and j t.tbl_max == bit_and key t.tbl_max)) [
    | inl same ↦
        let e : bit_and j t.tbl_max ≡ bit_and key t.tbl_max = (==_iff _ _).0 same in
        rw (e, get_or-set_self t.tbl_ary (bit_and key t.tbl_max) c [] (index-lt v key)) (h e)
    | inr other ↦
        let ne : bit_and key t.tbl_max ≢ bit_and j t.tbl_max = λ e. ground (arith, e) in
        rw (get_or-set_ne t.tbl_ary (bit_and key t.tbl_max) (bit_and j t.tbl_max) c [] ne)
          (ground (arith, λ (e : key ≡ j). ne (ap (λ (k : ℕ). bit_and k t.tbl_max) e)))
  ]

  pub chain : Placed t.tbl_max (0 + bit_and key t.tbl_max) (bucket t key) × Distinct (bucket t key)
  chain = ChainsFit-get_or t.tbl_max 0 (bit_and key t.tbl_max) t.tbl_ary v.chains

  pub written-IsValid :
      (c : Chain) (n : ℕ)
      → Placed t.tbl_max (0 + bit_and key t.tbl_max) c
      → Distinct c
      → n + length (bucket t key) ≡ t.tbl_items + length c
      → IsValid (written c n)
  written-IsValid c n p d e = record {
    width = v.width;
    mask = v.mask;
    size = length-set t.tbl_ary (bit_and key t.tbl_max) c ∙ v.size;
    chains = ChainsFit-set t.tbl_max 0 (bit_and key t.tbl_max) t.tbl_ary c v.chains p d;
    items = omega (arith, total-set t.tbl_ary (bit_and key t.tbl_max) c (index-lt v key), v.items);
  }
