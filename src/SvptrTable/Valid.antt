-- ===== src/SvptrTable/Valid.antt =====
-- The table's invariant, and the index of a key before and after the array is doubled.
use native.Mathlib.Nat.{
  dvd-mul_right, mod-mod_of_dvd, mod-eq_of_lt, mod-eq-sub-mod, mod-lt, one-le-pow,
}
use mod_perl.Prelude.{
  ℕ, zero, suc, ◌+◌, ◌-◌, ◌*◌, ◌%◌, ◌^◌, ◌≤◌, ◌<◌, ◌≡◌, ◌≢◌, ◌⊎◌, ◌∙◌, inl, inr, refl, sym, none,
  List, [], ◌∷◌, bit_and, ◌==◌, get_or, set, length, arith, ltb, Bool-cases,
}
use mod_perl.Prelude.Bits.Laws.{bit_and_mask}
use mod_perl.SvptrTable.{Chain, Table, find}

mod_double-split : (x a s : ℕ) → x < s * 2 → x % s ≡ a % s → (x ≡ a % s) ⊎ (x ≡ a % s + s)
mod_double-split x a s h e = elim (Bool-cases (ltb x s)) [
  | inl low ↦ inl (sym (mod-eq_of_lt {n = x} {m = s} (ground arith)) ∙ e)
  | inr high ↦
      let over : s ≤ x = ground arith in
      let less : x - s < s = omega arith in
      inr (omega (arith, e, mod-eq-sub-mod over, mod-eq_of_lt {n = x - s} {m = s} less))
]

-- Doubling the array leaves a key at its index, or moves it by the old size.
pub mod_double : (a s : ℕ) → 0 < s → (a % (s * 2) ≡ a % s) ⊎ (a % (s * 2) ≡ a % s + s)
mod_double a s h =
    mod_double-split (a % (s * 2)) a s (mod-lt a {m = s * 2} (omega arith))
      (mod-mod_of_dvd s {b = s * 2} a (dvd-mul_right s 2))

abbrev pub All {ℓ κ} : {A : Type ℓ} → (A → Type κ) → List A → Type κ
All P [] = Unit
All P (x ∷ xs) = P x × All P xs

-- No key occurs twice in a chain.
abbrev pub Distinct : Chain → Type 0
Distinct [] = Unit {0}
Distinct (e ∷ es) = All (λ e'. e'.oldval ≢ e.oldval) es × Distinct es

-- Every entry of the chain belongs at index `i`.
abbrev pub Placed : ℕ → ℕ → Chain → Type 0
Placed max i c = All (λ e. bit_and e.oldval max ≡ i) c

abbrev pub total : List Chain → ℕ
total [] = 0
total (c ∷ cs) = length c + total cs

-- The chains, from index `i` up.
abbrev pub ChainsFit : ℕ → ℕ → List Chain → Type 0
ChainsFit max i [] = Unit {0}
ChainsFit max i (c ∷ cs) = Placed max i c × Distinct c × ChainsFit max (i + 1) cs

pub record IsValid (t : Table) : Type 0 where
  pub width : ℕ
  pub mask : t.tbl_max ≡ 2 ^ width - 1
  pub size : length t.tbl_ary ≡ 2 ^ width
  pub chains : ChainsFit t.tbl_max 0 t.tbl_ary
  pub items : t.tbl_items ≡ total t.tbl_ary

pub index : {t : Table} (v : IsValid t) (key : ℕ) → bit_and key t.tbl_max ≡ key % 2 ^ v.width
index v key = rw v.mask (bit_and_mask v.width key)

pub index-lt : {t : Table} (v : IsValid t) (key : ℕ) → bit_and key t.tbl_max < length t.tbl_ary
index-lt v key = rw (index v key, v.size) (mod-lt key (one-le-pow v.width 2 (omega arith)))

pub ChainsFit-get_or :
    (max i j : ℕ) (cs : List Chain)
    → ChainsFit max i cs
    → Placed max (i + j) (get_or cs j []) × Distinct (get_or cs j [])
ChainsFit-get_or max i j [] f = (tt, tt)
ChainsFit-get_or max i zero (c ∷ cs) f = let e : i + 0 ≡ i = omega arith in rw e (f.0, f.1)
ChainsFit-get_or max i (suc j) (c ∷ cs) f =
    let e : i + 1 + j ≡ i + suc j = omega arith in rw (← e) (ChainsFit-get_or max (i + 1) j cs f.2)

pub ChainsFit-set :
    (max i j : ℕ) (cs : List Chain) (c : Chain)
    → ChainsFit max i cs
    → Placed max (i + j) c
    → Distinct c
    → ChainsFit max i (set cs j c)
ChainsFit-set max i j [] c f p d = tt
ChainsFit-set max i zero (x ∷ cs) c f p d = let e : i + 0 ≡ i = omega arith in (rw e at p, d, f.2)
ChainsFit-set max i (suc j) (x ∷ cs) c f p d =
    let e : i + suc j ≡ i + 1 + j = omega arith in
    (f.0, f.1, ChainsFit-set max (i + 1) j cs c f.2 (rw e at p) d)

pub total-set :
    (cs : List Chain) (j : ℕ) (c : Chain)
    → j < length cs
    → total (set cs j c) + length (get_or cs j []) ≡ total cs + length c
total-set [] j c h = absurd (omega arith)
total-set (x ∷ cs) zero c h = omega arith
total-set (x ∷ cs) (suc j) c h = omega (arith, total-set cs j c (omega arith))

pub find_absent : (key : ℕ) (c : Chain) → All (λ e. e.oldval ≢ key) c → find key c ≡ none
unfolding find
find_absent key [] h = refl
find_absent key (e ∷ es) h = ground (arith, find_absent key es h.1)

pub absent_of_find : (key : ℕ) (c : Chain) → find key c ≡ none → All (λ e. e.oldval ≢ key) c
unfolding find
absent_of_find key [] h = tt
absent_of_find key (e ∷ es) h = elim (Bool-cases (e.oldval == key)) [
  | inl hit ↦ absurd (ground arith)
  | inr miss ↦ (ground arith, absent_of_find key es (ground arith))
]
