-- ===== src/SvptrTable/Split.antt =====
-- What the loop of modperl_svptr_table_split does to each chain.
use mod_perl.Prelude.{
  ℕ, zero, suc, ◌+◌, ◌<◌, ◌≡◌, ◌≢◌, inl, inr, refl, sym, Option, none, some, List, [], ◌∷◌, ◌++◌,
  bit_and, ◌==◌, if◌then◌else◌, get_or, length, arith, Bool-cases,
}
use mod_perl.SvptrTable.{Entry, Chain, find, split_chain, split_loop}
use mod_perl.SvptrTable.Valid.{All, Distinct, total, find_absent}

-- Of two results of a walk, the first that is there.
abbrev pub or_else : Option ℕ → Option ℕ → Option ℕ
or_else none o = o
or_else (some v) o = some v

pub find-split_chain :
    (mask i key : ℕ) (c moved : Chain)
    → Distinct c
    → let (keep, away) = split_chain mask i c moved in
      (find key keep ≡ (if bit_and key mask == i then find key c else none))
      × (find key away ≡ (
          if bit_and key mask == i then find key moved else or_else (find key c) (find key moved)))
unfolding split_chain find
find-split_chain mask i key [] moved d = (ground arith, ground arith)
find-split_chain mask i key (e ∷ es) moved d = elim (Bool-cases (e.oldval == key)) [
  | inl hit ↦ ground (
    arith,
    find_absent e.oldval es d.0,
    find-split_chain mask i key es moved d.1,
    find-split_chain mask i key es (e ∷ moved) d.1,
  )
  | inr miss ↦ ground (
    arith,
    find-split_chain mask i key es moved d.1,
    find-split_chain mask i key es (e ∷ moved) d.1,
  )
]

pub length-split_chain :
    (mask i : ℕ) (c moved : Chain)
    → length (split_chain mask i c moved).0 + length (split_chain mask i c moved).1
      ≡ length c + length moved
unfolding split_chain
length-split_chain mask i [] moved = omega arith
length-split_chain mask i (e ∷ es) moved =
    ground (arith, length-split_chain mask i es moved, length-split_chain mask i es (e ∷ moved))

-- A property of the entries holds of both parts.
pub All-split_chain {ℓ} :
    (P : Entry → Type ℓ) (mask i : ℕ) (c moved : Chain)
    → All P c
    → All P moved
    → All P (split_chain mask i c moved).0 × All P (split_chain mask i c moved).1
unfolding split_chain
All-split_chain P mask i [] moved a b = (tt, b)
All-split_chain P mask i (e ∷ es) moved a b = elim (Bool-cases (bit_and e.oldval mask == i)) [
  | inl keep ↦ rw keep (let r = All-split_chain P mask i es moved a.1 b in ((a.0, r.0), r.1))
  | inr move ↦ rw move (All-split_chain P mask i es (e ∷ moved) a.1 (a.0, b))
]

-- The entries that stay satisfy the test, the others do not.
pub tested-split_chain :
    (mask i : ℕ) (c moved : Chain)
    → All (λ e. bit_and e.oldval mask ≢ i) moved
    → All (λ e. bit_and e.oldval mask ≡ i) (split_chain mask i c moved).0
      × All (λ e. bit_and e.oldval mask ≢ i) (split_chain mask i c moved).1
unfolding split_chain
tested-split_chain mask i [] moved b = (tt, b)
tested-split_chain mask i (e ∷ es) moved b = elim (Bool-cases (bit_and e.oldval mask == i)) [
  | inl keep ↦ rw keep (let r = tested-split_chain mask i es moved b in ((ground arith, r.0), r.1))
  | inr move ↦ rw move (tested-split_chain mask i es (e ∷ moved) (ground arith, b))
]

-- No key of the first chain occurs in the second.
abbrev pub Apart : Chain → Chain → Type 0
Apart c moved = All (λ e. All (λ m. m.oldval ≢ e.oldval) moved) c

-- Of what stays, whatever has moved before.
All-split_keep {ℓ} :
    (P : Entry → Type ℓ) (mask i : ℕ) (c moved : Chain)
    → All P c
    → All P (split_chain mask i c moved).0
unfolding split_chain
All-split_keep P mask i [] moved a = tt
All-split_keep P mask i (e ∷ es) moved a = elim (Bool-cases (bit_and e.oldval mask == i)) [
  | inl keep ↦ rw keep (a.0, All-split_keep P mask i es moved a.1)
  | inr move ↦ rw move (All-split_keep P mask i es (e ∷ moved) a.1)
]

Apart-cons :
    (c moved : Chain) (e : Entry)
    → All (λ e'. e'.oldval ≢ e.oldval) c
    → Apart c moved
    → Apart c (e ∷ moved)
Apart-cons [] moved e h a = tt
Apart-cons (x ∷ c) moved e h a = ((λ p. h.0 (sym p), a.0), Apart-cons c moved e h.1 a.1)

pub Distinct-split_chain :
    (mask i : ℕ) (c moved : Chain)
    → Distinct c
    → Distinct moved
    → Apart c moved
    → Distinct (split_chain mask i c moved).0 × Distinct (split_chain mask i c moved).1
unfolding split_chain
Distinct-split_chain mask i [] moved d m a = (tt, m)
Distinct-split_chain mask i (e ∷ es) moved d m a = elim (Bool-cases (bit_and e.oldval mask == i)) [
  | inl keep ↦ rw keep (
      let r = Distinct-split_chain mask i es moved d.1 m a.1 in
      ((All-split_keep (λ e'. e'.oldval ≢ e.oldval) mask i es moved d.0, r.0), r.1))
  | inr move ↦
      rw move
        (Distinct-split_chain mask i es (e ∷ moved) d.1 (a.0, m) (Apart-cons es moved e d.0 a.1))
]

-- The loop, bucket by bucket.
pub get_or-split_loop :
    (mask i j : ℕ) (cs : List Chain)
    → j < length cs
    → (get_or (split_loop mask i cs).0 j [] ≡ (split_chain mask (i + j) (get_or cs j []) []).0)
      × (get_or (split_loop mask i cs).1 j [] ≡ (split_chain mask (i + j) (get_or cs j []) []).1)
unfolding split_loop
get_or-split_loop mask i j [] h = absurd (omega arith)
get_or-split_loop mask i zero (c ∷ cs) h = let e : i + 0 ≡ i = omega arith in rw e (refl, refl)
get_or-split_loop mask i (suc j) (c ∷ cs) h =
    let e : i + suc j ≡ i + 1 + j = omega arith in
    rw e (get_or-split_loop mask (i + 1) j cs (omega arith))

pub length-split_loop :
    (mask i : ℕ) (cs : List Chain)
    → (length (split_loop mask i cs).0 ≡ length cs)
      × (length (split_loop mask i cs).1 ≡ length cs)
      × (total (split_loop mask i cs).0 + total (split_loop mask i cs).1 ≡ total cs)
unfolding split_loop
length-split_loop mask i [] = (refl, refl, omega arith)
length-split_loop mask i (c ∷ cs) =
    let r = length-split_loop mask (i + 1) cs in
    (omega arith, omega arith, omega (arith, length-split_chain mask i c []))

pub total-append : (cs ds : List Chain) → total (cs ++ ds) ≡ total cs + total ds
total-append [] ds = omega arith
total-append (c ∷ cs) ds = omega (arith, total-append cs ds)
