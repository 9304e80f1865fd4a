-- ===== src/Options/Modifiers.antt =====
-- What the signed options of a section do to the words, and that merging keeps them consistent.
use Prim.Native.Nat.{min}
use mod_perl.Prelude.{
  ℕ, ◌-◌, ◌^◌, ◌≤◌, ◌<◌, ◌≡◌, Bool, List, ◌∷◌, ◌≢◌, bit_and, bit_or, not, ◌&&◌, Bool-cases, inl,
  inr, ◌==◌, arith,
}
use mod_perl.Prelude.Bits.{bit, complement, bit_le_one}
use mod_perl.Prelude.Bits.Laws.{bit-bit_and, bit-bit_or, bit-complement, bit_and-lt, bit_or-lt}
use mod_perl.Options.{
  Options, Action, plus, minus, plain, FlagTable, lookup_failed, flags_lookup, split_action,
  apply_action, options_set,
}

-- The three words that a merge reads fit 32 bits.
pub record IsWord (o : Options) : Type 0 where
  pub opts : o.opts < 2 ^ 32
  pub opts_add : o.opts_add < 2 ^ 32
  pub opts_remove : o.opts_remove < 2 ^ 32

-- No option is both added and removed, and what is added is on.
pub record IsDisjoint (o : Options) : Type 0 where
  pub apart : (i : ℕ) → i < 32 → min (bit i o.opts_add) (bit i o.opts_remove) ≡ 0
  pub added : (i : ℕ) → i < 32 → bit i o.opts_add ≤ bit i o.opts

-- What is removed is off: an option without a sign can break this part.
abbrev pub RemovedOff : Options → Type 0
RemovedOff o = (i : ℕ) → i < 32 → min (bit i o.opts_remove) (bit i o.opts) ≡ 0

-- x & ~y, bit by bit.
pub bit-and_not :
    (i x y : ℕ)
    → i < 32
    → y < 2 ^ 32
    → bit i (bit_and x (complement 32 y)) ≡ min (bit i x) (1 - bit i y)
bit-and_not i x y h b = rw (bit-bit_and i x (complement 32 y), bit-complement 32 i y h b)

apply_action-IsWord :
    (a : Action) (opt : ℕ) (o : Options) → opt < 2 ^ 32 → IsWord o → IsWord (apply_action a opt o)
unfolding apply_action
apply_action-IsWord plus opt o b w = record {
  opts = bit_or-lt 32 _ _ w.opts b;
  opts_add = bit_or-lt 32 _ _ w.opts_add b;
  opts_remove = bit_and-lt 32 _ _ w.opts_remove;
}
apply_action-IsWord minus opt o b w = record {
  opts = bit_and-lt 32 _ _ w.opts;
  opts_add = bit_and-lt 32 _ _ w.opts_add;
  opts_remove = bit_or-lt 32 _ _ w.opts_remove b;
}
apply_action-IsWord plain opt o b w = record {
  opts = bit_or-lt 32 _ _ w.opts b;
  opts_add = w.opts_add;
  opts_remove = w.opts_remove;
}

apply_action-IsDisjoint :
    (a : Action) (opt : ℕ) (o : Options)
    → opt < 2 ^ 32
    → IsDisjoint o
    → IsDisjoint (apply_action a opt o)
unfolding apply_action
apply_action-IsDisjoint plus opt o b d = record {
  apart = λ i h.
      rw (bit-bit_or, bit-and_not i o.opts_remove opt h b)
        (omega (arith, d.apart i h, bit_le_one i opt));
  added = λ i h. simp bit-bit_or (omega (arith, d.added i h));
}
apply_action-IsDisjoint minus opt o b d = record {
  apart = λ i h.
      rw (bit-bit_or, bit-and_not i o.opts_add opt h b)
        (omega (arith, d.apart i h, bit_le_one i opt));
  added = λ i h.
      rw (bit-and_not i o.opts_add opt h b, bit-and_not i o.opts opt h b)
        (omega (arith, d.added i h));
}
apply_action-IsDisjoint plain opt o b d = record {
  apart = d.apart;
  added = λ i h. simp bit-bit_or (omega (arith, d.added i h));
}

-- A property of the options before, and of every action on them, holds after `options_set`.
pub options_set_cases {ℓ} :
    (P : Options → Type ℓ) (t : FlagTable) (use_ithreads : Bool) (o : Options) (arg : List ℕ)
    → P o
    → ((a : Action) (str : List ℕ)
        → let opt = flags_lookup t o str in
          P (apply_action a opt (record o { opts_seen = bit_or o.opts_seen opt })))
    → P (options_set t use_ithreads o arg).0
unfolding options_set
options_set_cases P t use_ithreads o arg keep act =
    let (a, str) = split_action arg in
    let opt = flags_lookup t o str in
    elim (Bool-cases (opt == lookup_failed)) [
      | inl failed ↦ rw failed keep
      | inr found ↦
          elim (Bool-cases (not use_ithreads && (o.unset == t.srv_unset) && t.ithread_only opt)) [
            | inl refused ↦ rw (found, refused) keep
            | inr set ↦ rw (found, set) (act a str)
          ]
    ]

-- The same for a name that begins with no sign.
pub options_set_plain {ℓ} :
    (P : Options → Type ℓ) (t : FlagTable) (use_ithreads : Bool) (o : Options) (c : ℕ)
    (str : List ℕ)
    → c ≢ b'+'
    → c ≢ b'-'
    → P o
    → ((opt : ℕ) → P (record o { opts = bit_or o.opts opt; opts_seen = bit_or o.opts_seen opt }))
    → P (options_set t use_ithreads o (c ∷ str)).0
unfolding options_set apply_action
options_set_plain P t use_ithreads o c str hp hm keep act =
    let opt = flags_lookup t o (c ∷ str) in
    let unsigned : split_action (c ∷ str) ≡ (plain, c ∷ str) =
      unfold split_action in ground arith in
    elim (Bool-cases (opt == lookup_failed)) [
      | inl failed ↦ rw (unsigned, failed) keep
      | inr found ↦
          elim (Bool-cases (not use_ithreads && (o.unset == t.srv_unset) && t.ithread_only opt)) [
            | inl refused ↦ rw (unsigned, found, refused) keep
            | inr set ↦ rw (unsigned, found, set) (act opt)
          ]
    ]

-- Where the table's options fit 32 bits, setting one, with or without a sign, keeps the added and
-- the removed options apart and every added option on; the words stay within 32 bits.
pub options_set-IsDisjoint :
    (t : FlagTable) (use_ithreads : Bool) (o : Options) (arg : List ℕ)
    → ((str : List ℕ) → flags_lookup t o str < 2 ^ 32)
    → IsWord o
    → IsDisjoint o
    → IsWord (options_set t use_ithreads o arg).0 × IsDisjoint (options_set t use_ithreads o arg).0
options_set-IsDisjoint t use_ithreads o arg range w d =
    options_set_cases (λ o'. IsWord o' × IsDisjoint o') t use_ithreads o arg (w, d)
      λ a str. (
        apply_action-IsWord a _ _ (range str)
            (record { opts = w.opts; opts_add = w.opts_add; opts_remove = w.opts_remove }),
        apply_action-IsDisjoint a _ _ (range str) (record { apart = d.apart; added = d.added }),
      )
