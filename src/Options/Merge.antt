-- ===== src/Options/Merge.antt =====
-- modperl_options_merge, option by option.
use mod_perl.Prelude.{
  ℕ, ◌^◌, ◌<◌, ◌≡◌, ◌≢◌, ◌⊎◌, refl, Bool, false, List, ◌∷◌, bit_and, bit_or, ◌==◌, ==_iff,
  Bool-cases, inl, inr, if◌then◌else◌, arith,
}
use mod_perl.Prelude.Bits.{bit, complement, bit_le_one}
use mod_perl.Prelude.Bits.Laws.{bit-bit_or, bit_and-lt, bit_or-lt, bit_and-bit_or_zero}
use mod_perl.Options.{Options, FlagTable, options_set, options_merge}
use mod_perl.Options.Modifiers.{IsWord, IsDisjoint, RemovedOff, bit-and_not, options_set_plain}

-- (base & ~off) | on, bit by bit.
bit-masked :
    (i base off on : ℕ)
    → i < 32
    → off < 2 ^ 32
    → bit i (bit_or (bit_and base (complement 32 off)) on)
      ≡ (if bit i on == 1 then 1 else if bit i off == 1 then 0 else bit i base)
bit-masked i base off on h b =
    rw (bit-bit_or, bit-and_not i base off h b)
      (ground (arith, bit_le_one i base, bit_le_one i off, bit_le_one i on))

abbrev merged_off : Options → Options → ℕ
merged_off base add = bit_or (bit_and base.opts_remove (complement 32 add.opts_add)) add.opts_remove

abbrev merged_on : Options → Options → ℕ
merged_on base add = bit_or (bit_and base.opts_add (complement 32 add.opts_remove)) add.opts_add

-- Merging a section that still has its UNSET bit: an option is on exactly when the section adds it,
-- or does not remove it and it was on in the base. The words fit 32 bits, both sections keep their
-- added and removed options apart with the added ones on, and the base has its removed ones off.
pub options_merge_modifiers :
    (base add : Options) (i : ℕ)
    → i < 32
    → IsWord base
    → IsWord add
    → IsDisjoint base
    → RemovedOff base
    → IsDisjoint add
    → bit_and add.opts add.unset ≢ 0
    → bit i (options_merge base add).opts ≡ (
        if bit i add.opts_add == 1
        then 1
        else if bit i add.opts_remove == 1
        then 0
        else bit i base.opts)
unfolding options_merge
options_merge_modifiers base add i h wb wa db rb da unset =
    elim (Bool-cases (bit_and add.opts add.unset == 0)) [
      | inl e ↦ absurd (unset ((==_iff _ 0).0 e))
      | inr e ↦ rw e (
          rw
            (bit-masked i base.opts (merged_off base add) (merged_on base add) h
              (bit_or-lt 32 _ _ (bit_and-lt 32 _ _ wb.opts_remove) wa.opts_remove))
            (ground (
              arith,
              bit-masked i base.opts_remove add.opts_add add.opts_remove h wa.opts_add,
              bit-masked i base.opts_add add.opts_remove add.opts_add h wa.opts_remove,
              db.added i h,
              rb i h,
              da.apart i h,
              bit_le_one i base.opts,
              bit_le_one i base.opts_add,
              bit_le_one i base.opts_remove,
            )))
    ]

-- Of two sections of 32-bit words that keep their added and removed options apart, with the added
-- ones on, the merge does so too; and either the second section has lost its UNSET bit, or the
-- merge has its removed options off, whatever the base's own word said.
pub options_merge-IsDisjoint :
    (base add : Options)
    → IsWord base
    → IsWord add
    → IsDisjoint base
    → IsDisjoint add
    → IsDisjoint (options_merge base add)
      × ((bit_and add.opts add.unset ≡ 0) ⊎ RemovedOff (options_merge base add))
unfolding options_merge
options_merge-IsDisjoint base add wb wa db da =
    elim (Bool-cases (bit_and add.opts add.unset == 0)) [
      | inl e ↦ rw e (record { apart = da.apart; added = da.added }, inl ((==_iff _ 0).0 e))
      | inr e ↦ rw e (
        record {
          apart = λ i h. ground (
            arith,
            bit-masked i base.opts_remove add.opts_add add.opts_remove h wa.opts_add,
            bit-masked i base.opts_add add.opts_remove add.opts_add h wa.opts_remove,
            db.apart i h,
            da.apart i h,
            bit_le_one i base.opts_add,
            bit_le_one i base.opts_remove,
            bit_le_one i add.opts_add,
            bit_le_one i add.opts_remove,
          );
          added = λ i h. simp bit-bit_or (omega arith);
        },
        inr (λ i h.
            rw
              (bit-masked i base.opts (merged_off base add) (merged_on base add) h
                (bit_or-lt 32 _ _ (bit_and-lt 32 _ _ wb.opts_remove) wa.opts_remove))
              (ground (
                arith,
                bit-masked i base.opts_remove add.opts_add add.opts_remove h wa.opts_add,
                bit-masked i base.opts_add add.opts_remove add.opts_add h wa.opts_remove,
                db.apart i h,
                da.apart i h,
                bit_le_one i base.opts_add,
                bit_le_one i base.opts_remove,
                bit_le_one i add.opts_add,
                bit_le_one i add.opts_remove,
              ))),
      )
    ]

-- An option set without a sign, in a section that still has its UNSET bit, does not reach the
-- merge: the merged options are those of the section without it.
pub options_merge-plain :
    (t : FlagTable) (use_ithreads : Bool) (base add : Options) (c : ℕ) (str : List ℕ)
    → c ≢ b'+'
    → c ≢ b'-'
    → bit_and add.opts add.unset ≢ 0
    → (options_merge base (options_set t use_ithreads add (c ∷ str)).0).opts
      ≡ (options_merge base add).opts
options_merge-plain t use_ithreads base add c str hp hm unset =
    let lift : bit_and add.opts add.unset == 0 ≡ false = ground arith in
    options_set_plain (λ o. (options_merge base o).opts ≡ (options_merge base add).opts) t
      use_ithreads add c str hp hm refl
      (λ opt.
        unfold options_merge in
        let kept : (bit_and (bit_or add.opts opt) add.unset == 0) ≡ false =
          ground (arith, bit_and-bit_or_zero add.opts add.opts opt add.unset (omega arith)) in
        rw (lift, kept))
