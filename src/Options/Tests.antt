-- ===== src/Options/Tests.antt =====
-- The theorems on options at concrete words.
use mod_perl.Prelude.{ℕ, ◌^◌, ◌<◌, ◌≡◌, refl, true, List, [], ◌∷◌, ◌==◌, if◌then◌else◌, arith}
use mod_perl.Prelude.Bits.{bit}
use mod_perl.Prelude.Bits.Laws.{bit-zero}
use mod_perl.Options.{
  FlagTable, Options, flags_lookup, options_new, options_set, options_merge, lookup_failed,
  split_action, apply_action,
}
use mod_perl.Options.Modifiers.{IsWord, IsDisjoint}
use mod_perl.Options.Merge.{options_merge_modifiers}

-- One option, 16, and the UNSET bits of the two kinds of section.
abbrev lookup_any : List ℕ → ℕ
lookup_any [] = lookup_failed
lookup_any (c ∷ str) = 16

abbrev table : FlagTable
table = record {
  lookup_srv = lookup_any;
  lookup_dir = lookup_any;
  srv_unset = 64;
  dir_unset = 32;
  srv_type = 1;
  ithread_only = λ o. o == 1;
}

abbrev fresh : Options
fresh = record {
  opts = 32;
  opts_add = 0;
  opts_remove = 0;
  opts_override = 0;
  opts_seen = 0;
  unset = 32;
}

-- After "-Option".
abbrev removed : Options
removed = record {
  opts = 32;
  opts_add = 0;
  opts_remove = 16;
  opts_override = 0;
  opts_seen = 16;
  unset = 32;
}

new_directory : options_new table 0 ≡ fresh
unfolding options_new
new_directory = refl

range : (str : List ℕ) → flags_lookup table fresh str < 2 ^ 32
unfolding flags_lookup
range [] = omega arith
range (c ∷ str) = omega arith

fresh-IsWord : IsWord fresh
fresh-IsWord = omega arith

removed-IsWord : IsWord removed
removed-IsWord = omega arith

fresh-IsDisjoint : IsDisjoint fresh
fresh-IsDisjoint = record {
  apart = λ i h. omega (arith, bit-zero i);
  added = λ i h. omega (arith, bit-zero i);
}

removed-IsDisjoint : IsDisjoint removed
removed-IsDisjoint = record {
  apart = λ i h. omega (arith, bit-zero i);
  added = λ i h. omega (arith, bit-zero i);
}

minus_runs : (options_set table true fresh (b'-' ∷ b'G' ∷ [])).0 ≡ removed
unfolding options_set split_action flags_lookup apply_action
minus_runs = refl

options_merge_modifiers_example :
    bit 4 (options_merge fresh removed).opts
    ≡ (if bit 4 0 == 1 then 1 else if bit 4 16 == 1 then 0 else bit 4 32)
options_merge_modifiers_example =
    options_merge_modifiers fresh removed 4 (omega arith) fresh-IsWord removed-IsWord
      fresh-IsDisjoint (λ i h. omega (arith, bit-zero i)) removed-IsDisjoint (λ e. omega arith)
