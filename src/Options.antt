-- ===== src/Options.antt =====
-- src/modules/perl/modperl_options.c: the option word of a server or a directory, and its merge.
-- The tables that ModPerl::Code generates (modperl_flags_lookup_srv, modperl_flags_lookup_dir, the
-- UNSET masks, MpSrvOPT_ITHREAD_ONLY) are the fields of `FlagTable`; a U32 is a number below 2 ^ 32.
pub mod Modifiers
pub mod Merge
pub mod Tests
use mod_perl.Prelude.{
  ℕ, ◌-◌, ◌^◌, Bool, true, false, ◌&&◌, not, Option, none, some, List, [], ◌∷◌, bit_and, bit_or,
  ◌==◌, if◌then◌else◌,
}
use mod_perl.Prelude.Bits.{complement}

pub record FlagTable : Type 0 where
  pub lookup_srv : List ℕ → ℕ
  pub lookup_dir : List ℕ → ℕ
  pub srv_unset : ℕ
  pub dir_unset : ℕ
  pub srv_type : ℕ
  pub ithread_only : ℕ → Bool

pub record Options : Type 0 where
  pub opts : ℕ
  pub opts_add : ℕ
  pub opts_remove : ℕ
  pub opts_override : ℕ
  pub opts_seen : ℕ
  pub unset : ℕ

pub data OptionsType : Type 0 where
  server directory unknown : OptionsType

-- The texts of the two error messages, by their parts: the flag tells whether the first has the
-- suffix "(only allowed per-server)".
pub data SetError : Type 0 where
  invalid : OptionsType → List ℕ → Bool → SetError
  requires_ithreads : List ℕ → SetError

-- The -1 of the lookups, as a U32.
abbrev pub lookup_failed : ℕ
lookup_failed = 2 ^ 32 - 1

-- The sign in front of an option's name.
pub data Action : Type 0 where
  plus minus plain : Action

module _ (t : FlagTable) where
  pub flags_lookup : Options → List ℕ → ℕ
  flags_lookup o str =
      if o.unset == t.srv_unset
      then t.lookup_srv str
      else if o.unset == t.dir_unset
      then t.lookup_dir str
      else 0

  pub type_lookup : Options → OptionsType
  type_lookup o =
      if o.unset == t.srv_unset
      then server
      else if o.unset == t.dir_unset
      then directory
      else unknown

  pub options_new : ℕ → Options
  options_new type =
      let word = if type == t.srv_type then t.srv_unset else t.dir_unset in
      record {
        opts = word;
        opts_add = 0;
        opts_remove = 0;
        opts_override = 0;
        opts_seen = 0;
        unset = word;
      }

  -- The message of a failed lookup. The dummy of the source has only its `unset` field set, which
  -- is all that `flags_lookup` reads.
  pub lookup_error : Options → List ℕ → SetError
  lookup_error o str =
      if o.unset == t.dir_unset
      then invalid (type_lookup o) str
          (flags_lookup (record o { unset = t.srv_unset }) str == lookup_failed)
      else invalid (type_lookup o) str false

-- `action = *(str++)` where the name begins with a sign.
pub split_action : List ℕ → Action × List ℕ
split_action [] = (plain, [])
split_action (c ∷ str) =
    if c == b'+' then (plus, str) else if c == b'-' then (minus, str) else (plain, c ∷ str)

pub apply_action : Action → ℕ → Options → Options
apply_action minus opt o = record o {
  opts_remove = bit_or o.opts_remove opt;
  opts_add = bit_and o.opts_add (complement 32 opt);
  opts = bit_and o.opts (complement 32 opt);
}
apply_action plus opt o = record o {
  opts_add = bit_or o.opts_add opt;
  opts_remove = bit_and o.opts_remove (complement 32 opt);
  opts = bit_or o.opts opt;
}
apply_action plain opt o = record o { opts = bit_or o.opts opt }

-- `use_ithreads` is the preprocessor's USE_ITHREADS. The result is the new value of `*o`, and the
-- message, if any.
pub options_set : FlagTable → Bool → Options → List ℕ → Options × Option SetError
options_set t use_ithreads o arg =
    let (action, str) = split_action arg in
    let opt = flags_lookup t o str in
    if opt == lookup_failed
    then (o, some (lookup_error t o str))
    else if not use_ithreads && (o.unset == t.srv_unset) && t.ithread_only opt
    then (o, some (requires_ithreads str))
    else (apply_action action opt (record o { opts_seen = bit_or o.opts_seen opt }), none)

pub options_merge : Options → Options → Options
options_merge base add =
    let seen = bit_or base.opts_seen add.opts_seen in
    let opts_add = bit_or (bit_and base.opts_add (complement 32 add.opts_remove)) add.opts_add in
    let opts_remove =
      bit_or (bit_and base.opts_remove (complement 32 add.opts_add)) add.opts_remove in
    if bit_and add.opts add.unset == 0
    then record base {
      opts = add.opts;
      opts_add = add.opts_add;
      opts_remove = add.opts_remove;
      opts_seen = seen;
    }
    else record base {
      opts = bit_or (bit_and base.opts (complement 32 opts_remove)) opts_add;
      opts_add = opts_add;
      opts_remove = opts_remove;
      opts_seen = seen;
    }
