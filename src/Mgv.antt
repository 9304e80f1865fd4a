-- ===== src/Mgv.antt =====
-- src/modules/perl/modperl_mgv.c: the names of Perl symbols, split at "::" with a hash for each
-- part, by which a handler's code is looked up in the stashes of any interpreter.
pub mod Names
pub mod Equal
pub mod Tests
use mod_perl.Prelude.{
  ℕ, ◌-◌, Bool, true, false, not, ◌&&◌, Option, none, some, List, [], ◌∷◌, ◌++◌, ◌==◌, ltb, leb,
  if◌then◌else◌, length, take,
}

abbrev pub Name : Type 0
Name = List ℕ

-- One modperl_mgv_t of the chain; its `len` is the length of `name`.
pub record Mgv : Type 0 where
  pub name : Name
  pub hash : ℕ

-- The chain from a modperl_mgv_t on; `[]` is NULL.
abbrev pub Symbol : Type 0
Symbol = List Mgv

-- ':'
abbrev pub colon : ℕ
colon = 58

abbrev pub separator : Name
separator = colon ∷ (colon ∷ [])

abbrev pub starts_with_colon : Name → Bool
starts_with_colon [] = false
starts_with_colon (c ∷ rest) = c == colon

-- memNE of two names of one length.
abbrev pub same_name : Name → Name → Bool
same_name [] [] = true
same_name [] (d ∷ n) = false
same_name (c ∷ m) [] = false
same_name (c ∷ m) (d ∷ n) = (c == d) && same_name m n

pub mgv_equal : Symbol → Symbol → Bool
mgv_equal [] symbol = true
mgv_equal (m ∷ ms) [] = true
mgv_equal (m ∷ ms) (n ∷ ns) =
    if not (m.hash == n.hash)
    then false
    else if not (length m.name == length n.name)
    then false
    else if not (same_name m.name n.name)
    then false
    else mgv_equal ms ns

-- PERL_HASH.
module _ (perl_hash : Name → ℕ) where
  abbrev pub hashed : Name → Mgv
  hashed name = record { name = name; hash = perl_hash name }

  -- The loop and the last component. The first argument tells that `name` is one character ahead
  -- of `namend`; the second has the characters from `name` to `namend`, the third those from
  -- `namend` on.
  pub compile_from : Bool → Name → Name → Symbol
  compile_from skipped part [] = hashed part ∷ []
  compile_from skipped part (c ∷ rest) =
      let split = compile_from true [] rest in
      let longer = compile_from false (if skipped then [] else part ++ (c ∷ [])) rest in
      if (c == colon) && starts_with_colon rest
      then (if not skipped && ltb 0 (length part)
          then hashed (part ++ separator) ∷ split
          else split)
      else longer

  unfoldable pub mgv_compile : Name → Symbol
  unfolding compile_from
  mgv_compile name = compile_from false [] name

  pub mgv_append : Symbol → Name → Symbol
  unfolding mgv_compile
  mgv_append [] name = []
  mgv_append (m ∷ []) name = hashed (m.name ++ separator) ∷ mgv_compile name
  mgv_append (m ∷ (n ∷ ms)) name = m ∷ mgv_append (n ∷ ms) name

pub mgv_last : Symbol → Option Mgv
mgv_last [] = none
mgv_last (m ∷ []) = some m
mgv_last (m ∷ (n ∷ ms)) = mgv_last (n ∷ ms)

-- The names that the loop copies: all of them, or for a package all but the last.
pub copied : Bool → Symbol → Name
copied packaged [] = []
copied packaged (m ∷ []) = if packaged then [] else m.name
copied packaged (m ∷ (n ∷ ms)) = m.name ++ copied packaged (n ∷ ms)

-- `none` where the code writes the NUL in front of the string.
pub mgv_as_string : Symbol → Bool → Option Name
unfolding copied
mgv_as_string symbol false = some (copied false symbol)
mgv_as_string symbol true =
    let string = copied true symbol in
    if leb 2 (length string) then some (take (length string - 2) string) else none

-- The stashes of an interpreter: hv_fetch_he with the key and its hash, and GvHV.
pub record Stashes {ℓ} : Type (ℓ + 1) where
  pub Stash : Type ℓ
  pub Glob : Type ℓ
  pub fetch_he : Stash → Name → ℕ → Option Glob
  pub glob_hv : Glob → Stash

-- The GV, the name of the class that stands for a symbol whose hash was never computed, or NULL.
pub data Found {ℓ} (Glob : Type ℓ) : Type ℓ where
  glob : Glob → Found Glob
  class_name : Name → Found Glob
  not_found : Found Glob

module _ {ℓ} (stashes : Stashes {ℓ}) where
  pub lookup_from : stashes.Stash → Symbol → Option stashes.Glob
  lookup_from stash [] = none
  lookup_from stash (m ∷ []) = stashes.fetch_he stash m.name m.hash
  lookup_from stash (m ∷ (n ∷ ms)) = elim (stashes.fetch_he stash m.name m.hash) [
    | none ↦ none
    | some gv ↦ lookup_from (stashes.glob_hv gv) (n ∷ ms)
  ]

  pub mgv_lookup : stashes.Stash → Mgv → Symbol → Found stashes.Glob
  unfolding lookup_from
  mgv_lookup def_stash m ms =
      if m.hash == 0
      then class_name m.name
      else elim (lookup_from def_stash (m ∷ ms)) [ none ↦ not_found | some gv ↦ glob gv ]

  -- `def_stash` is PL_defstash at the first lookup, `loaded` behind modperl_mgv_require_module;
  -- `parent` tells that the virtual host has an interpreter of its own.
  pub mgv_lookup_autoload : stashes.Stash → stashes.Stash → Bool → Mgv → Symbol → Found stashes.Glob
  unfolding mgv_lookup
  mgv_lookup_autoload def_stash loaded parent m ms =
      let again = mgv_lookup loaded m ms in
      elim (mgv_lookup def_stash m ms) [
        | glob gv ↦ glob gv
        | class_name name ↦ class_name name
        | not_found ↦ if parent then again else not_found
      ]
