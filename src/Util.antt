-- ===== src/Util.antt =====
-- src/modules/perl/modperl_util.c: names of packages and files, the variables that Perl code reads
-- from tables, notes of a request, and the count of restarts.
pub mod Package
pub mod Unload
pub mod Tests
use mod_perl.Prelude.{
  ℕ, suc, ◌+◌, ◌≤◌, ◌≡◌, refl, Bool, true, false, not, ◌&&◌, ◌||◌, Option, none, some, List, [],
  ◌∷◌, ◌++◌, ◌==◌, leb, if◌then◌else◌,
}
use mod_perl.Mgv.{Name, colon, starts_with_colon}
use mod_perl.Hash.{Hash}
use mod_perl.AprTable.{AprTable}

-- package2filename: "::" becomes '/', and ".pm" stands behind.
pub path_of : Bool → Name → Name
path_of skipped [] = b'.' ∷ (b'p' ∷ (b'm' ∷ []))
path_of true (c ∷ name) = path_of false name
path_of false (c ∷ name) =
    let at = (c == colon) && starts_with_colon name in (if at then b'/' else c) ∷ path_of at name

pub package2filename : Name → Name
unfolding path_of
package2filename pkg = path_of false pkg

-- The characters of a package's name, and the delimiters of a path.
abbrev pub is_between : ℕ → ℕ → ℕ → Bool
is_between low high c = leb low c && leb c high

abbrev pub is_pkg_char : ℕ → Bool
is_pkg_char c =
    is_between b'a' b'z' c || is_between b'A' b'Z' c || is_between b'0' b'9' c || (c == b'_')

abbrev pub is_delim : ℕ → Bool
is_delim c = (c == b'/') || (c == b'\\')

abbrev pub starts_with_delim : Name → Bool
starts_with_delim [] = false
starts_with_delim (c ∷ file) = is_delim c

-- The first loop of modperl_file2package; `none` is where it would run past the end of the string.
pub skip_prefix : Name → Option Name
skip_prefix [] = none
skip_prefix (c ∷ file) =
    let rest = skip_prefix file in if is_pkg_char c then some (c ∷ file) else rest

-- The size of the buffer for what is left of the file's name.
pub delims : Name → ℕ
delims [] = 0
delims (c ∷ file) = (if is_delim c then 1 else 0) + delims file

-- What stands for a delimiter: nothing in front of another one or at the end.
abbrev pub at_delim : Name → Name → Name
at_delim [] pkg = []
at_delim (d ∷ rest) pkg = if is_delim d then pkg else colon ∷ (colon ∷ pkg)

pub package_from : Name → Name
package_from [] = []
package_from (c ∷ file) =
    let pkg = package_from file in
    if is_pkg_char c then c ∷ pkg else if is_delim c then at_delim file pkg else b'_' ∷ pkg

pub behind_prefix : Option Name → Option Name
unfolding package_from
behind_prefix none = none
behind_prefix (some rest) = some (package_from rest)

pub file2package : Name → Option Name
unfolding skip_prefix behind_prefix
file2package file = behind_prefix (skip_prefix file)

-- What modperl_table_get_set gives to Perl.
pub data Got (T : Type 0) : Type 0 where
  undefined : Got T
  tied : T → Got T
  value : Name → Got T

-- The value that is passed: none, undef, or a text.
pub data Passed : Type 0 where
  absent undef : Passed
  text : Name → Passed

module _ (t : AprTable) where
  open t use {Table, get, set_value, unset}

  abbrev pub or_undefined : Option Name → Got Table
  or_undefined none = undefined
  or_undefined (some val) = value val

  -- modperl_table_get_set; a table or a key that is NULL is `none`.
  pub table_get_set : Option Table → Option Name → Passed → Option Table × Got Table
  table_get_set none key val = (none, undefined)
  table_get_set (some table) none val = (some table, tied table)
  table_get_set (some table) (some key) absent = (some table, or_undefined (get table key))
  table_get_set (some table) (some key) undef = (some (unset table key), undefined)
  table_get_set (some table) (some key) (text val) = (some (set_value table key val), undefined)

  abbrev pub is_defined : Got Table → Bool
  is_defined undefined = false
  is_defined (tied table) = true
  is_defined (value val) = true

  -- modperl_dir_config: the `configvars` of the directory, if there is a request with one, and those
  -- of the server.
  pub dir_config :
      Option Table → Option Table → Option Name → Passed → Option Table × Option Table × Got Table
  unfolding table_get_set
  dir_config dir srv key val =
      let (dir', found) = table_get_set dir key val in
      let (srv', again) = table_get_set srv key val in
      if is_defined found then (dir', srv, found) else (dir', srv', again)

-- modperl_restart_count_inc and modperl_restart_count, on the data of the process's pool.
pub restart_count_inc : Option ℕ → Option ℕ
restart_count_inc none = some 1
restart_count_inc (some counter) = some (suc counter)

pub restart_count : Option ℕ → ℕ
restart_count none = 0
restart_count (some counter) = counter

module _ (H : Hash) where
  open H use {Hv, new, fetch, store}

  -- The notes of a request or a connection, and whether their cleanup is registered.
  pub record Pnotes : Type 0 where
    pub notes : Option (Hv ℕ)
    pub registered : ℕ

  abbrev pub or_new_notes : Option (Hv ℕ) → Hv ℕ
  or_new_notes none = new
  or_new_notes (some notes) = notes

  -- `if (!*pnotes)`.
  pub pnotes_ready : Pnotes → Pnotes
  pnotes_ready p = elim p.notes [
    | none ↦ record { notes = some new; registered = suc p.registered }
    | some notes ↦ p
  ]

  -- modperl_pnotes with a key: the SV that it gives, `none` being undef.
  pub pnotes : Pnotes → Name → Option ℕ → Pnotes × Option ℕ
  unfolding pnotes_ready
  pnotes p key val =
      let ready = pnotes_ready p in
      let notes = or_new_notes ready.notes in
      elim val [
        | some sv ↦ (record ready { notes = some (store notes key sv) }, some sv)
        | none ↦ (ready, fetch notes key)
      ]

  -- modperl_cleanup_pnotes.
  pub cleanup_pnotes : Pnotes → Pnotes
  cleanup_pnotes p = record p { notes = none }
