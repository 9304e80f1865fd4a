-- ===== src/Util/Package.antt =====
-- The package that stands for a file fits the buffer that was made for it, and its name is one.
use mod_perl.Prelude.{
  ℕ, suc, ◌+◌, ◌≤◌, ◌≡◌, refl, ◌∙◌, Bool, true, false, ◌||◌, Option, none, some, [], ◌∷◌, ◌==◌,
  length, Bool-cases, inl, inr, arith,
}
use mod_perl.Mgv.{Name, colon}
use mod_perl.Util.{
  is_pkg_char, is_delim, skip_prefix, delims, at_delim, package_from, file2package, behind_prefix,
}

-- Characters of a package's name, with those of "::".
abbrev pub is_name_char : ℕ → Bool
is_name_char c = is_pkg_char c || (c == colon)

abbrev pub AllNameChars : Name → Type 0
AllNameChars [] = Unit
AllNameChars (c ∷ name) = (is_name_char c ≡ true) × AllNameChars name

at_delim-AllNameChars : (file pkg : Name) → AllNameChars pkg → AllNameChars (at_delim file pkg)
at_delim-AllNameChars [] pkg h = tt
at_delim-AllNameChars (d ∷ rest) pkg h = elim (Bool-cases (is_delim d)) [
  | inl e ↦ rw e h
  | inr e ↦ rw e (refl, (refl, h))
]

package_from-AllNameChars : (file : Name) → AllNameChars (package_from file)
unfolding package_from
package_from-AllNameChars [] = tt
package_from-AllNameChars (c ∷ file) =
    let rest = package_from-AllNameChars file in
    elim (Bool-cases (is_pkg_char c)) [
      | inl e ↦ rw (e, e) (refl, rest)
      | inr e ↦ elim (Bool-cases (is_delim c)) [
        | inl f ↦ rw (e, f) (at_delim-AllNameChars file (package_from file) rest)
        | inr f ↦ rw (e, f) (refl, rest)
      ]
    ]

length-at_delim : (file pkg : Name) → length (at_delim file pkg) ≤ length pkg + 2
length-at_delim [] pkg = omega arith
length-at_delim (d ∷ rest) pkg = elim (Bool-cases (is_delim d)) [
  | inl e ↦ rw e (omega arith)
  | inr e ↦ rw e (omega arith)
]

length-package_from : (file : Name) → length (package_from file) ≤ length file + delims file
unfolding package_from delims
length-package_from [] = omega arith
length-package_from (c ∷ file) =
    let rest = length-package_from file in
    elim (Bool-cases (is_delim c)) [
      | inl f ↦ elim (Bool-cases (is_pkg_char c)) [
        | inl e ↦ rw (e, f) (omega (arith, rest))
        | inr e ↦ rw (e, f) (omega (arith, rest, length-at_delim file (package_from file)))
      ]
      | inr f ↦ elim (Bool-cases (is_pkg_char c)) [
        | inl e ↦ rw (e, f) (omega (arith, rest))
        | inr e ↦ rw (e, f) (omega (arith, rest))
      ]
    ]

-- The file's name has a character that a package's name may begin with.
abbrev pub has_pkg_char : Name → Bool
has_pkg_char [] = false
has_pkg_char (c ∷ file) = is_pkg_char c || has_pkg_char file

abbrev pub is_some : Option Name → Bool
is_some none = false
is_some (some name) = true

skip_prefix-has_pkg_char : (file : Name) → has_pkg_char file ≡ is_some (skip_prefix file)
unfolding skip_prefix
skip_prefix-has_pkg_char [] = refl
skip_prefix-has_pkg_char (c ∷ file) = elim (Bool-cases (is_pkg_char c)) [
  | inl e ↦ rw e refl
  | inr e ↦ rw e (skip_prefix-has_pkg_char file)
]

-- The result, against the buffer of modperl_file2package for what is left behind the prefix.
abbrev pub Fits : Option Name → Option Name → Type 0
Fits none pkg = pkg ≡ none
Fits (some rest) none = ⊥
Fits (some rest) (some pkg) =
    (suc (length pkg) ≤ suc (length rest) + delims rest) × AllNameChars pkg

behind_prefix-Fits :
    (rest : Option Name)
    → Fits rest (behind_prefix rest) × (is_some rest ≡ is_some (behind_prefix rest))
unfolding behind_prefix
behind_prefix-Fits none = (refl, refl)
behind_prefix-Fits (some rest) =
    let fits = length-package_from rest in
    ((omega (arith, fits), package_from-AllNameChars rest), refl)

-- The scan for the first character of the package stays within the file's name exactly where that
-- has a letter, a digit or '_'; then the package with its NUL fits the buffer, whose size is that
-- of the rest and one more for each delimiter in it, and it consists of letters, digits, '_' and
-- ':'.
pub file2package-Fits :
    (file : Name)
    → Fits (skip_prefix file) (file2package file)
      × (has_pkg_char file ≡ is_some (file2package file))
unfolding file2package
file2package-Fits file =
    let (fits, same) = behind_prefix-Fits (skip_prefix file) in
    (fits, skip_prefix-has_pkg_char file ∙ same)
