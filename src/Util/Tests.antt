-- ===== src/Util/Tests.antt =====
-- A path that begins with "./", and the modules of DynaLoader.
use mod_perl.Prelude.{ℕ, ◌≡◌, ◌∷◌, [], List}
use mod_perl.Mgv.{Name}
use mod_perl.Util.Unload.{av_remove_entry, av_remove_entry_lem}
use mod_perl.Util.{skip_prefix, file2package}
use mod_perl.Util.Package.{Fits, has_pkg_char, is_some, file2package-Fits}

abbrev path : Name
path = b'.' ∷ (b'/' ∷ (b'a' ∷ (b'/' ∷ (b'/' ∷ (b'b' ∷ (b'.' ∷ []))))))

file2package-Fits_example :
    Fits (skip_prefix path) (file2package path) × (has_pkg_char path ≡ is_some (file2package path))
file2package-Fits_example = file2package-Fits path

abbrev handles : List ℕ
handles = 12 ∷ []

av_remove_entry_lem_example :
    (av_remove_entry {A = ℕ} 0 0 (13 ∷ (14 ∷ (15 ∷ []))) ≡ 14 ∷ (15 ∷ []))
    × (av_remove_entry {A = ℕ} 0 2 (11 ∷ (12 ∷ (13 ∷ (14 ∷ (15 ∷ []))))) ≡ 11 ∷ (12 ∷ (15 ∷ [])))
av_remove_entry_lem_example = av_remove_entry_lem {A = ℕ} 0 11 13 (12 ∷ []) 14 (15 ∷ [])
