-- ===== src/Mgv/Tests.antt =====
-- The theorems on names at "Ab::C" and "D".
use mod_perl.Prelude.{ℕ, ◌+◌, ◌≡◌, ◌↔◌, refl, true, false, some, [], ◌∷◌, length}
use mod_perl.Mgv.{Name, mgv_equal, mgv_compile, mgv_as_string}
use mod_perl.Mgv.Equal.{mgv_equal_iff}
use mod_perl.Mgv.Names.{mgv_as_string-mgv_compile}

abbrev ab : Name
ab = 65 ∷ (98 ∷ [])

abbrev c : Name
c = 67 ∷ []

abbrev d : Name
d = 68 ∷ []

abbrev toy_hash : Name → ℕ
toy_hash n = length n + 7

-- "Ab::C"
abbrev ab_c : Name
ab_c = 65 ∷ (98 ∷ (58 ∷ (58 ∷ (67 ∷ []))))

mgv_as_string-mgv_compile_example : mgv_as_string (mgv_compile toy_hash ab_c) false ≡ some ab_c
mgv_as_string-mgv_compile_example =
    mgv_as_string-mgv_compile toy_hash (ab ∷ []) c ((refl, (refl, tt)), tt) (refl, tt)

mgv_equal_iff_example :
    (mgv_equal (mgv_compile toy_hash ab_c) (mgv_compile toy_hash d) ≡ true) ↔ (ab_c ≡ d)
mgv_equal_iff_example =
    mgv_equal_iff toy_hash (ab ∷ []) [] c d ((refl, (refl, tt)), tt) (refl, tt) tt (refl, tt)
