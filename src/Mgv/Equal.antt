-- ===== src/Mgv/Equal.antt =====
-- Equality of compiled symbols is equality of their names.
use mod_perl.Prelude.{
  ℕ, ◌≡◌, ◌↔◌, refl, sym, ap, ap₂, ◌∙◌, true, false, List, [], ◌∷◌, ◌++◌, append_assoc, ==_refl,
  length, arith,
}
use mod_perl.Mgv.{Name, Symbol, separator, same_name, mgv_equal, mgv_compile}
use mod_perl.Mgv.Names.{NoColon, Packages, qualified, parts, mgv_compile-qualified}

pub same_name_refl : (n : Name) → same_name n n ≡ true
same_name_refl [] = refl
same_name_refl (c ∷ n) = rw (==_refl c) (same_name_refl n)

pub same_name→≡ : (m n : Name) → same_name m n ≡ true → m ≡ n
same_name→≡ [] [] h = refl
same_name→≡ [] (d ∷ n) h = absurd (ground arith)
same_name→≡ (c ∷ m) [] h = absurd (ground arith)
same_name→≡ (c ∷ m) (d ∷ n) h =
    let heads : c ≡ d = ground arith in
    let tails : m ≡ n = same_name→≡ m n (ground arith) in ap₂ (λ c m. c ∷ m) heads tails

NoColon-separator : (p m : Name) → NoColon m → same_name m (p ++ separator) ≡ false
NoColon-separator [] [] h = refl
NoColon-separator [] (c ∷ m) (h, hs) = rw h refl
NoColon-separator (d ∷ p) [] h = refl
NoColon-separator (d ∷ p) (c ∷ m) (h, hs) = ground (arith, NoColon-separator p m hs)

pub same_name_comm : (m n : Name) → same_name m n ≡ same_name n m
same_name_comm [] [] = refl
same_name_comm [] (d ∷ n) = refl
same_name_comm (c ∷ m) [] = refl
same_name_comm (c ∷ m) (d ∷ n) = ground (arith, same_name_comm m n)

module _ (perl_hash : Name → ℕ) where
  mgv_equal-parts :
      (ps qs : List Name) (m n : Name)
      → NoColon m
      → NoColon n
      → mgv_equal (parts perl_hash ps m) (parts perl_hash qs n) ≡ true
      → qualified ps m ≡ qualified qs n
  unfolding mgv_equal
  mgv_equal-parts [] [] m n h k e = same_name→≡ m n (ground arith)
  mgv_equal-parts [] (q ∷ qs) m n h k e = absurd (ground (arith, NoColon-separator q m h))
  mgv_equal-parts (p ∷ ps) [] m n h k e =
      absurd (ground (arith, same_name_comm (p ++ separator) n, NoColon-separator p n k))
  mgv_equal-parts (p ∷ ps) (q ∷ qs) m n h k e =
      let same : same_name (p ++ separator) (q ++ separator) ≡ true = ground arith in
      let others : mgv_equal (parts perl_hash ps m) (parts perl_hash qs n) ≡ true = ground arith in
      sym (append_assoc p separator (qualified ps m))
      ∙ ap₂ (λ a b. a ++ b) (same_name→≡ (p ++ separator) (q ++ separator) same)
          (mgv_equal-parts ps qs m n h k others)
      ∙ append_assoc q separator (qualified qs n)

  mgv_equal_refl : (s : Symbol) → mgv_equal s s ≡ true
  unfolding mgv_equal
  mgv_equal_refl [] = refl
  mgv_equal_refl (m ∷ ms) =
      rw (==_refl m.hash, ==_refl (length m.name), same_name_refl m.name) (mgv_equal_refl ms)

  -- Where the packages are not empty and no part has a ':', of two compiled symbols, equality is
  -- that of the names, although the comparison stops where the shorter of the chains ends.
  pub mgv_equal_iff :
      (ps qs : List Name) (m n : Name)
      → Packages ps
      → NoColon m
      → Packages qs
      → NoColon n
      → (mgv_equal (mgv_compile perl_hash (qualified ps m)) (mgv_compile perl_hash (qualified qs n))
          ≡ true)
        ↔ (qualified ps m ≡ qualified qs n)
  mgv_equal_iff ps qs m n h k h' k' = (
    (λ e. mgv_equal-parts ps qs m n k k' (
        ap₂ (λ s t. mgv_equal s t) (sym (mgv_compile-qualified perl_hash ps m h k))
          (sym (mgv_compile-qualified perl_hash qs n h' k'))
        ∙ e)),
    (λ e.
        ap (λ s. mgv_equal (mgv_compile perl_hash (qualified ps m)) (mgv_compile perl_hash s))
          (sym e)
        ∙ mgv_equal_refl (mgv_compile perl_hash (qualified ps m))),
  )
