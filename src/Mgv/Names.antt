-- ===== src/Mgv/Names.antt =====
-- Qualified names: compiling, appending and printing them agree with the names.
use mod_perl.Prelude.{
  ℕ, ◌+◌, ◌-◌, ◌≡◌, refl, sym, ap, ◌∙◌, true, false, some, List, [], ◌∷◌, ◌++◌, append_assoc,
  append-nil, ◌==◌, ltb, leb, length, take, length-append, arith,
}
use mod_perl.Mgv.{
  Name, Symbol, colon, separator, starts_with_colon, hashed, compile_from, mgv_compile, mgv_append,
  copied, mgv_as_string,
}

-- A part of a qualified name: no ':' in it.
abbrev pub NoColon : Name → Type 0
NoColon [] = Unit
NoColon (c ∷ n) = ((c == colon) ≡ false) × NoColon n

-- The packages in front of the last part: each is not empty and has no ':'.
abbrev pub Packages : List Name → Type 0
Packages [] = Unit
Packages ([] ∷ ps) = ⊥
Packages ((c ∷ n) ∷ ps) = NoColon (c ∷ n) × Packages ps

-- "A::B::last".
abbrev pub qualified : List Name → Name → Name
qualified [] last = last
qualified (p ∷ ps) last = p ++ (separator ++ qualified ps last)

module _ (perl_hash : Name → ℕ) where
  abbrev pub parts : List Name → Name → Symbol
  parts [] last = hashed perl_hash last ∷ []
  parts (p ∷ ps) last = hashed perl_hash (p ++ separator) ∷ parts ps last

  -- A part without ':' is read to its end.
  compile_from-last :
      (part rest : Name)
      → NoColon rest
      → compile_from perl_hash false part rest ≡ hashed perl_hash (part ++ rest) ∷ []
  unfolding compile_from
  compile_from-last part [] h = rw (append-nil part) refl
  compile_from-last part (c ∷ rest) (h, hs) = rw h (
      compile_from-last (part ++ (c ∷ [])) rest hs
      ∙ ap (λ n. hashed perl_hash n ∷ []) (append_assoc part (c ∷ []) rest))

  compile_from-package :
      (part rest after : Name)
      → NoColon rest
      → ltb 0 (length (part ++ rest)) ≡ true
      → compile_from perl_hash false part (rest ++ (separator ++ after))
        ≡ hashed perl_hash ((part ++ rest) ++ separator)
          ∷ compile_from perl_hash true [] (colon ∷ after)
  unfolding compile_from
  compile_from-package part [] after h l =
      let long : ltb 0 (length part) ≡ true =
        ap (λ n. ltb 0 (length n)) (sym (append-nil part)) ∙ l in
      rw (append-nil part, long) refl
  compile_from-package part (c ∷ rest) after (h, hs) l =
      let moved : (part ++ (c ∷ [])) ++ rest ≡ part ++ (c ∷ rest) =
        append_assoc part (c ∷ []) rest in
      rw h (
        compile_from-package (part ++ (c ∷ [])) rest after hs (ap (λ n. ltb 0 (length n)) moved ∙ l)
        ∙ ap
            (λ n.
              hashed perl_hash (n ++ separator) ∷ compile_from perl_hash true [] (colon ∷ after))
            moved)

  starts_with_colon-NoColon : (n : Name) → NoColon n → starts_with_colon n ≡ false
  starts_with_colon-NoColon [] h = refl
  starts_with_colon-NoColon (c ∷ n) (h, hs) = h

  starts_with_colon-qualified :
      (ps : List Name) (last : Name)
      → Packages ps
      → NoColon last
      → starts_with_colon (qualified ps last) ≡ false
  starts_with_colon-qualified [] last p h = starts_with_colon-NoColon last h
  starts_with_colon-qualified ([] ∷ ps) last p h = absurd p
  starts_with_colon-qualified ((c ∷ n) ∷ ps) last ((q, qs), p) h = q

  -- A qualified name is compiled into its packages, each with its "::", and its last part.
  pub mgv_compile-qualified :
      (ps : List Name) (last : Name)
      → Packages ps
      → NoColon last
      → mgv_compile perl_hash (qualified ps last) ≡ parts ps last
  unfolding mgv_compile compile_from
  mgv_compile-qualified [] last p h = compile_from-last [] last h
  mgv_compile-qualified ([] ∷ ps) last p h = absurd p
  mgv_compile-qualified ((c ∷ n) ∷ ps) last (q, p) h =
      compile_from-package [] (c ∷ n) (qualified ps last) q (ground arith)
      ∙ ap (λ s. hashed perl_hash ((c ∷ n) ++ separator) ∷ s)
          (rw (starts_with_colon-qualified ps last p h) (mgv_compile-qualified ps last p h))

  copied-parts : (ps : List Name) (last : Name) → copied false (parts ps last) ≡ qualified ps last
  unfolding copied
  copied-parts [] last = refl
  copied-parts (p ∷ []) last = append_assoc p separator last
  copied-parts (p ∷ (q ∷ ps)) last =
      ap (λ n. (p ++ separator) ++ n) (copied-parts (q ∷ ps) last)
      ∙ append_assoc p separator (qualified (q ∷ ps) last)

  -- Where the packages are not empty and no part has a ':', printing what was compiled gives the
  -- qualified name back.
  pub mgv_as_string-mgv_compile :
      (ps : List Name) (last : Name)
      → Packages ps
      → NoColon last
      → mgv_as_string (mgv_compile perl_hash (qualified ps last)) false ≡ some (qualified ps last)
  unfolding mgv_as_string
  mgv_as_string-mgv_compile ps last p h =
      ap (λ s. some (copied false s)) (mgv_compile-qualified ps last p h)
      ∙ ap (λ n. some n) (copied-parts ps last)

  qualified-append :
      (ps qs : List Name) (last name : Name)
      → qualified ps last ++ (separator ++ qualified qs name) ≡ qualified (ps ++ (last ∷ qs)) name
  qualified-append [] qs last name = refl
  qualified-append (p ∷ ps) qs last name =
      append_assoc p (separator ++ qualified ps last) (separator ++ qualified qs name)
      ∙ ap (λ n. p ++ (separator ++ n)) (qualified-append ps qs last name)

  Packages-append : (ps qs : List Name) → Packages ps → Packages qs → Packages (ps ++ qs)
  Packages-append [] qs h k = k
  Packages-append ([] ∷ ps) qs h k = absurd h
  Packages-append ((c ∷ n) ∷ ps) qs (g, h) k = (g, Packages-append ps qs h k)

  NoColon-Packages : (p : Name) (ps : List Name) → Packages (p ∷ ps) → NoColon p
  NoColon-Packages [] ps h = absurd h
  NoColon-Packages (c ∷ n) ps (h, k) = h

  Packages-tail : (p : Name) (ps : List Name) → Packages (p ∷ ps) → Packages ps
  Packages-tail [] ps h = absurd h
  Packages-tail (c ∷ n) ps (h, k) = k

  mgv_append-parts :
      (ps qs : List Name) (last name : Name)
      → Packages qs
      → NoColon name
      → mgv_append perl_hash (parts ps last) (qualified qs name) ≡ parts (ps ++ (last ∷ qs)) name
  unfolding mgv_append
  mgv_append-parts [] qs last name h k =
      ap (λ s. hashed perl_hash (last ++ separator) ∷ s) (mgv_compile-qualified qs name h k)
  mgv_append-parts (p ∷ []) qs last name h k =
      ap (λ s. hashed perl_hash (p ++ separator) ∷ s) (mgv_append-parts [] qs last name h k)
  mgv_append-parts (p ∷ (q ∷ ps)) qs last name h k =
      ap (λ s. hashed perl_hash (p ++ separator) ∷ s) (mgv_append-parts (q ∷ ps) qs last name h k)

  -- Where no part has a ':' and only the last of all may be empty, appending a name to a compiled
  -- symbol is compiling that name behind the symbol's and "::".
  pub mgv_append-mgv_compile :
      (ps qs : List Name) (last name : Name)
      → Packages ps
      → Packages (last ∷ qs)
      → NoColon name
      → mgv_append perl_hash (mgv_compile perl_hash (qualified ps last)) (qualified qs name)
        ≡ mgv_compile perl_hash (qualified ps last ++ (separator ++ qualified qs name))
  mgv_append-mgv_compile ps qs last name h k l =
      ap (λ s. mgv_append perl_hash s (qualified qs name))
        (mgv_compile-qualified ps last h (NoColon-Packages last qs k))
      ∙ mgv_append-parts ps qs last name (Packages-tail last qs k) l
      ∙ sym (mgv_compile-qualified (ps ++ (last ∷ qs)) name (Packages-append ps (last ∷ qs) h k) l)
      ∙ ap (λ n. mgv_compile perl_hash n) (sym (qualified-append ps qs last name))

  copied-package :
      (ps : List Name) (p last : Name)
      → copied true (parts (ps ++ (p ∷ [])) last) ≡ qualified ps p ++ separator
  unfolding copied
  copied-package [] p last = append-nil (p ++ separator)
  copied-package (q ∷ []) p last =
      ap (λ n. (q ++ separator) ++ n) (copied-package [] p last)
      ∙ append_assoc q separator (p ++ separator)
      ∙ sym (append_assoc q (separator ++ p) separator)
  copied-package (q ∷ (r ∷ ps)) p last =
      ap (λ n. (q ++ separator) ++ n) (copied-package (r ∷ ps) p last)
      ∙ append_assoc q separator (qualified (r ∷ ps) p ++ separator)
      ∙ sym (append_assoc q (separator ++ qualified (r ∷ ps) p) separator)

  take-front : (n : Name) → take (length n) (n ++ separator) ≡ n
  take-front [] = refl
  take-front (c ∷ n) = ap (λ n. c ∷ n) (take-front n)

  -- Where the packages are not empty and no part has a ':', printing the package of a symbol that was
  -- compiled gives the name up to its last "::".
  pub mgv_as_string-package :
      (ps : List Name) (p last : Name)
      → Packages (ps ++ (p ∷ []))
      → NoColon last
      → mgv_as_string (mgv_compile perl_hash (qualified (ps ++ (p ∷ [])) last)) true
        ≡ some (qualified ps p)
  unfolding mgv_as_string
  mgv_as_string-package ps p last h k =
      let front : copied true (mgv_compile perl_hash (qualified (ps ++ (p ∷ [])) last))
          ≡ qualified ps p ++ separator =
        ap (λ s. copied true s) (mgv_compile-qualified (ps ++ (p ∷ [])) last h k)
        ∙ copied-package ps p last in
      let len : length (qualified ps p ++ separator) ≡ length (qualified ps p) + 2 =
        length-append (qualified ps p) separator in
      let few : (length (qualified ps p) + 2) - 2 ≡ length (qualified ps p) = omega arith in
      let enough : leb 2 (length (qualified ps p) + 2) ≡ true = ground arith in
      rw (front, len, enough, few) (ap (λ n. some n) (take-front (qualified ps p)))
