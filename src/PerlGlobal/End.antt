-- ===== src/PerlGlobal/End.antt =====
-- END blocks: where those of a package go that a request compiles.
use mod_perl.Prelude.{
  ℕ, ◌≡◌, ◌≢◌, refl, sym, ap, ap₂, ◌∙◌, true, false, Option, none, some, List, [], ◌∷◌, ◌++◌,
  append_assoc, append-nil, ◌==◌, ==_refl, if◌then◌else◌, arith, Option-cases, inl, inr,
}
use mod_perl.Mgv.{Name}
use mod_perl.Hash.{Hash}
use mod_perl.PerlGlobal.{
  Perl, Key, end_key, set_av, avcv_fetch, avcv_set, avcv_move, fetch_package, avcv_clear, avcv_call,
  call_list,
}

module _ (H : Hash) where
  -- What Perl does at the END block `cv`: it puts it in front of the list, and the magic of the
  -- list runs where it is on.
  abbrev pub compile_end : Perl H → ℕ → ℕ → Perl H
  compile_end perl av cv =
      let unshifted =
        set_av H perl av (record (perl.avs av) { elems = cv ∷ (perl.avs av).elems }) in
      if (perl.avs av).smagical then avcv_set H unshifted av end_key else unshifted

  abbrev pub compile_ends : Perl H → ℕ → List ℕ → Perl H
  compile_ends perl av [] = perl
  compile_ends perl av (cv ∷ cvs) = compile_ends (compile_end perl av cv) av cvs

  -- The array of a package, if the package has one.
  abbrev pub registered : H.Hv (H.Hv ℕ) → Key → Name → Option ℕ
  registered modglobal gkey package_ = elim (H.fetch modglobal gkey.val) [
    | none ↦ none
    | some hv ↦ H.fetch hv package_
  ]

  avcv_fetch-registered :
      (perl : Perl H) (gkey : Key) (package_ : Name)
      → avcv_fetch H perl gkey package_ false ≡ (perl, registered perl.modglobal gkey package_)
  unfolding avcv_fetch fetch_package
  avcv_fetch-registered perl gkey package_ = elim (Option-cases (H.fetch perl.modglobal gkey.val)) [
    | inl e ↦ rw (e, avcv_fetch, registered) refl
    | inr (hv, e) ↦ elim (Option-cases (H.fetch hv package_)) [
      | inl f ↦ rw (e, avcv_fetch, registered, fetch_package, f) refl
      | inr (av, f) ↦ rw (e, avcv_fetch, registered, fetch_package, f) refl
    ]
  ]

  avcv_move-some :
      (perl : Perl H) (av mav cv : ℕ)
      → av ≢ mav
      → let unshifted =
          set_av H perl av (record (perl.avs av) { elems = cv ∷ (perl.avs av).elems }) in
        let after = avcv_move H unshifted av (some mav) in
        ((after.avs av).elems ≡ (perl.avs av).elems)
        × ((after.avs av).smagical ≡ (perl.avs av).smagical)
        × ((after.avs mav).elems ≡ (perl.avs mav).elems ++ (cv ∷ []))
        × (after.modglobal ≡ perl.modglobal)
        × (after.curstash ≡ perl.curstash)
  unfolding avcv_move
  avcv_move-some perl av mav cv h =
      let one : (av == mav) ≡ false = ground arith in
      let two : (mav == av) ≡ false = ground (arith, h) in
      rw (==_refl av, ==_refl mav, one, two) (refl, refl, refl, refl, refl)

  compile_end-registered :
      (perl : Perl H) (av mav cv : ℕ)
      → (perl.avs av).smagical ≡ true
      → registered perl.modglobal end_key perl.curstash ≡ some mav
      → compile_end perl av cv
        ≡ avcv_move H
            (set_av H perl av (record (perl.avs av) { elems = cv ∷ (perl.avs av).elems }))
            av
            (some mav)
  unfolding avcv_set
  compile_end-registered perl av mav cv magic found =
      let unshifted =
        set_av H perl av (record (perl.avs av) { elems = cv ∷ (perl.avs av).elems }) in
      let fetched = ap (λ f. f.1) (avcv_fetch-registered unshifted end_key perl.curstash) ∙ found in
      ap (λ b. if b then avcv_set H unshifted av end_key else unshifted) magic
      ∙ ap (avcv_move H unshifted av) fetched

  compile_ends-registered :
      (cvs : List ℕ) (perl : Perl H) (av mav : ℕ)
      → (perl.avs av).smagical ≡ true
      → registered perl.modglobal end_key perl.curstash ≡ some mav
      → av ≢ mav
      → let after = compile_ends perl av cvs in
        ((after.avs av).elems ≡ (perl.avs av).elems)
        × ((after.avs mav).elems ≡ (perl.avs mav).elems ++ cvs)
        × (registered after.modglobal end_key perl.curstash ≡ some mav)
  compile_ends-registered [] perl av mav magic found other =
      (refl, sym (append-nil (perl.avs mav).elems), found)
  compile_ends-registered (cv ∷ cvs) perl av mav magic found other =
      let next = compile_end perl av cv in
      let moved = compile_end-registered perl av mav cv magic found in
      let (list, on, mine, keys, stash) = avcv_move-some perl av mav cv other in
      let stash' : next.curstash ≡ perl.curstash = ap (λ p. p.curstash) moved ∙ stash in
      let keys' : next.modglobal ≡ perl.modglobal = ap (λ p. p.modglobal) moved ∙ keys in
      let found' : registered next.modglobal end_key next.curstash ≡ some mav =
        ap₂ (λ m p. registered m end_key p) keys' stash' ∙ found in
      let on' : (next.avs av).smagical ≡ true = ap (λ p. (p.avs av).smagical) moved ∙ on ∙ magic in
      let (list', mine', registered') = compile_ends-registered cvs next av mav on' found' other in
      let last = append_assoc (perl.avs mav).elems (cv ∷ []) cvs in
      (
        list' ∙ ap (λ p. (p.avs av).elems) moved ∙ list,
        mine' ∙ ap (λ p. (p.avs mav).elems ++ cvs) moved ∙ ap (λ l. l ++ cvs) mine ∙ last,
        ap (λ p. registered (compile_ends next av cvs).modglobal end_key p) (sym stash')
            ∙ registered',
      )

  avcv_call-registered :
      (call : Perl H → ℕ → Perl H × Option Name) (perl : Perl H) (package_ : Name) (mav : ℕ)
      → registered perl.modglobal end_key package_ ≡ some mav
      → avcv_call H call perl end_key package_ ≡ call_list H call (perl.avs mav).elems perl
  unfolding avcv_call
  avcv_call-registered call perl package_ mav found =
      ap
        (λ (o : Option ℕ). elim o [
          | none ↦ (perl, none)
          | some av ↦ call_list H call (perl.avs av).elems perl
        ])
        (ap (λ f. f.1) (avcv_fetch-registered perl end_key package_) ∙ found)

  avcv_clear-registered :
      (perl : Perl H) (package_ : Name) (mav : ℕ)
      → registered perl.modglobal end_key package_ ≡ some mav
      → avcv_clear H perl end_key package_
        ≡ set_av H perl mav (record (perl.avs mav) { elems = [] })
  unfolding avcv_clear
  avcv_clear-registered perl package_ mav found =
      ap
        (λ (o : Option ℕ). elim o [
          | none ↦ perl
          | some av ↦ set_av H perl av (record (perl.avs av) { elems = [] })
        ])
        (ap (λ f. f.1) (avcv_fetch-registered perl end_key package_) ∙ found)

  -- Where the magic of the list of END blocks is on and the package that is compiled is registered,
  -- its END blocks leave the list as it was: they stand behind the blocks of the package, in their
  -- order, and the call for the package runs all of these. Once they are cleared the call runs
  -- none.
  pub avcv_call-compile_ends :
      (call : Perl H → ℕ → Perl H × Option Name) (cvs : List ℕ) (perl : Perl H) (av mav : ℕ)
      → (perl.avs av).smagical ≡ true
      → registered perl.modglobal end_key perl.curstash ≡ some mav
      → av ≢ mav
      → let after = compile_ends perl av cvs in
        let cleared = avcv_clear H after end_key perl.curstash in
        ((after.avs av).elems ≡ (perl.avs av).elems)
        × (avcv_call H call after end_key perl.curstash
            ≡ call_list H call ((perl.avs mav).elems ++ cvs) after)
        × (avcv_call H call cleared end_key perl.curstash ≡ (cleared, none))
  unfolding call_list
  avcv_call-compile_ends call cvs perl av mav magic found other =
      let after = compile_ends perl av cvs in
      let (list, mine, found') = compile_ends-registered cvs perl av mav magic found other in
      let empty = set_av H after mav (record (after.avs mav) { elems = [] }) in
      let cleared = avcv_clear-registered after perl.curstash mav found' in
      let gone : (empty.avs mav).elems ≡ [] = rw (==_refl mav) refl in
      let none_left =
        avcv_call-registered call empty perl.curstash mav found'
        ∙ ap (λ l. call_list H call l empty) gone in
      (
        list,
        avcv_call-registered call after perl.curstash mav found'
            ∙ ap (λ l. call_list H call l after) mine,
        ap (λ p. avcv_call H call p end_key perl.curstash) cleared
            ∙ none_left
            ∙ ap (λ p. (p, none)) (sym cleared),
      )
