-- ===== src/Interp/Unselect.antt =====
-- modperl_interp_unselect: an interpreter goes back to its pool with the last of those who hold it.
use mod_perl.Prelude.{
  ℕ, zero, suc, ◌-◌, ◌≡◌, refl, sym, ap, ap₂, ◌∙◌, true, false, not, none, ◌==◌, if_true, if_false,
  update_self, arith,
}
use mod_perl.Tipool.{tipool_putback_data}
use mod_perl.Interp.{Interp, World, Setup, set_interp_at, give_back, clean_request, interp_unselect}

module _ (setup : Setup) where
  -- `n` calls of modperl_interp_unselect.
  abbrev pub unselects : ℕ → World → ℕ → World
  unselects zero w interp = w
  unselects (suc n) w interp = unselects n (interp_unselect setup w interp) interp

  interp_unselect-held :
      (w : World) (interp n : ℕ)
      → (w.interps interp).refcnt ≡ suc n
      → interp_unselect setup w interp
        ≡ set_interp_at w interp (record (w.interps interp) { refcnt = n })
  unfolding interp_unselect
  interp_unselect-held w interp n h =
      let held : not ((w.interps interp).refcnt == 0) ≡ true = ground (arith, h) in
      let less : (w.interps interp).refcnt - 1 ≡ n = omega (arith, h) in
      if_true _ _ _ held
      ∙ ap (λ n. set_interp_at w interp (record (w.interps interp) { refcnt = n })) less

  interp_unselect-free :
      (w : World) (interp : ℕ)
      → (w.interps interp).refcnt ≡ 0
      → interp_unselect setup w interp
        ≡ give_back setup
            (clean_request setup w (w.interps interp).request)
            (w.interps interp).mip
            interp
  unfolding interp_unselect
  interp_unselect-free w interp h =
      let free : not ((w.interps interp).refcnt == 0) ≡ false = ground (arith, h) in
      if_false _ _ _ free

  unselects-held :
      (n : ℕ) (w : World) (interp : ℕ)
      → (w.interps interp).refcnt ≡ n
      → let v = unselects n w interp in
        (v.pools ≡ w.pools)
        × (v.thx ≡ w.thx)
        × (v.interps interp ≡ record (w.interps interp) { refcnt = 0 })
  unselects-held zero w interp h =
      (refl, refl, ap (λ n. record (w.interps interp) { refcnt = n }) h)
  unselects-held (suc n) w interp h =
      let x : Interp = record (w.interps interp) { refcnt = n } in
      let next : World = set_interp_at w interp x in
      let here : next.interps interp ≡ x = update_self w.interps interp x in
      let (pools, thx, last) = unselects-held n next interp (ap (λ y. y.refcnt) here) in
      let once = ap (λ v. unselects n v interp) (interp_unselect-held w interp n h) in
      (
        ap (λ v. v.pools) once ∙ pools,
        ap (λ v. v.thx) once ∙ thx,
        ap (λ v. v.interps interp) once ∙ last ∙ ap (λ (y : Interp). record y { refcnt = 0 }) here,
      )

  give_back_lem :
      (w : World) (mip interp : ℕ)
      → let u = give_back setup w mip interp in
        let x = w.interps interp in
        (u.pools mip
          ≡ tipool_putback_data
              (setup.cfg mip)
              (setup.func mip)
              (w.pools mip)
              interp
              x.num_requests)
        × ((u.interps interp).in_use ≡ false)
        × (u.thx x.perl ≡ none)
  unfolding give_back
  give_back_lem w mip interp =
      let x = w.interps interp in
      (
        update_self w.pools mip (
            tipool_putback_data (setup.cfg mip) (setup.func mip) (w.pools mip) interp
              x.num_requests),
        ap (λ y. y.in_use)
            (update_self w.interps interp (record x { in_use = false; putback = false })),
        update_self w.thx x.perl none,
      )

  -- An interpreter of no handler's scope stays with its holders for as many calls of unselect as it
  -- counts references; the next one gives it back to its pool, as worn as it is, no longer in use,
  -- and its Perl forgets it.
  pub interp_unselect-unselects :
      (w : World) (interp : ℕ)
      → (w.interps interp).request ≡ none
      → let x = w.interps interp in
        let held = unselects x.refcnt w interp in
        let freed = interp_unselect setup held interp in
        (held.pools ≡ w.pools)
        × ((held.interps interp).in_use ≡ x.in_use)
        × (freed.pools x.mip
            ≡ tipool_putback_data
                (setup.cfg x.mip)
                (setup.func x.mip)
                (w.pools x.mip)
                interp
                x.num_requests)
        × ((freed.interps interp).in_use ≡ false)
        × (freed.thx x.perl ≡ none)
  unfolding clean_request
  interp_unselect-unselects w interp none_requested =
      let x = w.interps interp in
      let held = unselects x.refcnt w interp in
      let (pools, thx, last) = unselects-held x.refcnt w interp refl in
      let y = held.interps interp in
      let same_mip : y.mip ≡ x.mip = ap (λ y. y.mip) last in
      let clean : y.request ≡ none = ap (λ y. y.request) last ∙ none_requested in
      let freed =
        interp_unselect-free held interp (ap (λ y. y.refcnt) last)
        ∙ ap₂ (λ r mip. give_back setup (clean_request setup held r) mip interp) clean same_mip in
      let (back, idle, forgotten) = give_back_lem held x.mip interp in
      (
        pools,
        ap (λ y. y.in_use) last,
        ap (λ v. v.pools x.mip) freed
            ∙ back
            ∙ ap₂
                (λ pool y.
                  tipool_putback_data (setup.cfg x.mip) (setup.func x.mip) pool interp
                    y.num_requests)
                (ap (λ p. p x.mip) pools) last,
        ap (λ v. (v.interps interp).in_use) freed ∙ idle,
        ap (λ v. v.thx x.perl) freed
            ∙ ap (λ perl. (give_back setup held x.mip interp).thx perl)
                (sym (ap (λ y. y.perl) last))
            ∙ forgotten,
      )
