-- ===== src/Pool/Once.antt =====
-- No object of Perl destroys a pool that is gone.
use mathlib.Core.Path.{subst}
use mod_perl.Prelude.{
  ℕ, ◌≡◌, ◌⊎◌, inl, inr, refl, sym, ap, ◌∙◌, Bool, true, false, ◌||◌, Option, none, some, List, [],
  ◌∷◌, ◌==◌, Bool-cases, arith,
}
use mod_perl.Pool.{
  Apr, Interps, Obj, no_pool, core, owner, World, is_custom, set_obj, hold, is_same, parent_pool,
  drops_ownership, pool_cleanups, takes_ownership, add_pool_magic, new_object, pool_create,
  apr_clear, apr_destroy, clear_obj, pool_clear, destroy_obj, pool_destroy,
}

abbrev pub elem : ℕ → List ℕ → Bool
elem x [] = false
elem x (y ∷ ys) = (x == y) || elem x ys

-- The pool that an object has to destroy.
abbrev pub owned : Obj → Option ℕ
owned no_pool = none
owned (core p) = none
owned (owner p parent) = some p

-- What apr_pools.h says of the operations: a pool that is created, or registers something, leaves
-- the others as they are, and a pool that is cleared stays. A clear or a destroy, of the pool and
-- of all pools below it, runs every cleanup that is registered at a pool which it destroys or
-- empties.
pub record AprLaws {S : Type 0} (apr : Apr S) : Type 0 where
  pub create_live :
      (s : S) (parent : Option ℕ) → apr.live (apr.create s parent).0 (apr.create s parent).1 ≡ true
  pub create_keeps :
      (s : S) (parent : Option ℕ) (q sv : ℕ)
      → apr.live s q ≡ true
      → apr.registered s q sv ≡ true
      → (apr.live (apr.create s parent).0 q ≡ true)
        × (apr.registered (apr.create s parent).0 q sv ≡ true)
  pub register_live : (s : S) (p sv q : ℕ) → apr.live (apr.register s p sv) q ≡ apr.live s q
  pub register_at :
      (s : S) (p sv : ℕ) → apr.live s p ≡ true → apr.registered (apr.register s p sv) p sv ≡ true
  pub register_keeps :
      (s : S) (p sv q sv' : ℕ)
      → apr.registered s q sv' ≡ true
      → apr.registered (apr.register s p sv) q sv' ≡ true
  pub clear_live : (s : S) (p : ℕ) → apr.live s p ≡ true → apr.live (apr.clear s p).0 p ≡ true
  pub clear_rest :
      (s : S) (p q sv : ℕ)
      → apr.live s q ≡ true
      → apr.registered s q sv ≡ true
      → ((apr.live (apr.clear s p).0 q ≡ true) × (apr.registered (apr.clear s p).0 q sv ≡ true))
        ⊎ (elem sv (apr.clear s p).1 ≡ true)
  pub destroy_rest :
      (s : S) (p q sv : ℕ)
      → apr.live s q ≡ true
      → apr.registered s q sv ≡ true
      → ((apr.live (apr.destroy s p).0 q ≡ true) × (apr.registered (apr.destroy s p).0 q sv ≡ true))
        ⊎ (elem sv (apr.destroy s p).1 ≡ true)
  pub destroy_gone : (s : S) (p : ℕ) → apr.live s p ≡ true → apr.live (apr.destroy s p).0 p ≡ false

module _ {S I : Type 0} (apr : Apr S) (interps : Interps I) (laws : AprLaws apr) where
  -- Every object that has to destroy a pool has one that is live, whose end will tell the object.
  pub Sound : World S I → Type 0
  Sound w =
      (sv p : ℕ)
      → owned (w.objs sv) ≡ some p
      → (apr.live w.apr p ≡ true) × (apr.registered w.apr p sv ≡ true)

  -- The steps: those of Perl's objects, and a clear or a destroy by httpd of any pool.
  pub data Step : World S I → World S I → Type 0 where
    creates :
        (w w' : World S I) (sv : ℕ) (parent : Option ℕ)
        → pool_create apr interps sv parent w ≡ some w'
        → Step w w'
    clears : (w : World S I) (sv : ℕ) → Step w (pool_clear apr interps sv w)
    destroys : (w : World S I) (sv : ℕ) → Step w (pool_destroy apr interps sv w)
    httpd_clears : (w : World S I) (p : ℕ) → Step w (apr_clear apr interps p w)
    httpd_destroys : (w : World S I) (p : ℕ) → Step w (apr_destroy apr interps p w)

  -- What can be reached from a world in which no object owns a pool.
  pub data Reachable : World S I → Type 0 where
    initial : (w : World S I) → ((sv : ℕ) → owned (w.objs sv) ≡ none) → Reachable w
    step : (w w' : World S I) → Reachable w → Step w w' → Reachable w'

  pool_cleanups-apr : (svs : List ℕ) (w : World S I) → (pool_cleanups apr interps svs w).apr ≡ w.apr
  unfolding pool_cleanups drops_ownership
  pool_cleanups-apr [] w = refl
  pool_cleanups-apr (sv ∷ svs) w = pool_cleanups-apr svs (drops_ownership apr interps sv w)

  -- An object that owns a pool behind the cleanups owned it before, and is none of those that were
  -- told.
  pool_cleanups-owned :
      (svs : List ℕ) (w : World S I) (sv p : ℕ)
      → owned ((pool_cleanups apr interps svs w).objs sv) ≡ some p
      → (owned (w.objs sv) ≡ some p) × (elem sv svs ≡ false)
  unfolding pool_cleanups drops_ownership
  pool_cleanups-owned [] w sv p e = (e, refl)
  pool_cleanups-owned (x ∷ svs) w sv p e =
      let (before, others) = pool_cleanups-owned svs (drops_ownership apr interps x w) sv p e in
      elim (Bool-cases (sv == x)) [
        | inl same ↦
            let gone : owned (set_obj w.objs x no_pool sv) ≡ none = rw same refl in absurd (cc)
        | inr differs ↦
            let kept : owned (set_obj w.objs x no_pool sv) ≡ owned (w.objs sv) = rw differs refl in
            (sym kept ∙ before, rw differs others)
      ]

  -- A change of APR's state that runs the cleanups of what it takes away.
  cleaned-Sound :
      (w : World S I) (apr' : S) (ran : List ℕ)
      → ((q sv : ℕ)
          → apr.live w.apr q ≡ true
          → apr.registered w.apr q sv ≡ true
          → ((apr.live apr' q ≡ true) × (apr.registered apr' q sv ≡ true)) ⊎ (elem sv ran ≡ true))
      → Sound w
      → Sound (pool_cleanups apr interps ran (record w { apr = apr' }))
  unfolding Sound
  cleaned-Sound w apr' ran rest sound sv p e =
      let (before, others) = pool_cleanups-owned ran (record w { apr = apr' }) sv p e in
      let (live, registered) = sound sv p before in
      elim (rest p sv live registered) [
        | inl (live', registered') ↦
            rw (pool_cleanups-apr ran (record w { apr = apr' })) (live', registered')
        | inr told ↦ cc
      ]

  takes_ownership-Sound :
      (sv pool : ℕ) (w : World S I)
      → apr.live w.apr pool ≡ true
      → Sound w
      → Sound (takes_ownership apr interps sv pool w)
  unfolding Sound takes_ownership
  takes_ownership-Sound sv pool w live sound x p e = elim (Bool-cases (x == sv)) [
    | inl same ↦
        let mine : owned (set_obj w.objs sv (owner pool none) x) ≡ some pool = rw same refl in
        let at : p ≡ pool = cc in
        let self : x ≡ sv = ground arith in
        rw (at, self)
          (laws.register_live w.apr pool sv pool ∙ live, laws.register_at w.apr pool sv live)
    | inr differs ↦
        let kept : owned (set_obj w.objs sv (owner pool none) x) ≡ owned (w.objs x) =
          rw differs refl in
        let (live', registered) = sound x p (sym kept ∙ e) in
        (
          laws.register_live w.apr pool sv p ∙ live',
          laws.register_keeps w.apr pool sv p x registered,
        )
  ]

  apr_clear-Sound : (p : ℕ) (w : World S I) → Sound w → Sound (apr_clear apr interps p w)
  unfolding apr_clear
  apr_clear-Sound p w sound =
      let (apr', ran) = apr.clear w.apr p in
      cleaned-Sound w apr' ran (laws.clear_rest w.apr p) sound

  apr_destroy-Sound : (p : ℕ) (w : World S I) → Sound w → Sound (apr_destroy apr interps p w)
  unfolding apr_destroy
  apr_destroy-Sound p w sound =
      let (apr', ran) = apr.destroy w.apr p in
      cleaned-Sound w apr' ran (laws.destroy_rest w.apr p) sound

  apr_clear-live :
      (p : ℕ) (w : World S I)
      → apr.live w.apr p ≡ true
      → apr.live (apr_clear apr interps p w).apr p ≡ true
  unfolding apr_clear
  apr_clear-live p w live =
      let (apr', ran) = apr.clear w.apr p in
      rw (pool_cleanups-apr ran (record w { apr = apr' })) (laws.clear_live w.apr p live)

  clear_obj-Sound :
      (sv : ℕ) (o : Obj) (w : World S I)
      → w.objs sv ≡ o
      → Sound w
      → Sound (clear_obj apr interps sv o w)
  unfolding clear_obj Sound
  clear_obj-Sound sv no_pool w e sound = sound
  clear_obj-Sound sv (core p) w e sound = apr_clear-Sound p w sound
  clear_obj-Sound sv (owner p parent) w e sound =
      let (live, registered) = sound sv p (ap owned e) in
      takes_ownership-Sound sv p (apr_clear apr interps p w) (apr_clear-live p w live)
        (apr_clear-Sound p w sound)

  destroy_obj-Sound : (o : Obj) (w : World S I) → Sound w → Sound (destroy_obj apr interps o w)
  unfolding destroy_obj
  destroy_obj-Sound no_pool w sound = sound
  destroy_obj-Sound (core p) w sound = sound
  destroy_obj-Sound (owner p parent) w sound = apr_destroy-Sound p w sound

  owned-hold : (o : Obj) (sv : ℕ) → owned (hold o sv) ≡ owned o
  owned-hold no_pool sv = refl
  owned-hold (core p) sv = refl
  owned-hold (owner p parent) sv = refl

  add_pool_magic-owned :
      (sv parent : ℕ) (w : World S I) (x : ℕ)
      → owned (set_obj w.objs sv (hold (w.objs sv) parent) x) ≡ owned (w.objs x)
  add_pool_magic-owned sv parent w x = elim (Bool-cases (x == sv)) [
    | inl same ↦
        let self : x ≡ sv = ground arith in
        let set_ : owned (set_obj w.objs sv (hold (w.objs sv) parent) x)
            ≡ owned (hold (w.objs sv) parent) =
          rw same refl in
        set_ ∙ owned-hold (w.objs sv) parent ∙ ap (λ y. owned (w.objs y)) (sym self)
    | inr differs ↦ rw differs refl
  ]

  add_pool_magic-Sound :
      (sv parent : ℕ) (w : World S I) → Sound w → Sound (add_pool_magic apr interps sv parent w)
  unfolding add_pool_magic Sound
  add_pool_magic-Sound sv parent w sound = elim (Bool-cases (is_custom (w.objs parent))) [
    | inl custom ↦ rw custom (λ x p e. sound x p (sym (add_pool_magic-owned sv parent w x) ∙ e))
    | inr not_custom ↦ rw not_custom sound
  ]

  new_object-Sound :
      (sv : ℕ) (parent : Option ℕ) (child : ℕ) (w : World S I)
      → apr.live w.apr child ≡ true
      → Sound w
      → Sound (new_object apr interps sv parent child w)
  unfolding new_object
  new_object-Sound sv none child w live sound = takes_ownership-Sound sv child w live sound
  new_object-Sound sv (some parent) child w live sound =
      add_pool_magic-Sound sv parent (takes_ownership apr interps sv child w)
        (takes_ownership-Sound sv child w live sound)

  abbrev IfMade : Option (World S I) → Type 0
  IfMade none = Unit
  IfMade (some w) = Sound w

  created-Sound :
      (given : Option ℕ) (w : World S I)
      → Sound w
      → Sound (record w { apr = (apr.create w.apr given).0 })
  unfolding Sound
  created-Sound given w sound sv p e =
      let (live, registered) = sound sv p e in laws.create_keeps w.apr given p sv live registered

  pool_create-Sound :
      (sv : ℕ) (parent : Option ℕ) (w : World S I)
      → Sound w
      → IfMade (pool_create apr interps sv parent w)
  unfolding pool_create
  pool_create-Sound sv parent w sound =
      let given : Option ℕ = parent_pool apr interps w parent in
      let (apr', child) = apr.create w.apr given in
      elim (Bool-cases (is_same apr interps given child)) [
        | inl same ↦ rw same tt
        | inr differs ↦ rw differs (
            new_object-Sound sv parent child (record w { apr = apr' })
              (laws.create_live w.apr given) (created-Sound given w sound))
      ]

  Step-Sound : (w w' : World S I) → Step w w' → Sound w → Sound w'
  unfolding pool_destroy pool_clear
  Step-Sound _ _ (creates w w' sv parent made) sound =
      let kept = pool_create-Sound sv parent w sound in subst (λ r. IfMade r) made kept
  Step-Sound _ _ (clears w sv) sound = clear_obj-Sound sv (w.objs sv) w refl sound
  Step-Sound _ _ (destroys w sv) sound = destroy_obj-Sound (w.objs sv) w sound
  Step-Sound _ _ (httpd_clears w p) sound = apr_clear-Sound p w sound
  Step-Sound _ _ (httpd_destroys w p) sound = apr_destroy-Sound p w sound

  Reachable-Sound : (w : World S I) → Reachable w → Sound w
  unfolding Sound
  Reachable-Sound _ (initial w nothing) = λ sv p e. let none_ = nothing sv in absurd cc
  Reachable-Sound _ (step w w' r s) = Step-Sound w w' s (Reachable-Sound w r)

  pool_cleanups-no_pool :
      (svs : List ℕ) (w : World S I) (sv : ℕ)
      → w.objs sv ≡ no_pool
      → (pool_cleanups apr interps svs w).objs sv ≡ no_pool
  unfolding pool_cleanups drops_ownership
  pool_cleanups-no_pool [] w sv e = e
  pool_cleanups-no_pool (x ∷ svs) w sv e =
      let still : set_obj w.objs x no_pool sv ≡ no_pool = elim (Bool-cases (sv == x)) [
        | inl same ↦ rw same refl
        | inr differs ↦ rw differs e
      ] in
      pool_cleanups-no_pool svs (drops_ownership apr interps x w) sv still

  pool_cleanups-told :
      (svs : List ℕ) (w : World S I) (sv : ℕ)
      → elem sv svs ≡ true
      → (pool_cleanups apr interps svs w).objs sv ≡ no_pool
  unfolding pool_cleanups drops_ownership
  pool_cleanups-told [] w sv e = absurd cc
  pool_cleanups-told (x ∷ svs) w sv e = elim (Bool-cases (sv == x)) [
    | inl same ↦
        let emptied : set_obj w.objs x no_pool sv ≡ no_pool = rw same refl in
        pool_cleanups-no_pool svs (drops_ownership apr interps x w) sv emptied
    | inr differs ↦
        let later : elem sv svs ≡ true = ap (λ b. b || elem sv svs) (sym differs) ∙ e in
        pool_cleanups-told svs (drops_ownership apr interps x w) sv later
  ]

  destroy_obj-emptied :
      (sv p : ℕ) (o : Obj) (w : World S I)
      → w.objs sv ≡ o
      → owned o ≡ some p
      → Sound w
      → (destroy_obj apr interps o w).objs sv ≡ no_pool
  unfolding destroy_obj apr_destroy Sound
  destroy_obj-emptied sv p no_pool w at e sound = absurd cc
  destroy_obj-emptied sv p (core q) w at e sound = absurd cc
  destroy_obj-emptied sv p (owner q parent) w at e sound =
      let (live, registered) = sound sv q (ap owned at) in
      elim (laws.destroy_rest w.apr q q sv live registered) [
        | inl (still, there) ↦ let gone = laws.destroy_gone w.apr q live in absurd cc
        | inr told ↦
            pool_cleanups-told (apr.destroy w.apr q).1 (record w { apr = (apr.destroy w.apr q).0 })
              sv told
      ]

  destroy_obj-nothing : (o : Obj) (w : World S I) → o ≡ no_pool → destroy_obj apr interps o w ≡ w
  unfolding destroy_obj
  destroy_obj-nothing no_pool w e = refl
  destroy_obj-nothing (core p) w e = refl
  destroy_obj-nothing (owner p parent) w e = absurd cc

  -- Whatever Perl's objects and httpd did with the pools before, and under the laws of APR's pools:
  -- an object that has to destroy a pool destroys one that is live, and its destruction leaves it
  -- without a pool, so that destroying it once more changes nothing.
  pub pool_destroy-once :
      (w : World S I) (sv p : ℕ)
      → Reachable w
      → owned (w.objs sv) ≡ some p
      → let w' = pool_destroy apr interps sv w in
        (apr.live w.apr p ≡ true) × (w'.objs sv ≡ no_pool) × (pool_destroy apr interps sv w' ≡ w')
  unfolding pool_destroy Sound
  pool_destroy-once w sv p r e =
      let sound = Reachable-Sound w r in
      let emptied = destroy_obj-emptied sv p (w.objs sv) w refl e sound in
      ((sound sv p e).0, emptied, destroy_obj-nothing _ _ emptied)
