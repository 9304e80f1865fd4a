-- ===== src/Pool.antt =====
-- xs/APR/Pool/APR__Pool.h: Perl's objects for pools, and Perl subs as cleanups.
pub mod Once
pub mod Tests
use mod_perl.Prelude.{
  ℕ, suc, ◌-◌, Bool, true, false, not, ◌&&◌, Option, none, some, List, [], ◌∷◌, ◌==◌, if◌then◌else◌,
}

-- What the code uses of APR's pools, on a state of APR's. `live` are the pools that are not
-- destroyed, `registered` the objects whose mpxs_apr_pool_cleanup is registered at a pool. A clear
-- and a destroy give the objects whose cleanups they ran, in order.
pub record Apr (S : Type 0) : Type 0 where
  pub live : S → ℕ → Bool
  pub registered : S → ℕ → ℕ → Bool
  pub create : S → Option ℕ → S × ℕ
  pub register : S → ℕ → ℕ → S
  pub clear : S → ℕ → S × List ℕ
  pub destroy : S → ℕ → S × List ℕ

-- The interpreter that an object belongs to: one more reference to it, and modperl_interp_unselect.
pub record Interps (I : Type 0) : Type 0 where
  pub refer : I → I
  pub unselect : I → I

-- The SV of an object: without a pool, with one of httpd's, or with one that it has to destroy;
-- then the magic may hold the SV of the parent.
pub data Obj : Type 0 where
  no_pool : Obj
  core : ℕ → Obj
  owner : ℕ → Option ℕ → Obj

pub record World (S I : Type 0) : Type 0 where
  pub apr : S
  pub objs : ℕ → Obj
  pub interps : I

-- The pool that is given: APR's own top, for a class name, or that of an object.
abbrev pub pool_of : Obj → Option ℕ
pool_of no_pool = none
pool_of (core p) = some p
pool_of (owner p parent) = some p

-- mpxs_pool_is_custom.
abbrev pub is_custom : Obj → Bool
is_custom (owner p parent) = true
is_custom o = false

abbrev pub set_obj : (ℕ → Obj) → ℕ → Obj → ℕ → Obj
set_obj objs sv o x = if x == sv then o else objs x

abbrev pub hold : Obj → ℕ → Obj
hold (owner p parent) sv = owner p (some sv)
hold o sv = o

module _ {S I : Type 0} (apr : Apr S) (interps : Interps I) where
  -- MP_APR_POOL_SV_DROPS_OWNERSHIP, which is all that mpxs_apr_pool_cleanup does.
  pub drops_ownership : ℕ → World S I → World S I
  drops_ownership sv w = record w {
    objs = set_obj w.objs sv no_pool;
    interps = interps.unselect w.interps;
  }

  -- The cleanups that a clear or a destroy runs.
  pub pool_cleanups : List ℕ → World S I → World S I
  unfolding drops_ownership
  pool_cleanups [] w = w
  pool_cleanups (sv ∷ svs) w = pool_cleanups svs (drops_ownership sv w)

  -- MP_APR_POOL_SV_TAKES_OWNERSHIP.
  pub takes_ownership : ℕ → ℕ → World S I → World S I
  takes_ownership sv pool w = record w {
    apr = apr.register w.apr pool sv;
    objs = set_obj w.objs sv (owner pool none);
    interps = interps.refer w.interps;
  }

  -- mpxs_add_pool_magic for a new object: only an object that owns its pool is held.
  pub add_pool_magic : ℕ → ℕ → World S I → World S I
  add_pool_magic sv parent w =
      if is_custom (w.objs parent)
      then record w { objs = set_obj w.objs sv (hold (w.objs sv) parent) }
      else w

  abbrev pub is_same : Option ℕ → ℕ → Bool
  is_same none pool = false
  is_same (some p) pool = p == pool

  -- The part of mpxs_apr_pool_create behind the check of the new pool.
  pub new_object : ℕ → Option ℕ → ℕ → World S I → World S I
  unfolding takes_ownership add_pool_magic
  new_object sv none child w = takes_ownership sv child w
  new_object sv (some parent) child w = add_pool_magic sv parent (takes_ownership sv child w)

  abbrev pub parent_pool : World S I → Option ℕ → Option ℕ
  parent_pool w none = none
  parent_pool w (some parent) = pool_of (w.objs parent)

  -- mpxs_apr_pool_create for a class or an object, with the SV that newSV makes. It croaks, with
  -- `none`, where APR gives the parent's own pool.
  pub pool_create : ℕ → Option ℕ → World S I → Option (World S I)
  unfolding new_object
  pool_create sv parent w =
      let (apr', child) = apr.create w.apr (parent_pool w parent) in
      if is_same (parent_pool w parent) child
      then none
      else some (new_object sv parent child (record w { apr = apr' }))

  -- apr_pool_clear and apr_pool_destroy, with the cleanups that they run.
  pub apr_clear : ℕ → World S I → World S I
  unfolding pool_cleanups
  apr_clear pool w =
      let (apr', ran) = apr.clear w.apr pool in pool_cleanups ran (record w { apr = apr' })

  pub apr_destroy : ℕ → World S I → World S I
  unfolding pool_cleanups
  apr_destroy pool w =
      let (apr', ran) = apr.destroy w.apr pool in pool_cleanups ran (record w { apr = apr' })

  -- mpxs_APR__Pool_clear; the conversion of an object without a pool croaks.
  pub clear_obj : ℕ → Obj → World S I → World S I
  unfolding apr_clear takes_ownership
  clear_obj sv no_pool w = w
  clear_obj sv (core p) w = apr_clear p w
  clear_obj sv (owner p parent) w = takes_ownership sv p (apr_clear p w)

  pub pool_clear : ℕ → World S I → World S I
  unfolding clear_obj
  pool_clear sv w = clear_obj sv (w.objs sv) w

  -- mpxs_apr_pool_DESTROY.
  pub destroy_obj : Obj → World S I → World S I
  unfolding apr_destroy
  destroy_obj no_pool w = w
  destroy_obj (core p) w = w
  destroy_obj (owner p parent) w = apr_destroy p w

  pub pool_destroy : ℕ → World S I → World S I
  unfolding destroy_obj
  pool_destroy sv w = destroy_obj (w.objs sv) w

-- mpxs_cleanup_t, and Perl's side of such a cleanup: the counts of SVs, the calls of its subs and
-- the warnings.
pub record PerlCleanup : Type 0 where
  pub cv : ℕ
  pub arg : Option ℕ

pub record Side (I : Type 0) : Type 0 where
  pub refcnt : ℕ → ℕ
  pub called : List (ℕ × Option ℕ)
  pub warned : List ℕ
  pub interps : I

abbrev add_count : ℕ → (ℕ → ℕ) → ℕ → ℕ
add_count sv refcnt x = if x == sv then suc (refcnt x) else refcnt x

abbrev drop_count : ℕ → (ℕ → ℕ) → ℕ → ℕ
drop_count sv refcnt x = if x == sv then refcnt x - 1 else refcnt x

abbrev with_arg : (ℕ → (ℕ → ℕ) → ℕ → ℕ) → Option ℕ → (ℕ → ℕ) → ℕ → ℕ
with_arg count none refcnt = refcnt
with_arg count (some arg) refcnt = count arg refcnt

module _ {I : Type 0} (interps : Interps I) where
  -- mpxs_apr_pool_cleanup_register: what it does on the side of Perl.
  pub pool_cleanup_register : ℕ → Option ℕ → Side I → Side I × PerlCleanup
  pool_cleanup_register cv arg s = (
    record s {
      refcnt = with_arg add_count arg (add_count cv s.refcnt);
      interps = interps.refer s.interps;
    },
    record { cv = cv; arg = arg },
  )

  -- mpxs_cleanup_run; `dies` is whether the call leaves an error.
  pub cleanup_run : Bool → PerlCleanup → Side I → Side I
  cleanup_run dies c s = record s {
    called = (c.cv, c.arg) ∷ s.called;
    warned = if dies then c.cv ∷ s.warned else s.warned;
    refcnt = with_arg drop_count c.arg (drop_count c.cv s.refcnt);
    interps = interps.unselect s.interps;
  }
