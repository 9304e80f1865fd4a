-- ===== src/PerlGlobal/Globals/Saved.antt =====
-- What a request's save and restore do to Perl as a whole.
use mod_perl.Prelude.{
  update, update_self, update_ne, ℕ, suc, ◌+◌, List, [], ◌∷◌, false, ◌≤◌, ◌<◌, ◌≡◌, ◌≢◌, refl, ap,
  ap₂, ◌∙◌, true, false, Option, none, some, ◌==◌, leb, length, take, drop, ==_refl, arith,
}
use mod_perl.Mgv.{Name}
use mod_perl.Hash.{Hash}
use mod_perl.PerlGlobal.{
  Ehv, Perl, avcv_tie, avcv_untie, end_key, elems-avcv_tie, elems-avcv_untie, new_av, empty_av,
}
use mod_perl.PerlGlobal.Globals.{
  Globals, add_hv, copy_env, pv_size, strncpy, save_one, restore_one, gvhv_save, gvav_save,
  gvio_save, svpv_save, gvhv_restore, gvav_restore, gvio_restore, svpv_restore, global_save,
  global_restore, request_save, request_restore, svpv, dec_av, avcv_save, avcv_restore, count_dec,
  perl_global_entries, push_elts_ref,
}
use mod_perl.PerlGlobal.Globals.Bounds.{nul_padded, take-strncpy}
use mod_perl.PerlGlobal.Globals.Env.{tied_elem?, fetch-copy_env}

module _ (H : Hash) where
  -- Nothing of `perl` differs from `old` but the END blocks, arrays that are new and the magic of
  -- arrays.
  abbrev SameButEnd : Perl H → Perl H → Type 0
  SameButEnd old perl =
      (perl.env ≡ old.env)
      × (perl.inc ≡ old.inc)
      × (perl.io_flags ≡ old.io_flags)
      × (perl.rs ≡ old.rs)
      × (perl.hvs ≡ old.hvs)
      × (old.fresh ≤ perl.fresh)
      × ((a : ℕ) → a < old.fresh → (perl.avs a).elems ≡ (old.avs a).elems)

  avcv_tie-SameButEnd :
      (old perl : Perl H) (av : ℕ)
      → SameButEnd old perl
      → SameButEnd old (avcv_tie H perl end_key av)
  unfolding avcv_tie
  avcv_tie-SameButEnd old perl av (e, i, f, r, h, n, s) =
      (e, i, f, r, h, n, λ a below. elems-avcv_tie H perl end_key av a ∙ s a below)

  avcv_save-SameButEnd :
      (endav : Option ℕ) (perl : Perl H) → SameButEnd perl (avcv_save H endav perl)
  unfolding avcv_save
  avcv_save-SameButEnd (some av) perl =
      avcv_tie-SameButEnd perl perl av (refl, refl, refl, refl, refl, omega arith, λ a below. refl)
  avcv_save-SameButEnd none perl =
      avcv_tie-SameButEnd perl (record (new_av H perl) { endav = some perl.fresh }) perl.fresh
        (
          refl,
          refl,
          refl,
          refl,
          refl,
          omega arith,
          λ a below. let other : (perl.fresh == a) ≡ false = ground arith in rw other refl,
        )

  -- What the save does with the globals behind PL_endav, with `tied` for Perl after that.
  abbrev tied : Perl H → Perl H
  tied perl = avcv_save H perl.endav perl

  request_saved :
      (globals : Globals) (perl : Perl H)
      → let saved = (request_save H globals perl).0 in
        (saved.orighv ≡ perl.env)
        × (saved.origav ≡ perl.inc)
        × (saved.flags ≡ perl.io_flags)
        × (saved.cur ≡ length perl.rs)
        × (saved.pv ≡ strncpy pv_size perl.rs)
        × (saved.tmphv ≡ (tied perl).fresh)
  unfolding request_save global_save save_one gvhv_save gvav_save gvio_save svpv_save
  request_saved globals perl =
      let (e, i, f, r, _, _, _) = avcv_save-SameButEnd perl.endav perl in
      (e, i, f, ap length r, ap (strncpy pv_size) r, refl)

  push_elts_ref-new_av :
      (perl : Perl H) (dst src : ℕ)
      → src ≢ dst
      → ((push_elts_ref H (record perl { avs = update perl.avs dst empty_av }) dst src).avs
          dst).elems
        ≡ (perl.avs src).elems
  unfolding push_elts_ref
  push_elts_ref-new_av perl dst src h =
      let other : (dst == src) ≡ false = ground arith in rw (==_refl dst, other) refl

  request_during :
      (globals : Globals) (perl : Perl H)
      → perl.inc < perl.fresh
      → let during = (request_save H globals perl).1 in
        (during.env ≡ (tied perl).fresh)
        × (during.hvs during.env ≡ copy_env H (perl.hvs perl.env))
        × ((during.avs during.inc).elems ≡ (perl.avs perl.inc).elems)
  unfolding request_save global_save save_one gvhv_save gvav_save push_elts_ref
  request_during globals perl below =
      let (e, i, f, r, h, n, s) = avcv_save-SameButEnd perl.endav perl in
      let hv : (tied perl).hvs (tied perl).env ≡ perl.hvs perl.env = ap₂ (λ hvs a. hvs a) h e in
      let copied =
        update_self (tied perl).hvs (tied perl).fresh
          (copy_env H ((tied perl).hvs (tied perl).env)) in
      let old : (tied perl).inc < (tied perl).fresh = omega (arith, i, n, below) in
      let pushed =
        push_elts_ref-new_av (tied perl) (suc (tied perl).fresh) (tied perl).inc
          (λ eq. omega (arith, eq, old)) in
      (
        refl,
        copied ∙ ap (copy_env H) hv,
        pushed ∙ ap (λ a. ((tied perl).avs a).elems) i ∙ s perl.inc below,
      )

  -- Perl after a restore whose END blocks were untied.
  abbrev restored : Globals → Perl H → Perl H
  restored saved perl =
      record (dec_av H
        (record perl {
          env = saved.orighv;
          hvs = update perl.hvs saved.tmphv (record (perl.hvs saved.tmphv) { magical = false });
          refcnt = count_dec H perl.refcnt saved.tmphv;
          inc = saved.origav;
        })
        saved.tmpav) { io_flags = saved.flags; rs = take saved.cur saved.pv }

  restore_one-svpv :
      (saved : Globals) (perl : Perl H)
      → saved.cur ≤ pv_size
      → restore_one H svpv saved perl ≡ some (record perl { rs = take saved.cur saved.pv })
  unfolding restore_one svpv_restore
  restore_one-svpv saved perl short =
      let fits : leb saved.cur pv_size ≡ true = ground arith in rw fits refl

  request_restored :
      (saved : Globals) (perl : Perl H) (av : ℕ)
      → perl.endav ≡ some av
      → saved.cur ≤ pv_size
      → request_restore H saved perl ≡ some (restored saved (avcv_untie H perl av))
  unfolding request_restore global_restore restore_one gvhv_restore gvav_restore gvio_restore
      avcv_restore dec_av
  request_restored saved perl av present short =
      let untied = ap (λ o. avcv_restore H o perl) present in
      let rest : Perl H → Option (Perl H) =
        λ p. global_restore H (drop 1 perl_global_entries) saved p in
      let last : Option (Perl H) → Option (Perl H) =
        λ o. elim o [ none ↦ none | some p ↦ some p ] in
      let string =
        restore_one-svpv saved (record (restored saved (avcv_untie H perl av)) { rs = perl.rs })
          short in
      ap (λ (o : Option (Perl H)). elim o [ none ↦ none | some p ↦ rest p ]) untied ∙ ap last string

  -- The restore, where PL_endav is still there and the hash and the array that were %ENV and @INC are
  -- as they were.
  request_restore-kept :
      (globals : Globals) (perl handled : Perl H) (av : ℕ)
      → perl.env < perl.fresh
      → handled.endav ≡ some av
      → handled.hvs perl.env ≡ perl.hvs perl.env
      → (handled.avs perl.inc).elems ≡ (perl.avs perl.inc).elems
      → length perl.rs ≤ pv_size
      → nul_padded perl.rs ≡ true
      → (after : Perl H) × (request_restore H (request_save H globals perl).0 handled ≡ some after)
        × (after.env ≡ perl.env)
        × (after.hvs perl.env ≡ perl.hvs perl.env)
        × (after.inc ≡ perl.inc)
        × ((after.avs perl.inc).elems ≡ (perl.avs perl.inc).elems)
        × (after.io_flags ≡ perl.io_flags)
        × (after.rs ≡ perl.rs)
  unfolding dec_av avcv_untie
  request_restore-kept globals perl handled av below present hv elems short nuls =
      let saved : Globals = (request_save H globals perl).0 in
      let (o, i, f, c, v, t) = request_saved globals perl in
      let (_, _, _, _, _, n, _) = avcv_save-SameButEnd perl.endav perl in
      let fits : saved.cur ≤ pv_size = omega (arith, c, short) in
      let other : perl.env ≢ saved.tmphv = λ eq. omega (arith, eq, t, n, below) in
      let string : take saved.cur saved.pv ≡ perl.rs =
        ap₂ (λ n s. take n s) c v ∙ take-strncpy pv_size perl.rs short nuls in
      (
        restored saved (avcv_untie H handled av),
        request_restored saved handled av present fits,
        o,
        update_ne handled.hvs saved.tmphv perl.env
              (record (handled.hvs saved.tmphv) { magical = false }) other
            ∙ hv,
        i,
        elems-avcv_untie H handled av perl.inc ∙ elems,
        f,
        string,
      )

  -- What the Perl code of a request may do: give %ENV any contents, and @INC any elements; set the
  -- flags of STDOUT and `$/`; make new hashes and arrays, and any change to one that is no older.
  pub data Act : Type 0 where
    set_env : Ehv H → Act
    set_inc : List ℕ → Act
    set_flags : ℕ → Act
    set_rs : List ℕ → Act
    make_hv : Ehv H → Act
    make_av : Act
    change_hv : ℕ → Ehv H → Act
    change_av : ℕ → List ℕ → Act

  abbrev with_elems : Perl H → ℕ → List ℕ → Perl H
  with_elems perl av elems = record perl {
    avs = update perl.avs av (record (perl.avs av) { elems = elems });
  }

  -- Addresses count from that of the first thing that the request makes.
  pub act : ℕ → Act → Perl H → Perl H
  act first (set_env hv) perl = record perl { hvs = update perl.hvs perl.env hv }
  act first (set_inc elems) perl = with_elems perl perl.inc elems
  act first (set_flags flags) perl = record perl { io_flags = flags }
  act first (set_rs rs) perl = record perl { rs = rs }
  act first (make_hv hv) perl = add_hv H perl hv
  act first make_av perl = new_av H perl
  act first (change_hv n hv) perl = record perl { hvs = update perl.hvs (first + n) hv }
  act first (change_av n elems) perl = with_elems perl (first + n) elems

  pub acts : ℕ → List Act → Perl H → Perl H
  unfolding act
  acts first [] perl = perl
  acts first (a ∷ todo) perl = acts first todo (act first a perl)

  -- A state of the request: its %ENV and @INC are no older than the save, and what is older is as
  -- it was.
  record Within (old perl : Perl H) : Type 0 where
    own_env : old.fresh ≤ perl.env
    own_inc : old.fresh ≤ perl.inc
    newer : old.fresh ≤ perl.fresh
    ends : (av : ℕ) × (perl.endav ≡ some av)
    hvs_kept : (a : ℕ) → a < old.fresh → perl.hvs a ≡ old.hvs a
    avs_kept : (a : ℕ) → a < old.fresh → (perl.avs a).elems ≡ (old.avs a).elems

  with_elems-kept :
      (old perl : Perl H) (av : ℕ) (elems : List ℕ)
      → Within old perl
      → old.fresh ≤ av
      → (a : ℕ) → a < old.fresh
      → ((with_elems perl av elems).avs a).elems ≡ (old.avs a).elems
  with_elems-kept old perl av elems w new a below =
      let other : (av == a) ≡ false = ground arith in rw other (w.avs_kept a below)

  hv-kept :
      (old perl : Perl H) (at : ℕ) (hv : Ehv H)
      → Within old perl
      → old.fresh ≤ at
      → (a : ℕ) → a < old.fresh
      → update perl.hvs at hv a ≡ old.hvs a
  hv-kept old perl at hv w new a below =
      let other : (at == a) ≡ false = ground arith in rw other (w.hvs_kept a below)

  new_av-kept :
      (old perl : Perl H)
      → Within old perl
      → (a : ℕ) → a < old.fresh
      → ((new_av H perl).avs a).elems ≡ (old.avs a).elems
  new_av-kept old perl w a below =
      let newer = w.newer in
      let other : (perl.fresh == a) ≡ false = ground arith in rw other (w.avs_kept a below)

  act-Within : (old perl : Perl H) (a : Act) → Within old perl → Within old (act old.fresh a perl)
  unfolding act
  act-Within old perl (set_env hv) w = record {
    own_env = w.own_env;
    own_inc = w.own_inc;
    newer = w.newer;
    ends = w.ends;
    hvs_kept = hv-kept old perl perl.env hv w w.own_env;
    avs_kept = w.avs_kept;
  }
  act-Within old perl (set_inc elems) w = record {
    own_env = w.own_env;
    own_inc = w.own_inc;
    newer = w.newer;
    ends = w.ends;
    hvs_kept = w.hvs_kept;
    avs_kept = with_elems-kept old perl perl.inc elems w w.own_inc;
  }
  act-Within old perl (set_flags flags) w = record {
    own_env = w.own_env;
    own_inc = w.own_inc;
    newer = w.newer;
    ends = w.ends;
    hvs_kept = w.hvs_kept;
    avs_kept = w.avs_kept;
  }
  act-Within old perl (set_rs rs) w = record {
    own_env = w.own_env;
    own_inc = w.own_inc;
    newer = w.newer;
    ends = w.ends;
    hvs_kept = w.hvs_kept;
    avs_kept = w.avs_kept;
  }
  act-Within old perl (make_hv hv) w = record {
    own_env = w.own_env;
    own_inc = w.own_inc;
    newer = omega (arith, w.newer);
    ends = w.ends;
    hvs_kept = hv-kept old perl perl.fresh hv w w.newer;
    avs_kept = w.avs_kept;
  }
  act-Within old perl make_av w = record {
    own_env = w.own_env;
    own_inc = w.own_inc;
    newer = omega (arith, w.newer);
    ends = w.ends;
    hvs_kept = w.hvs_kept;
    avs_kept = new_av-kept old perl w;
  }
  act-Within old perl (change_hv n hv) w = record {
    own_env = w.own_env;
    own_inc = w.own_inc;
    newer = w.newer;
    ends = w.ends;
    hvs_kept = hv-kept old perl (old.fresh + n) hv w (omega arith);
    avs_kept = w.avs_kept;
  }
  act-Within old perl (change_av n elems) w = record {
    own_env = w.own_env;
    own_inc = w.own_inc;
    newer = w.newer;
    ends = w.ends;
    hvs_kept = w.hvs_kept;
    avs_kept = with_elems-kept old perl (old.fresh + n) elems w (omega arith);
  }

  acts-Within :
      (old perl : Perl H) (todo : List Act)
      → Within old perl
      → Within old (acts old.fresh todo perl)
  unfolding acts
  acts-Within old perl [] w = w
  acts-Within old perl (a ∷ todo) w =
      acts-Within old (act old.fresh a perl) todo (act-Within old perl a w)

  endav-avcv_save :
      (endav : Option ℕ) (perl : Perl H)
      → perl.endav ≡ endav
      → (av : ℕ) × ((avcv_save H endav perl).endav ≡ some av)
  unfolding avcv_save avcv_tie
  endav-avcv_save (some av) perl e = (av, e)
  endav-avcv_save none perl e = (perl.fresh, refl)

  request_save-Within :
      (globals : Globals) (perl : Perl H) → Within perl (request_save H globals perl).1
  unfolding request_save global_save save_one gvhv_save gvav_save push_elts_ref
  request_save-Within globals perl =
      let (e, i, f, r, h, n, s) = avcv_save-SameButEnd perl.endav perl in
      record {
        own_env = n;
        own_inc = omega (arith, n);
        newer = omega (arith, n);
        ends = endav-avcv_save perl.endav perl refl;
        hvs_kept = λ a below.
            let other : ((tied perl).fresh == a) ≡ false = ground (arith, n) in
            rw other (ap (λ (hvs : ℕ → Ehv H). hvs a) h);
        avs_kept = λ a below.
            let other : (suc (tied perl).fresh == a) ≡ false = ground (arith, n) in
            rw other (s a below);
      }

  -- A request sees a copy of %ENV, in a new hash, with the same values and each of them tied, and
  -- in @INC the same elements.
  pub request_save-copied :
      (globals : Globals) (perl : Perl H) (key : Name)
      → perl.env < perl.fresh
      → perl.inc < perl.fresh
      → let during = (request_save H globals perl).1 in
        (during.env ≢ perl.env)
        × (H.fetch (during.hvs during.env).table key
            ≡ tied_elem? (H.fetch (perl.hvs perl.env).table key))
        × ((during.avs during.inc).elems ≡ (perl.avs perl.inc).elems)
  request_save-copied globals perl key env inc =
      let (e, h, i) = request_during globals perl inc in
      let (_, _, _, _, _, n, _) = avcv_save-SameButEnd perl.endav perl in
      let (table, _) = fetch-copy_env H (perl.hvs perl.env) key in
      (λ eq. omega (arith, e, eq, n, env), ap (λ hv. H.fetch (hv.table) key) h ∙ table, i)

  -- The save gives a request a %ENV of its own, with the same values, each of them tied, and an
  -- @INC with the same elements. Between the save and the restore its Perl code does any of the
  -- acts above, in any order and number, where what it makes or changes besides %ENV and @INC is no
  -- older than the save. Then the restore succeeds and gives back %ENV and @INC with the contents
  -- that they had before the save, the flags of STDOUT and `$/`, where `$/` has at most 256 bytes
  -- and only NULs behind its first NUL.
  pub request_restore-request_save :
      (globals : Globals) (perl : Perl H) (todo : List Act) (key : Name)
      → perl.env < perl.fresh
      → perl.inc < perl.fresh
      → length perl.rs ≤ pv_size
      → nul_padded perl.rs ≡ true
      → let (saved, during) = request_save H globals perl in
        (during.env ≢ perl.env)
        × (H.fetch (during.hvs during.env).table key
            ≡ tied_elem? (H.fetch (perl.hvs perl.env).table key))
        × ((during.avs during.inc).elems ≡ (perl.avs perl.inc).elems)
        × (after : Perl H) × (request_restore H saved (acts perl.fresh todo during) ≡ some after)
        × (after.env ≡ perl.env)
        × (after.hvs perl.env ≡ perl.hvs perl.env)
        × (after.inc ≡ perl.inc)
        × ((after.avs perl.inc).elems ≡ (perl.avs perl.inc).elems)
        × (after.io_flags ≡ perl.io_flags)
        × (after.rs ≡ perl.rs)
  request_restore-request_save globals perl todo key env inc short nuls =
      let during = (request_save H globals perl).1 in
      let w = acts-Within perl during todo (request_save-Within globals perl) in
      let (av, present) = w.ends in
      let (other, values, elems) = request_save-copied globals perl key env inc in
      let (after, restored_, env', hv', inc', av', flags', rs') =
        request_restore-kept globals perl (acts perl.fresh todo during) av env present
          (w.hvs_kept perl.env env) (w.avs_kept perl.inc inc) short nuls in
      (other, values, elems, after, restored_, env', hv', inc', av', flags', rs')
