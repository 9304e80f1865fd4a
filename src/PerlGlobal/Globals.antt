-- ===== src/PerlGlobal/Globals.antt =====
-- modperl_perl_global_request_save and _restore: the walk over MP_perl_global_entries, with the save
-- and the restore of each type. An entry's member of modperl_perl_globals_t is the one of its type.
pub mod Bounds
pub mod Saved
pub mod Env
pub mod Tests
use mod_perl.Prelude.{
  update, update_self, update_ne, ℕ, zero, suc, ◌+◌, ◌-◌, Bool, true, false, Option, none, some,
  List, [], ◌∷◌, ◌==◌, leb, if◌then◌else◌, length, take, replicate, ◌++◌,
}
use mod_perl.Mgv.{Name}
use mod_perl.Hash.{Hash}
use mod_perl.PerlGlobal.{end_key, Elem, empty_av, Ehv, Perl, set_av, new_av, avcv_tie, avcv_untie}

-- modperl_perl_global_types_e.
pub data GlobalType : Type 0 where
  avcv gvhv gvav gvio svpv : GlobalType

pub record Entry : Type 0 where
  pub name : Name
  pub type : GlobalType

-- MP_perl_global_entries up to the empty entry.
abbrev pub perl_global_entries : List Entry
perl_global_entries =
    record { name = b'E' ∷ b'N' ∷ b'D' ∷ []; type = avcv }
    ∷ record { name = b'E' ∷ b'N' ∷ b'V' ∷ []; type = gvhv }
    ∷ record { name = b'I' ∷ b'N' ∷ b'C' ∷ []; type = gvav }
    ∷ record { name = b'S' ∷ b'T' ∷ b'D' ∷ b'O' ∷ b'U' ∷ b'T' ∷ []; type = gvio }
    ∷ record { name = b'/' ∷ []; type = svpv }
    ∷ []

-- modperl_perl_globals_t, without the pointers to Perl's variables, which `Perl` is.
pub record Globals : Type 0 where
  pub tmphv : ℕ
  pub orighv : ℕ
  pub tmpav : ℕ
  pub origav : ℕ
  pub flags : ℕ
  pub pv : List ℕ
  pub cur : ℕ

-- sizeof(svpv->pv).
abbrev pub pv_size : ℕ
pv_size = 256

-- strncpy of `n` bytes of a string that a NUL ends: the bytes up to the first NUL, and NULs behind.
pub strncpy : ℕ → List ℕ → List ℕ
strncpy zero s = []
strncpy (suc n) [] = 0 ∷ strncpy n []
strncpy (suc n) (c ∷ s) = if c == 0 then replicate (suc n) 0 else c ∷ strncpy n s

module _ (H : Hash) where
  open H use {Hv, new, store, each}

  -- The loop of copyENV over the entries that are left.
  pub copy_loop : List (Name × Elem) → Hv Elem → Hv Elem
  copy_loop [] hv = hv
  copy_loop ((key, elem) ∷ entries) hv =
      copy_loop entries (store hv key (record { value = elem.value; tied = true }))

  -- How many buckets the copy has is left to the hash.
  pub copy_env : Ehv H → Ehv H
  unfolding copy_loop
  copy_env ohv = elim (each ohv.table) [
    | [] ↦ record { table = new; magical = false }
    | entry ∷ entries ↦ record { table = copy_loop (entry ∷ entries) new; magical = true }
  ]

  -- newHV with the contents `hv`, at the old `fresh`.
  abbrev pub add_hv : Perl H → Ehv H → Perl H
  add_hv perl hv = record perl {
    hvs = update perl.hvs perl.fresh hv;
    refcnt = update perl.refcnt perl.fresh 1;
    fresh = suc perl.fresh;
  }

  abbrev pub count_inc : (ℕ → ℕ) → ℕ → ℕ → ℕ
  count_inc refcnt sv = update refcnt sv (suc (refcnt sv))

  abbrev pub count_dec : (ℕ → ℕ) → ℕ → ℕ → ℕ
  count_dec refcnt sv = update refcnt sv (refcnt sv - 1)

  -- SvREFCNT_inc, or _dec, of each of a list.
  abbrev pub counts : ((ℕ → ℕ) → ℕ → ℕ → ℕ) → (ℕ → ℕ) → List ℕ → ℕ → ℕ
  counts f refcnt [] = refcnt
  counts f refcnt (sv ∷ svs) = counts f (f refcnt sv) svs

  -- modperl_perl_av_push_elts_ref into an array that was just made.
  pub push_elts_ref : Perl H → ℕ → ℕ → Perl H
  push_elts_ref perl dst src =
      let pushed = (perl.avs dst).elems ++ (perl.avs src).elems in
      record (set_av H perl dst (record (perl.avs dst) { elems = pushed })) {
        refcnt = counts count_inc perl.refcnt (perl.avs src).elems;
      }

  -- SvREFCNT_dec of an array: with the last reference its elements lose theirs.
  pub dec_av : Perl H → ℕ → Perl H
  dec_av perl av =
      let once = count_dec perl.refcnt av in
      record perl {
        refcnt = if once av == 0 then counts count_dec once (perl.avs av).elems else once;
      }

  -- modperl_perl_global_avcv_save, for what PL_endav is.
  pub avcv_save : Option ℕ → Perl H → Perl H
  unfolding avcv_tie
  avcv_save (some av) perl = avcv_tie H perl end_key av
  avcv_save none perl =
      avcv_tie H (record (new_av H perl) { endav = some perl.fresh }) end_key perl.fresh

  -- modperl_perl_global_avcv_restore; `none` is the access to a null PL_endav.
  pub avcv_restore : Option ℕ → Perl H → Option (Perl H)
  unfolding avcv_untie
  avcv_restore none perl = none
  avcv_restore (some av) perl = some (avcv_untie H perl av)

  pub gvhv_save : Globals → Perl H → Globals × Perl H
  unfolding copy_env
  gvhv_save globals perl = (
    record globals { tmphv = perl.fresh; orighv = perl.env },
    record (add_hv perl (copy_env (perl.hvs perl.env))) { env = perl.fresh },
  )

  pub gvhv_restore : Globals → Perl H → Perl H
  gvhv_restore globals perl = record perl {
    env = globals.orighv;
    hvs = update perl.hvs globals.tmphv (record (perl.hvs globals.tmphv) { magical = false });
    refcnt = count_dec perl.refcnt globals.tmphv;
  }

  pub gvav_save : Globals → Perl H → Globals × Perl H
  unfolding push_elts_ref
  gvav_save globals perl = (
    record globals { tmpav = perl.fresh; origav = perl.inc },
    record (push_elts_ref (new_av H perl) perl.fresh perl.inc) { inc = perl.fresh },
  )

  pub gvav_restore : Globals → Perl H → Perl H
  unfolding dec_av
  gvav_restore globals perl = dec_av (record perl { inc = globals.origav }) globals.tmpav

  pub gvio_save : Globals → Perl H → Globals
  gvio_save globals perl = record globals { flags = perl.io_flags }

  pub gvio_restore : Globals → Perl H → Perl H
  gvio_restore globals perl = record perl { io_flags = globals.flags }

  pub svpv_save : Globals → Perl H → Globals
  unfolding strncpy
  svpv_save globals perl = record globals { cur = length perl.rs; pv = strncpy pv_size perl.rs }

  -- `none` is a read behind the end of `pv`.
  pub svpv_restore : Globals → Perl H → Option (Perl H)
  svpv_restore globals perl =
      if leb globals.cur pv_size
      then some (record perl { rs = take globals.cur globals.pv })
      else none

  -- The switch of modperl_perl_global_save.
  pub save_one : GlobalType → Globals × Perl H → Globals × Perl H
  unfolding gvhv_save gvav_save gvio_save svpv_save avcv_save
  save_one avcv (globals, perl) = (globals, avcv_save perl.endav perl)
  save_one gvhv (globals, perl) = gvhv_save globals perl
  save_one gvav (globals, perl) = gvav_save globals perl
  save_one gvio (globals, perl) = (gvio_save globals perl, perl)
  save_one svpv (globals, perl) = (svpv_save globals perl, perl)

  -- The switch of modperl_perl_global_restore.
  pub restore_one : GlobalType → Globals → Perl H → Option (Perl H)
  unfolding gvhv_restore gvav_restore gvio_restore svpv_restore avcv_restore
  restore_one avcv globals perl = avcv_restore perl.endav perl
  restore_one gvhv globals perl = some (gvhv_restore globals perl)
  restore_one gvav globals perl = some (gvav_restore globals perl)
  restore_one gvio globals perl = some (gvio_restore globals perl)
  restore_one svpv globals perl = svpv_restore globals perl

  pub global_save : List Entry → Globals × Perl H → Globals × Perl H
  unfolding save_one
  global_save [] state = state
  global_save (entry ∷ entries) state = global_save entries (save_one entry.type state)

  pub global_restore : List Entry → Globals → Perl H → Option (Perl H)
  unfolding restore_one
  global_restore [] globals perl = some perl
  global_restore (entry ∷ entries) globals perl = elim (restore_one entry.type globals perl) [
    | none ↦ none
    | some restored ↦ global_restore entries globals restored
  ]

  pub request_save : Globals → Perl H → Globals × Perl H
  unfolding global_save
  request_save globals perl = global_save perl_global_entries (globals, perl)

  pub request_restore : Globals → Perl H → Option (Perl H)
  unfolding global_restore
  request_restore globals perl = global_restore perl_global_entries globals perl
