-- ===== src/PerlGlobal/Globals/Tests.antt =====
-- One request of an interpreter that compiles two END blocks of a registered package.
use mod_perl.Prelude.{
  ◌≢◌, List, update, ℕ, ◌≡◌, ◌≤◌, ◌↔◌, refl, true, false, Option, none, some, [], ◌∷◌, length,
  arith,
}
use mod_perl.Mgv.{Name}
use mod_perl.Hash.Assoc.{assoc}
use mod_perl.PerlGlobal.{Ehv, Av, empty_av, Perl, end_key, modglobal_lookup}
use mod_perl.PerlGlobal.Globals.{
  svpv_save, svpv_restore, Globals, pv_size, svpv, svpv_save, svpv_restore, save_one, restore_one,
  request_save, request_restore,
}
use mod_perl.PerlGlobal.Globals.Bounds.{nul_padded, svpv-restored}
use mod_perl.PerlGlobal.Globals.Saved.{
  Act, set_env, set_inc, set_flags, set_rs, acts, request_restore-request_save,
}

abbrev path : Name
path = b'P' ∷ []

abbrev package_a : Name
package_a = b'A' ∷ []

abbrev env_hv : Ehv assoc
env_hv = record { table = (path, record { value = b'/' ∷ []; tied = true }) ∷ []; magical = true }

-- %ENV is at 1, @INC at 2, the END blocks of Perl at 3 and those of the package at 4.
abbrev array : ℕ → Av
array =
    update
      (update (λ a. empty_av) 2 (record { elems = 70 ∷ 71 ∷ []; smagical = false; magic = none })) 3
      (record { elems = 90 ∷ []; smagical = true; magic = some end_key })

abbrev interp : Perl assoc
interp = record {
  env = 1;
  inc = 2;
  hvs = λ a. env_hv;
  avs = array;
  refcnt = λ a. 1;
  io_flags = 4;
  rs = 10 ∷ [];
  endav = some 3;
  modglobal = (end_key.val, (package_a, 4) ∷ []) ∷ [];
  curstash = package_a;
  fresh = 5;
}

abbrev blank : Globals
blank = record { tmphv = 0; orighv = 0; tmpav = 0; origav = 0; flags = 0; pv = []; cur = 0 }

-- The request changes `$/`, $| and %ENV.
abbrev handled : Perl assoc
handled = record (request_save assoc blank interp).1 { rs = []; io_flags = 0; env = 9 }

abbrev run_sub : Perl assoc → ℕ → Perl assoc × Option Name
run_sub perl cv = (record perl { io_flags = cv }, none)

modglobal_lookup_end : modglobal_lookup end_key.name ≡ some end_key
unfolding modglobal_lookup
modglobal_lookup_end = refl

-- The request empties %ENV and @INC and changes what is not restored by their addresses.
abbrev request_acts : List (Act assoc)
request_acts =
    set_env (record { table = []; magical = true })
    ∷ (set_inc [] ∷ (set_flags 0 ∷ (set_rs [] ∷ [])))

request_restore-request_save_example :
    let (saved, during) = request_save assoc blank interp in
    (during.env ≢ 1)
    × (assoc.fetch (during.hvs during.env).table path
        ≡ some (record { value = b'/' ∷ []; tied = true }))
    × ((during.avs during.inc).elems ≡ 70 ∷ 71 ∷ [])
    × (after : Perl assoc) × (request_restore assoc saved
          (acts assoc interp.fresh request_acts during)
        ≡ some after)
    × (after.env ≡ 1)
    × (after.hvs 1 ≡ env_hv)
    × (after.inc ≡ 2)
    × ((after.avs 2).elems ≡ 70 ∷ 71 ∷ [])
    × (after.io_flags ≡ 4)
    × (after.rs ≡ 10 ∷ [])
request_restore-request_save_example =
    request_restore-request_save assoc blank interp request_acts path (omega arith) (omega arith)
      (omega arith) refl

svpv-restored_example :
    (restore_one assoc svpv (save_one assoc svpv (blank, interp)).0 handled
      ≡ some (record handled { rs = 10 ∷ [] }))
    ↔ (length interp.rs ≤ pv_size) × (nul_padded interp.rs ≡ true)
svpv-restored_example = svpv-restored assoc blank interp handled

-- `$/` of a NUL and a newline comes back as two NULs.
svpv_nul_runs :
    restore_one assoc svpv
      (save_one assoc svpv (blank, record interp { rs = 0 ∷ 10 ∷ [] })).0
      handled
    ≡ some (record handled { rs = 0 ∷ 0 ∷ [] })
unfolding save_one restore_one svpv_save svpv_restore
svpv_nul_runs = refl
