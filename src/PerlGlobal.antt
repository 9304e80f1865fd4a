-- ===== src/PerlGlobal.antt =====
-- src/modules/perl/modperl_perl_global.c: the globals of Perl that a request may change, %ENV, @INC,
-- $|, $/ and the END blocks, and the lists of END blocks that are kept for each package.
-- Hashes and arrays are known by their addresses. The set of all that Perl holds is `Perl`.
pub mod Globals
pub mod End
use mod_perl.Prelude.{
  update, ap, ◌∙◌, Bool-cases, Option-cases, inl, inr, arith, refl, ◌≡◌, ==_iff, ℕ, suc, ◌+◌, ◌-◌,
  Bool, true, false, Option, none, some, List, [], ◌∷◌, ◌++◌, ◌==◌, if◌then◌else◌,
}
use mod_perl.Mgv.{Name, separator, same_name}
use mod_perl.Hash.{Hash}

-- modperl_modglobal_key_t: its `name` and its `val`.
pub record Key : Type 0 where
  pub name : Name
  pub val : Name

-- MP_MODGLOBAL_ENT.
abbrev pub modglobal_ent : Name → Key
modglobal_ent key = record {
  name = key;
  val = (b'M' ∷ b'o' ∷ b'd' ∷ b'P' ∷ b'e' ∷ b'r' ∷ b'l' ∷ []) ++ separator ++ key;
}

abbrev pub end_key : Key
end_key = modglobal_ent (b'E' ∷ b'N' ∷ b'D' ∷ [])

-- MP_modglobal_keys up to the empty entry.
abbrev pub modglobal_keys : List Key
modglobal_keys = end_key ∷ modglobal_ent (b'A' ∷ b'N' ∷ b'O' ∷ b'N' ∷ b'S' ∷ b'U' ∷ b'B' ∷ []) ∷ []

pub lookup_key : List Key → Name → Option Key
lookup_key [] name = none
lookup_key (gkey ∷ keys) name =
    let rest = lookup_key keys name in if same_name gkey.name name then some gkey else rest

pub modglobal_lookup : Name → Option Key
unfolding lookup_key
modglobal_lookup name = lookup_key modglobal_keys name

-- A value of %ENV, with whether it has the element magic 'e'.
pub record Elem : Type 0 where
  pub value : List ℕ
  pub tied : Bool

-- An array: the addresses of its elements, SvSMAGICAL, and the key of its set magic, if it has one.
pub record Av : Type 0 where
  pub elems : List ℕ
  pub smagical : Bool
  pub magic : Option Key

abbrev pub empty_av : Av
empty_av = record { elems = []; smagical = false; magic = none }

-- &PL_sv_undef, which av_shift gives for an empty array.
abbrev pub sv_undef : ℕ
sv_undef = 0

abbrev pub av_shift : List ℕ → ℕ × List ℕ
av_shift [] = (sv_undef, [])
av_shift (sv ∷ rest) = (sv, rest)

-- An array that has magic keeps it.
pub tied_av : Key → Av → Av
tied_av key av = elim av.magic [
  | none ↦ record av { magic = some key; smagical = true }
  | some other ↦ record av { smagical = true }
]

pub elems-tied_av : (key : Key) (av : Av) → (tied_av key av).elems ≡ av.elems
unfolding tied_av
elems-tied_av key av = ground arith

pub elems-update :
    (avs : ℕ → Av) (av : ℕ) (x : Av)
    → x.elems ≡ (avs av).elems
    → (a : ℕ) → (update avs av x a).elems ≡ (avs a).elems
elems-update avs av x h a = elim (Bool-cases (av == a)) [
  | inl e ↦ rw e (h ∙ ap (λ b. (avs b).elems) ((==_iff av a).0 e))
  | inr e ↦ rw e refl
]

module _ (H : Hash) where
  open H use {Hv, new, fetch, store, each}

  -- A hash of %ENV, with whether it has the magic 'E'.
  pub record Ehv : Type 0 where
    pub table : Hv Elem
    pub magical : Bool

  -- `env` and `inc` are GvHV(PL_envgv) and GvAV(PL_incgv), `io_flags` those of PL_defoutgv, `rs` the
  -- string of PL_rs, `fresh` the address that the next newAV or newHV has.
  pub record Perl : Type 0 where
    pub env : ℕ
    pub inc : ℕ
    pub hvs : ℕ → Ehv
    pub avs : ℕ → Av
    pub refcnt : ℕ → ℕ
    pub io_flags : ℕ
    pub rs : List ℕ
    pub endav : Option ℕ
    pub modglobal : Hv (Hv ℕ)
    pub curstash : Name
    pub fresh : ℕ

  abbrev pub set_av : Perl → ℕ → Av → Perl
  set_av perl av x = record perl { avs = update perl.avs av x }

  -- newAV, whose address is the old `fresh`.
  abbrev pub new_av : Perl → Perl
  new_av perl = record perl {
    avs = update perl.avs perl.fresh empty_av;
    refcnt = update perl.refcnt perl.fresh 1;
    fresh = suc perl.fresh;
  }

  -- hv_fetch_he and hv_store of the hash `hv` of `gkey`.
  pub fetch_package : Perl → Key → Hv ℕ → Name → Bool → Perl × Option ℕ
  fetch_package perl gkey hv package_ autovivify = elim (fetch hv package_) [
    | some av ↦ (perl, some av)
    | none ↦
        if autovivify
        then (
          record (new_av perl) {
            modglobal = store perl.modglobal gkey.val (store hv package_ perl.fresh);
          },
          some perl.fresh,
        )
        else (perl, none)
  ]

  pub avcv_fetch : Perl → Key → Name → Bool → Perl × Option ℕ
  unfolding fetch_package
  avcv_fetch perl gkey package_ autovivify = elim (fetch perl.modglobal gkey.val) [
    | some hv ↦ fetch_package perl gkey hv package_ autovivify
    | none ↦
        if autovivify
        then fetch_package (record perl { modglobal = store perl.modglobal gkey.val new }) gkey new
            package_ true
        else (perl, none)
  ]

  pub avcv_register : Perl → Key → Name → Perl
  unfolding avcv_fetch
  avcv_register perl gkey package_ = (avcv_fetch perl gkey package_ true).0

  -- modperl_perl_call_list; `call` is call_sv with what it does to Perl and the message of $@, where
  -- the sub died. A sub does not move the list it stands in.
  pub call_list : (Perl → ℕ → Perl × Option Name) → List ℕ → Perl → Perl × Option Name
  call_list call [] perl = (perl, none)
  call_list call (cv ∷ subs) perl =
      let called = call perl cv in
      elim called.1 [
        | some message ↦ (called.0, some message)
        | none ↦ call_list call subs called.0
      ]

  pub avcv_call : (Perl → ℕ → Perl × Option Name) → Perl → Key → Name → Perl × Option Name
  unfolding avcv_fetch call_list
  avcv_call call perl gkey package_ = elim (avcv_fetch perl gkey package_ false).1 [
    | none ↦ (perl, none)
    | some av ↦ call_list call (perl.avs av).elems perl
  ]

  pub avcv_clear : Perl → Key → Name → Perl
  unfolding avcv_fetch
  avcv_clear perl gkey package_ = elim (avcv_fetch perl gkey package_ false).1 [
    | none ↦ perl
    | some av ↦ set_av perl av (record (perl.avs av) { elems = [] })
  ]

  -- The part of the set magic of the array `av` behind the fetch: av_shift, and av_store behind the
  -- last element of the package's array.
  pub avcv_move : Perl → ℕ → Option ℕ → Perl
  avcv_move perl av none = perl
  avcv_move perl av (some mav) =
      let (sv, rest) = av_shift (perl.avs av).elems in
      let shifted = set_av perl av (record (perl.avs av) { elems = rest }) in
      set_av shifted mav (record (shifted.avs mav) { elems = (shifted.avs mav).elems ++ (sv ∷ []) })

  pub avcv_set : Perl → ℕ → Key → Perl
  unfolding avcv_fetch avcv_move
  avcv_set perl av gkey = avcv_move perl av (avcv_fetch perl gkey perl.curstash false).1

  pub avcv_tie : Perl → Key → ℕ → Perl
  unfolding tied_av
  avcv_tie perl key av = set_av perl av (tied_av key (perl.avs av))

  pub avcv_untie : Perl → ℕ → Perl
  avcv_untie perl av = set_av perl av (record (perl.avs av) { smagical = false })

  -- The magic of an array is all that its tie or untie changes.
  pub elems-avcv_tie :
      (perl : Perl) (key : Key) (av a : ℕ)
      → ((avcv_tie perl key av).avs a).elems ≡ (perl.avs a).elems
  unfolding avcv_tie
  elems-avcv_tie perl key av a =
      elems-update perl.avs av (tied_av key (perl.avs av)) (elems-tied_av key (perl.avs av)) a

  pub elems-avcv_untie :
      (perl : Perl) (av a : ℕ) → ((avcv_untie perl av).avs a).elems ≡ (perl.avs a).elems
  unfolding avcv_untie
  elems-avcv_untie perl av a =
      elems-update perl.avs av (record (perl.avs av) { smagical = false }) refl a
