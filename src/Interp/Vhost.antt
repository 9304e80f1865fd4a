-- ===== src/Interp/Vhost.antt =====
-- modperl_init_vhost (src/modules/perl/mod_perl.c): which pool of interpreters a virtual host gets.
use mod_perl.Prelude.{
  ◌≡◌, Bool, true, false, not, ◌&&◌, Option, none, some, List, [], ◌∷◌, ◌==◌, ==_refl,
  if◌then◌else◌,
}
use mod_perl.Mgv.{Name}
use mod_perl.Status.{Status, ok, http_internal_server_error}
use mod_perl.Config.Server.{apply_all}
use mod_perl.Interp.Walk.{Mip, Shares}

-- A virtual host: its mip, its options Enable, Parent and Clone, and what it is to load. It is not
-- the main server, and has a configuration of mod_perl.
pub record Vhost : Type 0 where
  pub mip : Option Mip
  pub is_virtual : Bool
  pub enable : Bool
  pub parent : Bool
  pub clone : Bool
  pub perl_require : List Name
  pub perl_module : List Name

-- The mips that modperl_startup and modperl_interp_init make for the host, and the loading of files
-- and modules in a state of Perl.
pub record Startup (S : Type 0) : Type 0 where
  pub startup : Mip
  pub interp_init : Mip
  pub require_file : S → Name → S × Bool
  pub require_module : S → Name → S × Bool

-- `if (!scfg->mip)`.
abbrev pub mip_or_base : Mip → Option Mip → Mip
mip_or_base base none = base
mip_or_base base (some mip) = mip

-- What holds in both branches.
if_either {ℓ} :
    {A : Type ℓ} (P : A → Type 0) (b : Bool) (x y : A) → P x → P y → P (if b then x else y)
if_either P true x y h k = h
if_either P false x y h k = k

module _ {S : Type 0} (start : Startup S) where
  -- The mip of the host, the state of Perl and the status, behind the files and modules of a host
  -- that has no parent of its own.
  pub load_vhost : Mip → Vhost → S → Option Mip × S × Status
  unfolding apply_all
  load_vhost base host perl =
      let mip = if host.clone then some start.interp_init else none in
      let required = apply_all start.require_file host.perl_require perl in
      let loaded = apply_all start.require_module host.perl_module required.0 in
      if not required.1
      then (mip, required.0, http_internal_server_error)
      else if not loaded.1
      then (mip, loaded.0, http_internal_server_error)
      else (some (mip_or_base base mip), loaded.0, ok)

  -- `if (scfg->mip)` and what follows.
  pub init_without : Mip → Vhost → S → Option Mip → Option Mip × S × Status
  unfolding load_vhost
  init_without base host perl (some mip) = (some mip, perl, ok)
  init_without base host perl none =
      if not host.enable && host.is_virtual
      then (none, perl, ok)
      else if host.parent
      then (some start.startup, perl, ok)
      else load_vhost base host perl

  unfoldable pub init_vhost : Mip → Vhost → S → Option Mip × S × Status
  unfolding init_without
  init_vhost base host perl = init_without base host perl host.mip

  -- A host that has a mip shares the pool of the main server with its Perl, or has one of its own.
  abbrev pub SharesOne : Mip → Option Mip → Type 0
  SharesOne base none = Unit
  SharesOne base (some mip) =
      (mip.addr == base.addr) ≡ true → (mip.parent_perl == base.parent_perl) ≡ true

  SharesOne-load_vhost :
      (base : Mip) (host : Vhost) (perl : S)
      → SharesOne base (some start.interp_init)
      → SharesOne base (load_vhost base host perl).0
  unfolding load_vhost
  SharesOne-load_vhost base host perl h =
      let mip = if host.clone then some start.interp_init else none in
      let required = apply_all start.require_file host.perl_require perl in
      let loaded = apply_all start.require_module host.perl_module required.0 in
      let made = if_either (SharesOne base) host.clone (some start.interp_init) none h tt in
      if_either (λ (r : Option Mip × S × Status). SharesOne base r.0) (not required.1)
        (mip, required.0, http_internal_server_error)
        (if not loaded.1
          then (mip, loaded.0, http_internal_server_error)
          else (some (mip_or_base base mip), loaded.0, ok))
        made
        (if_either (λ (r : Option Mip × S × Status). SharesOne base r.0) (not loaded.1)
          (mip, loaded.0, http_internal_server_error) (some (mip_or_base base mip), loaded.0, ok)
          made
          (if_either (λ o. SharesOne base (some (mip_or_base base o))) host.clone
            (some start.interp_init) none h (λ e. ==_refl base.parent_perl)))

  SharesOne-init_without :
      (base : Mip) (host : Vhost) (perl : S) (old : Option Mip)
      → SharesOne base (some start.interp_init)
      → SharesOne base (some start.startup)
      → SharesOne base old
      → SharesOne base (init_without base host perl old).0
  unfolding init_without
  SharesOne-init_without base host perl (some mip) h k o = o
  SharesOne-init_without base host perl none h k o =
      if_either (λ (r : Option Mip × S × Status). SharesOne base r.0)
        (not host.enable && host.is_virtual) (none, perl, ok)
        (if host.parent then (some start.startup, perl, ok) else load_vhost base host perl) tt
        (if_either (λ (r : Option Mip × S × Status). SharesOne base r.0) host.parent
          (some start.startup, perl, ok) (load_vhost base host perl) k
          (SharesOne-load_vhost base host perl h))

  -- With mips that share the pool of the main server only with its Perl, both those that are made
  -- for a host and the one that it has, the host is left without a mip or with one that does so
  -- too, whatever its options are and whether or not its files and modules are loaded.
  pub SharesOne-init_vhost :
      (base : Mip) (host : Vhost) (perl : S)
      → SharesOne base (some start.interp_init)
      → SharesOne base (some start.startup)
      → SharesOne base host.mip
      → SharesOne base (init_vhost base host perl).0
  unfolding init_vhost
  SharesOne-init_vhost base host perl h k old =
      SharesOne-init_without base host perl host.mip h k old

  -- The walk may go over hosts that were initialised.
  abbrev pub mips_of : List (Option Mip) → List Mip
  mips_of [] = []
  mips_of (none ∷ mips) = mips_of mips
  mips_of (some mip ∷ mips) = mip ∷ mips_of mips

  abbrev pub AllShare : Mip → List (Option Mip) → Type 0
  AllShare base [] = Unit
  AllShare base (mip ∷ mips) = SharesOne base mip × AllShare base mips

  pub AllShare-Shares :
      (base : Mip) (mips : List (Option Mip)) → AllShare base mips → Shares base (mips_of mips)
  AllShare-Shares base [] h = tt
  AllShare-Shares base (none ∷ mips) (h, hs) = AllShare-Shares base mips hs
  AllShare-Shares base (some mip ∷ mips) (h, hs) = (h, AllShare-Shares base mips hs)
