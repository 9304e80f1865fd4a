-- ===== src/Module/Directive.antt =====
-- A directive of a Perl module: the objects of its configurations, the call of its method, and what
-- it tells httpd.
use mod_perl.Prelude.{
  ℕ, ◌≡◌, refl, Bool, true, false, Option, none, some, List, [], ◌∷◌, map, if◌then◌else◌,
  Bool-cases, inl, inr, ap, ap₂,
}
use mod_perl.Mgv.{Name, same_name}
use mod_perl.Module.{PerlCalls, sv, text, cmd_parms, World, Used, create_obj}

-- What a directive is met with. `srv_cfg` is the module's configuration of the server, and
-- `base_modules` the table of modules that the main server has.
pub record Met : Type 0 where
  pub is_virtual : Bool
  pub is_startup : Bool
  pub mname : Name
  pub used : Used
  pub func_name : Name
  pub takes_args : Bool
  pub cfg : ℕ
  pub srv_cfg : Option ℕ
  pub base_modules : Option ℕ
  pub decline_cmd : Name

-- The `modules` of a server's configuration, NULL being `none`; there may be no configuration yet.
abbrev pub ScfgModules : Type 0
ScfgModules = Option (Option ℕ)

abbrev pub or_alias : Option ℕ → Option ℕ → Option ℕ × Bool
or_alias (some modules) base = (some modules, false)
or_alias none none = (none, false)
or_alias none (some modules) = (some modules, true)

abbrev pub or_srv_new : ScfgModules → Option ℕ
or_srv_new none = none
or_srv_new (some modules) = modules

-- `if (s->is_virtual)`: the modules, and whether they are those of the main server for a time.
pub vhost_modules : Met → ScfgModules → ScfgModules × Bool
vhost_modules met modules =
    let (mine, alias) = or_alias (or_srv_new modules) met.base_modules in
    if met.is_virtual then (some mine, alias) else (modules, false)

-- `if (modules_alias)`.
pub unalias : Bool → ScfgModules → ScfgModules
unalias alias modules = if alias then some none else modules

module _ {ℓ} {S : Type ℓ} (calls : PerlCalls S) (met : Met) where
  -- The call of the method: a message from `$@`, or DECLINE_CMD where the method returned that text.
  pub call_directive : S → ℕ → List Name → S × Option Name
  call_directive perl obj strings =
      let args = if met.takes_args then map text strings else [] in
      let back = calls.call_method perl met.func_name (sv obj ∷ (cmd_parms ∷ args)) in
      (
        back.perl,
        elim back.errsv [
          | some e ↦ some e
          | none ↦ elim (calls.sv_text back.perl back.value) [
            | none ↦ none
            | some t ↦ if same_name t met.decline_cmd then some met.decline_cmd else none
          ]
        ],
      )

  -- The two objects, and the message if one of them could not be made; the object of the directory is
  -- what the method is called on.
  pub srv_obj : ℕ → World S → World S × ℕ × Option Name
  unfolding create_obj
  srv_obj obj w = elim met.srv_cfg [
    | none ↦ (w, obj, none)
    | some srv_cfg ↦
        let (w', _, errmsg) =
          create_obj calls met.is_startup met.mname met.used srv_cfg met.used.minfo.srv_create w in
        (w', obj, errmsg)
  ]

  pub make_objs : World S → World S × ℕ × Option Name
  unfolding create_obj srv_obj
  make_objs w =
      let (w', obj, errmsg) =
        create_obj calls met.is_startup met.mname met.used met.cfg met.used.minfo.dir_create w in
      elim errmsg [ some e ↦ (w', obj, some e) | none ↦ srv_obj obj w' ]

  -- modperl_module_cmd_take123, on the strings that are not NULL.
  pub behind_objs :
      Bool
      → ScfgModules
      → List Name
      → World S × ℕ × Option Name
      → World S × ScfgModules × Option Name
  unfolding call_directive unalias
  behind_objs alias modules strings (w, obj, some e) = (w, modules, some e)
  behind_objs alias modules strings (w, obj, none) =
      let (perl, retval) = call_directive w.perl obj strings in
      (record w { perl = perl }, unalias alias modules, retval)

  pub module_cmd_take123 : List Name → World S → ScfgModules → World S × ScfgModules × Option Name
  unfolding behind_objs vhost_modules make_objs
  module_cmd_take123 strings w modules =
      let (during, alias) = vhost_modules met modules in
      behind_objs alias during strings (make_objs w)

  -- The server's own table of modules, and the one that is in force while the directive is carried out:
  -- a virtual host without one sees that of the main server.
  abbrev own_modules : ScfgModules → Option ℕ
  own_modules none = none
  own_modules (some none) = none
  own_modules (some (some m)) = some m

  abbrev seen : Option ℕ → Option ℕ → Option ℕ
  seen (some m) base = some m
  seen none base = base

  abbrev pub during : ScfgModules → ScfgModules
  during modules =
      if met.is_virtual then some (seen (own_modules modules) met.base_modules) else modules

  abbrev pub kept : ScfgModules → ScfgModules
  kept modules = if met.is_virtual then some (own_modules modules) else modules

  -- What httpd is told: $@ if it is true; else DECLINE_CMD if the SV that came back has that text; else
  -- nothing.
  abbrev pub told : Option Name → Option Name → Option Name
  told (some e) answer = some e
  told none none = none
  told none (some t) = if same_name t met.decline_cmd then some met.decline_cmd else none

  -- The call of the method on the object of the directory: with the cmd_parms, and with the strings
  -- if it takes any.
  abbrev pub called : List Name → ScfgModules → ℕ → World S → World S × ScfgModules × Option Name
  called strings modules obj w =
      let back =
        calls.call_method w.perl met.func_name
          (sv obj ∷ (cmd_parms ∷ (if met.takes_args then map text strings else []))) in
      (
        record w { perl = back.perl },
        kept modules,
        told back.errsv (calls.sv_text back.perl back.value),
      )

  -- Behind the creation of the server's object, whose own value is not used.
  abbrev pub behind_server :
      List Name → ScfgModules → ℕ → World S × ℕ × Option Name → World S × ScfgModules × Option Name
  behind_server strings modules obj (w, _, some e) = (w, during modules, some e)
  behind_server strings modules obj (w, _, none) = called strings modules obj w

  -- Behind the creation of the directory's object.
  abbrev pub behind_dir :
      List Name → ScfgModules → World S × ℕ × Option Name → World S × ScfgModules × Option Name
  behind_dir strings modules (w, obj, some e) = (w, during modules, some e)
  behind_dir strings modules (w, obj, none) = elim met.srv_cfg [
    | none ↦ called strings modules obj w
    | some srv_cfg ↦
        behind_server strings modules obj
          (create_obj calls met.is_startup met.mname met.used srv_cfg met.used.minfo.srv_create w)
  ]

  during_lem : (modules : ScfgModules) → (vhost_modules met modules).0 ≡ during modules
  unfolding vhost_modules
  during_lem modules = elim (Bool-cases met.is_virtual) [
    | inr main ↦ rw main refl
    | inl virtual ↦ rw virtual (ap (λ m. some m) (mine modules met.base_modules))
  ]
    where
      mine :
          (modules : ScfgModules) (base : Option ℕ)
          → (or_alias (or_srv_new modules) base).0 ≡ seen (own_modules modules) base
      mine none none = refl
      mine none (some m) = refl
      mine (some none) none = refl
      mine (some none) (some m) = refl
      mine (some (some n)) base = refl

  unalias-vhost_modules :
      (modules : ScfgModules)
      → unalias (vhost_modules met modules).1 (vhost_modules met modules).0 ≡ kept modules
  unfolding unalias vhost_modules
  unalias-vhost_modules modules = elim (Bool-cases met.is_virtual) [
    | inr main ↦ rw main refl
    | inl virtual ↦ rw virtual (aliased modules met.base_modules)
  ]
    where
      aliased :
          (modules : ScfgModules) (base : Option ℕ)
          → (if (or_alias (or_srv_new modules) base).1
              then some none
              else some (or_alias (or_srv_new modules) base).0)
            ≡ some (own_modules modules)
      aliased none none = refl
      aliased none (some m) = refl
      aliased (some none) none = refl
      aliased (some none) (some m) = refl
      aliased (some (some n)) base = refl

  told_lem :
      (errsv answer : Option Name)
      → (elim errsv as (λ _. Option Name) [
        | some e ↦ some e
        | none ↦ elim answer as (λ _. Option Name) [
          | none ↦ none
          | some t ↦ if same_name t met.decline_cmd then some met.decline_cmd else none
        ]
      ])
        ≡ told errsv answer
  told_lem (some e) answer = refl
  told_lem none none = refl
  told_lem none (some t) = refl

  behind_objs-called :
      (strings : List Name) (modules : ScfgModules) (obj : ℕ) (w : World S)
      → behind_objs
          (vhost_modules met modules).1
          (vhost_modules met modules).0
          strings
          (w, obj, none)
        ≡ called strings modules obj w
  unfolding behind_objs call_directive
  behind_objs-called strings modules obj w =
      let back =
        calls.call_method w.perl met.func_name
          (sv obj ∷ (cmd_parms ∷ (if met.takes_args then map text strings else []))) in
      ap₂ (λ m e. (record w { perl = back.perl }, m, e)) (unalias-vhost_modules modules)
        (told_lem back.errsv (calls.sv_text back.perl back.value))

  behind_objs-failed :
      (strings : List Name) (modules : ScfgModules) (obj : ℕ) (w : World S) (e : Name)
      → behind_objs
          (vhost_modules met modules).1
          (vhost_modules met modules).0
          strings
          (w, obj, some e)
        ≡ (w, during modules, some e)
  unfolding behind_objs
  behind_objs-failed strings modules obj w e = ap (λ m. (w, m, some e)) (during_lem modules)

  behind_server_lem :
      (strings : List Name) (modules : ScfgModules) (obj : ℕ) (r : World S × ℕ × Option Name)
      → behind_objs
          (vhost_modules met modules).1
          (vhost_modules met modules).0
          strings
          (r.0, obj, r.2)
        ≡ behind_server strings modules obj r
  behind_server_lem strings modules obj (w, _, some e) = behind_objs-failed strings modules obj w e
  behind_server_lem strings modules obj (w, _, none) = behind_objs-called strings modules obj w

  -- A directive makes the object of its directory and then, if the server has a configuration, that
  -- of the server. Where both could be made, the method is called once, on the object of the
  -- directory, with the cmd_parms and the strings it takes; httpd is told $@, or DECLINE_CMD where
  -- the method returned that; and the server has the modules that it had. Where one could not be
  -- made, its message goes to httpd, the method is not called, nothing further is made, and a
  -- virtual host that has no modules of its own is left with those of the main server.
  pub module_cmd_take123_lem :
      (strings : List Name) (w : World S) (modules : ScfgModules)
      → module_cmd_take123 strings w modules
        ≡ behind_dir strings modules
            (create_obj calls met.is_startup met.mname met.used met.cfg met.used.minfo.dir_create w)
  unfolding module_cmd_take123 make_objs
  module_cmd_take123_lem strings w modules =
      go (create_obj calls met.is_startup met.mname met.used met.cfg met.used.minfo.dir_create w)
    where
      behind : World S × ℕ × Option Name → World S × ScfgModules × Option Name
      behind r = behind_objs (vhost_modules met modules).1 (vhost_modules met modules).0 strings r

      server :
          (obj : ℕ) (w : World S) (cfg : Option ℕ)
          → behind (elim cfg as (λ _. World S × ℕ × Option Name) [
            | none ↦ (w, obj, none)
            | some srv_cfg ↦
                let (w', _, errmsg) =
                  create_obj calls met.is_startup met.mname met.used srv_cfg
                    met.used.minfo.srv_create w in
                (w', obj, errmsg)
          ])
            ≡ (elim cfg as (λ _. World S × ScfgModules × Option Name) [
              | none ↦ called strings modules obj w
              | some srv_cfg ↦ behind_server strings modules obj (
                  create_obj calls met.is_startup met.mname met.used srv_cfg
                    met.used.minfo.srv_create w)
            ])
      server obj w none = behind_objs-called strings modules obj w
      server obj w (some srv_cfg) =
          behind_server_lem strings modules obj
            (create_obj calls met.is_startup met.mname met.used srv_cfg met.used.minfo.srv_create w)

      go :
          (r : World S × ℕ × Option Name)
          → behind (elim r.2 as (λ _. World S × ℕ × Option Name) [
            | some e ↦ (r.0, r.1, some e)
            | none ↦ srv_obj r.1 r.0
          ])
            ≡ behind_dir strings modules r
      go (w, obj, some e) = behind_objs-failed strings modules obj w e
      go (w, obj, none) = unfold srv_obj in server obj w met.srv_cfg
