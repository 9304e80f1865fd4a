-- ===== src/Cmd.antt =====
-- src/modules/perl/modperl_cmd.c: the directives that fill the configuration of a server and of a
-- directory. The directives of the handlers' phases are generated; what they push is here.
pub mod Vars
pub mod Load
pub mod Scope
pub mod Words
pub mod Section
pub mod Tests
use mod_perl.Prelude.{
  ℕ, Bool, true, false, not, ◌&&◌, ◌||◌, Option, none, some, List, [], ◌∷◌, ◌++◌, ◌==◌, leb, ◌+◌,
  map, if◌then◌else◌, update,
}
use mod_perl.Mgv.{Name, same_name}
use mod_perl.Status.{Status}
use mod_perl.Options.{FlagTable, Options, SetError, options_set}
use mod_perl.Handler.{Handler, handler_new}
use mod_perl.Tipool.{TipoolConfig}
use mod_perl.Hash.{Hash}
use mod_perl.PerlGlobal.{Ehv}
use mod_perl.AprTable.{AprTable}
use mod_perl.Config.{Handlers, DirConfig}
use mod_perl.Config.Server.{SrvConfig}

-- The messages to httpd, by their parts; `died` has the text of $@.
pub data Message : Type 0 where
  not_in_block : Name → Name → Message
  too_late : Name → Message
  unclosed : Name → Message
  invalid_args : Name → Message
  option : SetError → Message
  died : Name → Message
  handler_failed : Name → Status → Message
  perl_disabled filter_disabled : Name → Message
  scope_usage : Bool → Message
  no_context : Name → Message
  vhost_failed unknown_back cut_without_pod : Message

-- cmd_parms, as far as it is read: whether there is a path, whether ACCESS_CONF may be overridden,
-- the names of the command, of the directive and of the block around it, the server, and what
-- ap_check_cmd_context says to GLOBAL_ONLY.
pub record Parms : Type 0 where
  pub path : Bool
  pub access_conf : Bool
  pub name : Name
  pub directive : Name
  pub parent : Name
  pub hostname : Name
  pub is_virtual : Bool
  pub context_error : Option Name

-- MP_CHECK_SERVER_OR_HTACCESS_CONTEXT.
pub server_or_htaccess : Parms → Option Message
server_or_htaccess parms =
    if parms.path && parms.access_conf
    then some (not_in_block parms.directive parms.parent)
    else none

-- `if (!*handlers)` and the push.
abbrev pub array_push : Option (List Handler) → Handler → Option (List Handler)
array_push none h = some (h ∷ [])
array_push (some handlers) h = some (handlers ++ (h ∷ []))

pub push_handlers : Option (List Handler) → Name → Option (List Handler)
push_handlers handlers name = array_push handlers (handler_new name)

-- A filter's module is loaded by itself unless its name begins with '-'.
abbrev pub begins_with : ℕ → Name → Bool
begins_with c [] = false
begins_with c (d ∷ name) = c == d

pub push_filter_handlers : Option (List Handler) → Name → Option (List Handler)
push_filter_handlers handlers name =
    let h = handler_new name in
    array_push handlers (if begins_with b'-' name then h else record h { autoload = true })

-- MP_FILTER_HTTPD_HANDLER.
abbrev pub httpd_attrs : ℕ
httpd_attrs = 0x10

-- The flag FAKE goes with `attrs`, and nothing here reads it apart from that.
abbrev pub httpd_handler : Name → Handler
httpd_handler name = record (handler_new name) { attrs = httpd_attrs }

pub push_httpd_filter_handlers : Option (List Handler) → Name → Option (List Handler)
push_httpd_filter_handlers handlers name = array_push handlers (httpd_handler name)

-- ASCII letters in lower case, and the comparisons of C that do not see the case.
abbrev pub to_lower : ℕ → ℕ
to_lower c = if leb b'A' c && leb c b'Z' then c + 32 else c

abbrev pub same_caseless : Name → Name → Bool
same_caseless [] [] = true
same_caseless [] (d ∷ n) = false
same_caseless (c ∷ m) [] = false
same_caseless (c ∷ m) (d ∷ n) = (to_lower c == to_lower d) && same_caseless m n

-- strncasecmp with the length of the second name.
abbrev pub begins_caseless : Name → Name → Bool
begins_caseless name [] = true
begins_caseless [] (d ∷ n) = false
begins_caseless (c ∷ m) (d ∷ n) = (to_lower c == to_lower d) && begins_caseless m n

-- The configurations that a directive sees, %ENV of the interpreter that would run its code, with
-- the rest of that one's state, and whether mod_perl runs.
pub record Cmd {ℓ} (H : Hash) (t : AprTable) (S : Type ℓ) : Type ℓ where
  pub scfg : SrvConfig t
  pub dcfg : DirConfig t
  pub env : Ehv H
  pub perl : S
  pub running : Bool

abbrev pub has_mip : Option ℕ → Bool
has_mip none = false
has_mip (some mip) = true

module _ {ℓ} {H : Hash} {t : AprTable} {S : Type ℓ} where
  abbrev pub set_scfg : Cmd H t S → SrvConfig t → Cmd H t S
  set_scfg w scfg = record w { scfg = scfg }

  abbrev pub set_dcfg : Cmd H t S → DirConfig t → Cmd H t S
  set_dcfg w dcfg = record w { dcfg = dcfg }

  -- modperl_vhost_is_running.
  pub vhost_is_running : Parms → Cmd H t S → Bool
  vhost_is_running parms w = if parms.is_virtual then has_mip w.scfg.mip else w.running

  -- `if (error && !is_per_dir)`: an option that the server does not know may be one of the directory.
  pub options_again : FlagTable → Cmd H t S → Name → SetError → Cmd H t S × Option Message
  options_again table w arg e =
      let (flags, error) = options_set table true w.dcfg.flags arg in
      (
        set_dcfg w (record w.dcfg { flags = flags }),
        elim error [ none ↦ none | some again ↦ some (option e) ],
      )

  pub cmd_options : FlagTable → Parms → Cmd H t S → Name → Cmd H t S × Option Message
  unfolding options_again
  cmd_options table parms w arg =
      let dir = options_set table true w.dcfg.flags arg in
      let srv = options_set table true w.scfg.flags arg in
      let with_srv = set_scfg w (record w.scfg { flags = srv.0 }) in
      if parms.path
      then (
        set_dcfg w (record w.dcfg { flags = dir.0 }),
        elim dir.1 [ none ↦ none | some e ↦ some (option e) ],
      )
      else elim srv.1 [ none ↦ (with_srv, none) | some e ↦ options_again table with_srv arg e ]

  -- The directives of the pool; `item` is atoi of the argument.
  pub set_pool_cfg : Cmd H t S → (TipoolConfig → TipoolConfig) → Cmd H t S
  set_pool_cfg w f = set_scfg w (record w.scfg {
    interp_pool_cfg = elim w.scfg.interp_pool_cfg [ none ↦ none | some cfg ↦ some (f cfg) ];
  })

  pub interp_start : Cmd H t S → ℕ → Cmd H t S
  unfolding set_pool_cfg
  interp_start w item = set_pool_cfg w (λ cfg. record cfg { start = item })

  pub interp_max : Cmd H t S → ℕ → Cmd H t S
  unfolding set_pool_cfg
  interp_max w item = set_pool_cfg w (λ cfg. record cfg { max = item })

  pub interp_max_spare : Cmd H t S → ℕ → Cmd H t S
  unfolding set_pool_cfg
  interp_max_spare w item = set_pool_cfg w (λ cfg. record cfg { max_spare = item })

  pub interp_min_spare : Cmd H t S → ℕ → Cmd H t S
  unfolding set_pool_cfg
  interp_min_spare w item = set_pool_cfg w (λ cfg. record cfg { min_spare = item })

  pub interp_max_requests : Cmd H t S → ℕ → Cmd H t S
  unfolding set_pool_cfg
  interp_max_requests w item = set_pool_cfg w (λ cfg. record cfg { max_requests = item })

  -- modperl_cmd_trace; `trace` is modperl_trace_level_set_apache.
  pub cmd_trace : (S → Name → S) → Parms → Cmd H t S → Name → Cmd H t S × Option Message
  cmd_trace trace parms w arg = elim parms.context_error [
    | some e ↦ (w, some (no_context e))
    | none ↦ (record w { perl = trace w.perl arg }, none)
  ]
