-- ===== src/Handler/Lookup.antt =====
-- modperl_handler_lookup_handlers and what $r->push_handlers and $s->set_handlers do with it.
pub mod Requests
use mod_perl.Prelude.{
  ℕ, Bool, true, false, Option, none, some, List, [], ◌∷◌, ◌++◌, ◌==◌, if◌then◌else◌,
}
use mod_perl.Mgv.{Name, separator}
use mod_perl.Handler.{Handler, handler_new}

pub data HandlerType : Type 0 where
  per_dir per_srv pre_connection connection files process : HandlerType

pub data ArrayAction : Type 0 where
  get_action push_action set_action : ArrayAction

-- The arrays of handlers of one type, by index; NULL where none was made.
abbrev pub Arrays : Type 0
Arrays = ℕ → Option (List Handler)

-- The arrays of modperl_config_dir_t (`per_dir`) and of modperl_config_srv_t (the other types).
abbrev pub Config : Type 0
Config = HandlerType → Arrays

-- The arrays of modperl_config_req_t, which has them for `per_dir` and `per_srv`.
abbrev pub RequestConfig : Type 0
RequestConfig = HandlerType → Arrays

-- The address that is returned: that of an array of the request or of the configuration.
pub data Place : Type 0 where
  in_request in_config : Place

abbrev same_type : HandlerType → HandlerType → Bool
same_type per_dir per_dir = true
same_type per_srv per_srv = true
same_type pre_connection pre_connection = true
same_type connection connection = true
same_type files files = true
same_type process process = true
same_type _ _ = false

-- The assignment to one array.
abbrev pub put : Config → HandlerType → ℕ → Option (List Handler) → Config
put arrays type idx av =
    λ t i. if same_type t type then (if i == idx then av else arrays t i) else arrays t i

-- Whether the request has arrays of this type, to which `ravp` can point.
abbrev pub has_request_arrays : HandlerType → Bool
has_request_arrays per_dir = true
has_request_arrays per_srv = true
has_request_arrays _ = false

-- `action > MP_HANDLER_ACTION_GET`.
abbrev modifies : ArrayAction → Bool
modifies get_action = false
modifies _ = true

abbrev pub or_new : Option (List Handler) → List Handler
or_new none = []
or_new (some av) = av

-- What the action does to the array of the request, given that of the configuration.
pub act_on_request :
    ArrayAction → Option (List Handler) → Option (List Handler) → Option (List Handler)
act_on_request get_action av rav = rav
act_on_request push_action av none = some (or_new av)
act_on_request push_action av (some rav) = some rav
act_on_request set_action av rav = some []

-- What it does to the array of the configuration where `ravp` is NULL.
pub act_on_config : ArrayAction → Option (List Handler) → Option (List Handler)
act_on_config get_action av = av
act_on_config push_action av = some (or_new av)
act_on_config set_action av = some []

-- `return (ravp && *ravp) ? ravp : avp`.
pub place_of : Option (List Handler) → Place
place_of none = in_config
place_of (some rav) = in_request

-- The configuration, that of the request if there is one, and the place; or `none` where it croaks
-- that it is too late to modify the handlers.
pub lookup_handlers :
    Config
    → Option RequestConfig
    → HandlerType
    → ℕ
    → ArrayAction
    → Option (Config × Option RequestConfig × Place)
unfolding act_on_request act_on_config place_of
lookup_handlers cfg none type idx action =
    some (put cfg type idx (act_on_config action (cfg type idx)), none, in_config)
lookup_handlers cfg (some req) type idx action =
    let rav = act_on_request action (cfg type idx) (req type idx) in
    if has_request_arrays type
    then some (cfg, some (put req type idx rav), place_of rav)
    else if modifies action
    then none
    else some (cfg, some req, in_config)

-- The array at a place.
abbrev pub array_at :
    Config → Option RequestConfig → HandlerType → ℕ → Place → Option (List Handler)
array_at cfg req type idx in_config = cfg type idx
array_at cfg none type idx in_request = none
array_at cfg (some req) type idx in_request = req type idx

-- An argument of push_handlers: a name, the code of a named sub (its package and its name), an
-- anonymous sub with the handler that is made for it, or anything else.
pub data Sv : Type 0 where
  pv : Name → Sv
  cv : Name → Name → Sv
  anon_cv : Handler → Sv
  other_sv : Sv

pub new_from_sv : Sv → Option Handler
new_from_sv (pv name) = some (handler_new name)
new_from_sv (cv stash name) = some (handler_new (stash ++ (separator ++ name)))
new_from_sv (anon_cv h) = some h
new_from_sv other_sv = none

-- The array behind the pushes of `push_sv_handler`.
pub push_svs : List Handler → List Sv → List Handler
unfolding new_from_sv
push_svs av [] = av
push_svs av (sv ∷ svs) = elim (new_from_sv sv) [
  | none ↦ push_svs av svs
  | some h ↦ push_svs (av ++ (record h { dynamic = true } ∷ [])) svs
]

abbrev pub pushed_at :
    HandlerType
    → ℕ
    → List Sv
    → Config × Option RequestConfig × Place
    → Config × Option RequestConfig
pushed_at type idx svs (cfg, req, in_config) = elim (cfg type idx) [
  | none ↦ (cfg, req)
  | some av ↦ (put cfg type idx (some (push_svs av svs)), req)
]
pushed_at type idx svs (cfg, none, in_request) = (cfg, none)
pushed_at type idx svs (cfg, some req, in_request) = elim (req type idx) [
  | none ↦ (cfg, some req)
  | some av ↦ (cfg, some (put req type idx (some (push_svs av svs))))
]

-- modperl_handler_perl_add_handlers, for a phase that was found by its name.
pub add_handlers :
    Config
    → Option RequestConfig
    → HandlerType
    → ℕ
    → List Sv
    → ArrayAction
    → Option (Config × Option RequestConfig)
unfolding lookup_handlers push_svs
add_handlers cfg req type idx svs action = elim (lookup_handlers cfg req type idx action) [
  | none ↦ none
  | some found ↦ some (pushed_at type idx svs found)
]

-- The handlers that a phase runs: those at the place of a plain lookup.
pub phase_handlers : Config → Option RequestConfig → HandlerType → ℕ → Option (List Handler)
unfolding lookup_handlers
phase_handlers cfg req type idx = elim (lookup_handlers cfg req type idx get_action) [
  | none ↦ none
  | some found ↦ array_at found.0 found.1 type idx found.2
]
