-- ===== src/Cmd/Scope.antt =====
-- PerlInterpScope: the switch on the first character, which falls through, reads exactly the names.
use mod_perl.Prelude.{
  ℕ, ◌≡◌, refl, Bool, true, false, not, ◌&&◌, Option, none, some, [], ◌∷◌, ◌==◌, ==_iff,
  if◌then◌else◌, Bool-cases, inl, inr, arith,
}
use mod_perl.Mgv.{Name}
use mod_perl.Hash.{Hash}
use mod_perl.AprTable.{AprTable}
use mod_perl.Interp.{Scope, handler, subrequest, request, connection}
use mod_perl.Cmd.{Message, scope_usage, Parms, Cmd, set_scfg, set_dcfg, to_lower, same_caseless}

abbrev pub handler_name : Name
handler_name = b'h' ∷ b'a' ∷ b'n' ∷ b'd' ∷ b'l' ∷ b'e' ∷ b'r' ∷ []

abbrev pub subrequest_name : Name
subrequest_name = b's' ∷ b'u' ∷ b'b' ∷ b'r' ∷ b'e' ∷ b'q' ∷ b'u' ∷ b'e' ∷ b's' ∷ b't' ∷ []

abbrev pub request_name : Name
request_name = b'r' ∷ b'e' ∷ b'q' ∷ b'u' ∷ b'e' ∷ b's' ∷ b't' ∷ []

abbrev pub connection_name : Name
connection_name = b'c' ∷ b'o' ∷ b'n' ∷ b'n' ∷ b'e' ∷ b'c' ∷ b't' ∷ b'i' ∷ b'o' ∷ b'n' ∷ []

-- The cases of the switch, each with those that it falls through to; `none` is the usage message.
pub case_c : Bool → Name → Option Scope
case_c is_per_dir arg =
    if not is_per_dir && same_caseless arg connection_name then some connection else none

pub case_r : Bool → Name → Option Scope
unfolding case_c
case_r is_per_dir arg =
    if same_caseless arg request_name then some request else case_c is_per_dir arg

pub case_s : Bool → Name → Option Scope
unfolding case_r
case_s is_per_dir arg =
    if same_caseless arg subrequest_name then some subrequest else case_r is_per_dir arg

pub case_h : Bool → Name → Option Scope
unfolding case_s
case_h is_per_dir arg =
    if same_caseless arg handler_name then some handler else case_s is_per_dir arg

-- The first character, 0 being the end of the string.
abbrev first : Name → ℕ
first [] = 0
first (c ∷ arg) = c

pub scope_switch : Bool → Name → Option Scope
unfolding case_h case_s case_r case_c
scope_switch is_per_dir arg =
    let c = to_lower (first arg) in
    if c == b'h'
    then case_h is_per_dir arg
    else if c == b's'
    then case_s is_per_dir arg
    else if c == b'r'
    then case_r is_per_dir arg
    else if c == b'c'
    then case_c is_per_dir arg
    else none

module _ {ℓ} {H : Hash} {t : AprTable} {S : Type ℓ} where
  pub cmd_interp_scope : Parms → Cmd H t S → Name → Cmd H t S × Option Message
  unfolding scope_switch
  cmd_interp_scope parms w arg = elim (scope_switch parms.path arg) [
    | none ↦ (w, some (scope_usage parms.path))
    | some scope ↦ (
      if parms.path
          then set_dcfg w (record w.dcfg { interp_scope = scope })
          else set_scfg w (record w.scfg { interp_scope = scope }),
      none,
    )
  ]

-- A name that equals another one but for the case begins like it.
same_caseless-first :
    (arg name : Name) → same_caseless arg name ≡ true → to_lower (first arg) ≡ to_lower (first name)
same_caseless-first [] [] h = refl
same_caseless-first [] (d ∷ name) h = cc
same_caseless-first (c ∷ arg) [] h = cc
same_caseless-first (c ∷ arg) (d ∷ name) h = ground (arith, h)

other_first :
    (arg name : Name)
    → (to_lower (first arg) == to_lower (first name)) ≡ false
    → same_caseless arg name ≡ false
other_first arg name h = elim (Bool-cases (same_caseless arg name)) [
  | inr other ↦ other
  | inl same ↦
      let e = same_caseless-first arg name same in
      let yes_too = (==_iff (to_lower (first arg)) (to_lower (first name))).1 e in cc
]

-- The scope that a name stands for, whatever its case; a directory cannot have that of a connection.
abbrev pub scope_named : Bool → Name → Option Scope
scope_named is_per_dir arg =
    if same_caseless arg handler_name
    then some handler
    else if same_caseless arg subrequest_name
    then some subrequest
    else if same_caseless arg request_name
    then some request
    else if not is_per_dir && same_caseless arg connection_name
    then some connection
    else none

-- The switch takes exactly the four names, in any case, for their scopes, "connection" only for a
-- server; all else is answered by the usage message.
pub scope_switch-scope_named :
    (is_per_dir : Bool) (arg : Name) → scope_switch is_per_dir arg ≡ scope_named is_per_dir arg
unfolding scope_switch
scope_switch-scope_named is_per_dir arg = ground (
  arith,
  other_first arg handler_name,
  other_first arg subrequest_name,
  other_first arg request_name,
  other_first arg connection_name,
)
