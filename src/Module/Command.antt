-- ===== src/Module/Command.antt =====
-- The commands of a Perl module: what modperl_module_add_cmds reads from the entries that the
-- package gives it.
use mathlib.Core.Path.{fun_ext}
use mod_perl.Prelude.{
  ℕ, ◌≡◌, refl, ap, ◌∙◌, Bool, Option, none, some, List, [], ◌∷◌, ◌++◌, if◌then◌else◌, sym,
  append_assoc,
}
use mod_perl.Mgv.{Name}
use mod_perl.Module.{Returned}

-- enum cmd_how, and the modperl_module_cmd_* functions that a command_rec may have.
pub data CmdHow : Type 0 where
  raw_args take1 take2 iterate iterate2 flag no_args take12 take3 take23 take123 take13 take_argv :
      CmdHow

pub data CmdFunc : Type 0 where
  cmd_take1 cmd_take2 cmd_take123 cmd_flag cmd_no_args : CmdFunc

-- modperl_module_cmd_lookup; `none` is FALSE.
pub cmd_lookup : CmdHow → Option CmdFunc
cmd_lookup take1 = some cmd_take1
cmd_lookup iterate = some cmd_take1
cmd_lookup take2 = some cmd_take2
cmd_lookup iterate2 = some cmd_take2
cmd_lookup take12 = some cmd_take2
cmd_lookup take3 = some cmd_take123
cmd_lookup take23 = some cmd_take123
cmd_lookup take123 = some cmd_take123
cmd_lookup take13 = some cmd_take123
cmd_lookup raw_args = some cmd_take1
cmd_lookup flag = some cmd_flag
cmd_lookup no_args = some cmd_no_args
cmd_lookup take_argv = none

-- The strings that a function hands to modperl_module_cmd_take123, from those that httpd has for the
-- command; a flag is printed as one digit.
pub passed : CmdFunc → List Name → Bool → List Name
passed cmd_take1 (one ∷ rest) on = one ∷ []
passed cmd_take2 (one ∷ (two ∷ rest)) on = one ∷ (two ∷ [])
passed cmd_take123 (one ∷ (two ∷ (three ∷ rest))) on = one ∷ (two ∷ (three ∷ []))
passed cmd_flag args on = (if on then b'1' ∷ [] else b'0' ∷ []) ∷ []
passed cmd_no_args args on = []
passed _ args on = args

-- An entry: a blessed object, a hash by its keys, or anything else.
pub data Entry : Type 0 where
  object : ℕ → Entry
  hash : (Name → Option ℕ) → Entry
  other : Entry

-- The messages of modperl_module_cmd_fetch and of its caller; `died` has $@.
pub data CmdError : Type 0 where
  no_value : Name → CmdError
  no_key : Name → CmdError
  not_entry : CmdError
  died : Name → CmdError
  no_function : CmdHow → CmdError

-- What the code asks of Perl and of httpd's constants: a method called on an entry, the truth of an
-- SV, its text, its number if it is one, and the constant with a name. A number of cmd_how is one
-- of its constants.
pub record EntryCalls {ℓ} (S : Type ℓ) : Type ℓ where
  pub call_method : S → Name → ℕ → Returned S
  pub is_true : S → ℕ → Bool
  pub sv_pv : S → ℕ → Name
  pub sv_iv : S → ℕ → Option ℕ
  pub apache2_const : Name → ℕ
  pub cmd_how : ℕ → CmdHow
  pub or_all : ℕ

-- command_rec with its modperl_module_cmd_data_t.
pub record Command : Type 0 where
  pub name : Name
  pub args_how : CmdHow
  pub func : CmdFunc
  pub func_name : Name
  pub req_override : ℕ
  pub errmsg : Name
  pub cmd_data : Option Name

-- " command".
abbrev command_suffix : Name
command_suffix = b' ' ∷ (b'c' ∷ (b'o' ∷ (b'm' ∷ (b'm' ∷ (b'a' ∷ (b'n' ∷ (b'd' ∷ [])))))))

-- A value that was fetched, or a message.
pub data Fetched : Type 0 where
  fetched : ℕ → Fetched
  failed : CmdError → Fetched

abbrev pub or_default {ℓ} : {A : Type ℓ} → A → (ℕ → A) → Fetched → A
or_default default f (fetched val) = f val
or_default default f (failed e) = default

abbrev key_name : Name
key_name = b'n' ∷ b'a' ∷ b'm' ∷ b'e' ∷ []

abbrev key_args_how : Name
key_args_how = b'a' ∷ b'r' ∷ b'g' ∷ b's' ∷ b'_' ∷ b'h' ∷ b'o' ∷ b'w' ∷ []

abbrev key_func : Name
key_func = b'f' ∷ b'u' ∷ b'n' ∷ b'c' ∷ []

abbrev key_req_override : Name
key_req_override =
    b'r' ∷ b'e' ∷ b'q' ∷ b'_' ∷ b'o' ∷ b'v' ∷ b'e' ∷ b'r' ∷ b'r' ∷ b'i' ∷ b'd' ∷ b'e' ∷ []

abbrev key_errmsg : Name
key_errmsg = b'e' ∷ b'r' ∷ b'r' ∷ b'm' ∷ b's' ∷ b'g' ∷ []

abbrev key_cmd_data : Name
key_cmd_data = b'c' ∷ b'm' ∷ b'd' ∷ b'_' ∷ b'd' ∷ b'a' ∷ b't' ∷ b'a' ∷ []

-- What adding gives, or the message that it stops with.
pub data Added {ℓ} (A : Type ℓ) : Type ℓ where
  added : A → Added A
  error : CmdError → Added A

module _ {ℓ} {S : Type ℓ} (calls : EntryCalls S) where
  -- What a method that came back without an exception has given.
  pub fetched_value : Name → Returned S → Fetched
  fetched_value name back =
      if calls.is_true back.perl back.value then fetched back.value else failed (no_value name)

  -- modperl_module_cmd_fetch; a value 0 stands for none and is not true.
  pub cmd_fetch : S → Entry → Name → S × Fetched
  unfolding fetched_value
  cmd_fetch perl (object obj) name =
      let back = calls.call_method perl name obj in
      (back.perl, elim back.errsv [ none ↦ fetched_value name back | some e ↦ failed (died e) ])
  cmd_fetch perl (hash hv) name =
      (perl, elim (hv name) [ none ↦ failed (no_key name) | some val ↦ fetched val ])
  cmd_fetch perl other name = (perl, failed not_entry)

  -- The number of a constant, which an entry gives as such or by its name.
  abbrev pub const_of : S → ℕ → ℕ
  const_of perl val = elim (calls.sv_iv perl val) [
    | some iv ↦ iv
    | none ↦ calls.apache2_const (calls.sv_pv perl val)
  ]

  -- The round of the loop for one entry, behind its name and its `func`.
  pub rest_of_cmd : S → Entry → Name → CmdHow → CmdFunc → S × Command
  unfolding cmd_fetch
  rest_of_cmd perl entry name how func =
      let (perl, func_name) = cmd_fetch perl entry key_func in
      let func_name = or_default name (calls.sv_pv perl) func_name in
      let (perl, req_override) = cmd_fetch perl entry key_req_override in
      let req_override = or_default calls.or_all (const_of perl) req_override in
      let (perl, errmsg) = cmd_fetch perl entry key_errmsg in
      let errmsg = or_default (name ++ command_suffix) (calls.sv_pv perl) errmsg in
      let (perl, cmd_data) = cmd_fetch perl entry key_cmd_data in
      let cmd_data = or_default none (λ val. some (calls.sv_pv perl val)) cmd_data in
      (
        perl,
        record {
          name = name;
          args_how = how;
          func = func;
          func_name = func_name;
          req_override = req_override;
          errmsg = errmsg;
          cmd_data = cmd_data;
        },
      )

  pub add_named : S → Entry → Name → S × Added Command
  unfolding cmd_fetch rest_of_cmd
  add_named perl entry name =
      let (perl, how) = cmd_fetch perl entry key_args_how in
      let how = or_default take1 (λ val. calls.cmd_how (const_of perl val)) how in
      elim (cmd_lookup how) [
        | none ↦ (perl, error (no_function how))
        | some func ↦ let (perl, cmd) = rest_of_cmd perl entry name how func in (perl, added cmd)
      ]

  pub add_cmd : S → Entry → S × Added Command
  unfolding cmd_fetch add_named
  add_cmd perl entry =
      let (perl, name) = cmd_fetch perl entry key_name in
      elim name [
        | failed e ↦ (perl, error e)
        | fetched val ↦ add_named perl entry (calls.sv_pv perl val)
      ]

  -- The commands of more entries behind those that there are; an error stays.
  abbrev pub added_behind : List Command → S × Added (List Command) → S × Added (List Command)
  added_behind cmds (perl, error e) = (perl, error e)
  added_behind cmds (perl, added more) = (perl, added (cmds ++ more))

  -- `if (errmsg) return errmsg`, and the rest of the loop.
  abbrev pub after_cmd :
      S × Added Command → (S → S × Added (List Command)) → S × Added (List Command)
  after_cmd (perl, error e) more = (perl, error e)
  after_cmd (perl, added cmd) more = added_behind (cmd ∷ []) (more perl)

  -- modperl_module_add_cmds.
  unfoldable pub add_cmds : S → List Entry → S × Added (List Command)
  unfolding add_cmd
  add_cmds perl [] = (perl, added [])
  add_cmds perl (entry ∷ entries) = after_cmd (add_cmd perl entry) (λ perl'. add_cmds perl' entries)

  abbrev pub go_on :
      S × Added (List Command) → (S → S × Added (List Command)) → S × Added (List Command)
  go_on (perl, error e) more = (perl, error e)
  go_on (perl, added cmds) more = added_behind cmds (more perl)

  added_behind_twice :
      (cmds more : List Command) (r : S × Added (List Command))
      → added_behind cmds (added_behind more r) ≡ added_behind (cmds ++ more) r
  added_behind_twice cmds more (perl, error e) = refl
  added_behind_twice cmds more (perl, added rest) =
      ap (λ cs. (perl, added cs)) (sym (append_assoc cmds more rest))

  added_behind_none : (r : S × Added (List Command)) → r ≡ added_behind [] r
  added_behind_none (perl, error e) = refl
  added_behind_none (perl, added cmds) = refl

  added_behind-go_on :
      (cmd : Command) (first : S × Added (List Command)) (more : S → S × Added (List Command))
      → added_behind (cmd ∷ []) (go_on first more) ≡ go_on (added_behind (cmd ∷ []) first) more
  added_behind-go_on cmd (perl, error e) more = refl
  added_behind-go_on cmd (perl, added cmds) more = added_behind_twice (cmd ∷ []) cmds (more perl)

  after_cmd-go_on :
      (c : S × Added Command) (rest : S → S × Added (List Command))
      (more : S → S × Added (List Command))
      → after_cmd c (λ perl. go_on (rest perl) more) ≡ go_on (after_cmd c rest) more
  after_cmd-go_on (perl, error e) rest more = refl
  after_cmd-go_on (perl, added cmd) rest more = added_behind-go_on cmd (rest perl) more

  -- The entries of a module become commands in their order, Perl being called for one after the
  -- other; the first entry with an error ends it, and nothing is called for those behind it.
  pub add_cmds-append :
      (perl : S) (entries more : List Entry)
      → add_cmds perl (entries ++ more)
        ≡ go_on (add_cmds perl entries) (λ perl'. add_cmds perl' more)
  unfolding add_cmds
  add_cmds-append perl [] more = added_behind_none (add_cmds perl more)
  add_cmds-append perl (entry ∷ entries) more =
      ap (after_cmd (add_cmd perl entry)) (fun_ext λ perl'. add_cmds-append perl' entries more)
      ∙ after_cmd-go_on (add_cmd perl entry) (λ perl'. add_cmds perl' entries)
          (λ perl'. add_cmds perl' more)
