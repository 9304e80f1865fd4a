-- ===== src/Cmd/Section.antt =====
-- <Perl> sections, in the two passes of httpd, and POD in the configuration.
pub mod Read
use mod_perl.Prelude.{
  ℕ, zero, suc, ◌+◌, ◌≡◌, refl, sym, ap, ◌∙◌, Bool, true, false, not, ◌&&◌, ◌||◌, Option, none,
  some, List, [], ◌∷◌, ◌++◌, ◌==◌, map, length, if◌then◌else◌, Bool-cases, inl, inr, append_assoc,
  arith,
}
use mod_perl.Mgv.{Name, same_name, separator}
use mod_perl.Status.{Status, is_ok}
use mod_perl.Handler.{Handler, handler_new}
use mod_perl.Hash.{Hash}
use mod_perl.PerlGlobal.{Ehv}
use mod_perl.AprTable.{AprTable}
use mod_perl.Cmd.{
  Message, unclosed, invalid_args, unknown_back, cut_without_pod, vhost_failed, died,
  handler_failed, Parms, Cmd, server_or_htaccess,
}
use mod_perl.Cmd.Words.{GetWord, is_nil}
use mod_perl.Cmd.Load.{Loads, sync_tables, set_perl}

-- The texts of the source.
abbrev pub end_tag : Name
end_tag = b'<' ∷ b'/' ∷ b'P' ∷ b'e' ∷ b'r' ∷ b'l' ∷ b'>' ∷ []

abbrev pub newline : Name
newline = 10 ∷ []

abbrev key_handler : Name
key_handler = b'h' ∷ b'a' ∷ b'n' ∷ b'd' ∷ b'l' ∷ b'e' ∷ b'r' ∷ []

abbrev key_package : Name
key_package = b'p' ∷ b'a' ∷ b'c' ∷ b'k' ∷ b'a' ∷ b'g' ∷ b'e' ∷ []

abbrev apache2 : Name
apache2 = (b'A' ∷ b'p' ∷ b'a' ∷ b'c' ∷ b'h' ∷ b'e' ∷ b'2' ∷ []) ++ separator

abbrev default_handler : Name
default_handler =
    apache2
    ++ (b'P' ∷ b'e' ∷ b'r' ∷ b'l' ∷ b'S' ∷ b'e' ∷ b'c' ∷ b't' ∷ b'i' ∷ b'o' ∷ b'n' ∷ b's' ∷ [])

abbrev default_package : Name
default_package =
    apache2 ++ (b'R' ∷ b'e' ∷ b'a' ∷ b'd' ∷ b'C' ∷ b'o' ∷ b'n' ∷ b'f' ∷ b'i' ∷ b'g' ∷ [])

-- The characters in front of the last '>', if there is one.
pub before_last : ℕ → Name → Option Name
before_last c [] = none
before_last c (d ∷ name) = elim (before_last c name) [
  | some before ↦ some (d ∷ before)
  | none ↦ if d == c then some [] else none
]

-- What one call of ap_cfg_getline reads: the text, and how many lines of the file that took, which is
-- more than one where a line goes on behind a backslash. ap_cfg_getline counts all of them.
pub record Line : Type 0 where
  pub text : Name
  pub height : ℕ

-- The loop over ap_cfg_getline from a line number on: the text, the line number behind it, and the
-- lines that are left.
pub read_code : ℕ → List Line → Name → Name × ℕ × List Line
read_code number [] code = (code, number, [])
read_code number (line ∷ lines) code =
    let counted = number + line.height in
    let rest = read_code counted lines (code ++ (line.text ++ newline)) in
    if same_name line.text end_tag then (code, counted, lines) else rest

pub data Args (T : Type 0) : Type 0 where
  parsed : T → Args T
  invalid : Args T
  unfinished : Args T

-- ap_directive_t as a <Perl> section makes it.
pub record Node (T : Type 0) : Type 0 where
  pub filename : Name
  pub line_num : ℕ
  pub code : Name
  pub args : Option T

-- `parms->config_file`: its name, the number of the line that was read last, and what is behind it.
pub record ConfigFile : Type 0 where
  pub filename : Name
  pub line_number : ℕ
  pub lines : List Line

module _ (t : AprTable) (words : GetWord) where
  open t use {Table, make, get, set_value}
  open words use {getword}

  -- The loop of modperl_cmd_parse_args, for at most `fuel` words.
  pub args_loop : ℕ → Table → Name → Args Table
  args_loop zero table args = unfinished
  args_loop (suc fuel) table args =
      let (pair, rest) = getword b',' args in
      let (key, val) = getword b'=' pair in
      let go_on = args_loop fuel (set_value table key val) rest in
      if is_nil pair then parsed table else if is_nil key || is_nil val then invalid else go_on

  pub parse_args : Name → Args Table
  unfolding args_loop
  parse_args args = args_loop (suc (length args)) make args

  -- The node that modperl_cmd_perl leaves, and what is left of the file, or a message.
  pub section_node : Name → ConfigFile → Option (Node Table × ConfigFile) × Option Message
  unfolding parse_args read_code
  section_node arg file = elim (parse_args arg) [
    | invalid ↦ (none, some (invalid_args arg))
    | unfinished ↦ (none, none)
    | parsed table ↦
        let (code, number, lines) = read_code file.line_number file.lines [] in
        (
          some (
            record {
              filename = file.filename;
              line_num = file.line_number + 1;
              code = code;
              args = some table;
            },
            record file { line_number = number; lines = lines },
          ),
          none,
        )
  ]

  pub cmd_perl : Parms → Name → ConfigFile → Option (Node Table × ConfigFile) × Option Message
  unfolding section_node server_or_htaccess before_last
  cmd_perl parms arg file = elim (before_last b'>' arg) [
    | none ↦ (none, some (unclosed parms.name))
    | some arg ↦ elim (server_or_htaccess parms) [
      | some e ↦ (none, some e)
      | none ↦ section_node arg file
    ]
  ]

-- modperl_cmd_pod and modperl_cmd_END. `contains` is strstr of its second argument in the first.
abbrev pod : Name
pod = b'p' ∷ b'o' ∷ b'd' ∷ []

abbrev cut : Name
cut = b'=' ∷ b'c' ∷ b'u' ∷ b't' ∷ []

abbrev over : Name
over = b'=' ∷ b'o' ∷ b'v' ∷ b'e' ∷ b'r' ∷ []

abbrev begins : Name → Name → Bool
begins name [] = true
begins [] (d ∷ n) = false
begins (c ∷ m) (d ∷ n) = (c == d) && begins m n

pub contains : Name → Name → Bool
contains [] part = begins [] part
contains (c ∷ name) part = begins (c ∷ name) part || contains name part

pub pod_format : Name → Bool
unfolding contains
pod_format s =
    contains s (b'h' ∷ b't' ∷ b't' ∷ b'p' ∷ b'd' ∷ [])
    || contains s (b'a' ∷ b'p' ∷ b'a' ∷ b'c' ∷ b'h' ∷ b'e' ∷ [])

-- The line number and the lines behind the POD.
pub pod_loop : ℕ → List Line → ℕ × List Line
unfolding pod_format
pod_loop number [] = (number, [])
pod_loop number (line ∷ lines) =
    let counted = number + line.height in
    let rest = pod_loop counted lines in
    if same_name line.text cut
    then (counted, lines)
    else if begins line.text over && pod_format line.text
    then (counted, lines)
    else rest

abbrev behind_pod : ConfigFile → ConfigFile
unfolding pod_loop
behind_pod file =
    let (number, lines) = pod_loop file.line_number file.lines in
    record file { line_number = number; lines = lines }

-- `arg` none is NULL.
pub cmd_pod : Option Name → ConfigFile → ConfigFile × Option Message
unfolding pod_loop contains
cmd_pod none file = (behind_pod file, none)
cmd_pod (some arg) file =
    if not (is_nil arg) && not (pod_format arg || contains pod arg)
    then (file, some unknown_back)
    else (behind_pod file, none)

pub cmd_pod_cut : ConfigFile → ConfigFile × Option Message
cmd_pod_cut file = (file, some cut_without_pod)

abbrev pub heights : List Line → ℕ
heights [] = 0
heights (line ∷ lines) = line.height + heights lines

pub cmd_end : ConfigFile → ConfigFile × Option Message
cmd_end file =
    (record file { line_number = file.line_number + heights file.lines; lines = [] }, none)

-- What the evaluation of a section asks of Perl: eval_sv of a text with `$0` and the server, with
-- the text of $@; a handler called with the options; the value of $Apache2::PerlSections::Save;
-- modperl_package_unload; and the number of a line and the package of a file as texts.
pub record SectionCalls {ℓ} (H : Hash) (t : AprTable) (S : Type ℓ) : Type ℓ where
  pub eval : Ehv H × S → Name → Name → (Ehv H × S) × Option Name
  pub callback : Ehv H × S → Handler → t.Table → (Ehv H × S) × Status × Option Name
  pub save_config : S → Bool
  pub package_unload : S → Name → S
  pub decimal : ℕ → Name
  pub file2package : Name → Name

abbrev package_word : Name
package_word = b'p' ∷ b'a' ∷ b'c' ∷ b'k' ∷ b'a' ∷ b'g' ∷ b'e' ∷ b' ' ∷ []

abbrev line_word : Name
line_word = b'l' ∷ b'i' ∷ b'n' ∷ b'e' ∷ []

abbrev or_text : Name → Option Name → Name
or_text default none = default
or_text default (some text) = text

module _ {ℓ} {H : Hash} {t : AprTable} {S : Type ℓ} (calls : SectionCalls H t S) where
  open t use {Table, get, set_value}
  open calls use {eval, callback, save_config, package_unload, decimal, file2package}

  abbrev pub handler_of : Table → Name
  handler_of options = or_text default_handler (get options key_handler)

  pub package_of : Node Table → Table → Name
  package_of node options =
      or_text default_package (get options key_package)
      ++ (separator
          ++ (file2package node.filename
              ++ (separator ++ (line_word ++ (b'_' ∷ decimal node.line_num)))))

  -- "\n#line %d %s\n".
  abbrev line_header : Node Table → Name
  line_header node =
      newline
      ++ ((b'#' ∷ line_word)
          ++ (b' ' ∷ (decimal node.line_num ++ (b' ' ∷ (node.filename ++ newline)))))

  -- The code in its package.
  pub packaged : Node Table → Table → Name → Name
  unfolding package_of
  packaged node options arg =
      package_word ++ (package_of node options ++ (b';' ∷ (line_header node ++ arg)))

  -- What the handler sees: the names that were chosen are in the table.
  pub section_options : Node Table → Table → Table
  unfolding package_of
  section_options node options =
      set_value
        (elim (get options key_handler) [
          | some name ↦ options
          | none ↦ set_value options key_handler default_handler
        ])
        key_package (package_of node options)

  abbrev in_perl : Cmd H t S → Ehv H × S
  in_perl w = (w.env, w.perl)

  -- The evaluation and the syncs; the message is $@.
  pub eval_code : Node Table → Name → Cmd H t S → Cmd H t S × Option Message
  unfolding sync_tables
  eval_code node code w =
      let (perl, errsv) = eval (in_perl w) code node.filename in
      (sync_tables (set_perl w perl), elim errsv [ none ↦ none | some e ↦ some (died e) ])

  -- `if (handler)`.
  pub call_handler : Node Table → Table → Cmd H t S → Cmd H t S × Option Message
  unfolding section_options package_of
  call_handler node options w =
      let h = handler_new (handler_of options) in
      let (perl, status, errsv) = callback (in_perl w) h (section_options node options) in
      let rest =
        if save_config perl.1 then perl.1 else package_unload perl.1 (package_of node options) in
      (
        set_perl w (perl.0, rest),
        if is_ok status
            then none
            else elim errsv [ none ↦ some (handler_failed h.name status) | some e ↦ some (died e) ],
      )

  -- The part behind modperl_init_vhost; without options it is a `Perl` directive of its own.
  pub run_section : Node Table → Name → Cmd H t S → Cmd H t S × Option Message
  unfolding packaged eval_code call_handler
  run_section node arg w = elim node.args [
    | none ↦ eval_code node arg w
    | some options ↦
        let (evaluated, errsv) = eval_code node (packaged node options arg) w in
        elim errsv [ some e ↦ (evaluated, some e) | none ↦ call_handler node options evaluated ]
  ]

  pub perldo_ready : Loads H t S → Node Table → Name → Cmd H t S → Cmd H t S × Option Message
  unfolding run_section
  perldo_ready loads node arg w =
      let (ready, ok) = loads.init_vhost (loads.run w) in
      if ok then run_section node arg ready else (ready, some vhost_failed)

  pub cmd_perldo : Loads H t S → Parms → Node Table → Name → Cmd H t S → Cmd H t S × Option Message
  unfolding perldo_ready server_or_htaccess
  cmd_perldo loads parms node arg w =
      if is_nil arg then (w, none) else elim (server_or_htaccess parms) [
        | some e ↦ (w, some e)
        | none ↦ perldo_ready loads node arg w
      ]
