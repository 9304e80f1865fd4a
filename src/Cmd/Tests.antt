-- ===== src/Cmd/Tests.antt =====
-- Directives on the configurations that a server and a directory begin with.
use mod_perl.Prelude.{
  ℕ, ◌≡◌, ◌++◌, refl, true, false, none, some, List, [], ◌∷◌, ◌==◌, map, if◌then◌else◌, if_true,
  if_false, ap, ==_refl, ◌∙◌,
}
use mod_perl.Mgv.{Name}
use mod_perl.Options.{Options, lookup_failed}
use mod_perl.Hash.Assoc.{assoc}
use mod_perl.AprTable.Entries.{entries}
use mod_perl.Config.{ConfigFlags, dir_create}
use mod_perl.Config.Server.{srv_create}
use mod_perl.Cmd.{Parms, Cmd, server_or_htaccess}
use mod_perl.Cmd.Vars.{cmd_set_var, cmd_add_var, merged_values, dir_vars, srv_vars, vars-merge}
use mod_perl.Cmd.Words.{
  GetWord, Free, Fresh, joined, FilterPhases, cmd_set_output_filter, behind, as_httpd,
  cmd_set_output_filter-joined,
}
use mod_perl.Cmd.Section.{Line, ConfigFile, cmd_perl, end_tag}
use mod_perl.Cmd.Section.Read.{printed, set_all, cmd_perl_lem}

-- ap_getword, written out.
abbrev skip : ℕ → Name → Name
skip stop [] = []
skip stop (c ∷ w) = if c == stop then skip stop w else c ∷ w

abbrev split_word : ℕ → Name → Name × Name
split_word stop [] = ([], [])
split_word stop (c ∷ w) =
    let (word, rest) = split_word stop w in
    if c == stop then ([], skip stop w) else (c ∷ word, rest)

skip-Fresh : (stop : ℕ) (rest : Name) → Fresh stop rest → skip stop rest ≡ rest
skip-Fresh stop [] h = refl
skip-Fresh stop (c ∷ rest) h = if_false _ _ _ h

split_word-stop :
    (stop : ℕ) (w rest : Name)
    → Free stop w
    → Fresh stop rest
    → split_word stop (w ++ (stop ∷ rest)) ≡ (w, rest)
split_word-stop stop [] rest h k =
    if_true _ _ _ (==_refl stop) ∙ ap (λ (r : Name). ([], r)) (skip-Fresh stop rest k)
split_word-stop stop (c ∷ w) rest h k =
    if_false _ _ _ h.0
    ∙ ap (λ (r : Name × Name). (c ∷ r.0, r.1)) (split_word-stop stop w rest h.1 k)

split_word-end : (stop : ℕ) (w : Name) → Free stop w → split_word stop w ≡ (w, [])
split_word-end stop [] h = refl
split_word-end stop (c ∷ w) h =
    if_false _ _ _ h.0 ∙ ap (λ (r : Name × Name). (c ∷ r.0, r.1)) (split_word-end stop w h.1)

abbrev splitting : GetWord
splitting = record {
  getword = split_word;
  getword-stop = split_word-stop;
  getword-end = split_word-end;
}

abbrev generated : ConfigFlags
generated = record {
  flag_table = record {
    lookup_srv = λ str. lookup_failed;
    lookup_dir = λ str. lookup_failed;
    srv_unset = 64;
    dir_unset = 32;
    srv_type = 1;
    ithread_only = λ o. false;
  };
  dir_type = 2;
  enable = 1;
  hooks_all = 2;
  srv_merge_handlers = 4;
  dir_merge_handlers = 4;
  inherit_switches = 8;
}

abbrev start : Cmd assoc entries ℕ
start = record {
  scfg = srv_create entries generated (b'h' ∷ []) 1;
  dcfg = dir_create entries generated none;
  env = record { table = []; magical = true };
  perl = 0;
  running = false;
}

abbrev outside : Parms
outside = record {
  path = false;
  access_conf = false;
  name = [];
  directive = [];
  parent = [];
  hostname = [];
  is_virtual = false;
  context_error = none;
}

abbrev var : Name
var = b'v' ∷ []

-- The base has two values.
abbrev base : List (Name × Name)
base = (var, b'1' ∷ []) ∷ (var, b'2' ∷ []) ∷ []

vars-merge_example :
    let set = cmd_set_var outside start var (b'3' ∷ []) in
    let added = cmd_add_var outside start var (b'3' ∷ []) in
    let dir = merged_values entries base (dir_vars entries start.dcfg) var in
    let srv = merged_values entries base (srv_vars entries start.scfg) var in
    (merged_values entries base (dir_vars entries set.dcfg) var ≡ (b'3' ∷ []) ∷ [])
    × (merged_values entries base (dir_vars entries added.dcfg) var ≡ dir ++ ((b'3' ∷ []) ∷ []))
    × (merged_values entries base (srv_vars entries set.scfg) var ≡ (b'3' ∷ []) ∷ [])
    × (merged_values entries base (srv_vars entries added.scfg) var ≡ srv ++ ((b'3' ∷ []) ∷ []))
vars-merge_example = vars-merge outside start base var (b'3' ∷ []) var

-- A server with both options on.
abbrev all_on : Options
all_on = record {
  opts = 3;
  opts_add = 0;
  opts_remove = 0;
  opts_override = 0;
  opts_seen = 0;
  unset = 0;
}

abbrev enabled : Cmd assoc entries ℕ
enabled = record start { scfg = record start.scfg { flags = all_on } }

abbrev phases : FilterPhases
phases = record { input_phase = 12; output_phase = 13; enable = 1; input_filter = 2 }

abbrev deflate : Name
deflate = b'D' ∷ []

abbrev include : Name
include = b'I' ∷ []

cmd_set_output_filter-joined_example :
    let (after, message) =
      cmd_set_output_filter splitting phases outside enabled
        (joined b';' (deflate ∷ (include ∷ []))) in
    (message ≡ none)
    × (after.scfg ≡ enabled.scfg)
    × (after.dcfg.handlers_per_dir 13 ≡ (
        if 13 == 13
        then behind (enabled.dcfg.handlers_per_dir 13) (map as_httpd (deflate ∷ (include ∷ [])))
        else enabled.dcfg.handlers_per_dir 13))
cmd_set_output_filter-joined_example =
    cmd_set_output_filter-joined splitting phases outside enabled (deflate ∷ (include ∷ [])) 13 refl
      refl (refl, (refl, tt), (refl, (refl, tt), tt))

-- <Perl k=v> with one line of code, which goes on on a second line of the file.
abbrev code_line : Line
code_line = record { text = b'1' ∷ (b';' ∷ []); height = 2 }

abbrev line_behind : Line
line_behind = record { text = var; height = 1 }

abbrev file : ConfigFile
file = record {
  filename = b'f' ∷ [];
  line_number = 4;
  lines = code_line ∷ (record { text = end_tag; height = 1 } ∷ (line_behind ∷ []));
}

cmd_perl_lem_example :
    cmd_perl entries splitting outside
      (joined b',' (map printed ((b'k' ∷ [], var) ∷ [])) ++ (b'>' ∷ []))
      file
    ≡ (
      some (
        record {
          filename = b'f' ∷ [];
          line_num = 5;
          code = b'1' ∷ (b';' ∷ (10 ∷ []));
          args = some (set_all entries splitting [] ((b'k' ∷ [], var) ∷ []));
        },
        record { filename = b'f' ∷ []; line_number = 7; lines = line_behind ∷ [] },
      ),
      none,
    )
cmd_perl_lem_example =
    cmd_perl_lem entries splitting outside ((b'k' ∷ [], var) ∷ []) [] file (code_line ∷ [])
      (line_behind ∷ []) 1 (unfold server_or_htaccess in refl)
      ((refl, (refl, tt), (refl, tt), refl, (refl, tt), refl), tt) tt (refl, tt) refl
