-- ===== src/Config/Tests.antt =====
-- Three sections that set one variable, a virtual host, files to load and lines to insert.
use mod_perl.Prelude.{
  ℕ, ◌≡◌, refl, Bool, true, false, Option, none, some, List, [], ◌∷◌, ◌++◌, ◌==◌, length,
  if◌then◌else◌,
}
use mod_perl.Mgv.{Name}
use mod_perl.Options.{Options, lookup_failed}
use mod_perl.AprTable.{values}
use mod_perl.AprTable.Entries.{entries}
use mod_perl.Interp.{undef}
use mod_perl.Config.{ConfigFlags, DirConfig, dir_merge}
use mod_perl.Config.Merge.{dir_merge_assoc}
use mod_perl.Config.Server.{SrvConfig, srv_create, apply_post_config_require}
use mod_perl.Config.Insert.{Httpd}

abbrev word : Options
word = record {
  opts = 32;
  opts_add = 0;
  opts_remove = 0;
  opts_override = 0;
  opts_seen = 0;
  unset = 32;
}

abbrev generated : ConfigFlags
generated = record {
  flag_table = record {
    lookup_srv = λ str. lookup_failed;
    lookup_dir = λ str. lookup_failed;
    srv_unset = 64;
    dir_unset = 32;
    srv_type = 1;
    ithread_only = λ o. false;
  };
  dir_type = 2;
  enable = 1;
  hooks_all = 2;
  srv_merge_handlers = 4;
  dir_merge_handlers = 4;
  inherit_switches = 8;
}

abbrev var : Name
var = b'v' ∷ []

-- A section that sets the variable, or only adds to it.
abbrev section : Bool → Name → DirConfig entries
section sets value = record {
  location = none;
  handlers_per_dir = λ i. none;
  set_env = (var, value) ∷ [];
  setvars = if sets then (var, value) ∷ [] else [];
  configvars = (var, value) ∷ [];
  flags = word;
  interp_scope = undef;
}

dir_merge_assoc_example :
    let one = section true (b'1' ∷ []) in
    let two = section true (b'2' ∷ []) in
    let three = section false (b'3' ∷ []) in
    let left = dir_merge entries generated (dir_merge entries generated one two) three in
    let right = dir_merge entries generated one (dir_merge entries generated two three) in
    (values entries.same_key left.configvars var ≡ values entries.same_key right.configvars var)
    × (entries.get left.setvars var ≡ entries.get right.setvars var)
    × (entries.get left.set_env var ≡ entries.get right.set_env var)
    × (left.location ≡ right.location)
    × (left.interp_scope ≡ right.interp_scope)
dir_merge_assoc_example =
    dir_merge_assoc entries generated (section true (b'1' ∷ [])) (section true (b'2' ∷ []))
      (section false (b'3' ∷ [])) var

abbrev host : SrvConfig entries
host = srv_create entries generated var 7

-- A file is loaded where its name is not empty; the state is the names that were tried and the
-- configurations that were synced.
abbrev require_named : List Name × List ℕ → Name → (List Name × List ℕ) × Bool
require_named (tried, synced) [] = ((([]) ∷ tried, synced), false)
require_named (tried, synced) (c ∷ name) = (((c ∷ name) ∷ tried, synced), true)

abbrev note_sync : List Name × List ℕ → ℕ → List Name × List ℕ
note_sync (tried, synced) dcfg = (tried, dcfg ∷ synced)

loads_one :
    apply_post_config_require require_named note_sync ((var, 1) ∷ []) ([], [])
    ≡ ((var ∷ [], 1 ∷ []), true)
unfolding apply_post_config_require
loads_one = refl

-- A parser that wants two lines, with a buffer of three bytes.
abbrev two_lines : List Name → List Name × Option Name
two_lines lines = (lines, if length lines == 2 then none else some var)

abbrev toy : Httpd
toy = record {
  Tree = List Name;
  Conf = List Name;
  bufsiz = 3;
  build_config = two_lines;
  walk_config = λ tree conf. (conf ++ tree, none);
  create_per_dir = [];
  merge_per_dir = λ base add. base ++ add;
}
