-- ===== src/Cmd/Section/Read.antt =====
-- What a <Perl> section that is written out is read as.
use mod_perl.Prelude.{
  ℕ, zero, suc, ◌+◌, ◌<◌, ◌≤◌, ◌≡◌, refl, sym, ap, ap₂, ◌∙◌, false, Option, none, some, List, [],
  ◌∷◌, ◌++◌, ◌==◌, ==_refl, map, length, length-append, if_true, if_false, append_assoc, append-nil,
  arith,
}
use mod_perl.Mgv.{Name, same_name}
use mod_perl.Mgv.Equal.{same_name_refl}
use mod_perl.AprTable.{AprTable}
use mod_perl.Cmd.{Message, Parms, server_or_htaccess}
use mod_perl.Cmd.Words.{GetWord, Free, Fresh, joined, is_nil}
use mod_perl.Cmd.Section.{
  parsed, Node, Line, ConfigFile, before_last, read_code, end_tag, newline, args_loop, parse_args,
  section_node, cmd_perl,
}

-- An argument of a section as it is written.
abbrev pub printed : Name × Name → Name
printed (key, val) = key ++ (b'=' ∷ val)

-- Keys and values that the syntax can hold.
abbrev pub IsArg : Name × Name → Type 0
IsArg (key, val) =
    (is_nil key ≡ false)
    × Free b'=' key
    × Free b',' key
    × (is_nil val ≡ false)
    × Free b',' val
    × Fresh b'=' val

abbrev pub AreArgs : List (Name × Name) → Type 0
AreArgs [] = Unit
AreArgs (p ∷ ps) = IsArg p × AreArgs ps

Free-append :
    (stop c : ℕ) (a b : Name)
    → Free stop a
    → (c == stop) ≡ false
    → Free stop b
    → Free stop (a ++ (c ∷ b))
Free-append stop c [] b h e k = (e, k)
Free-append stop c (d ∷ a) b h e k = (h.0, Free-append stop c a b h.1 e k)

Free-printed : (p : Name × Name) → IsArg p → Free b',' (printed p)
Free-printed (key, val) (_, _, free, _, free_too, _) =
    Free-append b',' b'=' key val free refl free_too

printed-filled : (p : Name × Name) → IsArg p → is_nil (printed p) ≡ false
printed-filled ([], val) h = absurd (ground (arith, h.0))
printed-filled (c ∷ key, val) h = refl

Fresh-joined :
    (p : Name × Name) (ps : List (Name × Name))
    → IsArg p
    → Fresh b',' (joined b',' (printed p ∷ map printed ps))
Fresh-joined ([], val) ps h = absurd (ground (arith, h.0))
Fresh-joined (c ∷ key, val) [] h = h.2.0
Fresh-joined (c ∷ key, val) (q ∷ ps) h = h.2.0

module _ (t : AprTable) (words : GetWord) where
  open t use {Table, make, set_value}

  -- The table with all of the arguments.
  abbrev pub set_all : Table → List (Name × Name) → Table
  set_all table [] = table
  set_all table ((key, val) ∷ ps) = set_all (set_value table key val) ps

  -- One round, for a word that is an argument.
  args_loop_step :
      (fuel : ℕ) (table : Table) (args rest key val : Name)
      → IsArg (key, val)
      → words.getword b',' args ≡ (printed (key, val), rest)
      → args_loop t words (suc fuel) table args
        ≡ args_loop t words fuel (set_value table key val) rest
  unfolding args_loop
  args_loop_step fuel table args rest key val h e =
      let split = words.getword-stop b'=' key val h.1 h.5 in
      rw (e, split, printed-filled (key, val) h, h.0, h.3) refl

  args_loop_end : (fuel : ℕ) (table : Table) → args_loop t words (suc fuel) table [] ≡ parsed table
  unfolding args_loop
  args_loop_end fuel table = rw (words.getword-end b',' [] tt) refl

  args_loop-joined :
      (ps : List (Name × Name)) (fuel : ℕ) (table : Table)
      → AreArgs ps
      → length ps < fuel
      → args_loop t words fuel table (joined b',' (map printed ps)) ≡ parsed (set_all table ps)
  args_loop-joined ps zero table h e = absurd (omega arith)
  args_loop-joined [] (suc fuel) table h e = args_loop_end fuel table
  args_loop-joined ((key, val) ∷ []) (suc zero) table h e = absurd (omega arith)
  args_loop-joined ((key, val) ∷ []) (suc (suc fuel)) table h e =
      args_loop_step (suc fuel) table (printed (key, val)) [] key val h.0
        (words.getword-end b',' (printed (key, val)) (Free-printed (key, val) h.0))
      ∙ args_loop_end fuel (set_value table key val)
  args_loop-joined ((key, val) ∷ (p ∷ ps)) (suc fuel) table h e =
      let rest = joined b',' (map printed (p ∷ ps)) in
      args_loop_step fuel table (printed (key, val) ++ (b',' ∷ rest)) rest key val h.0 (
        words.getword-stop b',' (printed (key, val)) rest (Free-printed (key, val) h.0)
          (Fresh-joined p ps h.1.0))
      ∙ args_loop-joined (p ∷ ps) fuel (set_value table key val) h.1 (omega arith)

  filled : (w : Name) → is_nil w ≡ false → 1 ≤ length w
  filled [] e = absurd (ground (arith, e))
  filled (c ∷ w) e = omega arith

  length-joined :
      (ps : List (Name × Name)) → AreArgs ps → length ps ≤ length (joined b',' (map printed ps))
  length-joined [] h = omega arith
  length-joined (p ∷ []) h = filled (printed p) (printed-filled p h.0)
  length-joined (p ∷ (q ∷ ps)) h =
      let rest = length-joined (q ∷ ps) h.1 in
      omega (arith, length-append {0} (printed p) (b',' ∷ joined b',' (map printed (q ∷ ps))), rest)

  parse_args-joined :
      (ps : List (Name × Name))
      → AreArgs ps
      → parse_args t words (joined b',' (map printed ps)) ≡ parsed (set_all make ps)
  unfolding parse_args
  parse_args-joined ps h =
      let enough = length-joined ps h in
      args_loop-joined ps (suc (length (joined b',' (map printed ps)))) make h
        (omega (arith, enough))

  -- The last '>' is found behind everything else.
  before_last-none : (c : ℕ) (tail : Name) → Free c tail → before_last c tail ≡ none
  unfolding before_last
  before_last-none c [] h = refl
  before_last-none c (d ∷ tail) h = rw (before_last-none c tail h.1, h.0) refl

  before_last_lem : (c : ℕ) (w tail : Name) → Free c tail → before_last c (w ++ (c ∷ tail)) ≡ some w
  unfolding before_last
  before_last_lem c [] tail h = rw (before_last-none c tail h, ==_refl c) refl
  before_last_lem c (d ∷ w) tail h = rw (before_last_lem c w tail h) refl

  -- Lines of code: none of them is the end of the section.
  abbrev pub AreCode : List Line → Type 0
  AreCode [] = Unit
  AreCode (line ∷ lines) = (same_name line.text end_tag ≡ false) × AreCode lines

  abbrev pub text_of : List Line → Name
  text_of [] = []
  text_of (line ∷ lines) = (line.text ++ newline) ++ text_of lines

  -- The number of lines that were read.
  abbrev pub lines_in : List Line → ℕ
  lines_in [] = 0
  lines_in (line ∷ lines) = line.height + lines_in lines

  abbrev pub end_line : ℕ → Line
  end_line height = record { text = end_tag; height = height }

  read_code_lem :
      (number : ℕ) (lines rest : List Line) (height : ℕ) (code : Name)
      → AreCode lines
      → read_code number (lines ++ (end_line height ∷ rest)) code
        ≡ (code ++ text_of lines, number + lines_in lines + height, rest)
  unfolding read_code
  read_code_lem number [] rest height code h =
      if_true (same_name end_tag end_tag) (code, number + height, rest)
        (read_code (number + height) rest (code ++ (end_tag ++ newline))) (same_name_refl end_tag)
      ∙ ap₂ (λ c n. (c, n, rest)) (sym (append-nil code)) (omega arith)
  read_code_lem number (line ∷ lines) rest height code h =
      let counted = number + line.height in
      let below = lines ++ (end_line height ∷ rest) in
      if_false (same_name line.text end_tag) (code, counted, below)
        (read_code counted below (code ++ (line.text ++ newline))) h.0
      ∙ read_code_lem counted lines rest height (code ++ (line.text ++ newline)) h.1
      ∙ ap₂ (λ c n. (c, n, rest)) (append_assoc code (line.text ++ newline) (text_of lines))
          (omega arith)

  -- The file behind a section that ends at `end_line height`.
  abbrev pub file_behind : ConfigFile → List Line → ℕ → List Line → ConfigFile
  file_behind file lines height rest = record {
    filename = file.filename;
    line_number = file.line_number + lines_in lines + height;
    lines = rest;
  }

  section_node_lem :
      (ps : List (Name × Name)) (file : ConfigFile) (lines rest : List Line) (height : ℕ)
      → AreArgs ps
      → AreCode lines
      → file.lines ≡ lines ++ (end_line height ∷ rest)
      → section_node t words (joined b',' (map printed ps)) file ≡ (
        some (
          record {
            filename = file.filename;
            line_num = file.line_number + 1;
            code = text_of lines;
            args = some (set_all make ps);
          },
          file_behind file lines height rest,
        ),
        none,
      )
  unfolding section_node
  section_node_lem ps file lines rest height are_args are_code e =
      let read =
        ap (λ l. read_code file.line_number l []) e
        ∙ read_code_lem file.line_number lines rest height [] are_code in
      rw (parse_args-joined ps are_args, section_node)
        (ap
          (λ (r : Name × ℕ × List Line).
            let node : Node Table = record {
              filename = file.filename;
              line_num = file.line_number + 1;
              code = r.0;
              args = some (set_all make ps);
            } in
            let out : Option (Node Table × ConfigFile) × Option Message =
              (some (node, record file { line_number = r.1; lines = r.2 }), none) in
            out)
          read)

  -- A <Perl> section that may stand where it does, with arguments that the syntax can hold and
  -- lines of code up to "</Perl>", is read as a node with those arguments, the text of the lines
  -- and the number of the first of them; the file goes on behind the section, with the number of the
  -- line that "</Perl>" ends on.
  pub cmd_perl_lem :
      (parms : Parms) (ps : List (Name × Name)) (tail : Name) (file : ConfigFile)
      (lines rest : List Line) (height : ℕ)
      → server_or_htaccess parms ≡ none
      → AreArgs ps
      → Free b'>' tail
      → AreCode lines
      → file.lines ≡ lines ++ (end_line height ∷ rest)
      → cmd_perl t words parms (joined b',' (map printed ps) ++ (b'>' ∷ tail)) file ≡ (
        some (
          record {
            filename = file.filename;
            line_num = file.line_number + 1;
            code = text_of lines;
            args = some (set_all make ps);
          },
          file_behind file lines height rest,
        ),
        none,
      )
  unfolding cmd_perl
  cmd_perl_lem parms ps tail file lines rest height allowed are_args free are_code e =
      let found = before_last_lem b'>' (joined b',' (map printed ps)) tail free in
      rw (found, allowed, cmd_perl) (section_node_lem ps file lines rest height are_args are_code e)
