-- ===== src/Config/Insert.antt =====
-- modperl_config_insert: configuration given as an array of lines. The parser of httpd is a parameter.
use mod_perl.Prelude.{
  ℕ, zero, suc, ◌≤◌, ◌≡◌, refl, ap, ◌∙◌, Option, none, some, List, [], ◌∷◌, ◌==◌, map, length, drop,
  if◌then◌else◌, arith,
}
use mod_perl.Mgv.{Name}

-- apr_cpystrn into a buffer of `bufsiz` bytes, which keeps one for the NUL.
pub cpystrn : ℕ → Name → Name
cpystrn zero s = []
cpystrn (suc zero) s = []
cpystrn (suc (suc n)) [] = []
cpystrn (suc (suc n)) (c ∷ s) = if c == 0 then [] else c ∷ cpystrn (suc n) s

-- svav_param_t, without the interpreter.
pub record Reader : Type 0 where
  pub av : List Name
  pub ix : ℕ

-- The array from `ix` on is what is left; `none` is APR_EOF.
pub getstr_of : ℕ → Reader → List Name → Option (Name × Reader)
unfolding cpystrn
getstr_of bufsiz r [] = none
getstr_of bufsiz r (sv ∷ rest) = some (cpystrn bufsiz sv, record r { ix = suc r.ix })

pub svav_getstr : ℕ → Reader → Option (Name × Reader)
unfolding getstr_of
svav_getstr bufsiz r = getstr_of bufsiz r (drop r.ix r.av)

-- All that is read by at most `n` calls.
abbrev pub read_lines : ℕ → ℕ → Reader → List Name
read_lines zero bufsiz r = []
read_lines (suc n) bufsiz r = elim (svav_getstr bufsiz r) [
  | none ↦ []
  | some got ↦ got.0 ∷ read_lines n bufsiz got.1
]

drop-suc :
    (n : ℕ) (av rest : List Name) (sv : Name) → drop n av ≡ sv ∷ rest → drop (suc n) av ≡ rest
drop-suc zero [] rest sv h = absurd (ground (arith, h))
drop-suc zero (a ∷ av) rest sv h = ground (arith, h)
drop-suc (suc n) [] rest sv h = absurd (ground (arith, h))
drop-suc (suc n) (a ∷ av) rest sv h = drop-suc n av rest sv h

abbrev after_getstr : ℕ → ℕ → Option (Name × Reader) → List Name
after_getstr n bufsiz o = elim o [ none ↦ [] | some got ↦ got.0 ∷ read_lines n bufsiz got.1 ]

-- Enough calls read every line, each cut to the buffer.
read_lines_lem :
    (n bufsiz : ℕ) (rest : List Name) (r : Reader)
    → drop r.ix r.av ≡ rest
    → length rest ≤ n
    → read_lines n bufsiz r ≡ map (cpystrn bufsiz) rest
unfolding svav_getstr getstr_of
read_lines_lem zero bufsiz [] r h k = refl
read_lines_lem zero bufsiz (sv ∷ rest) r h k = absurd (omega arith)
read_lines_lem (suc n) bufsiz [] r h k = ap (after_getstr n bufsiz) (ap (getstr_of bufsiz r) h)
read_lines_lem (suc n) bufsiz (sv ∷ rest) r h k =
    let next : Reader = record r { ix = suc r.ix } in
    let more = read_lines_lem n bufsiz rest next (drop-suc r.ix r.av rest sv h) (omega arith) in
    ap (after_getstr n bufsiz) (ap (getstr_of bufsiz r) h) ∙ ap (λ l. cpystrn bufsiz sv ∷ l) more

-- ap_build_config over the lines that it reads, ap_walk_config, ap_create_per_dir_config,
-- ap_merge_per_dir_configs and the size of the buffer that httpd reads into. A message is `some`.
pub record Httpd : Type 1 where
  pub Tree : Type 0
  pub Conf : Type 0
  pub bufsiz : ℕ
  pub build_config : List Name → Tree × Option Name
  pub walk_config : Tree → Conf → Conf × Option Name
  pub create_per_dir : Conf
  pub merge_per_dir : Conf → Conf → Conf

-- "not an array reference".
abbrev pub not_array : Name
not_array =
    b'n' ∷ b'o' ∷ b't' ∷ b' ' ∷ b'a' ∷ b'n' ∷ b' ' ∷ b'a' ∷ b'r' ∷ b'r' ∷ b'a' ∷ b'y' ∷ b' ' ∷ b'r'
    ∷ b'e' ∷ b'f' ∷ b'e' ∷ b'r' ∷ b'e' ∷ b'n' ∷ b'c' ∷ b'e' ∷ []

module _ (h : Httpd) where
  open h use {Tree, Conf, bufsiz, build_config, walk_config, create_per_dir, merge_per_dir}

  -- `ap_walk_config` where the lines were parsed.
  pub walk_parsed : Conf → Tree × Option Name → Conf × Option Name
  walk_parsed conf (tree, some errmsg) = (conf, some errmsg)
  walk_parsed conf (tree, none) = walk_config tree conf

  -- `lines` none is no array reference. The pools and the parameters of the parser are left out.
  pub config_insert : Conf → Option (List Name) → Conf × Option Name
  unfolding walk_parsed
  config_insert conf none = (conf, some not_array)
  config_insert conf (some lines) =
      walk_parsed conf
        (build_config (read_lines (suc (length lines)) bufsiz (record { av = lines; ix = 0 })))

  -- The merge of `dconf` where there was no message.
  pub merge_inserted : Conf → Conf × Option Name → Conf × Option Name
  merge_inserted per_dir (dconf, some errmsg) = (per_dir, some errmsg)
  merge_inserted per_dir (dconf, none) = (merge_per_dir per_dir dconf, none)

  -- The configuration of the request behind it, and the message.
  pub insert_request : Conf → Option (List Name) → Conf × Option Name
  unfolding config_insert merge_inserted
  insert_request per_dir lines = merge_inserted per_dir (config_insert create_per_dir lines)

  merge_inserted_error :
      (per_dir : Conf) (inserted : Conf × Option Name) (errmsg : Name)
      → (merge_inserted per_dir inserted).1 ≡ some errmsg
      → (merge_inserted per_dir inserted).0 ≡ per_dir
  unfolding merge_inserted
  merge_inserted_error per_dir (dconf, some other) errmsg e = refl
  merge_inserted_error per_dir (dconf, none) errmsg e = absurd (ground (arith, e))

  -- The parser gets every line of the array in its order, each cut to the buffer, and what it makes
  -- of them is walked unless it has a message; for a request a message leaves the configuration of
  -- the directory as it was.
  pub insert_request_lem :
      (per_dir conf : Conf) (lines : List Name)
      → (config_insert conf (some lines)
          ≡ walk_parsed conf (build_config (map (cpystrn bufsiz) lines)))
        × ((errmsg : Name)
            → (insert_request per_dir (some lines)).1 ≡ some errmsg
            → (insert_request per_dir (some lines)).0 ≡ per_dir)
  unfolding config_insert insert_request
  insert_request_lem per_dir conf lines =
      let start : Reader = record { av = lines; ix = 0 } in
      let enough : length lines ≤ suc (length lines) = omega arith in
      (
        ap (λ ls. walk_parsed conf (build_config ls))
            (read_lines_lem (suc (length lines)) bufsiz lines start refl enough),
        λ errmsg. merge_inserted_error per_dir (config_insert create_per_dir (some lines)) errmsg,
      )
