-- ===== src/Cmd/Words.antt =====
-- Arguments of several words. ap_getword and ap_getword_nc of httpd cut off a word; the interface
-- states what httpd.h documents of them, and `split_word` shows that it can be met.
use mod_perl.Prelude.{
  ℕ, zero, suc, ◌≤◌, ◌≡◌, refl, ap, ◌∙◌, Bool, true, false, not, Option, none, some, List, [], ◌∷◌,
  ◌++◌, ◌==◌, length, if◌then◌else◌, if_false, Bool-cases, inl, inr, arith, length-append, ==_iff,
  map, append_assoc,
}
use mod_perl.Mgv.{Name}
use mod_perl.Handler.{Handler, handler_new}
use mod_perl.Hash.{Hash}
use mod_perl.AprTable.{AprTable}
use mod_perl.Config.{has_option}
use mod_perl.Cmd.{
  Message, perl_disabled, filter_disabled, Parms, Cmd, set_dcfg, array_push, httpd_handler,
  push_httpd_filter_handlers,
}

abbrev pub Free : ℕ → Name → Type 0
Free stop [] = Unit
Free stop (c ∷ w) = ((c == stop) ≡ false) × Free stop w

-- Not at a further stop.
abbrev pub Fresh : ℕ → Name → Type 0
Fresh stop [] = Unit
Fresh stop (c ∷ w) = (c == stop) ≡ false

-- The word up to the first `stop`, and the line behind that stop and those that follow it.
pub record GetWord : Type 0 where
  pub getword : ℕ → Name → Name × Name
  pub getword-stop :
      (stop : ℕ) (w rest : Name)
      → Free stop w
      → Fresh stop rest
      → getword stop (w ++ (stop ∷ rest)) ≡ (w, rest)
  pub getword-end : (stop : ℕ) (w : Name) → Free stop w → getword stop w ≡ (w, [])

-- Words, each with a stop behind it but the last.
abbrev pub joined : ℕ → List Name → Name
joined stop [] = []
joined stop (w ∷ []) = w
joined stop (w ∷ (v ∷ ws)) = w ++ (stop ∷ joined stop (v ∷ ws))

abbrev pub is_nil : Name → Bool
is_nil [] = true
is_nil (c ∷ w) = false

-- No name of a filter is empty, and none has a ';'.
abbrev pub AreFilters : List Name → Type 0
AreFilters [] = Unit
AreFilters (w ∷ ws) = (is_nil w ≡ false) × Free b';' w × AreFilters ws

-- One of httpd's filters as a handler: it has the attribute MP_FILTER_HTTPD_HANDLER, 0x10, and no
-- symbol. A '+' in front of the name, which is cut off, asks for the loading of the module; a '-' is
-- cut off too.
abbrev pub httpd_filter : Name → Bool → Handler
httpd_filter name autoload = record {
  mgv_obj = none;
  mgv_cv = none;
  name = name;
  autoload = autoload;
  dynamic = false;
  attrs = 16;
}

abbrev pub as_httpd : Name → Handler
as_httpd [] = httpd_filter [] false
as_httpd (c ∷ name) =
    if c == b'+'
    then httpd_filter name true
    else if c == b'-'
    then httpd_filter name false
    else httpd_filter (c ∷ name) false

httpd_handler_lem : (w : Name) → httpd_handler w ≡ as_httpd w
unfolding handler_new
httpd_handler_lem [] = refl
httpd_handler_lem (c ∷ name) = elim (Bool-cases (c == b'+')) [
  | inl e ↦ rw e refl
  | inr e ↦ elim (Bool-cases (c == b'-')) [ inl f ↦ rw (e, f) refl | inr f ↦ rw (e, f) refl ]
]

abbrev or_empty : Option (List Handler) → List Handler
or_empty none = []
or_empty (some handlers) = handlers

-- Handlers behind those of a phase, which has no array until it has a handler.
abbrev pub behind : Option (List Handler) → List Handler → Option (List Handler)
behind old [] = old
behind old (h ∷ hs) = some (or_empty old ++ (h ∷ hs))

array_push-behind :
    (old : Option (List Handler)) (w : Name) (hs : List Handler)
    → behind (array_push old (httpd_handler w)) hs ≡ behind old (as_httpd w ∷ hs)
array_push-behind none w [] = ap (λ h. some (h ∷ [])) (httpd_handler_lem w)
array_push-behind none w (h ∷ hs) = ap (λ g. some (g ∷ (h ∷ hs))) (httpd_handler_lem w)
array_push-behind (some handlers) w [] = ap (λ h. some (handlers ++ (h ∷ []))) (httpd_handler_lem w)
array_push-behind (some handlers) w (h ∷ hs) =
    ap (λ l. some l) (append_assoc handlers (httpd_handler w ∷ []) (h ∷ hs))
    ∙ ap (λ g. some (handlers ++ (g ∷ (h ∷ hs)))) (httpd_handler_lem w)

length-joined : (ws : List Name) → AreFilters ws → length ws ≤ length (joined b';' ws)
length-joined [] h = omega arith
length-joined (w ∷ []) h = one_of w h.0
  where
    one_of : (w : Name) → is_nil w ≡ false → 1 ≤ length w
    one_of [] e = absurd (ground (arith, e))
    one_of (c ∷ w) e = omega arith
length-joined (w ∷ (v ∷ ws)) h =
    let rest = length-joined (v ∷ ws) h.2 in
    omega (arith, length-append {0} w (b';' ∷ joined b';' (v ∷ ws)), rest)

module _ (words : GetWord) where
  open words use {getword}

  -- `while (*arg && (filter = ap_getword(..., ';')))`, for at most `fuel` rounds.
  pub filters_loop : ℕ → Option (List Handler) → Name → Option (List Handler)
  unfolding push_httpd_filter_handlers
  filters_loop zero handlers arg = handlers
  filters_loop (suc fuel) handlers arg =
      let (filter, rest) = getword b';' arg in
      let go_on = filters_loop fuel (push_httpd_filter_handlers handlers filter) rest in
      if is_nil arg then handlers else go_on

  is_nil-append : (w rest : Name) → is_nil w ≡ false → is_nil (w ++ rest) ≡ false
  is_nil-append [] rest h = absurd (ground (arith, h))
  is_nil-append (c ∷ w) rest h = refl

  Fresh-append :
      (stop : ℕ) (w rest : Name) → is_nil w ≡ false → Free stop w → Fresh stop (w ++ rest)
  Fresh-append stop [] rest h f = absurd (ground (arith, h))
  Fresh-append stop (c ∷ w) rest h f = f.0

  Fresh-joined :
      (w : Name) (ws : List Name) → AreFilters (w ∷ ws) → Fresh b';' (joined b';' (w ∷ ws))
  Fresh-joined [] ws h = absurd (ground (arith, h.0))
  Fresh-joined (c ∷ w) [] h = h.1.0
  Fresh-joined (c ∷ w) (v ∷ ws) h = h.1.0

  filters_loop_nil :
      (fuel : ℕ) (handlers : Option (List Handler)) → filters_loop fuel handlers [] ≡ handlers
  unfolding filters_loop
  filters_loop_nil zero handlers = refl
  filters_loop_nil (suc fuel) handlers = refl

  pub filters_loop-joined :
      (ws : List Name) (handlers : Option (List Handler)) (fuel : ℕ)
      → AreFilters ws
      → length ws ≤ fuel
      → filters_loop fuel handlers (joined b';' ws) ≡ behind handlers (map as_httpd ws)
  unfolding filters_loop push_httpd_filter_handlers
  filters_loop-joined [] handlers fuel h e = filters_loop_nil fuel handlers
  filters_loop-joined (w ∷ ws) handlers zero h e = absurd (omega arith)
  filters_loop-joined (w ∷ []) handlers (suc fuel) h e =
      if_false _ _ _ h.0
      ∙ rw (words.getword-end b';' w h.1)
          (filters_loop_nil fuel (array_push handlers (httpd_handler w)))
      ∙ array_push-behind handlers w []
  filters_loop-joined (w ∷ (v ∷ ws)) handlers (suc fuel) h e =
      let rest = joined b';' (v ∷ ws) in
      if_false _ _ _ (is_nil-append w (b';' ∷ rest) h.0)
      ∙ rw (words.getword-stop b';' w rest h.1 (Fresh-joined v ws h.2)) (
          filters_loop-joined (v ∷ ws) (array_push handlers (httpd_handler w)) fuel h.2
            (omega arith))
      ∙ array_push-behind handlers w (map as_httpd (v ∷ ws))

-- The indices of the two phases, and the options of the server that they need.
pub record FilterPhases : Type 0 where
  pub input_phase : ℕ
  pub output_phase : ℕ
  pub enable : ℕ
  pub input_filter : ℕ

module _ {ℓ} {H : Hash} {t : AprTable} {S : Type ℓ} (words : GetWord) (phases : FilterPhases) where
  open phases use {input_phase, output_phase, enable, input_filter}

  -- What both directives do; the second of them tests the option of input filters too.
  pub set_filters : ℕ → Parms → Cmd H t S → Name → Cmd H t S × Option Message
  unfolding filters_loop
  set_filters phase parms w arg =
      let old = w.dcfg.handlers_per_dir in
      let new = filters_loop words (length arg) (old phase) arg in
      if not (has_option w.scfg.flags enable)
      then (w, some (perl_disabled parms.hostname))
      else if not (has_option w.scfg.flags input_filter)
      then (w, some (filter_disabled parms.hostname))
      else (
        set_dcfg w (record w.dcfg { handlers_per_dir = λ i. if phase == i then new else old i }),
        none,
      )

  pub cmd_set_input_filter : Parms → Cmd H t S → Name → Cmd H t S × Option Message
  unfolding set_filters
  cmd_set_input_filter parms w arg = set_filters input_phase parms w arg

  pub cmd_set_output_filter : Parms → Cmd H t S → Name → Cmd H t S × Option Message
  unfolding set_filters
  cmd_set_output_filter parms w arg = set_filters output_phase parms w arg

  -- Where the server has Perl and its input filters enabled, PerlSetOutputFilter with names that
  -- are not empty and have no ';', joined by ';', puts each of them as a handler with its name and
  -- the attribute of httpd's filters behind the output filters of the directory, in their order,
  -- and leaves its other phases as they were.
  pub cmd_set_output_filter-joined :
      (parms : Parms) (w : Cmd H t S) (ws : List Name) (phase : ℕ)
      → has_option w.scfg.flags enable ≡ true
      → has_option w.scfg.flags input_filter ≡ true
      → AreFilters ws
      → let (after, message) = cmd_set_output_filter parms w (joined b';' ws) in
        (message ≡ none)
        × (after.scfg ≡ w.scfg)
        × (after.dcfg.handlers_per_dir phase ≡ (
            if output_phase == phase
            then behind (w.dcfg.handlers_per_dir phase) (map as_httpd ws)
            else w.dcfg.handlers_per_dir phase))
  unfolding cmd_set_output_filter set_filters
  cmd_set_output_filter-joined parms w ws phase on filters h =
      let old = w.dcfg.handlers_per_dir in
      let loop =
        filters_loop-joined words ws (old output_phase) (length (joined b';' ws)) h
          (length-joined ws h) in
      rw (on, filters)
        (
          refl,
          refl,
          elim (Bool-cases (output_phase == phase)) [
            | inl e ↦ rw e (
                loop ∙ ap (λ p. behind (old p) (map as_httpd ws)) ((==_iff output_phase phase).0 e))
            | inr e ↦ rw e refl
          ],
        )
