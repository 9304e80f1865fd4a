-- ===== src/Filter/Add.antt =====
-- The configured filters of a connection and of a request: modperl_filter_add_connection and
-- modperl_filter_add_request in src/modules/perl/modperl_filter.c.
pub mod Levels
use mod_perl.Prelude.{
  ℕ, Bool, true, false, not, ◌&&◌, Option, none, some, List, [], ◌∷◌, ◌++◌, ◌==◌, bit_and,
  if◌then◌else◌,
}
use mod_perl.Status.{Status, ok, declined, is_ok}
use mod_perl.Mgv.{Name, same_name}
use mod_perl.Handler.{Handler, handler_equal}

-- A configured handler and its `next`, the handler that initialises the filter.
pub record Configured : Type 0 where
  pub handler : Handler
  pub next : Option Handler

-- What `addfunc` was called for: a filter of httpd by its name, or a Perl filter with its handler.
pub data Added : Type 0 where
  httpd_filter : Name → Added
  perl_filter : Handler → Added

-- The bits of `attrs`, from modperl_filter.h.
abbrev connection_handler : ℕ
connection_handler = 0x01

abbrev has_init_handler : ℕ
has_init_handler = 0x04

abbrev httpd_handler : ℕ
httpd_handler = 0x10

abbrev has : ℕ → Configured → Bool
has flag c = not (bit_and c.handler.attrs flag == 0)

abbrev pub is_httpd : Configured → Bool
is_httpd c = has httpd_handler c

abbrev pub is_connection : Configured → Bool
is_connection c = has connection_handler c

-- `below_protocol` tells of a filter of httpd that it is known and that its type is below
-- AP_FTYPE_PROTOCOL; `run_init` is modperl_run_filter_init.
module _ (below_protocol : Name → Bool) (run_init : Handler → Status) where
  -- The status of the initialisation of a filter that was added; OK if it has none.
  pub init_status : Configured → Status
  init_status c = elim c.next [
    | none ↦ ok
    | some next ↦ if has has_init_handler c then run_init next else ok
  ]

  -- The rest of the loop's body behind the skips: the filter is added, and initialised.
  pub add_perl : Configured → List Added × Status → List Added × Status
  unfolding init_status
  add_perl c (rest, status) =
      let init = init_status c in
      if is_ok init
      then (perl_filter c.handler ∷ rest, status)
      else (perl_filter c.handler ∷ [], init)

  pub connection_loop : List Configured → List Added × Status
  unfolding add_perl
  connection_loop [] = ([], ok)
  connection_loop (c ∷ cs) =
      let rest = connection_loop cs in
      if is_httpd c
      then (if below_protocol c.handler.name
          then rest
          else (httpd_filter c.handler.name ∷ rest.0, rest.1))
      else if not (is_connection c)
      then rest
      else add_perl c rest

  -- `none` is a configuration without handlers.
  pub filter_add_connection : Option (List Configured) → List Added × Status
  unfolding connection_loop
  filter_add_connection none = ([], declined)
  filter_add_connection (some cs) = connection_loop cs

-- The walk along the filters of the request: `name` is that of mod_perl's own filters, which begins
-- with 'M', and each filter is given by its name and the handler of its context.
pub registered : Name → Handler → List (Name × Handler) → Bool
registered name h [] = false
registered name h ((fname, ctx_handler) ∷ filters) =
    let rest = registered name h filters in
    if same_name fname name then (if handler_equal ctx_handler h then true else rest) else rest

module _ (name : Name) (filters : List (Name × Handler)) (run_init : Handler → Status) where
  pub request_loop : List Configured → List Added × Status
  unfolding add_perl registered
  request_loop [] = ([], ok)
  request_loop (c ∷ cs) =
      let rest = request_loop cs in
      if is_httpd c
      then (httpd_filter c.handler.name ∷ rest.0, rest.1)
      else if is_connection c
      then rest
      else if registered name c.handler filters
      then rest
      else add_perl (λ n. false) run_init c rest

  pub filter_add_request : Option (List Configured) → List Added × Status
  unfolding request_loop
  filter_add_request none = ([], declined)
  filter_add_request (some cs) = request_loop cs
