-- ===== src/Filter/Add/Levels.antt =====
-- Each Perl filter is added at one level, that of the connection or that of the request.
use mod_perl.Prelude.{
  ◌≡◌, refl, Bool, true, false, not, ◌&&◌, some, List, [], ◌∷◌, if◌then◌else◌, Option-cases, inl,
  inr, arith,
}
use mod_perl.Status.{Status, ok, is_ok}
use mod_perl.Mgv.{Name}
use mod_perl.Handler.{Handler}
use mod_perl.Filter.Add.{
  Configured, Added, httpd_filter, perl_filter, is_httpd, is_connection, init_status, add_perl,
  connection_loop, filter_add_connection, registered, request_loop, filter_add_request,
}

-- The Perl filters among those that were added.
abbrev pub perl_filters : List Added → List Handler
perl_filters [] = []
perl_filters (httpd_filter name ∷ added) = perl_filters added
perl_filters (perl_filter h ∷ added) = h ∷ perl_filters added

-- The Perl handlers of one level, in the order of the configuration.
abbrev pub of_level : Bool → List Configured → List Handler
of_level level [] = []
of_level level (c ∷ cs) =
    if not (is_httpd c) && (if is_connection c then level else not level)
    then c.handler ∷ of_level level cs
    else of_level level cs

-- Every initialisation succeeds.
abbrev pub Initialised : (Handler → Status) → Type 0
Initialised run_init = (h : Handler) → run_init h ≡ ok

init_status-ok :
    (below_protocol : Name → Bool) (run_init : Handler → Status) (c : Configured)
    → Initialised run_init
    → is_ok (init_status below_protocol run_init c) ≡ true
unfolding init_status
init_status-ok below_protocol run_init c good = elim (Option-cases c.next) [
  | inl absent ↦ rw (absent, init_status) refl
  | inr (next, present) ↦ rw (present, init_status) (ground (arith, good next))
]

connection_loop_lem :
    (below_protocol : Name → Bool) (run_init : Handler → Status) (cs : List Configured)
    → Initialised run_init
    → (perl_filters (connection_loop below_protocol run_init cs).0 ≡ of_level true cs)
      × ((connection_loop below_protocol run_init cs).1 ≡ ok)
unfolding connection_loop add_perl
connection_loop_lem below_protocol run_init [] good = (refl, refl)
connection_loop_lem below_protocol run_init (c ∷ cs) good = ground (
  arith,
  connection_loop_lem below_protocol run_init cs good,
  init_status-ok below_protocol run_init c good,
)

request_loop_lem :
    (name : Name) (run_init : Handler → Status) (cs : List Configured)
    → Initialised run_init
    → (perl_filters (request_loop name [] run_init cs).0 ≡ of_level false cs)
      × ((request_loop name [] run_init cs).1 ≡ ok)
unfolding request_loop registered add_perl
request_loop_lem name run_init [] good = (refl, refl)
request_loop_lem name run_init (c ∷ cs) good =
    ground
      (arith, request_loop_lem name run_init cs good, init_status-ok (λ n. false) run_init c good)

-- Where every initialisation succeeds and no filter was added to the request before, both calls
-- return OK; the connection gets exactly the Perl filters that are marked for connections, and the
-- request exactly the others, each in the order of the configuration.
pub filter_add_levels :
    (below_protocol : Name → Bool) (name : Name) (run_init : Handler → Status)
    (cs : List Configured)
    → Initialised run_init
    → let c = filter_add_connection below_protocol run_init (some cs) in
      let r = filter_add_request name [] run_init (some cs) in
      (perl_filters c.0 ≡ of_level true cs)
      × (perl_filters r.0 ≡ of_level false cs)
      × (c.1 ≡ ok)
      × (r.1 ≡ ok)
unfolding filter_add_connection filter_add_request
filter_add_levels below_protocol name run_init cs good =
    let (perls, fine) = connection_loop_lem below_protocol run_init cs good in
    let (perls', fine') = request_loop_lem name run_init cs good in (perls, perls', fine, fine')
