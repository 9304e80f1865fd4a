-- ===== src/Interp/Walk.antt =====
-- modperl_interp_mip_walk and _mip_walk_servers: a function is called for the Perls of each server.
use mod_perl.Prelude.{
  ℕ, ◌≡◌, refl, sym, ap, ◌∙◌, true, not, Option, none, some, List, [], ◌∷◌, ◌++◌, append-nil,
  append_assoc, ◌==◌, if◌then◌else◌, if_true, if_false, Bool-cases, inl, inr,
}

-- A pool of interpreters as the walk sees it: its address, the Perl of its parent and the Perls of
-- its idle interpreters, which are none where the MPM has no threads.
pub record Mip : Type 0 where
  pub addr : ℕ
  pub parent_perl : ℕ
  pub idle_perls : List ℕ

-- What the walk has done: the calls, the last one first, and the Perl of the thread.
pub record Walked : Type 0 where
  pub calls : List (ℕ × ℕ)
  pub context : ℕ

-- PERL_SET_CONTEXT and the call of the walker.
abbrev pub visit : Mip → ℕ → Walked → Walked
visit mip perl w = record { calls = (perl, mip.addr) ∷ w.calls; context = perl }

-- The loop over the idle list.
pub visit_idle : Mip → List ℕ → Walked → Walked
visit_idle mip [] w = w
visit_idle mip (perl ∷ perls) w = visit_idle mip perls (visit mip perl w)

-- `if (parent_perl)`.
pub visit_parent : Mip → Option ℕ → Walked → Walked
visit_parent mip none w = w
visit_parent mip (some perl) w = visit mip perl w

-- `current_perl`, for which none is NULL.
abbrev pub current_perl : Option ℕ → Walked → ℕ
current_perl none w = w.context
current_perl (some perl) w = perl

pub mip_walk : Option ℕ → Option ℕ → Mip → Walked → Walked
unfolding visit_idle visit_parent
mip_walk current parent mip w = record (visit_idle mip mip.idle_perls (visit_parent mip parent w)) {
  context = current_perl current w;
}

-- `perl`, which is NULL for a host that shares the Perl of the base.
abbrev pub own_perl : Mip → Mip → Option ℕ
own_perl base mip = if mip.parent_perl == base.parent_perl then none else some mip.parent_perl

-- The loop over the virtual hosts. `none` is the use of a NULL mip, for a host that shares the mip
-- but not the Perl of the base.
pub walk_hosts : Option ℕ → Mip → List Mip → Walked → Option Walked
unfolding mip_walk
walk_hosts current base [] w = some w
walk_hosts current base (mip ∷ hosts) w =
    let walked = walk_hosts current base hosts (mip_walk current (own_perl base mip) mip w) in
    let skipped = walk_hosts current base hosts w in
    if not (mip.addr == base.addr)
    then walked
    else if not (mip.parent_perl == base.parent_perl)
    then none
    else skipped

pub mip_walk_servers : Option ℕ → Mip → List Mip → Walked → Option Walked
unfolding walk_hosts mip_walk
mip_walk_servers current base hosts w =
    walk_hosts current base hosts (mip_walk current (some base.parent_perl) base w)

-- The calls for the idle interpreters of a pool, and for its parent, the last one first.
abbrev pub idle_calls : Mip → List ℕ → List (ℕ × ℕ)
idle_calls mip [] = []
idle_calls mip (perl ∷ perls) = idle_calls mip perls ++ ((perl, mip.addr) ∷ [])

abbrev pub parent_calls : Mip → Option ℕ → List (ℕ × ℕ)
parent_calls mip none = []
parent_calls mip (some perl) = (perl, mip.addr) ∷ []

-- The calls for the hosts: those of a host that has its own pool, for the parent only where it has
-- its own Perl.
abbrev pub host_calls : Mip → List Mip → List (ℕ × ℕ)
host_calls base [] = []
host_calls base (mip ∷ hosts) =
    host_calls base hosts
    ++ (if not (mip.addr == base.addr)
        then idle_calls mip mip.idle_perls ++ parent_calls mip (own_perl base mip)
        else [])

-- A host that shares the pool of the base shares its Perl.
abbrev pub Shares : Mip → List Mip → Type 0
Shares base [] = Unit
Shares base (mip ∷ hosts) =
    ((mip.addr == base.addr) ≡ true → (mip.parent_perl == base.parent_perl) ≡ true)
    × Shares base hosts

calls-visit_idle :
    (mip : Mip) (perls : List ℕ) (w : Walked)
    → (visit_idle mip perls w).calls ≡ idle_calls mip perls ++ w.calls
unfolding visit_idle
calls-visit_idle mip [] w = refl
calls-visit_idle mip (perl ∷ perls) w =
    calls-visit_idle mip perls (visit mip perl w)
    ∙ sym (append_assoc (idle_calls mip perls) ((perl, mip.addr) ∷ []) w.calls)

calls-visit_parent :
    (mip : Mip) (parent : Option ℕ) (w : Walked)
    → (visit_parent mip parent w).calls ≡ parent_calls mip parent ++ w.calls
unfolding visit_parent
calls-visit_parent mip none w = refl
calls-visit_parent mip (some perl) w = refl

calls-mip_walk :
    (current parent : Option ℕ) (mip : Mip) (w : Walked)
    → (mip_walk current parent mip w).calls
      ≡ (idle_calls mip mip.idle_perls ++ parent_calls mip parent) ++ w.calls
unfolding mip_walk
calls-mip_walk current parent mip w =
    calls-visit_idle mip mip.idle_perls (visit_parent mip parent w)
    ∙ ap (λ l. idle_calls mip mip.idle_perls ++ l) (calls-visit_parent mip parent w)
    ∙ sym (append_assoc (idle_calls mip mip.idle_perls) (parent_calls mip parent) w.calls)

context-mip_walk :
    (current parent : Option ℕ) (mip : Mip) (w : Walked)
    → current_perl current (mip_walk current parent mip w) ≡ current_perl current w
unfolding mip_walk
context-mip_walk none parent mip w = refl
context-mip_walk (some perl) parent mip w = refl

-- What a walk of the hosts gives: the calls for them and, at its end, the Perl `last`.
abbrev pub Walks : Option Walked → List (ℕ × ℕ) → ℕ → Type 0
Walks result calls last =
    (walked : Walked) × (result ≡ some walked) × (walked.calls ≡ calls) × (walked.context ≡ last)

walk_hosts-Shares :
    (current : Option ℕ) (base : Mip) (hosts : List Mip) (w : Walked)
    → Shares base hosts
    → current_perl current w ≡ w.context
    → Walks
        (walk_hosts current base hosts w)
        (host_calls base hosts ++ w.calls)
        (current_perl current w)
unfolding walk_hosts mip_walk
walk_hosts-Shares current base [] w h c = (w, refl, refl, sym c)
walk_hosts-Shares current base (mip ∷ hosts) w (h, hs) c =
    let rest = host_calls base hosts in
    let own = idle_calls mip mip.idle_perls ++ parent_calls mip (own_perl base mip) in
    elim (Bool-cases (mip.addr == base.addr)) [
      | inl same ↦
          let (walked, e, calls, last) = walk_hosts-Shares current base hosts w hs c in
          (
            walked,
            if_false _ _ _ (ap not same) ∙ if_false _ _ _ (ap not (h same)) ∙ e,
            calls
                ∙ ap (λ l. l ++ w.calls) (sym (append-nil rest))
                ∙ ap (λ l. (rest ++ l) ++ w.calls) (sym (if_false _ own [] (ap not same))),
            last,
          )
      | inr other ↦
          let next = mip_walk current (own_perl base mip) mip w in
          let back = context-mip_walk current (own_perl base mip) mip w in
          let (walked, e, calls, last) = walk_hosts-Shares current base hosts next hs back in
          (
            walked,
            if_true _ _ _ (ap not other) ∙ e,
            calls
                ∙ ap (λ l. rest ++ l) (calls-mip_walk current (own_perl base mip) mip w)
                ∙ sym (append_assoc rest own w.calls)
                ∙ ap (λ l. (rest ++ l) ++ w.calls) (sym (if_true _ own [] (ap not other))),
            last ∙ back,
          )
    ]

-- Where a host that shares the pool of the main server shares its Perl, the walk over the servers
-- calls its function for the Perl of the main server and the idle interpreters of its pool, and
-- then for those of each host that has its own pool, for its parent too where this has its own
-- Perl; at the end the thread has the Perl that it had, or the one that was given.
pub mip_walk_servers-Shares :
    (current : Option ℕ) (base : Mip) (hosts : List Mip) (w : Walked)
    → Shares base hosts
    → Walks
        (mip_walk_servers current base hosts w)
        (host_calls base hosts
          ++ ((idle_calls base base.idle_perls ++ parent_calls base (some base.parent_perl))
              ++ w.calls))
        (current_perl current w)
unfolding mip_walk_servers mip_walk
mip_walk_servers-Shares current base hosts w h =
    let first = mip_walk current (some base.parent_perl) base w in
    let back = context-mip_walk current (some base.parent_perl) base w in
    let (walked, e, calls, last) = walk_hosts-Shares current base hosts first h back in
    (
      walked,
      e,
      calls
          ∙ ap (λ l. host_calls base hosts ++ l)
              (calls-mip_walk current (some base.parent_perl) base w),
      last ∙ back,
    )
