-- ===== src/Callback/Runs.antt =====
-- Which handler ends a phase, and with what status; and that a phase ends at all.
use mod_perl.Prelude.{
  ℕ, zero, suc, drop, ◌+◌, ◌≤◌, ◌≡◌, inl, inr, refl, Bool, true, false, not, ◌||◌, none, some, List,
  [], ◌∷◌, if◌then◌else◌, length, Bool-cases, Option-cases, arith,
}
use mod_perl.Status.{Status, ok, declined, is_ok, is_declined, pos, negsuc}
use mod_perl.Handler.{Handler}
use mod_perl.Handler.Lookup.{
  HandlerType, per_dir, per_srv, pre_connection, connection, files, process,
}
use mod_perl.Callback.{
  Phase, RunMode, run_all, run_first, run_void, after_call, nth, updated, run_from, run_handlers,
}

ok_or_declined : (status : Status) → is_ok status ≡ true → is_declined status ≡ false
ok_or_declined (pos n) h = refl
ok_or_declined (negsuc n) h = absurd (ground arith)

module _ {ℓ} {S : Type ℓ} (phase : Phase S) where
  -- The states and statuses of the handlers, were all of them called.
  abbrev pub results : S → List Handler → List (S × Status)
  results s [] = []
  results s (h ∷ hs) = phase.call h s ∷ results (phase.call h s).0 hs

  -- The statuses that end a phase: for run-first handlers all but DECLINED; for run-all handlers the
  -- errors, to which DECLINED belongs at the phases of the configuration files; for others none.
  abbrev pub ends : RunMode → HandlerType → Status → Bool
  ends run_first type status = not (is_declined status)
  ends run_all files status = not (is_ok status)
  ends run_all _ status = not (is_ok status || is_declined status)
  ends run_void type status = false

  -- What is made of an ending status: an error goes through modperl_errsv, except that the phases
  -- of the configuration files ask $@ first.
  abbrev pub answer : RunMode → HandlerType → S → Status → Status
  answer run_all files s status = if phase.errsv s then phase.errsv_of s status else status
  answer mode type s status = if is_ok status then status else phase.errsv_of s status

  -- The first of the results that ends the phase, or else the last of them.
  abbrev pub verdict : RunMode → HandlerType → S × Status → List (S × Status) → S × Status
  verdict mode type so_far [] = so_far
  verdict mode type so_far (r ∷ rs) =
      if ends mode type r.1 then (r.0, answer mode type r.0 r.1) else verdict mode type r rs

  after_call_lem :
      (mode : RunMode) (type : HandlerType) (s : S) (status : Status)
      → after_call phase mode type s status
        ≡ (if ends mode type status then (true, answer mode type s status) else (false, status))
  unfolding after_call
  after_call_lem run_all per_dir s status = ground arith
  after_call_lem run_all per_srv s status = ground arith
  after_call_lem run_all pre_connection s status = ground arith
  after_call_lem run_all connection s status = ground arith
  after_call_lem run_all files s status = ground arith
  after_call_lem run_all process s status = ground arith
  after_call_lem run_first type s status = ground (arith, ok_or_declined status)
  after_call_lem run_void type s status = refl

  nth-nil : (av : List Handler) (i : ℕ) → drop i av ≡ [] → nth av i ≡ none
  nth-nil [] zero e = refl
  nth-nil [] (suc i) e = refl
  nth-nil (h ∷ av) zero e = absurd (ground arith)
  nth-nil (h ∷ av) (suc i) e = nth-nil av i e

  nth-cons :
      (av : List Handler) (i : ℕ) (h : Handler) (hs : List Handler)
      → drop i av ≡ h ∷ hs
      → nth av i ≡ some h
  nth-cons [] zero h hs e = absurd (ground arith)
  nth-cons [] (suc i) h hs e = absurd (ground arith)
  nth-cons (g ∷ av) zero h hs e = ground arith
  nth-cons (g ∷ av) (suc i) h hs e = nth-cons av i h hs e

  drop-cons :
      (av : List Handler) (i : ℕ) (h : Handler) (hs : List Handler)
      → drop i av ≡ h ∷ hs
      → drop (suc i) av ≡ hs
  drop-cons [] zero h hs e = absurd (ground arith)
  drop-cons [] (suc i) h hs e = absurd (ground arith)
  drop-cons (g ∷ av) zero h hs e = ground arith
  drop-cons (g ∷ av) (suc i) h hs e = drop-cons av i h hs e

  -- The handlers stay what they are, whatever is called.
  abbrev pub Constant : List Handler → Type ℓ
  Constant av = (s : S) → phase.handlers s ≡ some av

  run_from_lem :
      (mode : RunMode) (type : HandlerType) (av hs : List Handler) (i : ℕ) (status : Status) (s : S)
      → Constant av
      → drop i av ≡ hs
      → run_from phase mode type (length hs) i av status s
        ≡ some (verdict mode type (s, status) (results s hs))
  unfolding run_from
  run_from_lem mode type av [] i status s c e = rw (nth-nil av i e, run_from) refl
  run_from_lem mode type av (h ∷ hs) i status s c e =
      let (s', returned) = phase.call h s in
      let go_on = run_from_lem mode type av hs (suc i) returned s' c (drop-cons av i h hs e) in
      rw (nth-cons av i h hs e, run_from)
        (rw (after_call_lem mode type s' returned, c s')
          (elim (Bool-cases (ends mode type returned)) [
            | inl ended ↦ rw ended refl
            | inr continued ↦ rw continued go_on
          ]))

  -- In a server with Perl enabled, where no call changes the phase's handlers, the phase ends
  -- within as many calls as it has handlers, and it returns the verdict on their results: what the
  -- first one that ends it answers, or else the status of the last one.
  pub run_handlers-verdict :
      (mode : RunMode) (type : HandlerType) (av : List Handler) (s : S)
      → Constant av
      → run_handlers phase mode type (length av) true s
        ≡ some (verdict mode type (s, ok) (results s av))
  unfolding run_handlers
  run_handlers-verdict mode type av s c = rw (c s) (run_from_lem mode type av av 0 ok s c refl)

  -- The phase never has more than `n` handlers, whatever the handlers push.
  abbrev pub Bounded : ℕ → Type ℓ
  Bounded n = (s : S) (av : List Handler) → phase.handlers s ≡ some av → length av ≤ n

  nth-past : (av : List Handler) (i : ℕ) → length av ≤ i → nth av i ≡ none
  nth-past [] i h = refl
  nth-past (g ∷ av) zero h = absurd (omega arith)
  nth-past (g ∷ av) (suc i) h = nth-past av i (omega arith)

  updated-Bounded :
      (n : ℕ) (s : S) (av : List Handler)
      → Bounded n
      → length av ≤ n
      → length (updated (phase.handlers s) av) ≤ n
  updated-Bounded n s av b h = elim (Option-cases (phase.handlers s)) [
    | inl absent ↦ rw absent h
    | inr (av', present) ↦ rw present (b s av' present)
  ]

  run_from-ends :
      (mode : RunMode) (type : HandlerType) (n fuel i : ℕ) (av : List Handler) (status : Status)
      (s : S)
      → Bounded n
      → length av ≤ n
      → n ≤ fuel + i
      → (r : S × Status) × (run_from phase mode type fuel i av status s ≡ some r)
  unfolding run_from
  run_from-ends mode type n zero i av status s b h k =
      ((s, status), rw (nth-past av i (omega arith), run_from) refl)
  run_from-ends mode type n (suc fuel) i av status s b h k = elim (Option-cases (nth av i)) [
    | inl none_left ↦ ((s, status), rw (none_left, run_from) refl)
    | inr (g, some_left) ↦
        let (s', returned) = phase.call g s in
        let (ended, status') = after_call phase mode type s' returned in
        let (r, e) =
          run_from-ends mode type n fuel (suc i) (updated (phase.handlers s') av) status' s' b
            (updated-Bounded n s' av b h) (omega arith) in
        elim (Bool-cases ended) [
          | inl stop ↦ ((s', status'), rw (some_left, run_from) (rw stop refl))
          | inr go_on ↦ (r, rw (some_left, run_from) (rw go_on e))
        ]
  ]

  -- Handlers may push more handlers onto the phase that is running; as long as there are never more
  -- than `n`, the phase ends within `n` calls.
  pub run_handlers-ends :
      (mode : RunMode) (type : HandlerType) (n : ℕ) (enabled : Bool) (s : S)
      → Bounded n
      → (r : S × Status) × (run_handlers phase mode type n enabled s ≡ some r)
  unfolding run_handlers
  run_handlers-ends mode type n false s b = ((s, declined), refl)
  run_handlers-ends mode type n true s b = elim (Option-cases (phase.handlers s)) [
    | inl absent ↦ ((s, declined), rw absent refl)
    | inr (av, present) ↦
        let (r, e) = run_from-ends mode type n n 0 av ok s b (b s av present) (omega arith) in
        (r, rw present e)
  ]
