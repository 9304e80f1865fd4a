-- ===== src/Callback.antt =====
-- src/modules/perl/modperl_callback.c: the call of one handler, and the run of a phase's handlers
-- with the rule by which a status ends it.
pub mod Runs
pub mod Exit
pub mod Tests
use mod_perl.Prelude.{
  ℕ, zero, suc, ◌+◌, Bool, true, false, not, ◌&&◌, ◌||◌, Option, none, some, List, [], ◌∷◌, ◌++◌,
  if◌then◌else◌, ltb, length,
}
use mod_perl.Status.{
  Status, ok, declined, is_ok, is_declined, same_status, http_internal_server_error,
}
use mod_perl.Handler.{Handler}
use mod_perl.Handler.Lookup.{HandlerType, files}

-- modperl_hook_run_mode_e.
pub data RunMode : Type 0 where
  run_all run_first run_void : RunMode

-- How the call of a Perl sub came back: a number, or nothing (undef, which ModPerl::Util::exit and a
-- croak also leave); and whether $@ is set.
pub record Called : Type 0 where
  pub value : Option Status
  pub errsv : Bool

-- The status of the call itself: where the lookup of the sub failed there is no call.
abbrev pub returned_status : Option Called → Status
returned_status none = http_internal_server_error
returned_status (some called) = elim called.value [ none ↦ ok | some value ↦ value ]

abbrev pub thrown : Option Called → Bool → Bool
thrown none errsv = errsv
thrown (some called) errsv = called.errsv

-- modperl_callback behind the resolution of the handler: `resolved` is its status, `code` the call
-- of the sub that was looked up, or `none` where the lookup failed, with $@ as it was then.
pub callback : Status → Option Called → Bool → Status
callback resolved code errsv =
    if not (is_ok resolved)
    then resolved
    else if thrown code errsv
    then http_internal_server_error
    else returned_status code

-- modperl_errsv: $@ true, and an APR::Error with the code of ModPerl::Util::exit.
pub errsv_status : Bool → Bool → Status → Status
errsv_status errsv exited status = if errsv && exited then ok else status

-- What the run of a phase depends on. The state of Perl and of the configurations is `S`, which a
-- handler changes when it is called.
pub record Phase {ℓ} (S : Type ℓ) : Type ℓ where
  pub call : Handler → S → S × Status
  pub handlers : S → Option (List Handler)
  pub errsv : S → Bool
  pub errsv_of : S → Status → Status

abbrev pub nth : List Handler → ℕ → Option Handler
nth [] i = none
nth (h ∷ hs) zero = some h
nth (h ∷ hs) (suc i) = nth hs i

-- Whether the status of a handler ends the phase, and the status that the phase then returns.
pub after_call {ℓ} : {S : Type ℓ} → Phase S → RunMode → HandlerType → S → Status → Bool × Status
after_call phase run_all files s status =
    let logged = if phase.errsv s then phase.errsv_of s status else status in
    if is_ok status then (false, status) else (true, logged)
after_call phase run_all type s status =
    if is_ok status || is_declined status then (false, status) else (true, phase.errsv_of s status)
after_call phase run_first type s status =
    if is_ok status
    then (true, status)
    else if is_declined status
    then (false, status)
    else (true, phase.errsv_of s status)
after_call phase run_void type s status = (false, status)

-- `if (avp && (av = *avp))`.
abbrev pub updated : Option (List Handler) → List Handler → List Handler
updated none av = av
updated (some av') av = av'

module _ {ℓ} {S : Type ℓ} (phase : Phase S) (mode : RunMode) (type : HandlerType) where
  -- The loop from index `i` on, at most `fuel` handlers long; `none` stands for a run that goes on.
  pub run_from : ℕ → ℕ → List Handler → Status → S → Option (S × Status)
  unfolding after_call
  run_from zero i av status s = elim (nth av i) [ none ↦ some (s, status) | some h ↦ none ]
  run_from (suc fuel) i av status s = elim (nth av i) [
    | none ↦ some (s, status)
    | some h ↦
        let (s', returned) = phase.call h s in
        let (ended, status') = after_call phase mode type s' returned in
        let go_on = run_from fuel (suc i) (updated (phase.handlers s') av) status' s' in
        if ended then some (s', status') else go_on
  ]

  -- modperl_callback_run_handlers; `enabled` is MpSrvENABLE.
  unfoldable pub run_handlers : ℕ → Bool → S → Option (S × Status)
  unfolding run_from
  run_handlers fuel enabled s =
      let run = elim (phase.handlers s) as (λ _. Option (S × Status)) [
        | none ↦ some (s, declined)
        | some av ↦ run_from fuel 0 av ok s
      ] in
      if not enabled then some (s, declined) else run
