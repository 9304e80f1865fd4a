-- ===== src/Config/Cleanup.antt =====
-- src/modules/perl/modperl_callback.c and modperl_config.c: a phase of a request with the
-- environment that is configured in front of its handlers, and the cleanup behind a request.
pub mod Tests
use mod_perl.Prelude.{
  ℕ, ◌≡◌, refl, ap, ◌∙◌, Bool, true, false, not, ◌&&◌, Option, none, some, List, if◌then◌else◌,
  if_true, Bool-cases, inl, inr,
}
use mod_perl.Mgv.{Name}
use mod_perl.Hash.{Hash}
use mod_perl.AprTable.{AprTable}
use mod_perl.Status.{Status}
use mod_perl.Handler.{Handler}
use mod_perl.Handler.Lookup.{HandlerType, per_dir, per_srv}
use mod_perl.Callback.{Phase, RunMode, run_all, run_handlers}
use mod_perl.Callback.Runs.{Bounded, run_handlers-ends}
use mod_perl.Env.{EnvRequest, configure_request_srv, configure_request_dir, request_unpopulate}
use mod_perl.Env.Populate.{is_listed}
use mod_perl.Env.Request.{variable, variable-request_unpopulate, setup_env-request_unpopulate}

module _ (H : Hash) (t : AprTable) where
  -- The tables of the configurations: the server's SetEnv and PassEnv, the directory's SetEnv.
  pub record EnvTables : Type 0 where
    pub srv_set : t.Table
    pub srv_pass : t.Table
    pub dir_set : t.Table

  -- What modperl_callback_run_handlers does to the environment in front of the loop: each flag of
  -- the request lets its part happen once.
  pub env_srv_once : EnvTables → EnvRequest H t → EnvRequest H t
  unfolding configure_request_srv
  env_srv_once tables r =
      if not r.perl_set_env_srv
      then configure_request_srv H t r tables.srv_set tables.srv_pass
      else r

  pub env_configured : EnvTables → HandlerType → EnvRequest H t → EnvRequest H t
  unfolding env_srv_once configure_request_dir
  env_configured tables per_srv r = env_srv_once tables r
  env_configured tables per_dir r =
      let srv = env_srv_once tables r in
      if not srv.perl_set_env_dir then configure_request_dir H t srv tables.dir_set else srv
  env_configured tables _ r = r

  -- The environment of a request with the rest of the state.
  abbrev pub WithEnv {ℓ} : Type ℓ → Type ℓ
  WithEnv R = EnvRequest H t × R

  abbrev pub is_some : Option (List Handler) → Bool
  is_some none = false
  is_some (some av) = true

  -- A variable behind the cleanup, when the handlers have left the environment `r`.
  abbrev pub undone : EnvRequest H t → Name → Option Name
  undone r key =
      if r.setup_env && is_listed (t.elts r.subprocess_env) key then none else variable H t r key

  module _ {ℓ} {R : Type ℓ} where
    -- `if (MpReqSETUP_ENV(rcfg))`, behind the handlers.
    pub env_undone : WithEnv R → WithEnv R
    unfolding request_unpopulate
    env_undone s = if (s.0).setup_env then (request_unpopulate H t s.0, s.1) else s

    variable-env_undone :
        (s : WithEnv R) (key : Name) → variable H t (env_undone s).0 key ≡ undone s.0 key
    unfolding env_undone
    variable-env_undone s key = elim (Bool-cases (s.0).setup_env) [
      | inl e ↦
          ap (λ (s : WithEnv R). variable H t s.0 key) (if_true _ _ _ e)
          ∙ variable-request_unpopulate H t s.0 key
      | inr e ↦ rw e refl
    ]

    setup_env-env_undone : (s : WithEnv R) → (env_undone s).0.setup_env ≡ false
    unfolding env_undone
    setup_env-env_undone s = elim (Bool-cases (s.0).setup_env) [
      | inl e ↦
          ap (λ (s : WithEnv R). s.0.setup_env) (if_true _ _ _ e)
          ∙ setup_env-request_unpopulate H t s.0
      | inr e ↦ rw e refl
    ]

  module _ {ℓ} {R : Type ℓ} (phase : Phase (WithEnv R)) (tables : EnvTables) where
    -- The state that the loop starts from: nothing is done where it does not start.
    pub phase_start : Bool → WithEnv R → WithEnv R
    unfolding env_configured
    phase_start enabled s =
        if enabled && is_some (phase.handlers s)
        then (env_configured tables per_dir s.0, s.1)
        else s

    -- modperl_callback_per_dir.
    pub callback_per_dir : RunMode → ℕ → Bool → WithEnv R → Option (WithEnv R × Status)
    unfolding phase_start run_handlers
    callback_per_dir mode fuel enabled s =
        run_handlers phase mode per_dir fuel enabled (phase_start enabled s)

    pub cleanup_behind : Option (WithEnv R × Status) → Option (WithEnv R × Status)
    unfolding env_undone
    cleanup_behind none = none
    cleanup_behind (some (s, retval)) = some (env_undone s, retval)

    -- modperl_config_request_cleanup; the phase is that of PerlCleanupHandler.
    pub config_request_cleanup : ℕ → Bool → WithEnv R → Option (WithEnv R × Status)
    unfolding callback_per_dir cleanup_behind
    config_request_cleanup fuel enabled s = cleanup_behind (callback_per_dir run_all fuel enabled s)

    -- Where the phase never has more than `n` cleanup handlers, whatever they push, the cleanup of a
    -- request ends with the status of their run; whatever that status is, behind it no variable of the
    -- request's subprocess_env is in %ENV if the handlers left it populated, the other variables are
    -- as the handlers left them, and the environment counts as not populated.
    pub config_request_cleanup_lem :
        (n : ℕ) (enabled : Bool) (s : WithEnv R) (key : Name)
        → Bounded phase n
        → (r : WithEnv R × Status) × (callback_per_dir run_all n enabled s ≡ some r)
          × (config_request_cleanup n enabled s ≡ some (env_undone r.0, r.1))
          × (variable H t (env_undone r.0).0 key ≡ undone r.0.0 key)
          × ((env_undone r.0).0.setup_env ≡ false)
    unfolding config_request_cleanup callback_per_dir
    config_request_cleanup_lem n enabled s key b =
        let (r, e) = run_handlers-ends phase run_all per_dir n enabled (phase_start enabled s) b in
        (r, e, ap cleanup_behind e, variable-env_undone r.0 key, setup_env-env_undone r.0)
