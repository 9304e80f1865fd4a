-- ===== src/Callback/Tests.antt =====
-- The runs of a phase of two handlers, the first of which declines.
use mod_perl.Prelude.{
  none, ℕ, suc, ◌≤◌, ◌≡◌, refl, true, false, none, some, List, [], ◌∷◌, ◌==◌, if◌then◌else◌, length,
  arith,
}
use mod_perl.Status.{Status, ok, declined}
use mod_perl.Mgv.{Name}
use mod_perl.Handler.{Handler}
use mod_perl.Handler.Lookup.{per_dir}
use mod_perl.Callback.{Called, Phase, run_first, run_handlers}
use mod_perl.Callback.Runs.{results, verdict, run_handlers-verdict, run_handlers-ends}

abbrev named : Name → Handler
named name = record {
  mgv_obj = none;
  mgv_cv = none;
  name = name;
  autoload = false;
  dynamic = false;
  attrs = 0;
}

abbrev two : List Handler
two = named [] ∷ (named (b'A' ∷ []) ∷ [])

abbrev counted : ℕ → ℕ × Status
counted s = (suc s, if s == 0 then declined else ok)

-- The state counts the calls; the first handler that is called declines, the second is OK.
abbrev toy : Phase ℕ
toy = record {
  call = λ h s. counted s;
  handlers = λ s. some two;
  errsv = λ s. false;
  errsv_of = λ s status. status;
}

run_handlers-verdict_example :
    run_handlers toy run_first per_dir 2 true 0
    ≡ some (verdict toy run_first per_dir (0, ok) (results toy 0 two))
run_handlers-verdict_example = run_handlers-verdict toy run_first per_dir two 0 (λ s. refl)

-- Both handlers are called.
verdict_of_two : verdict toy run_first per_dir (0, ok) (results toy 0 two) ≡ (2, ok)
verdict_of_two = refl

toy-Bounded : (s : ℕ) (av : List Handler) → toy.handlers s ≡ some av → length av ≤ 2
toy-Bounded s av e = ground arith

run_handlers-ends_example :
    (r : ℕ × Status) × (run_handlers toy run_first per_dir 2 true 0 ≡ some r)
run_handlers-ends_example = run_handlers-ends toy run_first per_dir 2 true 0 toy-Bounded

-- A sub that calls ModPerl::Util::exit.
abbrev exits : Called
exits = record { value = none; errsv = true }
