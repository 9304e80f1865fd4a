-- ===== src/Handler/Tests.antt =====
-- The theorems on handlers at the handlers "A" and "B".
use mod_perl.Prelude.{◌≡◌, refl, false, none, some, List, [], ◌∷◌}
use mod_perl.Mgv.{Name}
use mod_perl.Handler.{Handler, handler_equal, handler_array_merge}
use mod_perl.Handler.Merge.{Differ, handler_array_merge-Differ}
use mod_perl.Handler.Lookup.{Config, RequestConfig, Sv, pv, other_sv}

abbrev named : Name → Handler
named name = record {
  mgv_obj = none;
  mgv_cv = none;
  name = name;
  autoload = false;
  dynamic = false;
  attrs = 0;
}

abbrev a : Handler
a = named (b'A' ∷ [])

abbrev b : Handler
b = named (b'B' ∷ [])

abbrev c : Handler
c = named (b'C' ∷ [])

differ : Differ (a ∷ (b ∷ [])) (c ∷ [])
unfolding handler_equal
differ = (refl, (refl, tt))

-- The handler is pushed once for each of the two handlers of the base.
handler_array_merge-Differ_example :
    handler_array_merge (some (a ∷ (b ∷ []))) (some (c ∷ [])) ≡ some (a ∷ (b ∷ (c ∷ (c ∷ []))))
handler_array_merge-Differ_example = handler_array_merge-Differ (a ∷ (b ∷ [])) (c ∷ []) differ

abbrev configured : Config
configured = λ t i. some (a ∷ [])

abbrev nothing_yet : RequestConfig
nothing_yet = λ t i. none

abbrev args : List Sv
args = pv (b'B' ∷ []) ∷ (other_sv ∷ [])
