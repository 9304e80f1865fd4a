-- ===== src/Handler.antt =====
-- src/modules/perl/modperl_handler.c: handlers, the merging of their arrays, and the array that
-- $r->push_handlers, $s->set_handlers and the phases themselves work on.
pub mod Merge
pub mod Lookup
pub mod Tests
use mod_perl.Prelude.{
  ℕ, Bool, true, false, Option, none, some, List, [], ◌∷◌, ◌++◌, ◌==◌, if◌then◌else◌, get_or, set,
}
use mod_perl.Mgv.{Name, Symbol, same_name, mgv_equal}

-- modperl_handler_t, without `cv`, `next` and the flags that nothing here reads. `name` is `[]` for
-- an anonymous sub.
pub record Handler : Type 0 where
  pub mgv_obj : Option Symbol
  pub mgv_cv : Option Symbol
  pub name : Name
  pub autoload : Bool
  pub dynamic : Bool
  pub attrs : ℕ

-- '+' and '-'.
abbrev plus : ℕ
plus = 43

abbrev minus : ℕ
minus = 45

abbrev fresh : Name → Bool → Handler
fresh name autoload = record {
  mgv_obj = none;
  mgv_cv = none;
  name = name;
  autoload = autoload;
  dynamic = false;
  attrs = 0;
}

unfoldable pub handler_new : Name → Handler
handler_new [] = fresh [] false
handler_new (c ∷ name) =
    if c == plus
    then fresh name true
    else if c == minus
    then fresh name false
    else fresh (c ∷ name) false

pub handler_dup : Handler → Handler
unfolding handler_new
handler_dup h = handler_new h.name

pub handler_equal : Handler → Handler → Bool
handler_equal h1 h2 = elim h1.mgv_cv [
  | none ↦ same_name h1.name h2.name
  | some mgv1 ↦ elim h2.mgv_cv [
    | none ↦ same_name h1.name h2.name
    | some mgv2 ↦ mgv_equal mgv1 mgv2
  ]
]

-- The inner loop of modperl_handler_array_merge: what it pushes for one handler of the base.
pub merge_one : Handler → List Handler → List Handler
unfolding handler_equal
merge_one base [] = []
merge_one base (add ∷ adds) =
    let rest = merge_one base adds in if handler_equal base add then rest else add ∷ rest

pub merge_loop : List Handler → List Handler → List Handler
unfolding merge_one
merge_loop [] adds = []
merge_loop (base ∷ bases) adds = merge_one base adds ++ merge_loop bases adds

-- `none` is NULL.
pub handler_array_merge : Option (List Handler) → Option (List Handler) → Option (List Handler)
unfolding merge_loop
handler_array_merge base_a none = base_a
handler_array_merge none (some add) = some add
handler_array_merge (some base) (some add) = some (base ++ merge_loop base add)
