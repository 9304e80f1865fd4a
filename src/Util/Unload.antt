-- ===== src/Util/Unload.antt =====
-- modperl_package_unload, with what it does to the arrays of DynaLoader.
use mod_perl.Prelude.{
  ℕ, zero, suc, ◌-◌, ◌≡◌, refl, ap, ◌∙◌, Bool, false, not, ◌&&◌, ◌||◌, Option, none, some, List, [],
  ◌∷◌, ◌++◌, ◌==◌, length, take, drop, if◌then◌else◌, arith, ap₂,
}
use mod_perl.Mgv.{Name, colon, same_name}
use mod_perl.Util.{package2filename}

module _ {ℓ} {A : Type ℓ} where
  -- av_unshift makes room in front, here with `blank`; a number that is not positive makes none.
  abbrev pub av_unshift : A → ℕ → List A → List A
  av_unshift blank zero av = av
  av_unshift blank (suc n) av = blank ∷ av_unshift blank n av

  -- `for (i=0; i<index; i++) av_store(av, i, ...)`: the first entries are written over.
  pub store_front : List A → List A → List A
  store_front [] av = av
  store_front (x ∷ xs) [] = x ∷ store_front xs []
  store_front (x ∷ xs) (y ∷ av) = x ∷ store_front xs av

  -- modperl_av_remove_entry: the entries up to `index` are shifted off, and all of them but the last
  -- are stored again, in front of what was left.
  pub av_remove_entry : A → ℕ → List A → List A
  unfolding store_front
  av_remove_entry blank index av =
      store_front (take index av) (av_unshift blank (index - 1) (drop (suc index) av))

-- The names of @dl_modules from an index on, without the last of all: modperl_package_is_dynamic.
pub is_dynamic_from : ℕ → Name → List Name → Option ℕ
is_dynamic_from i pkg [] = none
is_dynamic_from i pkg (m ∷ []) = none
is_dynamic_from i pkg (m ∷ (n ∷ ms)) =
    let rest = is_dynamic_from (suc i) pkg (n ∷ ms) in if same_name pkg m then some i else rest

pub package_is_dynamic : Name → List Name → Option ℕ
unfolding is_dynamic_from
package_is_dynamic pkg modules = is_dynamic_from 0 pkg modules

-- An entry of a stash: its key, and whether its glob belongs to this stash.
pub record Glob : Type 0 where
  pub key : Name
  pub own : Bool

abbrev ends_with_colons : Name → Bool
ends_with_colons [] = false
ends_with_colons (c ∷ []) = false
ends_with_colons (c ∷ (d ∷ [])) = (c == colon) && (d == colon)
ends_with_colons (c ∷ (d ∷ (e ∷ key))) = ends_with_colons (d ∷ (e ∷ key))

abbrev is_debugger : Name → Bool
is_debugger [] = false
is_debugger (c ∷ []) = false
is_debugger (c ∷ (d ∷ key)) = (c == b'_') && (d == b'<')

-- MP_SAFE_STASH.
abbrev pub is_safe : Name → Bool
is_safe key = not (ends_with_colons key || is_debugger key)

pub clear_stash : List Glob → List Glob
clear_stash [] = []
clear_stash (g ∷ stash) =
    let rest = clear_stash stash in if is_safe g.key && g.own then rest else g ∷ rest

-- What of the interpreter it changes: the stashes by the package, %INC, the arrays of DynaLoader,
-- and the handles that were closed.
pub record Loaded : Type 0 where
  pub stash : Name → Option (List Glob)
  pub inc : List Name
  pub librefs : List ℕ
  pub modules : List Name
  pub closed : List ℕ

pub delete_name : Name → List Name → List Name
delete_name name [] = []
delete_name name (n ∷ ns) =
    let rest = delete_name name ns in if same_name name n then rest else n ∷ rest

abbrev nth_handle : List ℕ → ℕ → ℕ
nth_handle [] i = 0
nth_handle (h ∷ hs) zero = h
nth_handle (h ∷ hs) (suc i) = nth_handle hs i

pub unload_dynamic : ℕ → Loaded → Loaded
unfolding av_remove_entry
unload_dynamic dl_index l = record l {
  librefs = av_remove_entry 0 dl_index l.librefs;
  modules = av_remove_entry [] dl_index l.modules;
  closed = nth_handle l.librefs dl_index ∷ l.closed;
}

pub package_unload : Name → Loaded → Loaded
unfolding clear_stash delete_name package_is_dynamic unload_dynamic package2filename
package_unload pkg l =
    let cleared = record l {
      stash = λ name.
          if same_name name pkg
          then (elim (l.stash name) [ none ↦ none | some globs ↦ some (clear_stash globs) ])
          else l.stash name;
      inc = delete_name (package2filename pkg) l.inc;
    } in
    elim (package_is_dynamic pkg l.modules) [
      | none ↦ cleared
      | some dl_index ↦ unload_dynamic dl_index cleared
    ]

module _ {ℓ} {A : Type ℓ} where
  store_front-short :
      (blank x : A) (xs : List A) (y : A) (av : List A)
      → store_front (x ∷ xs) (av_unshift blank (length xs) (y ∷ av)) ≡ x ∷ (xs ++ av)
  unfolding store_front
  store_front-short blank x [] y av = refl
  store_front-short blank x (z ∷ xs) y av = ap (λ l. x ∷ l) (store_front-short blank z xs y av)

  take-length : (xs ys : List A) → take (length xs) (xs ++ ys) ≡ xs
  take-length [] ys = refl
  take-length (x ∷ xs) ys = ap (λ l. x ∷ l) (take-length xs ys)

  drop-length : (xs : List A) (y : A) (ys : List A) → drop (suc (length xs)) (xs ++ (y ∷ ys)) ≡ ys
  drop-length [] y ys = refl
  drop-length (x ∷ xs) y ys = drop-length xs y ys

  -- The removal of the entry at `length xs` is right at the front of the array; behind at least one
  -- entry it removes the next entry too, if there is one.
  pub av_remove_entry_lem :
      (blank x gone : A) (xs : List A) (next : A) (av : List A)
      → (av_remove_entry blank 0 (gone ∷ (next ∷ av)) ≡ next ∷ av)
        × (av_remove_entry blank (length (x ∷ xs)) ((x ∷ xs) ++ (gone ∷ (next ∷ av)))
            ≡ (x ∷ xs) ++ av)
  unfolding av_remove_entry store_front
  av_remove_entry_lem blank x gone xs next av = (
    refl,
    let room : suc (length xs) - 1 ≡ length xs = omega arith in
        ap
          (λ n.
            store_front (take (suc (length xs)) (x ∷ (xs ++ (gone ∷ (next ∷ av))))) (
              av_unshift blank n (drop (suc (suc (length xs))) (x ∷ (xs ++ (gone ∷ (next ∷ av)))))))
          room
        ∙ ap₂ (λ front back. store_front front (av_unshift blank (length xs) back))
            (take-length (x ∷ xs) (gone ∷ (next ∷ av))) (drop-length (x ∷ xs) gone (next ∷ av))
        ∙ store_front-short blank x xs next av,
  )
