-- ===== src/Module/Requests.antt =====
-- What happens to the table of objects while a request is served: each address that is stored has a
-- cleanup.
use mathlib.Core.Path.{subst}
use mod_perl.Prelude.{
  ℕ, ◌≤◌, ◌<◌, ◌≡◌, refl, sym, ap, ◌∙◌, Bool, false, ◌||◌, Option, none, some, List, [], ◌∷◌, ◌==◌,
  ◌⊎◌, if◌then◌else◌, if_true, if_false, Bool-cases, Option-cases, inl, inr, arith, some_injective,
  ==_iff, update,
}
use mod_perl.Mgv.{Name, Symbol}
use mod_perl.SvptrTable.{Table, table_fetch, table_delete}
use mod_perl.SvptrTable.Valid.{IsValid}
use mod_perl.SvptrTable.Fetch.{fetch-store, fetch-delete}
use mod_perl.Module.{
  PerlCalls, text, cmd_parms, World, Used, MergeType, table_get, object, cfg_create, cleanup_loop,
  run_cleanups, merge_method, method_gv, merge_objs, merge_call, merge_used, merge_found, merge_tmp,
  config_merge, create_store, create_obj,
}

abbrev pub is_listed : List ℕ → ℕ → Bool
is_listed [] j = false
is_listed (ptr ∷ ptrs) j = (ptr == j) || is_listed ptrs j

-- A cleanup deletes what is listed and nothing else.
pub fetch-cleanup_loop :
    (ptrs : List ℕ) (table : Table) (j : ℕ)
    → IsValid table
    → table_fetch (cleanup_loop ptrs table) j
      ≡ (if is_listed ptrs j then 0 else table_fetch table j)
unfolding cleanup_loop
fetch-cleanup_loop [] table j v = refl
fetch-cleanup_loop (ptr ∷ ptrs) table j v =
    let (v', deleted, _) = fetch-delete table ptr v in
    let rest = fetch-cleanup_loop ptrs (table_delete table ptr).0 j v' in
    ground (arith, rest, deleted j)

-- A valid table that has no object for the addresses that are still to come.
pub record IsWorld {ℓ} {S : Type ℓ} (w : World S) : Type 0 where
  pub valid : IsValid (table_get w)
  pub beyond : (j : ℕ) → w.fresh ≤ j → object w j ≡ 0

module _ {ℓ} {S : Type ℓ} (calls : PerlCalls S) where
  -- What a request, or a .htaccess file, has the module do: a new configuration, a merge, and the
  -- creation of an object for a configuration that there is.
  pub data Step (w : World S) : World S → Type ℓ where
    made : Step w (cfg_create w).0
    merged :
        {w' : World S} (type : MergeType) (base add mrg : ℕ)
        → config_merge calls false type base add w ≡ some (w', mrg)
        → Step w w'
    created :
        {w' : World S} (mname : Name) (used : Used) (cfg : ℕ) (method : Option Symbol)
        → cfg < w.fresh
        → (create_obj calls false mname used cfg method w).0 ≡ w'
        → Step w w'

  pub data Reachable (w : World S) : World S → Type ℓ where
    here : Reachable w w
    next : {u v : World S} → Reachable w u → Step u v → Reachable w v

  -- What one step does to the table: nothing, or an object for an address that had none, with its
  -- cleanup.
  abbrev Kept : World S → World S → Type 0
  Kept w w' =
      ((j : ℕ) → object w' j ≡ object w j) × (w'.cleanups ≡ w.cleanups) × (w.fresh ≤ w'.fresh)

  abbrev Put : World S → World S → Type 0
  Put w w' =
      (ptr : ℕ) × (v : ℕ) × (object w ptr ≡ 0)
      × ((j : ℕ) → object w' j ≡ (if ptr == j then v else object w j))
      × (w'.cleanups ≡ ptr ∷ w.cleanups)
      × (ptr < w'.fresh)
      × (w.fresh ≤ w'.fresh)

  abbrev Change : World S → World S → Type 0
  Change w w' = IsValid (table_get w') × (Kept w w' ⊎ Put w w')

  cfg_create-Change : (w : World S) → IsWorld w → Change w (cfg_create w).0
  unfolding cfg_create
  cfg_create-Change w i = (i.valid, inl (λ j. refl, refl, omega arith))

  merge_objs-Change :
      (type : MergeType) (base add : ℕ) (used : Used) (w : World S)
      → IsWorld w
      → Change w
          (merge_objs calls false
            (merge_method type used.minfo)
            (object w base)
            (object w add)
            used
            (record w { config_table = some (table_get w) })).0
  unfolding merge_objs
  merge_objs-Change type base add used w i =
      let made =
        merge_call calls (merge_method type used.minfo) (object w base) (object w add) w.perl in
      let stored = fetch-store (table_get w) w.fresh made.1 i.valid in
      (
        stored.0,
        inr (
          w.fresh,
          made.1,
          i.beyond w.fresh (omega arith),
          stored.1,
          refl,
          omega arith,
          omega arith,
        ),
      )

  merge_used-Change :
      (type : MergeType) (base add : ℕ) (used : Used) (w : World S)
      → IsWorld w
      → Change w (merge_used calls false type base add used w).0
  unfolding merge_used
  merge_used-Change type base add used w i =
      elim (Bool-cases ((object w base == 0) || (object w base == object w add))) [
        | inl e ↦ rw e (i.valid, inl (λ j. refl, refl, omega arith))
        | inr e ↦ rw e (merge_objs-Change type base add used w i)
      ]

  merge_found-Change :
      (type : MergeType) (base add : ℕ) (w : World S) (found : Option Used)
      → IsWorld w
      → Change w (merge_found calls false type base add w found).0
  unfolding merge_found
  merge_found-Change type base add w none i = (i.valid, inl (λ j. refl, refl, omega arith))
  merge_found-Change type base add w (some used) i = merge_used-Change type base add used w i

  config_merge-Change :
      (type : MergeType) (base add mrg : ℕ) (w w' : World S)
      → IsWorld w
      → config_merge calls false type base add w ≡ some (w', mrg)
      → Change w w'
  unfolding config_merge
  config_merge-Change type base add mrg w w' i e =
      let tmp = merge_tmp calls base add w in
      let r = merge_found calls false type base add w (w.cfgs tmp) in
      elim (Bool-cases (tmp == 0)) [
        | inl null ↦
            let no : ◌≡◌ {A = Option (World S × ℕ)} none (some (w', mrg)) =
              sym (if_true (tmp == 0) none (some r) null) ∙ e in
            cc
        | inr pointed ↦
            let same = sym (if_false (tmp == 0) none (some r) pointed) ∙ e in
            subst (Change w) (ap (λ p. p.0) (some_injective r (w', mrg) same))
              (merge_found-Change type base add w (w.cfgs tmp) i)
      ]

  create_store-Change :
      (cfg obj : ℕ) (perl : S) (used : Used) (w : World S)
      → IsWorld w
      → cfg < w.fresh
      → object w cfg ≡ 0
      → Change w
          (create_store calls false cfg perl obj
            (record w { cfgs = update w.cfgs cfg (some used) })).0
  unfolding create_store
  create_store-Change cfg obj perl used w i known empty =
      let stored = fetch-store (table_get w) cfg obj i.valid in
      (stored.0, inr (cfg, obj, empty, stored.1, refl, known, omega arith))

  create_obj-Change :
      (mname : Name) (used : Used) (cfg : ℕ) (method : Option Symbol) (w : World S)
      → IsWorld w
      → cfg < w.fresh
      → Change w (create_obj calls false mname used cfg method w).0
  unfolding create_obj
  create_obj-Change mname used cfg method w i known = elim (Bool-cases (object w cfg == 0)) [
    | inr found ↦ rw found (i.valid, inl (λ j. refl, refl, omega arith))
    | inl empty ↦
        let null : object w cfg ≡ 0 = (==_iff (object w cfg) 0).0 empty in
        elim (Option-cases (method_gv calls w.perl method)) [
          | inl plain ↦
              let (perl, obj) = calls.bless_new w.perl mname in
              rw (empty, plain) (create_store-Change cfg obj perl used w i known null)
          | inr (gv, has) ↦
              let back = calls.call_sv w.perl gv (text mname ∷ cmd_parms ∷ []) in
              elim (Option-cases back.errsv) [
                | inl fine ↦
                    rw (empty, has, fine)
                      (create_store-Change cfg back.value back.perl used w i known null)
                | inr (message, died) ↦
                    rw (empty, has, died) (i.valid, inl (λ j. refl, refl, omega arith))
              ]
        ]
  ]

  Step-Change : {w w' : World S} → IsWorld w → Step w w' → Change w w'
  Step-Change {w} i made = cfg_create-Change w i
  Step-Change {w} {w'} i (merged type base add mrg e) =
      config_merge-Change type base add mrg w w' i e
  Step-Change {w} i (created mname used cfg method known e) =
      subst (Change w) e (create_obj-Change mname used cfg method w i known)

  -- What the table holds for `w0`, seen from a later state: all but what has a cleanup.
  record Traced (w0 w : World S) : Type 0 where
    world : IsWorld w
    trace : (j : ℕ) → (if is_listed w.cleanups j then 0 else object w j) ≡ object w0 j

  Change-Traced : (w0 w w' : World S) → Traced w0 w → Change w w' → Traced w0 w'
  Change-Traced w0 w w' t (v, inl (same, cleanups, fresh)) = record {
    world = record {
      valid = v;
      beyond = λ j h. same j ∙ t.world.beyond j (omega (arith, fresh, h));
    };
    trace = λ j. rw (cleanups, same j) (t.trace j);
  }
  Change-Traced w0 w w' t (v, inr (ptr, obj, empty, stored, cleanups, below, fresh)) = record {
    world = record {
      valid = v;
      beyond = λ j h.
          let old = t.world.beyond j (omega (arith, fresh, h)) in
          ground (arith, stored j, old, below);
    };
    trace = λ j. ground (arith, t.trace j, stored j, ap (λ c. is_listed c j) cleanups, empty);
  }

  Reachable-Traced : {w0 w : World S} → IsWorld w0 → w0.cleanups ≡ [] → Reachable w0 w → Traced w0 w
  Reachable-Traced i none_yet here = record { world = i; trace = λ j. rw none_yet refl }
  Reachable-Traced {w0} {w} i none_yet (next {u} r step) =
      let t = Reachable-Traced i none_yet r in Change-Traced w0 u w t (Step-Change t.world step)

  -- Where a request begins with a valid table that has nothing for fresh addresses, and with no
  -- cleanup registered, then whatever configurations it makes, merges and creates objects for, the
  -- table has behind the cleanups the objects that it had at first.
  pub object-run_cleanups :
      {w0 w : World S} (j : ℕ)
      → IsWorld w0
      → w0.cleanups ≡ []
      → Reachable w0 w
      → object (run_cleanups w) j ≡ object w0 j
  unfolding run_cleanups
  object-run_cleanups {w0} {w} j i none_yet r =
      let t = Reachable-Traced i none_yet r in
      fetch-cleanup_loop w.cleanups (table_get w) j t.world.valid ∙ t.trace j
