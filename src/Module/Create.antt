-- ===== src/Module/Create.antt =====
-- The object of a configuration is made once.
use mathlib.Core.Path.{subst}
use mod_perl.Prelude.{
  ℕ, ◌≡◌, ◌≢◌, refl, ap, ◌∙◌, Bool, false, Option, none, some, ◌∷◌, [], ◌==◌, ==_refl, if_true,
  if_false, Bool-cases, Option-cases, inl, inr, update, arith,
}
use mod_perl.Mgv.{Name, Symbol}
use mod_perl.SvptrTable.Valid.{IsValid}
use mod_perl.SvptrTable.Fetch.{fetch-store}
use mod_perl.Module.{
  PerlCalls, text, cmd_parms, World, Used, table_get, object, method_gv, create_store, create_obj,
}

module _ {ℓ} {S : Type ℓ} (calls : PerlCalls S) (mname : Name) where
  -- What a creation leaves: the object that it gives stands in the table, unless it gives a message.
  Stands : World S → ℕ → World S × ℕ × Option Name → Type 0
  Stands w cfg (w', obj, none) = object w' cfg ≡ obj
  Stands w cfg (w', obj, some e) = object w' cfg ≡ object w cfg

  create_store-Stands :
      (is_startup : Bool) (cfg obj : ℕ) (perl : S) (used : Used) (w : World S)
      → IsValid (table_get w)
      → Stands w cfg (
          create_store calls is_startup cfg perl obj
            (record w { cfgs = update w.cfgs cfg (some used) }))
  unfolding create_store Stands
  create_store-Stands is_startup cfg obj perl used w v =
      (fetch-store (table_get w) cfg obj v).1 cfg ∙ if_true _ _ _ (==_refl cfg)

  create_obj-Stands :
      (is_startup : Bool) (used : Used) (cfg : ℕ) (method : Option Symbol) (w : World S)
      → IsValid (table_get w)
      → Stands w cfg (create_obj calls is_startup mname used cfg method w)
  unfolding create_obj Stands
  create_obj-Stands is_startup used cfg method w v = elim (Bool-cases (object w cfg == 0)) [
    | inr found ↦ rw found refl
    | inl empty ↦ elim (Option-cases (method_gv calls w.perl method)) [
      | inl plain ↦
          let (perl, obj) = calls.bless_new w.perl mname in
          rw (empty, plain) (create_store-Stands is_startup cfg obj perl used w v)
      | inr (gv, has) ↦
          let back = calls.call_sv w.perl gv (text mname ∷ cmd_parms ∷ []) in
          elim (Option-cases back.errsv) [
            | inl fine ↦
                rw (empty, has, fine)
                  (create_store-Stands is_startup cfg back.value back.perl used w v)
            | inr (message, died) ↦ rw (empty, has, died) refl
          ]
    ]
  ]

  -- Once the creation of an object for a configuration has given one, without a message, the next
  -- directive gets the same object, whatever method and server it has, and nothing is called or
  -- changed for it.
  pub create_obj_again :
      (is_startup again : Bool) (used other : Used) (cfg obj : ℕ) (method next : Option Symbol)
      (w w' : World S)
      → IsValid (table_get w)
      → create_obj calls is_startup mname used cfg method w ≡ (w', obj, none)
      → obj ≢ 0
      → create_obj calls again mname other cfg next w' ≡ (w', obj, none)
  unfolding create_obj
  create_obj_again is_startup again used other cfg obj method next w w' v e given =
      let stands : object w' cfg ≡ obj =
        unfold Stands in
        subst (Stands w cfg) e (create_obj-Stands is_startup used cfg method w v) in
      let found : (object w' cfg == 0) ≡ false = ground arith in
      if_false _ _ _ found ∙ ap (λ o. (w', o, none)) stands
