-- ===== src/Module/Merge.antt =====
-- What a merge of two configurations leaves in the table of objects.
use mod_perl.Prelude.{refl, ℕ, ◌≡◌, ap, ◌∙◌, Bool, Option, none, some, [], ◌∷◌, ◌==◌, if◌then◌else◌}
use mod_perl.Mgv.{Name, Symbol}
use mod_perl.SvptrTable.Valid.{IsValid}
use mod_perl.SvptrTable.Fetch.{fetch-store}
use mod_perl.Module.{
  PerlCalls, Returned, sv, World, Used, MergeType, merge_dir, merge_srv, table_get, object,
  merge_method, merge_call, merge_objs, method_gv,
}

module _ {ℓ} {S : Type ℓ} (calls : PerlCalls S) where
  -- The method of a module for the merge of two of its configurations.
  abbrev pub wanted_method : MergeType → Used → Option Symbol
  wanted_method merge_dir used = used.minfo.dir_merge
  wanted_method merge_srv used = used.minfo.srv_merge

  -- What is to become of the objects of the base and of the section: the method is called with both, in
  -- this order, and what it returns is the new object, $@ being logged; without a method, or a sub
  -- of its name, it is the section's object, and Perl is not called.
  abbrev pub wanted_merge : Option Symbol → ℕ → ℕ → S → S × ℕ
  wanted_merge none base_obj add_obj perl = (perl, add_obj)
  wanted_merge (some method) base_obj add_obj perl = elim (calls.mgv_lookup perl method) [
    | none ↦ (perl, add_obj)
    | some gv ↦
        let back = calls.call_sv perl gv (sv base_obj ∷ (sv add_obj ∷ [])) in
        elim back.errsv [
          | none ↦ (back.perl, back.value)
          | some e ↦ (calls.log_errsv back.perl, back.value)
        ]
  ]

  abbrev pub merged : MergeType → Used → ℕ → ℕ → World S → S × ℕ
  merged type used base add w =
      wanted_merge (wanted_method type used) (object w base) (object w add) w.perl

  wanted_method_lem :
      (type : MergeType) (used : Used) → merge_method type used.minfo ≡ wanted_method type used
  wanted_method_lem merge_dir used = refl
  wanted_method_lem merge_srv used = refl

  merge_call_lem :
      (method : Option Symbol) (base_obj add_obj : ℕ) (perl : S)
      → merge_call calls method base_obj add_obj perl ≡ wanted_merge method base_obj add_obj perl
  unfolding merge_call method_gv
  merge_call_lem none base_obj add_obj perl = refl
  merge_call_lem (some method) base_obj add_obj perl = go (calls.mgv_lookup perl method)
    where
      back : ℕ → Returned S
      back gv = calls.call_sv perl gv (sv base_obj ∷ (sv add_obj ∷ []))

      logged :
          (b : Returned S) (e : Option Name)
          → (elim e as (λ _. S) [ none ↦ b.perl | some e ↦ calls.log_errsv b.perl ], b.value)
            ≡ (elim e as (λ _. S × ℕ) [
              | none ↦ (b.perl, b.value)
              | some e ↦ (calls.log_errsv b.perl, b.value)
            ])
      logged b none = refl
      logged b (some e) = refl

      go :
          (gv : Option ℕ)
          → (elim gv as (λ _. S × ℕ) [
            | none ↦ (perl, add_obj)
            | some gv ↦ (
              elim (back gv).errsv as (λ _. S) [
                | none ↦ (back gv).perl
                | some e ↦ calls.log_errsv (back gv).perl
              ],
              (back gv).value,
            )
          ])
            ≡ (elim gv as (λ _. S × ℕ) [
              | none ↦ (perl, add_obj)
              | some gv ↦ elim (back gv).errsv as (λ _. S × ℕ) [
                | none ↦ ((back gv).perl, (back gv).value)
                | some e ↦ (calls.log_errsv (back gv).perl, (back gv).value)
              ]
            ])
      go none = refl
      go (some gv) = logged (back gv) (back gv).errsv

  merged_lem :
      (type : MergeType) (used : Used) (base add : ℕ) (w : World S)
      → merge_call calls (merge_method type used.minfo) (object w base) (object w add) w.perl
        ≡ merged type used base add w
  merged_lem type used base add w =
      ap (λ m. merge_call calls m (object w base) (object w add) w.perl)
        (wanted_method_lem type used)
      ∙ merge_call_lem (wanted_method type used) (object w base) (object w add) w.perl

  pub object-merge_objs :
      (is_startup : Bool) (type : MergeType) (base add : ℕ) (used : Used) (w : World S) (j : ℕ)
      → IsValid (table_get w)
      → let made = record w { config_table = some (table_get w) } in
        let after =
          (merge_objs calls is_startup
            (merge_method type used.minfo)
            (object w base)
            (object w add)
            used
            made).0 in
        IsValid (table_get after)
        × (object after j ≡ (if w.fresh == j then (merged type used base add w).1 else object w j))
  unfolding merge_objs
  object-merge_objs is_startup type base add used w j v =
      let made =
        merge_call calls (merge_method type used.minfo) (object w base) (object w add) w.perl in
      let stored = fetch-store (table_get w) w.fresh made.1 v in
      (
        stored.0,
        stored.1 j
            ∙ ap (λ (m : S × ℕ). if w.fresh == j then m.1 else object w j)
                (merged_lem type used base add w),
      )
