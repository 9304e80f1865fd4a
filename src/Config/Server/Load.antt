-- ===== src/Config/Server/Load.antt =====
-- The loading of what PerlModule, PerlRequire and PerlPostConfigRequire name.
use mod_perl.Prelude.{
  ℕ, ◌≡◌, sym, ap, ◌∙◌, Bool, true, false, List, [], ◌∷◌, ◌++◌, if_true, if_false, Bool-cases, inl,
  inr, arith,
}
use mod_perl.Mgv.{Name}
use mod_perl.Config.Server.{apply_post_config_require}

module _ {S : Type 0} (require : S → Name → S × Bool) (sync : S → ℕ → S) where
  -- Where the files in front were all loaded and the next one was not, the loading ends with the
  -- environment of that file synced, and none behind it is tried.
  pub apply_post_config_require-stops :
      (loaded : List (Name × ℕ)) (file : Name) (dcfg : ℕ) (behind : List (Name × ℕ))
      (perl perl' : S)
      → apply_post_config_require require sync loaded perl ≡ (perl', true)
      → (require perl' file).1 ≡ false
      → apply_post_config_require require sync (loaded ++ ((file, dcfg) ∷ behind)) perl
        ≡ (sync (require perl' file).0 dcfg, false)
  unfolding apply_post_config_require
  apply_post_config_require-stops [] file dcfg behind perl perl' h k =
      let same : perl ≡ perl' = ap (λ q. q.0) h in
      let fails : (require perl file).1 ≡ false = ap (λ p. (require p file).1) same ∙ k in
      if_false _ _ _ fails ∙ ap (λ p. (sync (require p file).0 dcfg, false)) same
  apply_post_config_require-stops ((f, d) ∷ loaded) file dcfg behind perl perl' h k =
      elim (Bool-cases (require perl f).1) [
        | inl e ↦
            if_true _ _ _ e
            ∙ apply_post_config_require-stops loaded file dcfg behind (sync (require perl f).0 d)
                perl' (sym (if_true _ _ _ e) ∙ h) k
        | inr e ↦
            let both = sym (if_false _ _ _ e) ∙ h in absurd (ground (arith, ap (λ q. q.1) both))
      ]
