-- ===== src/PerlGlobal/Globals/Bounds.antt =====
-- How `$/` goes through the 256 bytes of modperl_perl_global_svpv_t.
use mod_perl.Prelude.{
  ℕ, zero, suc, ◌≤◌, ◌≡◌, ◌↔◌, refl, sym, ap, ◌∙◌, Bool, true, false, some, List, [], ◌∷◌, ◌==◌,
  leb, leb→le, if◌then◌else◌, length, take, replicate, Bool-cases, inl, inr, arith,
}
use mod_perl.Hash.{Hash}
use mod_perl.PerlGlobal.{Perl}
use mod_perl.PerlGlobal.Globals.{
  svpv_save, svpv_restore, svpv, Globals, pv_size, strncpy, save_one, restore_one,
}

abbrev pub all_nul : List ℕ → Bool
all_nul [] = true
all_nul (c ∷ s) = if c == 0 then all_nul s else false

-- Behind its first NUL a string has nothing but NULs.
abbrev pub nul_padded : List ℕ → Bool
nul_padded [] = true
nul_padded (c ∷ s) = if c == 0 then all_nul s else nul_padded s

all_nul→replicate : (s : List ℕ) → all_nul s ≡ true → replicate (length s) 0 ≡ s
all_nul→replicate [] h = refl
all_nul→replicate (c ∷ s) h =
    let rest = all_nul→replicate s (ground arith) in let e : c ≡ 0 = ground arith in rw (e, rest)

replicate→all_nul : (s : List ℕ) → replicate (length s) 0 ≡ s → all_nul s ≡ true
replicate→all_nul [] h = refl
replicate→all_nul (c ∷ s) h =
    let heads : 0 ≡ c = ground arith in
    let tails : replicate (length s) 0 ≡ s = ground arith in
    let rest = replicate→all_nul s tails in ground (arith, rest)

take-replicate : (m n : ℕ) → m ≤ n → take {A = ℕ} m (replicate n 0) ≡ replicate m 0
take-replicate zero n h = refl
take-replicate (suc m) zero h = absurd (omega arith)
take-replicate (suc m) (suc n) h = ap (λ (l : List ℕ). 0 ∷ l) (take-replicate m n (omega arith))

pub take-strncpy :
    (n : ℕ) (s : List ℕ) → length s ≤ n → nul_padded s ≡ true → take (length s) (strncpy n s) ≡ s
unfolding strncpy
take-strncpy zero [] h p = refl
take-strncpy zero (c ∷ s) h p = absurd (omega arith)
take-strncpy (suc n) [] h p = refl
take-strncpy (suc n) (c ∷ s) h p = elim (Bool-cases (c == 0)) [
  | inl e ↦
      let nuls = all_nul→replicate (c ∷ s) (ground arith) in
      rw e (take-replicate (suc (length s)) (suc n) h ∙ nuls)
  | inr e ↦ let rest = take-strncpy n s (omega arith) (ground arith) in rw e (rw rest)
]

nul_padded-strncpy :
    (n : ℕ) (s : List ℕ) → length s ≤ n → take (length s) (strncpy n s) ≡ s → nul_padded s ≡ true
unfolding strncpy
nul_padded-strncpy zero [] h p = refl
nul_padded-strncpy zero (c ∷ s) h p = absurd (omega arith)
nul_padded-strncpy (suc n) [] h p = refl
nul_padded-strncpy (suc n) (c ∷ s) h p = elim (Bool-cases (c == 0)) [
  | inl e ↦
      let copied : strncpy (suc n) (c ∷ s) ≡ replicate (suc n) 0 = rw e refl in
      let cut = take-replicate (suc (length s)) (suc n) h in
      let nuls : 0 ∷ replicate (length s) 0 ≡ c ∷ s =
        sym cut ∙ sym (ap (take (suc (length s))) copied) ∙ p in
      let rest : replicate (length s) 0 ≡ s = ground (arith, nuls) in
      rw e (replicate→all_nul s rest)
  | inr e ↦
      let copied : strncpy (suc n) (c ∷ s) ≡ c ∷ strncpy n s = rw e refl in
      let same : c ∷ take (length s) (strncpy n s) ≡ c ∷ s =
        sym (ap (take (suc (length s))) copied) ∙ p in
      let rest : take (length s) (strncpy n s) ≡ s = ground (arith, same) in
      rw e (nul_padded-strncpy n s (omega arith) rest)
]

module _ (H : Hash) where
  -- The restore of `$/` gives back what its save read if and only if the string has at most 256
  -- bytes and nothing but NULs behind its first NUL.
  pub svpv-restored :
      (globals : Globals) (perl after : Perl H)
      → restore_one H svpv (save_one H svpv (globals, perl)).0 after
          ≡ some (record after { rs = perl.rs })
        ↔ (length perl.rs ≤ pv_size) × (nul_padded perl.rs ≡ true)
  unfolding save_one restore_one svpv_save svpv_restore
  svpv-restored globals perl after = (
    (λ h.
        let short : leb (length perl.rs) pv_size ≡ true = ground arith in
        let same : take (length perl.rs) (strncpy pv_size perl.rs) ≡ perl.rs = ground arith in
        (
          leb→le (length perl.rs) pv_size short,
          nul_padded-strncpy pv_size perl.rs (leb→le (length perl.rs) pv_size short) same,
        )),
    (λ (short, nuls). let same = take-strncpy pv_size perl.rs short nuls in ground (arith, same)),
  )
