-- ===== src/Prelude/Update.antt =====
-- Functions of an address, changed at one address.
use Prim.Native.Nat.{ℕ}
use mathlib.Core.Path.{◌≡◌, refl}
use mathlib.Core.Logic.{◌≢◌, inl, inr}
use mathlib.Core.Bool.{false}
use native.Mathlib.Omega.{arith}
use mod_perl.Prelude.Tests.{◌==◌, ==_refl, if◌then◌else◌, Bool-cases}

module _ {ℓ} {A : Type ℓ} where
  abbrev pub update : (ℕ → A) → ℕ → A → ℕ → A
  update f a v b = if a == b then v else f b

  pub update_self : (f : ℕ → A) (a : ℕ) (v : A) → update f a v a ≡ v
  update_self f a v = rw (==_refl a) refl

  pub update_ne : (f : ℕ → A) (a b : ℕ) (v : A) → b ≢ a → update f a v b ≡ f b
  update_ne f a b v h = let other : (a == b) ≡ false = ground arith in rw other refl

  -- What holds of the new value and of the old ones holds of them all.
  pub update_all :
      (P : A → Type 0) (f : ℕ → A) (a : ℕ) (v : A)
      → P v
      → ((b : ℕ) → P (f b))
      → (b : ℕ) → P (update f a v b)
  update_all P f a v h hs b = elim (Bool-cases (a == b)) [ inl e ↦ rw e h | inr e ↦ rw e (hs b) ]
