-- ===== src/Tipool/Destroy.antt =====
-- src/modules/perl/modperl_tipool.c: modperl_tipool_destroy.
use mod_perl.Prelude.{ℕ, ◌+◌, ◌-◌, ◌≤◌, ◌≡◌, Option, none, some, List, [], ◌∷◌, length, arith}
use mod_perl.Tipool.{Node, Tipool}
use mod_perl.Tipool.Valid.{IsPool}

module _ {ℓ} {W : Type ℓ} (destroy : Option (ℕ → W → W)) where
  -- The call of `func->tipool_destroy` for one item, if there is such a function.
  destroy_item : ℕ → W → W
  destroy_item item w = elim destroy [ none ↦ w | some f ↦ f item w ]

  -- The loop over the idle list, which frees each node: the size and the rest of the state.
  destroy_loop : List Node → ℕ → W → ℕ × W
  unfolding destroy_item
  destroy_loop [] size w = (size, w)
  destroy_loop (n ∷ idle) size w = destroy_loop idle (size - 1) (destroy_item n.item w)

  tipool_destroy : Tipool → W → Tipool × W
  unfolding destroy_loop
  tipool_destroy p w =
      let (size, w') = destroy_loop p.idle p.size w in (record p { idle = []; size = size }, w')

  destroy_loop-size :
      (idle : List Node) (size : ℕ) (w : W)
      → length idle ≤ size
      → (destroy_loop idle size w).0 + length idle ≡ size
  unfolding destroy_loop
  destroy_loop-size [] size w h = omega arith
  destroy_loop-size (n ∷ idle) size w h =
      omega (arith, destroy_loop-size idle (size - 1) (destroy_item n.item w) (omega arith))

  -- A pool that is destroyed keeps its invariant, and counts as many items as are still in use.
  tipool_destroy-IsPool :
      (p : Tipool) (w : W)
      → IsPool p
      → let after = (tipool_destroy p w).0 in IsPool after × (after.size ≡ after.in_use)
  unfolding tipool_destroy
  tipool_destroy-IsPool p w v =
      let sized = destroy_loop-size p.idle p.size w (omega (arith, v.sized)) in
      (
        record {
          sized = omega (arith, sized, v.sized);
          used = v.used;
          once = λ a. omega (arith, v.once a);
          unused = λ a h. omega (arith, v.unused a h);
        },
        omega (arith, sized, v.sized, v.used),
      )
