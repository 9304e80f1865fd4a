-- ===== src/Handler/Merge.antt =====
-- The merging of the handlers of two configurations.
use mod_perl.Prelude.{
  ℕ, zero, suc, ◌≡◌, refl, ap, ◌∙◌, some, List, [], ◌∷◌, ◌++◌, if◌then◌else◌, length, arith,
}
use mod_perl.Handler.{Handler, handler_equal, merge_one, merge_loop, handler_array_merge}

-- The handlers of `adds` that differ from `base`, in their order.
abbrev pub others : Handler → List Handler → List Handler
others base [] = []
others base (add ∷ adds) =
    if handler_equal base add then others base adds else add ∷ others base adds

-- No handler of `adds` is equal to one of `bases`.
abbrev pub Differ : List Handler → List Handler → Type 0
Differ [] adds = Unit
Differ (base ∷ bases) adds = (others base adds ≡ adds) × Differ bases adds

-- `adds`, `n` times over.
abbrev pub times : ℕ → List Handler → List Handler
times zero adds = []
times (suc n) adds = adds ++ times n adds

merge_one-others : (base : Handler) (adds : List Handler) → merge_one base adds ≡ others base adds
unfolding merge_one
merge_one-others base [] = refl
merge_one-others base (add ∷ adds) = ground (arith, merge_one-others base adds)

merge_loop-Differ :
    (bases adds : List Handler)
    → Differ bases adds
    → merge_loop bases adds ≡ times (length bases) adds
unfolding merge_loop
merge_loop-Differ [] adds h = refl
merge_loop-Differ (base ∷ bases) adds (h, hs) =
    rw (merge_one-others base adds ∙ h) (ap (λ l. adds ++ l) (merge_loop-Differ bases adds hs))

-- Merging an array into one that has none of its handlers puts it behind the base as many times as
-- the base has handlers: once for a base of one handler, and not at all for an empty base.
pub handler_array_merge-Differ :
    (base adds : List Handler)
    → Differ base adds
    → handler_array_merge (some base) (some adds) ≡ some (base ++ times (length base) adds)
unfolding handler_array_merge
handler_array_merge-Differ base adds h = rw (merge_loop-Differ base adds h) refl
