-- ===== src/Tipool/Valid.antt =====
-- The pool's invariant: its counters, its bound, and that no item is on two lists at once.
use mod_perl.Prelude.{
  ℕ, zero, suc, ◌+◌, ◌-◌, ◌≤◌, ◌≡◌, ◌⊎◌, refl, ap, inl, inr, Bool, true, false, ◌&&◌, ◌||◌, some,
  List, [], ◌∷◌, ◌==◌, ==_refl, ltb, if◌then◌else◌, length, length-append, Bool-cases, Option-cases,
  arith,
}
use mod_perl.Tipool.{
  Node, TipoolConfig, Tipool, Vtbl, list_append, list_prepend, tipool_new, tipool_add,
  tipool_remove, init_loop, rgrow_add, pop_grow, pop_take, shrink, put_idle,
}
use mod_perl.Tipool.Count.{one, count, count-append, Removed, list_remove-Removed}

-- The counters count the lists, no address is on them twice, and malloc gives a new one.
pub record IsPool (p : Tipool) : Type 0 where
  pub sized : p.size ≡ length p.idle + length p.busy
  pub used : p.in_use ≡ length p.busy
  pub once : (a : ℕ) → count a p.idle + count a p.busy ≤ 1
  pub unused : (a : ℕ) → p.fresh ≤ a → count a p.idle + count a p.busy ≡ 0

pub tipool_new-IsPool : (fresh : ℕ) → IsPool (tipool_new fresh)
tipool_new-IsPool fresh = record {
  sized = omega arith;
  used = refl;
  once = λ a. omega arith;
  unused = λ a h. omega arith;
}

pub tipool_add-IsPool : (p : Tipool) (item : ℕ) → IsPool p → IsPool (tipool_add p item)
unfolding tipool_add
tipool_add-IsPool p item v =
    let n : Node = record { addr = p.fresh; item = item } in
    record {
      sized = omega (arith, length-append p.idle (n ∷ []), v.sized);
      used = v.used;
      once = λ a. elim (Bool-cases (p.fresh == a)) [
        | inl same ↦ ground (arith, count-append a p.idle (n ∷ []), v.unused a (ground arith))
        | inr other ↦ ground (arith, count-append a p.idle (n ∷ []), v.once a)
      ];
      unused = λ a h. ground (arith, count-append a p.idle (n ∷ []), v.unused a (omega arith));
    }

-- Taking a node off the idle list for good.
pub tipool_remove-IsPool :
    (p : Tipool) (n : Node) → 1 ≤ count n.addr p.idle → IsPool p → IsPool (tipool_remove p n.addr)
unfolding tipool_remove
tipool_remove-IsPool p n h v =
    let r = list_remove-Removed p.idle n h in
    record {
      sized = omega (arith, v.sized, r.shorter);
      used = v.used;
      once = λ a. omega (arith, v.once a, r.counts a);
      unused = λ a h'. omega (arith, v.unused a h', r.counts a);
    }

List-cases : (ns : List Node) → (ns ≡ []) ⊎ ((n : Node) × (rest : List Node) × (ns ≡ n ∷ rest))
List-cases [] = inl refl
List-cases (n ∷ rest) = inr (n, rest, refl)

if-IsPool : (b : Bool) (p q : Tipool) → IsPool p → IsPool q → IsPool (if b then p else q)
if-IsPool true p q v w = v
if-IsPool false p q v w = w

module _ (cfg : TipoolConfig) (func : Vtbl) where
  pub rgrow_add-IsPool : (p : Tipool) → IsPool p → IsPool (rgrow_add cfg func p)
  unfolding rgrow_add
  rgrow_add-IsPool p v = elim (Option-cases func.rgrow) [
    | inl absent ↦ rw absent v
    | inr (rgrow, present) ↦ rw present (tipool_add-IsPool p (rgrow p) v)
  ]

  pub pop_grow-IsPool : (p : Tipool) → IsPool p → IsPool (pop_grow cfg func p)
  unfolding pop_grow
  pop_grow-IsPool p v =
      let grown = if ltb p.size cfg.max then rgrow_add cfg func p else p in
      if-IsPool (p.size == p.in_use) grown p
        (if-IsPool (ltb p.size cfg.max) (rgrow_add cfg func p) p (rgrow_add-IsPool p v) v) v

  pub init_loop-IsPool : (left : ℕ) (p : Tipool) → IsPool p → IsPool (init_loop cfg func left p)
  unfolding init_loop
  init_loop-IsPool zero p v = v
  init_loop-IsPool (suc left) p v =
      init_loop-IsPool left (tipool_add p (func.sgrow p)) (tipool_add-IsPool p (func.sgrow p) v)

  pub shrink-IsPool :
      (p : Tipool) (n : Node) (num_requests : ℕ)
      → 1 ≤ count n.addr p.idle
      → IsPool p
      → IsPool (shrink cfg func p n num_requests)
  unfolding shrink
  shrink-IsPool p n num_requests h v =
      let removed = tipool_remove p n.addr in
      let too_many = ltb cfg.max_spare (p.size - p.in_use) in
      let worn_out = ltb 0 num_requests && ltb cfg.max_requests num_requests in
      let valid = tipool_remove-IsPool p n h v in
      let few = worn_out && ltb (removed.size - removed.in_use) cfg.min_spare in
      if-IsPool (too_many || worn_out) (if few then rgrow_add cfg func removed else removed) p
        (if-IsPool few (rgrow_add cfg func removed) removed (rgrow_add-IsPool removed valid) valid)
        v

  -- A node of the busy list that goes back.
  pub put_idle-IsPool :
      (p : Tipool) (busy : List Node) (n : Node) (num_requests : ℕ)
      → IsPool p
      → Removed p.busy n busy
      → IsPool (put_idle cfg func p busy n num_requests)
  unfolding put_idle
  put_idle-IsPool p busy n num_requests v r =
      let back : Tipool = record p {
        idle = list_prepend p.idle n;
        busy = busy;
        in_use = p.in_use - 1;
      } in
      let valid : IsPool back = record {
        sized = omega (arith, v.sized, r.shorter);
        used = omega (arith, v.used, r.shorter);
        once = λ a. omega (arith, v.once a, r.counts a);
        unused = λ a h. omega (arith, v.unused a h, r.counts a);
      } in
      elim (Bool-cases (suc back.in_use == cfg.max)) [
        | inl hurry ↦ rw hurry valid
        | inr calm ↦ rw calm (shrink-IsPool back n num_requests (ground arith) valid)
      ]

  -- What popping promises where not every item is in use: a node that no one else has.
  pub pop_take-IsPool :
      (p : Tipool)
      → IsPool p
      → (p.size == p.in_use) ≡ false
      → (p' : Tipool) × (n : Node) × (pop_take cfg func p ≡ some (p', n))
        × IsPool p'
        × (count n.addr p.busy ≡ 0)
        × (count n.addr p'.busy ≡ 1)
        × (p'.size ≡ p.size)
  unfolding pop_take
  pop_take-IsPool p v free = elim (List-cases p.idle) [
    | inl none_idle ↦
        let empty : length p.idle ≡ 0 = ap (λ l. length l) none_idle in
        absurd (ground (arith, empty))
    | inr (n, rest, some_idle) ↦
        let p' : Tipool = record p {
          idle = rest;
          busy = list_append p.busy n;
          in_use = suc p.in_use;
        } in
        let counts : (a : ℕ) → count a p.idle ≡ one a n + count a rest =
          λ a. ap (λ l. count a l) some_idle in
        let here : one n.addr n ≡ 1 = rw (==_refl n.addr) refl in
        let appended : (a : ℕ) → count a p'.busy ≡ count a p.busy + one a n =
          λ a. omega (arith, count-append a p.busy (n ∷ [])) in
        (
          p',
          n,
          rw some_idle refl,
          record {
            sized =
                omega (arith, v.sized, ap (λ l. length l) some_idle, length-append p.busy (n ∷ []));
            used = omega (arith, v.used, length-append p.busy (n ∷ []));
            once = λ a. omega (arith, v.once a, counts a, appended a);
            unused = λ a h. omega (arith, v.unused a h, counts a, appended a);
          },
          omega (arith, v.once n.addr, counts n.addr, here),
          omega (arith, v.once n.addr, counts n.addr, here, appended n.addr),
          refl,
        )
  ]
