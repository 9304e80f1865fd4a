-- ===== src/Tipool/Threads.antt =====
-- Threads that take and give back items: each step is what one thread does while it holds the lock.
use mathlib.Core.Path.{subst}
use mod_perl.Prelude.{
  refl, ap, ◌∙◌, sym, Bool, Option, none, ◌⊎◌, ltb, Bool-cases, ◌∷◌, ℕ, zero, suc, ◌+◌, ◌-◌, ◌≤◌,
  ◌≡◌, inl, inr, true, false, some, List, ◌==◌, Option-cases, arith,
}
use mod_perl.Tipool.{
  Node, TipoolConfig, Tipool, Vtbl, list_prepend, list_remove_data, tipool_new, tipool_add,
  tipool_remove, init_loop, tipool_init, rgrow_add, pop_grow, pop_take, shrink, put_idle,
  tipool_putback_data,
}
use mod_perl.Tipool.Count.{count, list_remove_data-Removed}
use mod_perl.Tipool.Valid.{
  IsPool, tipool_new-IsPool, init_loop-IsPool, put_idle-IsPool, pop_take-IsPool, pop_grow-IsPool,
}

-- The pool, the number of threads that wait for an item, and whether a thread has called abort().
pub record Shared : Type 0 where
  pub pool : Tipool
  pub waiting : ℕ
  pub aborted : Bool

-- A pop behind modperl_tipool_wait: without a head it aborts.
abbrev pub popped : Shared → ℕ → Option (Tipool × Node) → Shared
popped t waiting none = record t { aborted = true }
popped t waiting (some (p', n)) = record t { pool = p'; waiting = waiting }

module _ (cfg : TipoolConfig) (func : Vtbl) where
  -- A thread pops at once, or it begins to wait; a waiting thread is woken and pops; a thread
  -- gives back an item. A pop that finds no head is a step too, which aborts.
  pub data Step : Shared → Shared → Type 0 where
    pop_step :
        (t : Shared)
        → ((pop_grow cfg func t.pool).size == (pop_grow cfg func t.pool).in_use) ≡ false
        → Step t (popped t t.waiting (pop_take cfg func (pop_grow cfg func t.pool)))
    wait_step :
        (t : Shared)
        → ((pop_grow cfg func t.pool).size == (pop_grow cfg func t.pool).in_use) ≡ true
        → Step t (record t { pool = pop_grow cfg func t.pool; waiting = suc t.waiting })
    wake_step :
        (t : Shared)
        → 1 ≤ t.waiting
        → (t.pool.size == t.pool.in_use) ≡ false
        → Step t (popped t (t.waiting - 1) (pop_take cfg func t.pool))
    putback_step :
        (t : Shared) (item num_requests : ℕ)
        → Step t (record t { pool = tipool_putback_data cfg func t.pool item num_requests })

  -- What can be reached from a new pool by tipool_init and the threads' steps.
  pub data Reachable : Shared → Type 0 where
    initial :
        (fresh : ℕ)
        → Reachable (record {
          pool = tipool_init cfg func (tipool_new fresh);
          waiting = 0;
          aborted = false;
        })
    step : (t u : Shared) → Reachable t → Step t u → Reachable u

  init_loop-size : (left : ℕ) (p : Tipool) → (init_loop cfg func left p).size ≡ left + p.size
  unfolding init_loop tipool_add
  init_loop-size zero p = omega arith
  init_loop-size (suc left) p = omega (arith, init_loop-size left (tipool_add p (func.sgrow p)))

  rgrow_add-size : (p : Tipool) → (rgrow_add cfg func p).size ≤ suc p.size
  unfolding rgrow_add tipool_add
  rgrow_add-size p = elim (Option-cases func.rgrow) [
    | inl absent ↦ rw absent (omega arith)
    | inr (rgrow, present) ↦ rw present (omega arith)
  ]

  pop_grow-size : (p : Tipool) → p.size ≤ cfg.max → (pop_grow cfg func p).size ≤ cfg.max
  unfolding pop_grow
  pop_grow-size p h = ground (arith, rgrow_add-size p)

  put_idle-size :
      (p : Tipool) (busy : List Node) (n : Node) (num_requests : ℕ)
      → 1 ≤ p.size
      → p.size ≤ cfg.max
      → (put_idle cfg func p busy n num_requests).size ≤ cfg.max
  unfolding put_idle shrink tipool_remove
  put_idle-size p busy n num_requests h k =
      let back : Tipool = record p {
        idle = list_prepend p.idle n;
        busy = busy;
        in_use = p.in_use - 1;
      } in
      ground (arith, rgrow_add-size (tipool_remove back n.addr))

  -- The invariant with the bound on the size; no thread has aborted.
  pub record Safe (t : Shared) : Type 0 where
    pub valid : IsPool t.pool
    pub bounded : t.pool.size ≤ cfg.max
    pub running : t.aborted ≡ false

  -- A pop from a pool that is not all in use.
  pop_take-Safe :
      (t : Shared) (p : Tipool) (waiting : ℕ)
      → IsPool p
      → p.size ≤ cfg.max
      → t.aborted ≡ false
      → (p.size == p.in_use) ≡ false
      → Safe (popped t waiting (pop_take cfg func p))
  pop_take-Safe t p waiting valid bounded running free =
      let (q, m, e, valid', others, mine, size) = pop_take-IsPool cfg func p valid free in
      subst (λ r. Safe (popped t waiting r)) (sym e)
        (record { valid = valid'; bounded = omega (arith, size, bounded); running = running })

  pub putback_data-Safe :
      (t : Shared) (item num_requests : ℕ)
      → Safe t
      → Safe (record t { pool = tipool_putback_data cfg func t.pool item num_requests })
  unfolding tipool_putback_data
  putback_data-Safe t item num_requests s =
      elim (Option-cases (list_remove_data t.pool.busy item).1) [
        | inl absent ↦ rw (absent, tipool_putback_data) s
        | inr (n, found) ↦
            let busy = (list_remove_data t.pool.busy item).0 in
            let r = list_remove_data-Removed t.pool.busy item n found in
            rw (found, tipool_putback_data)
              (record {
                valid = put_idle-IsPool cfg func t.pool busy n num_requests s.valid r;
                bounded =
                    put_idle-size t.pool busy n num_requests
                      (omega (arith, s.valid.sized, r.shorter)) s.bounded;
                running = s.running;
              })
      ]

  Step-Safe : (t u : Shared) → Step t u → Safe t → Safe u
  Step-Safe _ _ (pop_step t free) s =
      pop_take-Safe t (pop_grow cfg func t.pool) t.waiting (pop_grow-IsPool cfg func t.pool s.valid)
        (pop_grow-size t.pool s.bounded) s.running free
  Step-Safe _ _ (wait_step t none_free) s = record {
    valid = pop_grow-IsPool cfg func t.pool s.valid;
    bounded = pop_grow-size t.pool s.bounded;
    running = s.running;
  }
  Step-Safe _ _ (wake_step t waits free) s =
      pop_take-Safe t t.pool (t.waiting - 1) s.valid s.bounded s.running free
  Step-Safe _ _ (putback_step t item num_requests) s = putback_data-Safe t item num_requests s

  -- With no more items to start with than the pool may have, in every state that threads reach the
  -- counters count the lists, no address is on them twice, there are at most `max` items, and no
  -- thread has called abort().
  pub Reachable-Safe : (t : Shared) → cfg.start ≤ cfg.max → Reachable t → Safe t
  unfolding tipool_init
  Reachable-Safe _ h (initial fresh) = record {
    valid = init_loop-IsPool cfg func cfg.start (tipool_new fresh) (tipool_new-IsPool fresh);
    bounded = omega (arith, init_loop-size cfg.start (tipool_new fresh));
    running = refl;
  }
  Reachable-Safe _ h (step t u r s) = Step-Safe t u s (Reachable-Safe t h r)

  -- A pool whose next node is handed out: it was on no other thread's hands.
  pub HandsOut : Tipool → Type 0
  HandsOut p =
      (p' : Tipool) × (n : Node) × (pop_take cfg func p ≡ some (p', n))
      × (count n.addr p.busy ≡ 0)
      × (count n.addr p'.busy ≡ 1)

  hands_out : (p : Tipool) → IsPool p → (p.size == p.in_use) ≡ false → HandsOut p
  unfolding HandsOut
  hands_out p valid free =
      let (p', n, e, _, others, mine, _) = pop_take-IsPool cfg func p valid free in
      (p', n, e, others, mine)

  -- A pool that is all in use behind the growth has not grown.
  pop_grow-waits :
      (p : Tipool)
      → ((pop_grow cfg func p).size == (pop_grow cfg func p).in_use) ≡ true
      → pop_grow cfg func p ≡ p
  unfolding pop_grow rgrow_add tipool_add
  pop_grow-waits p e = elim (Bool-cases (p.size == p.in_use)) [
    | inr free ↦ rw free refl
    | inl full ↦ elim (Bool-cases (ltb p.size cfg.max)) [
      | inr no_room ↦ rw (full, no_room) refl
      | inl room ↦ elim (Option-cases func.rgrow) [
        | inl absent ↦ rw (full, room, absent) refl
        | inr (rgrow, present) ↦
            let more : (suc p.size == p.in_use) ≡ true =
              let grows : pop_grow cfg func p ≡ tipool_add p (rgrow p) =
                rw (full, room, present) refl in
              ap (λ q. q.size == q.in_use) (sym grows) ∙ e in
            absurd (ground arith)
      ]
    ]
  ]

  -- In every state that threads reach, a thread that pops either has to wait, as all items are in use
  -- and, where the pool could grow, no item was made for it; or it gets a node, perhaps of an item
  -- just made, which is on no other thread's hands and then on its own. The same holds for a thread
  -- that is woken. So a pop never comes to the abort() for want of a node.
  pub pop_take-exclusive :
      (t : Shared)
      → cfg.start ≤ cfg.max
      → Reachable t
      → let grown = pop_grow cfg func t.pool in
        ((((grown.size == grown.in_use) ≡ true) × (grown ≡ t.pool)) ⊎ HandsOut grown)
        × (((t.pool.size == t.pool.in_use) ≡ true) ⊎ HandsOut t.pool)
        × (t.aborted ≡ false)
  pop_take-exclusive t h r =
      let s = Reachable-Safe t h r in
      let grown = pop_grow cfg func t.pool in
      (
        elim (Bool-cases (grown.size == grown.in_use)) [
          | inl full ↦ inl (full, pop_grow-waits t.pool full)
          | inr free ↦ inr (hands_out grown (pop_grow-IsPool cfg func t.pool s.valid) free)
        ],
        elim (Bool-cases (t.pool.size == t.pool.in_use)) [
          | inl full ↦ inl full
          | inr free ↦ inr (hands_out t.pool s.valid free)
        ],
        s.running,
      )

  -- In a state that threads reach, where the pool is at its limit and all of it in use, an item that
  -- a thread gives back stays in the pool and is the next to be handed out, however worn it is: a
  -- thread that waits finds it.
  pub putback_data-available :
      (t : Shared) (item num_requests : ℕ) (n : Node)
      → cfg.start ≤ cfg.max
      → Reachable t
      → t.pool.in_use ≡ cfg.max
      → (list_remove_data t.pool.busy item).1 ≡ some n
      → let p' = tipool_putback_data cfg func t.pool item num_requests in
        ((p'.size == p'.in_use) ≡ false) × (p'.idle ≡ n ∷ t.pool.idle)
  unfolding tipool_putback_data put_idle
  putback_data-available t item num_requests n h r full found =
      let s = Reachable-Safe t h r in
      let removed = list_remove_data-Removed t.pool.busy item n found in
      let hurry : (suc (t.pool.in_use - 1) == cfg.max) ≡ true =
        ground (arith, s.valid.used, removed.shorter) in
      let left : (t.pool.size == t.pool.in_use - 1) ≡ false =
        ground (arith, s.valid.used, s.valid.sized, removed.shorter) in
      rw (found, tipool_putback_data) (rw (hurry, put_idle) (left, refl))
