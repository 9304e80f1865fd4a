-- ===== src/Tipool/Tests.antt =====
-- The pool's invariant at a state that threads reach.
use mod_perl.Prelude.{ℕ, [], ◌∷◌, ◌≡◌, ◌⊎◌, refl, true, false, some, ◌==◌, arith}
use mod_perl.Tipool.{
  pop_grow, list_remove_data, Node, TipoolConfig, Tipool, Vtbl, tipool_new, tipool_add, init_loop,
  tipool_init, pop_take, tipool_putback_data,
}
use mod_perl.Tipool.Threads.{
  Shared, Reachable, initial, step, putback_step, Safe, Reachable-Safe, pop_take-exclusive,
  putback_data-available, pop_step, HandsOut,
}

abbrev cfg : TipoolConfig
cfg = record { start = 2; min_spare = 1; max_spare = 2; max = 3; max_requests = 100 }

abbrev func : Vtbl
func = record { sgrow = λ p. p.fresh; rgrow = some (λ p. p.fresh) }

abbrev started : Shared
started = record { pool = tipool_init cfg func (tipool_new 7); waiting = 0; aborted = false }

-- An item that no thread has is given back.
abbrev given : Shared
given = record {
  pool = tipool_putback_data cfg func started.pool 40 1;
  waiting = 0;
  aborted = false;
}

given-Reachable : Reachable cfg func given
given-Reachable = step started given (initial 7) (putback_step started 40 1)

Reachable-Safe_example : Safe cfg func given
Reachable-Safe_example = Reachable-Safe cfg func given (omega arith) given-Reachable

-- Both items are taken, so the next pop makes a third one.
abbrev node_of : ℕ → Node
node_of a = record { addr = a; item = a }

abbrev both_taken : Shared
both_taken = record {
  pool = record { idle = []; busy = node_of 7 ∷ (node_of 8 ∷ []); in_use = 2; size = 2; fresh = 9 };
  waiting = 0;
  aborted = false;
}

both_taken-Reachable : Reachable cfg func both_taken
unfolding pop_take pop_grow tipool_init init_loop tipool_add
both_taken-Reachable =
    step _ both_taken (step started _ (initial 7) (pop_step started refl)) (pop_step _ refl)

pop_take-exclusive_example :
    let grown = pop_grow cfg func both_taken.pool in
    ((((grown.size == grown.in_use) ≡ true) × (grown ≡ both_taken.pool)) ⊎ HandsOut cfg func grown)
    × (((both_taken.pool.size == both_taken.pool.in_use) ≡ true)
        ⊎ HandsOut cfg func both_taken.pool)
    × (both_taken.aborted ≡ false)
pop_take-exclusive_example =
    pop_take-exclusive cfg func both_taken (omega arith) both_taken-Reachable

-- A pool of one item, which a thread has taken.
abbrev one_item : TipoolConfig
one_item = record { start = 1; min_spare = 1; max_spare = 1; max = 1; max_requests = 10 }

abbrev the_node : Node
the_node = record { addr = 7; item = 7 }

abbrev one_started : Shared
one_started = record {
  pool = tipool_init one_item func (tipool_new 7);
  waiting = 0;
  aborted = false;
}

abbrev taken : Tipool
taken = record { idle = []; busy = the_node ∷ []; in_use = 1; size = 1; fresh = 8 }

full-Reachable : Reachable one_item func (record { pool = taken; waiting = 0; aborted = false })
unfolding pop_take pop_grow tipool_init init_loop tipool_add
full-Reachable =
    step one_started (record { pool = taken; waiting = 0; aborted = false }) (initial 7)
      (pop_step one_started refl)

found_again : (list_remove_data taken.busy 7).1 ≡ some the_node
unfolding list_remove_data
found_again = refl

-- It comes back after a hundred requests, and stays.
putback_data-available_example :
    let p' = tipool_putback_data one_item func taken 7 100 in
    ((p'.size == p'.in_use) ≡ false) × (p'.idle ≡ the_node ∷ [])
putback_data-available_example =
    putback_data-available one_item func (record { pool = taken; waiting = 0; aborted = false }) 7
      100 the_node (omega arith) full-Reachable refl found_again
