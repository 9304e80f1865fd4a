-- ===== src/Tipool.antt =====
-- src/modules/perl/modperl_tipool.c: the pool of items (interpreters) that threads share. A list is
-- the list of its nodes, first to last; a node is known by its address.
pub mod Count
pub mod Valid
pub mod Threads
pub mod Destroy
pub mod Tests
use mod_perl.Prelude.{
  ℕ, zero, suc, ◌+◌, ◌-◌, Bool, true, false, not, ◌&&◌, ◌||◌, Option, none, some, List, [], ◌∷◌,
  ◌++◌, ◌==◌, ltb, if◌then◌else◌,
}

-- modperl_list_t: its address and its data, the item.
pub record Node : Type 0 where
  pub addr : ℕ
  pub item : ℕ

-- modperl_tipool_config_t.
pub record TipoolConfig : Type 0 where
  pub start : ℕ
  pub min_spare : ℕ
  pub max_spare : ℕ
  pub max : ℕ
  pub max_requests : ℕ

-- modperl_tipool_t, with `fresh`, the address that malloc gives next.
pub record Tipool : Type 0 where
  pub idle : List Node
  pub busy : List Node
  pub in_use : ℕ
  pub size : ℕ
  pub fresh : ℕ

-- modperl_list_append, _prepend and _remove; the address of a node to remove may be on no list.
abbrev pub list_append : List Node → Node → List Node
list_append list new_list = list ++ (new_list ∷ [])

abbrev pub list_prepend : List Node → Node → List Node
list_prepend list new_list = new_list ∷ list

pub list_remove : List Node → ℕ → List Node
list_remove [] rlist = []
list_remove (tmp ∷ list) rlist =
    let rest = list_remove list rlist in if tmp.addr == rlist then list else tmp ∷ rest

-- modperl_list_remove_data: the list, and the node with the data, if there is one.
pub list_remove_data : List Node → ℕ → List Node × Option Node
list_remove_data [] data_ = ([], none)
list_remove_data (tmp ∷ list) data_ =
    let (rest, listp) = list_remove_data list data_ in
    if tmp.item == data_ then (list, some tmp) else (tmp ∷ rest, listp)

abbrev pub tipool_new : ℕ → Tipool
tipool_new fresh = record { idle = []; busy = []; in_use = 0; size = 0; fresh = fresh }

unfoldable pub tipool_add : Tipool → ℕ → Tipool
tipool_add tipool item = record tipool {
  idle = list_append tipool.idle (record { addr = tipool.fresh; item = item });
  size = suc tipool.size;
  fresh = suc tipool.fresh;
}

pub tipool_remove : Tipool → ℕ → Tipool
unfolding list_remove
tipool_remove tipool listp = record tipool {
  idle = list_remove tipool.idle listp;
  size = tipool.size - 1;
}

-- The functions of the pool's vtable: tipool_sgrow, and tipool_rgrow if it is there. The item that
-- they make may depend on the pool.
pub record Vtbl : Type 0 where
  pub sgrow : Tipool → ℕ
  pub rgrow : Option (Tipool → ℕ)

module _ (cfg : TipoolConfig) (func : Vtbl) where
  -- The loop of modperl_tipool_init, for the rounds that are left.
  pub init_loop : ℕ → Tipool → Tipool
  unfolding tipool_add
  init_loop zero tipool = tipool
  init_loop (suc left) tipool = init_loop left (tipool_add tipool (func.sgrow tipool))

  pub tipool_init : Tipool → Tipool
  unfolding init_loop
  tipool_init tipool = init_loop cfg.start tipool

  -- `if (func->tipool_rgrow)` and its add.
  pub rgrow_add : Tipool → Tipool
  unfolding tipool_add
  rgrow_add tipool = elim func.rgrow [
    | none ↦ tipool
    | some rgrow ↦ tipool_add tipool (rgrow tipool)
  ]

  -- The part of modperl_tipool_pop before modperl_tipool_wait.
  unfoldable pub pop_grow : Tipool → Tipool
  unfolding rgrow_add
  pop_grow tipool =
      if tipool.size == tipool.in_use
      then (if ltb tipool.size cfg.max then rgrow_add tipool else tipool)
      else tipool

  -- The part behind it; `none` is the abort() where there is no head.
  unfoldable pub pop_take : Tipool → Option (Tipool × Node)
  pop_take tipool = elim tipool.idle [
    | [] ↦ none
    | head ∷ idle ↦ some (
      record tipool {
        idle = idle;
        busy = list_append tipool.busy head;
        in_use = suc tipool.in_use;
      },
      head,
    )
  ]

  -- The part of modperl_tipool_putback_base that may shrink the pool by the node that came back.
  pub shrink : Tipool → Node → ℕ → Tipool
  unfolding tipool_remove rgrow_add
  shrink tipool listp num_requests =
      let max_spare = ltb cfg.max_spare (tipool.size - tipool.in_use) in
      let max_requests = ltb 0 num_requests && ltb cfg.max_requests num_requests in
      let removed = tipool_remove tipool listp.addr in
      if max_spare || max_requests
      then (if max_requests && ltb (removed.size - removed.in_use) cfg.min_spare
          then rgrow_add removed
          else removed)
      else tipool

  -- The part behind the search in the busy list, which `busy` is what remains of.
  pub put_idle : Tipool → List Node → Node → ℕ → Tipool
  unfolding shrink
  put_idle tipool busy listp num_requests =
      let back = record tipool {
        idle = list_prepend tipool.idle listp;
        busy = busy;
        in_use = tipool.in_use - 1;
      } in
      if suc back.in_use == cfg.max then back else shrink back listp num_requests

  pub tipool_putback : Tipool → Node → ℕ → Tipool
  unfolding list_remove put_idle
  tipool_putback tipool listp num_requests =
      put_idle tipool (list_remove tipool.busy listp.addr) listp num_requests

  unfoldable pub tipool_putback_data : Tipool → ℕ → ℕ → Tipool
  unfolding list_remove_data put_idle
  tipool_putback_data tipool data_ num_requests =
      let (busy, found) = list_remove_data tipool.busy data_ in
      elim found [ none ↦ tipool | some listp ↦ put_idle tipool busy listp num_requests ]
