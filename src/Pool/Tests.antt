-- ===== src/Pool/Tests.antt =====
-- Pools on a stack, where each is a subpool of the one made before it and addresses are used again:
-- a pool and its subpool, with the object of the first destroyed.
use mod_perl.Prelude.{
  ℕ, suc, ◌-◌, ◌≡◌, ◌⊎◌, inl, inr, refl, min, Bool, true, false, ◌&&◌, ◌||◌, none, some, List, [],
  ◌∷◌, ◌==◌, ltb, if◌then◌else◌, Bool-cases, arith,
}
use mod_perl.Pool.{
  Apr, Interps, no_pool, World, takes_ownership, new_object, pool_create, pool_destroy,
  add_pool_magic,
}
use mod_perl.Pool.Once.{elem, owned, AprLaws, creates, Reachable, initial, step, pool_destroy-once}

record Stack : Type 0 where
  next : ℕ
  accounts : List (ℕ × ℕ)

abbrev has : ℕ → ℕ → List (ℕ × ℕ) → Bool
has q sv [] = false
has q sv ((p, x) ∷ l) = ((q == p) && (sv == x)) || has q sv l

abbrev below : ℕ → List (ℕ × ℕ) → List (ℕ × ℕ)
below p [] = []
below p ((q, x) ∷ l) = if ltb q p then (q, x) ∷ below p l else below p l

abbrev from : ℕ → List (ℕ × ℕ) → List ℕ
from p [] = []
from p ((q, x) ∷ l) = if ltb q p then from p l else x ∷ from p l

abbrev stack : Apr Stack
stack = record {
  live = λ s q. ltb q s.next;
  registered = λ s q sv. has q sv s.accounts;
  create = λ s parent. (record s { next = suc s.next }, s.next);
  register = λ s p sv. record s { accounts = (p, sv) ∷ s.accounts };
  clear = λ s p.
      (record { next = min (suc p) s.next; accounts = below p s.accounts }, from p s.accounts);
  destroy =
      λ s p. (record { next = min p s.next; accounts = below p s.accounts }, from p s.accounts);
}

has-first : (q sv : ℕ) (l : List (ℕ × ℕ)) → has q sv ((q, sv) ∷ l) ≡ true
has-first q sv l = ground arith

has-later : (q sv p x : ℕ) (l : List (ℕ × ℕ)) → has q sv l ≡ true → has q sv ((p, x) ∷ l) ≡ true
has-later q sv p x l h = elim (Bool-cases ((q == p) && (sv == x))) [
  | inl e ↦ rw e refl
  | inr e ↦ rw e h
]

-- What is registered at a pool is kept with the pool, or told of its end.
has-split :
    (p q sv : ℕ) (l : List (ℕ × ℕ))
    → has q sv l ≡ true
    → ((ltb q p ≡ true) × (has q sv (below p l) ≡ true)) ⊎ (elem sv (from p l) ≡ true)
has-split p q sv [] h = absurd cc
has-split p q sv ((r, x) ∷ l) h = elim (Bool-cases ((q == r) && (sv == x))) [
  | inl at ↦ elim (Bool-cases (ltb r p)) [
    | inl low ↦ let kept : ltb q p ≡ true = ground arith in rw low (inl (kept, rw at refl))
    | inr high ↦ let same : (sv == x) ≡ true = ground arith in rw high (inr (rw same refl))
  ]
  | inr other ↦
      let h' : has q sv l ≡ true = ground arith in
      elim (has-split p q sv l h') [
        | inl (low', kept) ↦ elim (Bool-cases (ltb r p)) [
          | inl low ↦ rw low (inl (low', has-later q sv r x (below p l) kept))
          | inr high ↦ rw high (inl (low', kept))
        ]
        | inr told ↦ elim (Bool-cases (ltb r p)) [
          | inl low ↦ rw low (inr told)
          | inr high ↦ elim (Bool-cases (sv == x)) [
            | inl same ↦ rw high (inr (rw same refl))
            | inr differs ↦ rw high (inr (rw differs told))
          ]
        ]
      ]
]

stack_laws : AprLaws stack
stack_laws = record {
  create_live = λ s parent. ground arith;
  create_keeps = λ s parent q sv live registered. (ground arith, registered);
  register_live = λ s p sv q. refl;
  register_at = λ s p sv live. has-first p sv s.accounts;
  register_keeps = λ s p sv q sv' h. has-later q sv' p sv s.accounts h;
  clear_live = λ s p live. ground arith;
  clear_rest = λ s p q sv live registered. elim (has-split p q sv s.accounts registered) [
    | inl (low, kept) ↦ inl (ground arith, kept)
    | inr told ↦ inr told
  ];
  destroy_rest = λ s p q sv live registered. elim (has-split p q sv s.accounts registered) [
    | inl (low, kept) ↦ inl (ground arith, kept)
    | inr told ↦ inr told
  ];
  destroy_gone = λ s p live. ground arith;
}

-- The references to the interpreter, as a number.
abbrev counted : Interps ℕ
counted = record { refer = λ n. suc n; unselect = λ n. n - 1 }

abbrev start : World Stack ℕ
start = record { apr = record { next = 0; accounts = [] }; objs = λ sv. no_pool; interps = 1 }

abbrev one_pool : World Stack ℕ
one_pool =
    new_object stack counted 1 none 0 (record start { apr = record { next = 1; accounts = [] } })

abbrev two_pools : World Stack ℕ
two_pools =
    new_object stack counted 2 (some 1) 1
      (record one_pool { apr = (stack.create one_pool.apr (some 0)).0 })

one_made : pool_create stack counted 1 none start ≡ some one_pool
unfolding pool_create new_object takes_ownership
one_made = refl

two_made : pool_create stack counted 2 (some 1) one_pool ≡ some two_pools
unfolding pool_create new_object takes_ownership add_pool_magic
two_made = refl

two_pools-Reachable : Reachable stack counted stack_laws two_pools
two_pools-Reachable =
    step one_pool two_pools
      (step start one_pool (initial start (λ sv. refl)) (creates start one_pool 1 none one_made))
      (creates one_pool two_pools 2 (some 1) two_made)

two_pools-owned : owned (two_pools.objs 1) ≡ some 0
unfolding new_object takes_ownership add_pool_magic
two_pools-owned = refl

pool_destroy-once_example :
    let w' = pool_destroy stack counted 1 two_pools in
    (stack.live two_pools.apr 0 ≡ true)
    × (w'.objs 1 ≡ no_pool)
    × (pool_destroy stack counted 1 w' ≡ w')
pool_destroy-once_example =
    pool_destroy-once stack counted stack_laws two_pools 1 0 two_pools-Reachable two_pools-owned
