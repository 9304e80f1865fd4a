-- ===== src/Io/Stream.antt =====
-- A read of a request's body over filters that keep to what AP_MODE_READBYTES with APR_BLOCK_READ
-- promises.
use mod_perl.Prelude.{
  ℕ, zero, suc, ◌-◌, ◌≤◌, ◌≡◌, ◌⊎◌, inl, inr, refl, sym, ap, ◌∙◌, true, false, not, ◌&&◌, [], ◌∷◌,
  ◌++◌, append_assoc, append-nil, ◌==◌, ltb, length, take, drop, if◌then◌else◌, Bool-cases, arith,
}
use mod_perl.Status.{ok}
use mod_perl.Cgi.{Bytes}
use mod_perl.Filter.{Brigade, payload}
use mod_perl.Io.{
  Input, RequestRead, returned, croaked, no_brigade, broken_filter, unfinished, is_empty,
  ends_with_eos, brigade_loop, request_read,
}

-- A prefix that is known is taken, and dropped, first.
take-behind : (n : ℕ) (d r : Bytes) → length d ≤ n → take n (d ++ r) ≡ d ++ take (n - length d) r
take-behind n [] r h = let e : n - 0 ≡ n = omega arith in rw e
take-behind zero (c ∷ d) r h = absurd (omega arith)
take-behind (suc n) (c ∷ d) r h =
    let e : suc n - suc (length d) ≡ n - length d = omega arith in
    rw e (ap (λ (b : Bytes). c ∷ b) (take-behind n d r (omega arith)))

drop-behind : (n : ℕ) (d r : Bytes) → length d ≤ n → drop n (d ++ r) ≡ drop (n - length d) r
drop-behind n [] r h = let e : n - 0 ≡ n = omega arith in rw e
drop-behind zero (c ∷ d) r h = absurd (omega arith)
drop-behind (suc n) (c ∷ d) r h =
    let e : suc n - suc (length d) ≡ n - length d = omega arith in
    rw e (drop-behind n d r (omega arith))

take-nil : (n : ℕ) → take {A = ℕ} n [] ≡ []
take-nil zero = refl
take-nil (suc n) = refl

drop-nil : (n : ℕ) → drop {A = ℕ} n [] ≡ []
drop-nil zero = refl
drop-nil (suc n) = refl

is_empty_lem : (bb : Brigade) → is_empty bb ≡ true → (payload bb ≡ []) × (ends_with_eos bb ≡ false)
is_empty_lem [] h = (refl, refl)
is_empty_lem (b ∷ bb) h = cc

module _ {S : Type 0} (input : Input S) (body : S → Bytes) where
  -- The filters feed `body`, the part of the request's body that is still to come: a brigade has
  -- its first bytes, no more than asked for and at least one unless it ends with EOS, which is the
  -- end of the body; all of it can be copied.
  pub record Feeds : Type 0 where
    pub creates : input.creates ≡ true
    pub succeeds : (s : S) (n : ℕ) → (input.get_brigade s n).2 ≡ ok
    pub splits :
        (s : S) (n : ℕ)
        → body s ≡ payload (input.get_brigade s n).1 ++ body (input.get_brigade s n).0
    pub bounded : (s : S) (n : ℕ) → length (payload (input.get_brigade s n).1) ≤ n
    pub moves :
        (s : S) (n : ℕ)
        → 1 ≤ n
        → (1 ≤ length (payload (input.get_brigade s n).1))
          ⊎ (ends_with_eos (input.get_brigade s n).1 ≡ true)
    pub ends :
        (s : S) (n : ℕ)
        → ends_with_eos (input.get_brigade s n).1 ≡ true
        → body (input.get_brigade s n).0 ≡ []
    pub flattens :
        (s : S) (n : ℕ)
        → input.flatten (input.get_brigade s n).1 n ≡ (payload (input.get_brigade s n).1, ok)

  -- A read returned these bytes, and what is behind them is still to come.
  abbrev pub Reads : Bytes → Bytes → RequestRead S → Type 0
  Reads read left (returned s b) = (b ≡ read) × (body s ≡ left)
  Reads read left (croaked s rc close) = ⊥
  Reads read left no_brigade = ⊥
  Reads read left (broken_filter s) = ⊥
  Reads read left unfinished = ⊥

  module _ (feeds : Feeds) where
    -- The bytes of one brigade, against those that are asked for.
    brigade-take :
        (s : S) (len : ℕ)
        → let (s', bb, rc) = input.get_brigade s len in
          (take len (body s) ≡ payload bb ++ take (len - length (payload bb)) (body s'))
          × (drop len (body s) ≡ drop (len - length (payload bb)) (body s'))
    brigade-take s len =
        let (s', bb, rc) = input.get_brigade s len in
        let fits = feeds.bounded s len in
        (
          ap (λ b. take len b) (feeds.splits s len) ∙ take-behind len (payload bb) (body s') fits,
          ap (λ b. drop len b) (feeds.splits s len) ∙ drop-behind len (payload bb) (body s') fits,
        )

    not_empty : (s : S) (len : ℕ) → 1 ≤ len → is_empty (input.get_brigade s len).1 ≡ false
    not_empty s len h = elim (Bool-cases (is_empty (input.get_brigade s len).1)) [
      | inl e ↦
          let (none_, open_) = is_empty_lem (input.get_brigade s len).1 e in
          elim (feeds.moves s len h) [
            | inl data_ ↦
                let z : length (payload (input.get_brigade s len).1) ≡ 0 = ap length none_ in
                absurd (omega (arith, data_, z))
            | inr eos_ ↦ cc
          ]
      | inr e ↦ e
    ]

    -- A brigade with EOS, or with all that is asked for, leaves nothing to be taken.
    brigade-last :
        (s : S) (len : ℕ)
        → let (s', bb, rc) = input.get_brigade s len in
          (ltb 0 (len - length (payload bb)) && not (ends_with_eos bb)) ≡ false
          → (take (len - length (payload bb)) (body s') ≡ [])
            × (drop (len - length (payload bb)) (body s') ≡ body s')
    brigade-last s len h =
        let (s', bb, rc) = input.get_brigade s len in
        let left : ℕ = len - length (payload bb) in
        elim (Bool-cases (ends_with_eos bb)) [
          | inl e ↦ let over = feeds.ends s len e in rw over (take-nil left, drop-nil left)
          | inr e ↦ let z : left ≡ 0 = ground arith in rw z (refl, refl)
        ]

    brigade_loop-Reads :
        (fuel : ℕ) (s : S) (total : Bytes) (len : ℕ)
        → 1 ≤ len
        → len ≤ fuel
        → Reads
            (total ++ take len (body s))
            (drop len (body s))
            (brigade_loop input fuel s total len)
    unfolding brigade_loop
    brigade_loop-Reads zero s total len some_ enough = absurd (omega arith)
    brigade_loop-Reads (suc fuel) s total len some_ enough =
        let (s', bb, rc) = input.get_brigade s len in
        let (taken, dropped) = brigade-take s len in
        let left : ℕ = len - length (payload bb) in
        elim (Bool-cases (ltb 0 left && not (ends_with_eos bb))) [
          | inl more ↦
              let moved : 1 ≤ length (payload bb) = elim (feeds.moves s len some_) [
                | inl m ↦ m
                | inr e ↦ absurd (ground arith)
              ] in
              let rest =
                brigade_loop-Reads fuel s' (total ++ payload bb) left (ground arith)
                  (omega arith) in
              rw (feeds.succeeds s len, not_empty s len some_, feeds.flattens s len, more)
                (rw (taken, dropped, sym (append_assoc total (payload bb) (take left (body s'))))
                  rest)
          | inr last ↦
              let (nothing, all) = brigade-last s len last in
              rw (feeds.succeeds s len, not_empty s len some_, feeds.flattens s len, last)
                (
                  ap (λ b. total ++ b)
                      (sym (taken ∙ ap (λ b. payload bb ++ b) nothing ∙ append-nil (payload bb))),
                  sym (dropped ∙ all),
                )
        ]

    -- Over filters that feed a body, a read of `len` bytes ends within `len` rounds of its loop and
    -- croaks nowhere. It returns the next `len` bytes of the body, or all that are left if those
    -- are fewer, and leaves the bytes behind them to come.
    pub request_read-Reads :
        (fuel : ℕ) (s : S) (len : ℕ)
        → len ≤ fuel
        → Reads (take len (body s)) (drop len (body s)) (request_read input fuel s len)
    unfolding request_read
    request_read-Reads fuel s zero enough = (refl, refl)
    request_read-Reads fuel s (suc len) enough =
        let loop : RequestRead S = brigade_loop input fuel s [] (suc len) in
        let some_ : (suc len == 0) ≡ false = ground arith in
        let created = ap (λ b. if not b then no_brigade else loop) feeds.creates in
        rw (some_, created) (brigade_loop-Reads fuel s [] (suc len) (omega arith) enough)
