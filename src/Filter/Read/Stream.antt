-- ===== src/Filter/Read/Stream.antt =====
-- Reads hand out the bytes of the incoming brigade in order, none twice and none left out.
use mathlib.Core.Path.{subst}
use mod_perl.Prelude.{
  ℕ, zero, suc, ◌+◌, ◌-◌, ◌≤◌, ◌<◌, ◌≡◌, ◌⊎◌, refl, sym, ap, ap₂, ◌∙◌, inl, inr, true, false,
  Option, none, some, [], ◌∷◌, ◌++◌, append_assoc, ◌==◌, leb, length, take, drop, length-append,
  length-take, take-append-drop, Bool-cases, Option-cases, leb→le, arith,
}
use mod_perl.Status.{ok}
use mod_perl.Cgi.{Bytes}
use mod_perl.Filter.{Bucket, bytes, unreadable, eos, flush, Brigade, Filter, payload}
use mod_perl.Filter.Read.{
  arrive, ahead, get_bucket, ReadResult, got, croaked, read_bytes, read_round, read_loop, rounds,
  read_open, filter_read,
}

abbrev rest_of : Option Brigade → Option Brigade → Brigade
rest_of none at = []
rest_of (some []) at = []
rest_of (some (b ∷ bb)) at = ahead at (b ∷ bb)

-- The buckets that are still to be read.
abbrev pub rest : Filter → Brigade
rest f = rest_of f.bb_in f.bucket

-- The bytes that are still to be read: those left of the last bucket, then those of the others.
abbrev pub pending : Filter → Bytes
pending f = f.leftover ++ payload (rest f)

-- Why a read may return less than was asked for.
abbrev pub Stopped : Filter → Type 0
Stopped f = (f.leftover ≡ []) × ((f.seen_eos ≡ true) ⊎ ((f.flush ≡ true) ⊎ (rest f ≡ [])))

-- No more buckets are left than the brigade has.
abbrev pub IsCursor : Filter → Type 0
IsCursor f = length (rest f) < rounds f

-- What a read of up to `wanted` bytes promises, where `all` bytes were pending.
abbrev pub Reads : ℕ → Bytes → ReadResult → Type 0
Reads wanted all (got f buffer len) =
    (buffer ++ pending f ≡ all)
    × (len ≡ length buffer)
    × (length buffer ≤ wanted)
    × ((length buffer ≡ wanted) ⊎ Stopped f)
    × IsCursor f
Reads wanted all (croaked f status) = f.rc ≡ status

get_bucket_cases :
    (f : Filter)
    → ((rest f ≡ []) × (get_bucket f ≡ (f, none)))
      ⊎ ((b : Bucket) × (bb : Brigade) × (f.bb_in ≡ some (b ∷ bb))
          × (get_bucket f ≡ arrive f (rest f)))
unfolding get_bucket
get_bucket_cases f = elim (Option-cases f.bb_in) [
  | inl absent ↦ inl (rw absent, ground (arith, absent))
  | inr (bb, present) ↦ of_brigade bb present
]
  where
    of_brigade :
        (bb : Brigade)
        → f.bb_in ≡ some bb
        → ((rest f ≡ []) × (get_bucket f ≡ (f, none)))
          ⊎ ((b : Bucket) × (bb' : Brigade) × (f.bb_in ≡ some (b ∷ bb'))
              × (get_bucket f ≡ arrive f (rest f)))
    of_brigade [] e = inl (rw e, ground (arith, e))
    of_brigade (b ∷ bb) e = inr (b, bb, e, ground (arith, e))

nil_of_length : (b : Bytes) → (length b == 0) ≡ true → b ≡ []
nil_of_length [] h = refl
nil_of_length (c ∷ b) h = absurd (ground arith)

step_bytes :
    (fuel wanted : ℕ) (f : Filter) (buffer : Bytes) (len : ℕ) (buf : Bytes)
    → f.leftover ≡ []
    → len ≡ length buffer
    → length buffer ≤ wanted
    → IsCursor f
    → ((g : Filter) (b : Bytes) (n : ℕ)
        → g.leftover ≡ []
        → rest g ≡ rest f
        → IsCursor g
        → n ≡ length b
        → length b ≤ wanted
        → Reads wanted (b ++ payload (rest f)) (read_loop fuel wanted g b n))
    → Reads wanted
        (buffer ++ (buf ++ payload (rest f)))
        (read_bytes (read_loop fuel wanted) f buffer len wanted buf)
unfolding read_bytes
step_bytes fuel wanted f buffer len buf l e h c ih = elim (Bool-cases (length buf == 0)) [
  | inl empty ↦ rw empty (rw (nil_of_length buf empty) (ih f buffer len l refl c e h))
  | inr some_bytes ↦ elim (Bool-cases (leb wanted (length buffer + length buf))) [
    | inl enough ↦
        rw (some_bytes, enough)
          (
            append_assoc buffer (take n buf) (drop n buf ++ payload (rest f))
                ∙ ap (λ c. buffer ++ c)
                    (sym (append_assoc (take n buf) (drop n buf) (payload (rest f)))
                      ∙ ap (λ c. c ++ payload (rest f)) (take-append-drop n buf)),
            omega
                (arith, length-append buffer (take n buf), length-take n buf, e, leb→le _ _ enough),
            omega (arith, length-append buffer (take n buf), length-take n buf),
            inl (
                omega
                  (arith, length-append buffer (take n buf), length-take n buf, leb→le _ _ enough)),
            c,
          )
    | inr short ↦
        rw (some_bytes, short)
          (rw (← append_assoc buffer buf (payload (rest f))) (
            ih f (buffer ++ buf) (len + length buf) l refl c
              (omega (arith, length-append buffer buf, e)) (rw length-append (ground arith))))
  ]
]
  where
    n : ℕ
    n = wanted - length buffer

get_bucket_next :
    (f : Filter) (b : Bucket) (bb : Brigade)
    → rest f ≡ b ∷ bb
    → (get_bucket f ≡ arrive f (b ∷ bb)) × (rest_of f.bb_in (some (b ∷ bb)) ≡ bb)
get_bucket_next f b bb at = elim (get_bucket_cases f) [
  | inl (none_left, stays) ↦ absurd (ground arith)
  | inr (x, bb', bb_in, moves) ↦ (moves ∙ ap (arrive f) at, ground (arith, bb_in))
]

fewer :
    (f : Filter) (b : Bucket) (bb : Brigade)
    → rest f ≡ b ∷ bb
    → rest_of f.bb_in (some (b ∷ bb)) ≡ bb
    → IsCursor f
    → length (rest_of f.bb_in (some (b ∷ bb))) < rounds f
fewer f b bb at behind c =
    omega (arith, ap (λ (l : Brigade). length l) at, ap (λ (l : Brigade). length l) behind)

-- With more rounds than buckets the loop never stops for want of a round.
read_loop_lem :
    (fuel wanted : ℕ) (f : Filter) (bb : Brigade) (buffer : Bytes) (len : ℕ)
    → f.leftover ≡ []
    → len ≡ length buffer
    → length buffer ≤ wanted
    → length bb < fuel
    → rest f ≡ bb
    → IsCursor f
    → Reads wanted (buffer ++ payload bb) (read_loop fuel wanted f buffer len)
unfolding read_loop read_round arrive
read_loop_lem zero wanted f bb buffer len l e h room at c = absurd (omega arith)
read_loop_lem (suc fuel) wanted f [] buffer len l e h room at c = elim (get_bucket_cases f) [
  | inl (none_left, stays) ↦
      rw stays (ap₂ (λ c d. buffer ++ (c ++ payload d)) l at, e, h, inr (l, inr (inr at)), c)
  | inr (b, bb', bb_in, moves) ↦
      rw (moves, at) (ap (λ c. buffer ++ (c ++ [])) l, e, h, inr (l, inr (inr refl)), omega arith)
]
read_loop_lem (suc fuel) wanted f (eos ∷ bb) buffer len l e h room at c =
    let (moves, behind) = get_bucket_next f eos bb at in
    rw moves (
      ap₂ (λ c d. buffer ++ (c ++ payload d)) l behind,
      e,
      h,
      inr (l, inl refl),
      fewer f _ bb at behind c,
    )
read_loop_lem (suc fuel) wanted f (flush ∷ bb) buffer len l e h room at c =
    let (moves, behind) = get_bucket_next f flush bb at in
    rw moves (
      ap₂ (λ c d. buffer ++ (c ++ payload d)) l behind,
      e,
      h,
      inr (l, inr (inl refl)),
      fewer f _ bb at behind c,
    )
read_loop_lem (suc fuel) wanted f (unreadable rc ∷ bb) buffer len l e h room at c =
    rw (get_bucket_next f (unreadable rc) bb at).0 refl
read_loop_lem (suc fuel) wanted f (bytes buf ∷ bb) buffer len l e h room at c =
    let (moves, behind) = get_bucket_next f (bytes buf) bb at in
    let at_bytes : Filter = record f { bucket = some (bytes buf ∷ bb); rc = ok } in
    rw moves (
      rw behind at (
        step_bytes fuel wanted at_bytes buffer len buf l e h (fewer f _ bb at behind c)
          λ g b n gl gr gc ge gh.
            rw behind (read_loop_lem fuel wanted g bb b n gl ge gh (omega arith) (gr ∙ behind) gc)))

read_open_lem :
    (f : Filter) (wanted : ℕ) → IsCursor f → Reads wanted (pending f) (read_open f wanted)
unfolding read_open
read_open_lem f wanted c = elim (Bool-cases (length f.leftover == 0)) [
  | inl empty ↦
      let l = nil_of_length f.leftover empty in
      rw empty (
        rw (ap (λ b. b ++ payload (rest f)) l)
          (read_loop_lem (rounds f) wanted f (rest f) [] 0 l refl (omega arith) c refl c))
  | inr some_left ↦ elim (Bool-cases (leb wanted (length f.leftover))) [
    | inl enough ↦
        rw (some_left, enough)
          (
            sym (append_assoc (take wanted f.leftover) (drop wanted f.leftover) (payload (rest f)))
                ∙ ap (λ b. b ++ payload (rest f)) (take-append-drop wanted f.leftover),
            omega (arith, length-take wanted f.leftover, leb→le _ _ enough),
            omega (arith, length-take wanted f.leftover),
            inl (omega (arith, length-take wanted f.leftover, leb→le _ _ enough)),
            c,
          )
    | inr short ↦
        rw (some_left, short)
          (read_loop_lem (rounds f) wanted (record f { leftover = [] }) (rest f) f.leftover
            (length f.leftover) refl refl (ground arith) c refl c)
  ]
]

-- While the end of the stream has not been seen, and no more buckets are left than the brigade has,
-- as of every brigade that is read from its start, a read of up to `wanted` bytes returns a prefix of
-- the bytes that were pending and leaves the rest pending, however they lie in the buckets. It
-- returns fewer than were asked for only where the end of the stream or a FLUSH bucket was met or
-- no bucket is left. If it fails, it leaves the status that it fails with in the filter.
pub filter_read_lem :
    (f : Filter) (wanted : ℕ)
    → IsCursor f
    → f.seen_eos ≡ false
    → Reads wanted (pending f) (filter_read f wanted)
filter_read_lem f wanted c open_stream =
    let same : read_open f wanted ≡ filter_read f wanted =
      unfold filter_read in ground (arith, open_stream) in
    subst (Reads wanted (pending f)) same (read_open_lem f wanted c)

-- Once the end of the stream was seen, a read returns nothing and changes nothing.
pub filter_read_eos :
    (f : Filter) (wanted : ℕ) → f.seen_eos ≡ true → filter_read f wanted ≡ got f [] 0
unfolding filter_read
filter_read_eos f wanted e = ground (arith, e)
