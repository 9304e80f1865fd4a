-- ===== src/Io/Request/Print.antt =====
-- What reaches the response of what $r->puts and $r->print are given, errors included.
use mod_perl.Prelude.{
  zero, suc, ◌==◌, if◌then◌else◌, ℕ, suc, ◌+◌, ◌≡◌, ◌⊎◌, inl, inr, sym, ap, ap₂, ◌∙◌, Bool, true,
  false, Option, none, some, List, [], ◌∷◌, ◌++◌, append_assoc, append-nil, length, length-append,
  take, take_all, Bool-cases, arith,
}
use mod_perl.Status.{is_ok}
use mod_perl.Cgi.{Bytes}
use mod_perl.Filter.{Env, Wbucket}
use mod_perl.Filter.Buffer.{wbucket_write, wbucket_flush}
use mod_perl.Filter.Buffer.Delivery.{
  written, IsBuffer, wbucket_write_lem, wbucket_flush_lem, joined,
}
use mod_perl.Io.Request.{
  Output, value, died, too_early, outside, Printed, count, zero_but_true, printed, write_loop,
  flush_behind, output_flush, print,
}

take-front : (b c : Bytes) (k : ℕ) → take (length b + k) (b ++ c) ≡ b ++ take k c
take-front [] c k = let e : 0 + k ≡ k = omega arith in rw e
take-front (x ∷ b) c k =
    let e : suc (length b) + k ≡ suc (length b + k) = omega arith in
    rw e (ap (λ (l : Bytes). x ∷ l) (take-front b c k))

module _ (env : Env) where
  -- From `wb`, the arguments were put into the buffer `wb'` and behind it: all of them with their
  -- number of bytes, or, with a status that is not OK, no more than the first ones.
  abbrev pub Put : Wbucket → Bytes → ℕ → Wbucket → Output ℕ → Type 0
  Put wb text total wb' (value n) = (written wb' ≡ written wb ++ text) × (n ≡ total + length text)
  Put wb text total wb' (died rc) =
      (is_ok rc ≡ false) × (k : ℕ) × (written wb' ≡ written wb ++ take k text)
  Put wb text total wb' too_early = ⊥
  Put wb text total wb' outside = ⊥

  Put-behind :
      (wb mid : Wbucket) (b text : Bytes) (total sum : ℕ) (wb' : Wbucket) (out : Output ℕ)
      → written mid ≡ written wb ++ b
      → sum ≡ total + length b
      → Put mid text sum wb' out
      → Put wb (b ++ text) total wb' out
  Put-behind wb mid b text total sum wb' (value n) e more (put, all) = (
    put ∙ ap (λ c. c ++ text) e ∙ append_assoc (written wb) b text,
    let l = length-append b text in omega (arith, more, all, l),
  )
  Put-behind wb mid b text total sum wb' (died rc) e more (bad, k, put) = (
    bad,
    length b + k,
    put
        ∙ ap (λ c. c ++ take k text) e
        ∙ append_assoc (written wb) b (take k text)
        ∙ ap (λ c. written wb ++ c) (sym (take-front b text k)),
  )
  Put-behind wb mid b text total sum wb' too_early e more put = absurd put
  Put-behind wb mid b text total sum wb' outside e more put = absurd put

  -- A write that took nothing, or all that it was given, took the first bytes of what was to be put.
  taken :
      (b text : Bytes) (wlen : ℕ)
      → (wlen ≡ length b) ⊎ (wlen ≡ 0)
      → (k : ℕ) × (take wlen b ≡ take k (b ++ text))
  taken b text wlen (inl all) = (
    length b + 0,
    take_all wlen b (omega (arith, all)) ∙ sym (take-front b text 0 ∙ append-nil b),
  )
  taken b text wlen (inr nothing) = (0, ap (λ n. take n b) nothing)

  pub write_loop-Put :
      (wb : Wbucket) (args : List Bytes) (total : ℕ)
      → IsBuffer env wb
      → let (wb', out) = write_loop env wb args total in
        Put wb (joined env args) total wb' out × IsBuffer env wb'
  unfolding write_loop
  write_loop-Put wb [] total v = ((sym (append-nil (written wb)), omega arith), v)
  write_loop-Put wb (b ∷ args) total v =
      let (wb', rc, wlen) = wbucket_write env wb b in
      let (kept, valid, how) = wbucket_write_lem env wb b v in
      elim (Bool-cases (is_ok rc)) [
        | inl good ↦
            let all : wlen ≡ length b = elim how [ inl e ↦ e | inr (e, bad) ↦ cc ] in
            let (put, valid') = write_loop-Put wb' args (total + wlen) valid in
            let front : written wb' ≡ written wb ++ b =
              kept ∙ ap (λ c. written wb ++ c) (take_all wlen b (omega (arith, all))) in
            rw good (
              Put-behind wb wb' b (joined env args) total (total + wlen)
                  (write_loop env wb' args (total + wlen)).0
                  (write_loop env wb' args (total + wlen)).1 front (ap (λ n. total + n) all) put,
              valid',
            )
        | inr bad ↦
            let (k, e) =
              taken b (joined env args) wlen
                (elim how [ inl all ↦ inl all | inr (nothing, bad') ↦ inr nothing ]) in
            rw bad ((bad, k, kept ∙ ap (λ c. written wb ++ c) e), valid)
      ]

  -- A number of bytes as Perl sees it, where 0 is to be true.
  abbrev pub wanted_count : ℕ → Printed
  wanted_count zero = zero_but_true
  wanted_count (suc n) = count (suc n)

  printed_lem : (bytes n : ℕ) → bytes ≡ n → printed bytes ≡ wanted_count n
  printed_lem bytes zero e =
      let z : (bytes == 0) ≡ true = ground (arith, e) in
      ap (λ b. if b then zero_but_true else count bytes) z
  printed_lem bytes (suc n) e =
      let more : (bytes == 0) ≡ false = ground (arith, e) in
      ap (λ b. if b then zero_but_true else count bytes) more ∙ ap count e

  abbrev Flushed : Bool → Bytes → Type 0
  Flushed true outbuf = outbuf ≡ []
  Flushed false outbuf = Unit

  -- The end of $r->print: a count of all the bytes, with nothing in the buffer under $|; or a croak
  -- with a status that is not OK, when no more than the first bytes have been put.
  abbrev pub Prints : Wbucket → Bytes → Bool → Option Wbucket → Output Printed → Type 0
  Prints wb text autoflush none out = ⊥
  Prints wb text autoflush (some wb') (value p) =
      (written wb' ≡ written wb ++ text)
      × (p ≡ wanted_count (length text))
      × Flushed autoflush wb'.outbuf
  Prints wb text autoflush (some wb') (died rc) =
      (is_ok rc ≡ false) × (k : ℕ) × (written wb' ≡ written wb ++ take k text)
  Prints wb text autoflush (some wb') too_early = ⊥
  Prints wb text autoflush (some wb') outside = ⊥

  output_flush-Prints :
      (wb : Wbucket) (text : Bytes) (autoflush : Bool) (wb' : Wbucket) (bytes : ℕ)
      → IsBuffer env wb'
      → written wb' ≡ written wb ++ text
      → bytes ≡ length text
      → let (wb″, out) = output_flush env autoflush wb' (printed bytes) in
        Prints wb text autoflush (some wb″) out
  unfolding output_flush
  output_flush-Prints wb text false wb' bytes v put all =
      (put, printed_lem bytes (length text) all, tt)
  output_flush-Prints wb text true wb' bytes v put all =
      let (sent, emptied, plain) = wbucket_flush_lem env wb' true v.plain in
      let kept : written (wbucket_flush env wb' true).0 ≡ written wb ++ text =
        ap₂ (λ b c. b ++ c) sent emptied ∙ append-nil (written wb') ∙ put in
      elim (Bool-cases (is_ok (wbucket_flush env wb' true).1)) [
        | inl good ↦ rw good (kept, printed_lem bytes (length text) all, emptied)
        | inr bad ↦ rw bad (
          bad,
          length text,
          kept ∙ ap (λ c. written wb ++ c) (sym (take_all (length text) text (omega arith))),
        )
      ]

  flush_behind-Prints :
      (wb : Wbucket) (text : Bytes) (autoflush : Bool) (wb' : Wbucket) (out : Output ℕ)
      → IsBuffer env wb'
      → Put wb text 0 wb' out
      → let (wb″, end) = flush_behind env autoflush (wb', out) in
        Prints wb text autoflush (some wb″) end
  unfolding flush_behind
  flush_behind-Prints wb text autoflush wb' (value n) v (put, all) =
      output_flush-Prints wb text autoflush wb' n v put (omega (arith, all))
  flush_behind-Prints wb text autoflush wb' (died rc) v put = put
  flush_behind-Prints wb text autoflush wb' too_early v put = absurd put
  flush_behind-Prints wb text autoflush wb' outside v put = absurd put

  -- From a buffer within its size that has no headers to parse, and whatever the next filter
  -- answers: $r->print gives the number of all its bytes ("0E0" for 0), and then they were
  -- delivered or are in the buffer, in order, behind what was there, and under $| none is in the
  -- buffer. Or it croaks with a status that is not OK, and then only the first of its bytes were
  -- put, in the same place.
  pub print-Prints :
      (wb : Wbucket) (args : List Bytes) (autoflush : Bool)
      → IsBuffer env wb
      → let (wbucket, out) = print env autoflush (some wb) args in
        Prints wb (joined env args) autoflush wbucket out
  unfolding print
  print-Prints wb args autoflush v =
      let (wb', out) = write_loop env wb args 0 in
      let (put, valid) = write_loop-Put wb args 0 v in
      flush_behind-Prints wb (joined env args) autoflush wb' out valid put
