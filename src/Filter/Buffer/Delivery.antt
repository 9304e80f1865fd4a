-- ===== src/Filter/Buffer/Delivery.antt =====
-- No byte is lost or reordered on its way through the write buffer.
use mod_perl.Prelude.{
  ◌+◌, ◌≤◌, ◌≡◌, ◌⊎◌, refl, sym, ap, ap₂, ◌∙◌, Bool, true, false, List, [], ◌∷◌, ◌++◌, append_assoc,
  append-nil, ◌==◌, ltb, leb, length, take, take_all, length-append, Bool-cases, inl, inr, arith,
}
use mod_perl.Status.{ok, is_ok}
use mod_perl.Cgi.{Bytes}
use mod_perl.Filter.{eos, Brigade, Env, Wbucket, delivered}
use mod_perl.Filter.Buffer.{
  send_output_eos, send_output_flush, pass_on, send_data, wbucket_pass, wbucket_flush, write_rest,
  wbucket_write,
}

-- What has left the buffer, then what is in it.
abbrev pub written : Wbucket → Bytes
written wb = delivered wb.sent ++ wb.outbuf

nil_of_length : (b : Bytes) → (length b == 0) ≡ true → b ≡ []
nil_of_length [] h = refl
nil_of_length (c ∷ b) h = absurd (ground arith)

length-nil : (b : Bytes) → b ≡ [] → length b ≡ 0
length-nil [] h = refl
length-nil (c ∷ b) h = cc

module _ (env : Env) where
  -- With no headers to parse, a pass delivers its bytes and empties the buffer.
  pub wbucket_pass_lem :
      (wb : Wbucket) (buf : Bytes) (add_flush_bucket : Bool)
      → wb.header_parse ≡ false
      → let wb' = (wbucket_pass env wb buf add_flush_bucket).0 in
        (delivered wb'.sent ≡ delivered wb.sent ++ buf)
        × (wb'.outbuf ≡ [])
        × (wb'.header_parse ≡ false)
  unfolding wbucket_pass send_data pass_on
  wbucket_pass_lem wb buf true h = rw h (rw (append-nil buf) (refl, refl, refl))
  wbucket_pass_lem wb buf false h = rw h (rw (append-nil buf) (refl, refl, refl))

  -- The parts of the buffer's invariant that a write needs.
  pub record IsBuffer (wb : Wbucket) : Type 0 where
    pub fits : length wb.outbuf ≤ env.bufsize
    pub plain : wb.header_parse ≡ false

  -- A flush delivers what is buffered.
  pub wbucket_flush_lem :
      (wb : Wbucket) (add_flush_bucket : Bool)
      → wb.header_parse ≡ false
      → let wb' = (wbucket_flush env wb add_flush_bucket).0 in
        (delivered wb'.sent ≡ written wb) × (wb'.outbuf ≡ []) × (wb'.header_parse ≡ false)
  unfolding wbucket_flush pass_on
  wbucket_flush_lem wb add_flush_bucket h = elim (Bool-cases (length wb.outbuf == 0)) [
    | inl empty ↦
        let e : wb.outbuf ≡ [] = nil_of_length wb.outbuf empty in
        elim (Bool-cases add_flush_bucket) [
          | inl flushing ↦ rw (empty, flushing) (ap (λ b. delivered wb.sent ++ b) (sym e), e, h)
          | inr quiet ↦
              rw (empty, quiet)
                (sym (ap (λ b. delivered wb.sent ++ b) e ∙ append-nil (delivered wb.sent)), e, h)
        ]
    | inr full ↦ rw full (wbucket_pass_lem wb wb.outbuf add_flush_bucket h)
  ]

  write_rest_lem :
      (wb : Wbucket) (buf : Bytes)
      → wb.header_parse ≡ false
      → (length buf + length wb.outbuf ≤ env.bufsize) ⊎ (wb.outbuf ≡ [])
      → let r = write_rest env wb buf in
        (written r.0 ≡ written wb ++ buf) × IsBuffer r.0 × (r.2 ≡ length buf)
  unfolding write_rest
  write_rest_lem wb buf h room = elim (Bool-cases (leb env.bufsize (length buf))) [
    | inl large ↦
        let sent = wbucket_pass_lem wb buf false h in
        let e : wb.outbuf ≡ [] = nil_of_length wb.outbuf (ground (arith, length-nil wb.outbuf)) in
        rw large (
          ap₂ (λ b c. b ++ c) sent.0 sent.1
              ∙ append-nil (delivered wb.sent ++ buf)
              ∙ ap (λ b. b ++ buf)
                  (sym (append-nil (delivered wb.sent)) ∙ ap (λ b. delivered wb.sent ++ b) (sym e)),
          record { fits = rw sent.1 (omega arith); plain = sent.2 },
          refl,
        )
    | inr small ↦ rw small (
      sym (append_assoc (delivered wb.sent) wb.outbuf buf),
      record { fits = rw length-append (ground (arith, length-nil wb.outbuf)); plain = h },
      refl,
    )
  ]

  written-flush :
      (wb : Wbucket) → wb.header_parse ≡ false → written (wbucket_flush env wb false).0 ≡ written wb
  written-flush wb h =
      let flushed = wbucket_flush_lem wb false h in
      ap₂ (λ b c. b ++ c) flushed.0 flushed.1 ∙ append-nil (written wb)

  -- From a buffer within its size that has no headers to parse, a write takes all its bytes or, if
  -- the flush before it fails, none. Either way the bytes that were delivered, then those in the
  -- buffer, are the ones from before followed by those taken, in order, and the buffer stays within
  -- its size.
  pub wbucket_write_lem :
      (wb : Wbucket) (buf : Bytes)
      → IsBuffer wb
      → let r = wbucket_write env wb buf in
        (written r.0 ≡ written wb ++ take r.2 buf)
        × IsBuffer r.0
        × ((r.2 ≡ length buf) ⊎ ((r.2 ≡ 0) × (is_ok r.1 ≡ false)))
  unfolding wbucket_write
  wbucket_write_lem wb buf v =
      let flushed = wbucket_flush_lem wb false v.plain in
      elim (Bool-cases (ltb env.bufsize (length buf + length wb.outbuf))) [
        | inl over ↦ elim (Bool-cases (is_ok (wbucket_flush env wb false).1)) [
          | inl good ↦
              let rest =
                write_rest_lem (wbucket_flush env wb false).0 buf flushed.2 (inr flushed.1) in
              rw (over, good)
                (
                  rest.0
                      ∙ ap₂ (λ b c. b ++ c) (written-flush wb v.plain)
                          (sym (take_all _ buf (omega (arith, rest.2)))),
                  rest.1,
                  inl rest.2,
                )
          | inr bad ↦
              rw (over, bad)
                (
                  written-flush wb v.plain ∙ sym (append-nil (written wb)),
                  record { fits = rw flushed.1 (omega arith); plain = flushed.2 },
                  inr (refl, bad),
                )
        ]
        | inr room ↦
            let rest = write_rest_lem wb buf v.plain (inl (ground arith)) in
            rw room (
              rest.0 ∙ ap (λ b. written wb ++ b) (sym (take_all _ buf (omega (arith, rest.2)))),
              rest.1,
              inl rest.2,
            )
      ]

  wbucket_flush-ok :
      (wb : Wbucket)
      → wb.header_parse ≡ false
      → ((sent : List Brigade) → env.pass_brigade sent ≡ ok)
      → is_ok (wbucket_flush env wb false).1 ≡ true
  unfolding wbucket_flush wbucket_pass send_data pass_on
  wbucket_flush-ok wb h good = elim (Bool-cases (length wb.outbuf == 0)) [
    | inl empty ↦ rw empty
    | inr full ↦ rw (full, h, good)
  ]

  pub wbucket_flush-all_ok :
      (wb : Wbucket) (add_flush_bucket : Bool)
      → wb.header_parse ≡ false
      → ((sent : List Brigade) → env.pass_brigade sent ≡ ok)
      → (wbucket_flush env wb add_flush_bucket).1 ≡ ok
  unfolding wbucket_flush wbucket_pass send_data send_output_flush pass_on
  wbucket_flush-all_ok wb true h good = elim (Bool-cases (length wb.outbuf == 0)) [
    | inl empty ↦ rw empty (good _)
    | inr full ↦ rw (full, h) (good _)
  ]
  wbucket_flush-all_ok wb false h good = elim (Bool-cases (length wb.outbuf == 0)) [
    | inl empty ↦ rw empty refl
    | inr full ↦ rw (full, h) (good _)
  ]

  pub send_output_eos_lem :
      (wb : Wbucket)
      → ((send_output_eos env wb).0.sent ≡ (eos ∷ []) ∷ wb.sent)
        × ((send_output_eos env wb).0.outbuf ≡ wb.outbuf)
  unfolding send_output_eos pass_on
  send_output_eos_lem wb = (refl, refl)

  wbucket_write_all_taken :
      (wb : Wbucket) (buf : Bytes)
      → is_ok (wbucket_flush env wb false).1 ≡ true
      → (wbucket_write env wb buf).2 ≡ length buf
  unfolding wbucket_write write_rest
  wbucket_write_all_taken wb buf good = ground arith

  -- The writes of a handler, one after another; each of them takes all its bytes.
  pub write_all : Wbucket → List Bytes → Wbucket
  write_all wb [] = wb
  write_all wb (b ∷ bs) = write_all (wbucket_write env wb b).0 bs

  abbrev pub joined : List Bytes → Bytes
  joined [] = []
  joined (b ∷ bs) = b ++ joined bs

  written-write_all :
      (wb : Wbucket) (bs : List Bytes)
      → IsBuffer wb
      → ((sent : List Brigade) → env.pass_brigade sent ≡ ok)
      → (written (write_all wb bs) ≡ written wb ++ joined bs) × IsBuffer (write_all wb bs)
  unfolding write_all
  written-write_all wb [] v good = (sym (append-nil (written wb)), v)
  written-write_all wb (b ∷ bs) v good =
      let first = wbucket_write_lem wb b v in
      let rest = written-write_all (wbucket_write env wb b).0 bs first.1 good in
      let taken : (wbucket_write env wb b).2 ≡ length b =
        wbucket_write_all_taken wb b (wbucket_flush-ok wb v.plain good) in
      (
        rest.0
            ∙ ap (λ c. c ++ joined bs) first.0
            ∙ append_assoc (written wb) _ (joined bs)
            ∙ ap (λ c. written wb ++ (c ++ joined bs)) (take_all _ b (omega (arith, taken))),
        rest.1,
      )

  -- From a buffer within its size that has no headers to parse, and if the next filter takes every
  -- brigade, any sequence of writes and the flush at the end deliver
  -- exactly the bytes written, in order, behind what was delivered or buffered before.
  pub delivered-flush-write_all :
      (wb : Wbucket) (bs : List Bytes) (add_flush_bucket : Bool)
      → IsBuffer wb
      → ((sent : List Brigade) → env.pass_brigade sent ≡ ok)
      → delivered (wbucket_flush env (write_all wb bs) add_flush_bucket).0.sent
        ≡ written wb ++ joined bs
  delivered-flush-write_all wb bs add_flush_bucket v good =
      let w = written-write_all wb bs v good in
      (wbucket_flush_lem (write_all wb bs) add_flush_bucket w.1.plain).0 ∙ w.0
