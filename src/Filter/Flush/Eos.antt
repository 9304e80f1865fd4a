-- ===== src/Filter/Flush/Eos.antt =====
-- What the flushes send, and that nothing is sent behind an EOS.
use mod_perl.Prelude.{
  ◌≡◌, true, false, [], ◌∷◌, ◌++◌, append_assoc, append-nil, if◌then◌else◌, arith,
}
use mod_perl.Status.{ok}
use mod_perl.Filter.{eos, flush, Brigade, Filter}
use mod_perl.Filter.Flush.{
  input_filter_flush, input_flush_step, input_eos_step, send_input_flush, send_input_eos,
}

-- The metadata that a flush owes: FLUSH if one was met, then EOS if the stream has ended.
abbrev pub owed : Filter → Brigade
owed f = (if f.flush then flush ∷ [] else []) ++ (if f.eos then eos ∷ [] else [])

-- While no EOS was sent, an input flush appends what is owed, in this order, settles both debts and
-- notes whether the EOS went out.
pub input_filter_flush_lem :
    (f : Filter)
    → f.sent_eos ≡ false
    → let f' = (input_filter_flush f).0 in
      (f'.bb_out ≡ f.bb_out ++ owed f)
      × (f'.flush ≡ false)
      × (f'.eos ≡ false)
      × (f'.sent_eos ≡ f.eos)
unfolding input_filter_flush input_flush_step input_eos_step send_input_flush send_input_eos
input_filter_flush_lem f h =
    let both : (f.bb_out ++ (flush ∷ [])) ++ (eos ∷ []) ≡ f.bb_out ++ (flush ∷ (eos ∷ [])) =
      append_assoc f.bb_out (flush ∷ []) (eos ∷ []) in
    let nothing : f.bb_out ++ [] ≡ f.bb_out = append-nil f.bb_out in ground (arith, both, nothing)

-- A second input flush right behind the first changes nothing, whether or not the EOS was sent.
pub input_filter_flush_twice :
    (f : Filter) → (input_filter_flush (input_filter_flush f).0).0 ≡ (input_filter_flush f).0
unfolding input_filter_flush input_flush_step input_eos_step send_input_flush send_input_eos
input_filter_flush_twice f = ground arith

-- The flush of a filter that owes an EOS, field by field.
pub input_filter_flush_eos :
    (f : Filter)
    → f.sent_eos ≡ false
    → f.eos ≡ true
    → input_filter_flush f ≡ (
      record f {
        bb_out = f.bb_out ++ owed f;
        flush = false;
        eos = false;
        sent_eos = true;
        rc = ok;
      },
      ok,
    )
unfolding input_filter_flush input_flush_step input_eos_step send_input_flush send_input_eos
input_filter_flush_eos f h e =
    let both : (f.bb_out ++ (flush ∷ [])) ++ (eos ∷ []) ≡ f.bb_out ++ (flush ∷ (eos ∷ [])) =
      append_assoc f.bb_out (flush ∷ []) (eos ∷ []) in
    ground (arith, both)

-- A flush of a filter that owes nothing.
pub input_filter_flush_none :
    (f : Filter) → f.flush ≡ false → f.eos ≡ false → input_filter_flush f ≡ (f, f.rc)
unfolding input_filter_flush input_flush_step input_eos_step send_input_flush send_input_eos
input_filter_flush_none f h e = ground (arith, h, e)
