-- ===== src/Io/Tests.antt =====
-- A body of three bytes that comes one byte at a time, and a print under $|.
use mod_perl.Prelude.{
  ℕ, zero, suc, ◌≤◌, ◌≡◌, inl, inr, refl, true, some, List, [], ◌∷◌, ◌++◌, ◌⊎◌, length, arith,
}
use mod_perl.Status.{Status, pos, ok}
use mod_perl.Cgi.{Bytes}
use mod_perl.Filter.{bytes, eos, Brigade, payload, Env, Wbucket}
use mod_perl.Filter.Flush.{new_wbucket}
use mod_perl.Filter.Buffer.Delivery.{IsBuffer, joined}
use mod_perl.Io.{Input, ends_with_eos, request_read}
use mod_perl.Io.Stream.{Feeds, Reads, request_read-Reads}
use mod_perl.Io.Request.{print}
use mod_perl.Io.Request.Print.{Prints, print-Prints}

-- The filters' state is the body that is still to come.
abbrev next_brigade : Bytes → ℕ → Bytes × Brigade × Status
next_brigade [] n = ([], eos ∷ [], ok)
next_brigade (c ∷ b) zero = (c ∷ b, bytes [] ∷ [], ok)
next_brigade (c ∷ b) (suc n) = (b, bytes (c ∷ []) ∷ [], ok)

abbrev flat : Brigade → ℕ → Bytes × Status
flat [] n = ([], ok)
flat (bytes b ∷ bb) n = (b ++ (flat bb n).0, ok)
flat (_ ∷ bb) n = flat bb n

abbrev input : Input Bytes
input = record { get_brigade = next_brigade; flatten = flat; creates = true }

feeds-splits : (b : Bytes) (n : ℕ) → b ≡ payload (next_brigade b n).1 ++ (next_brigade b n).0
feeds-splits [] n = refl
feeds-splits (c ∷ b) zero = refl
feeds-splits (c ∷ b) (suc n) = refl

feeds-fits :
    (b : Bytes) (n : ℕ)
    → ((next_brigade b n).2 ≡ ok)
      × (length (payload (next_brigade b n).1) ≤ n)
      × (flat (next_brigade b n).1 n ≡ (payload (next_brigade b n).1, ok))
feeds-fits [] n = (refl, omega arith, refl)
feeds-fits (c ∷ b) zero = (refl, omega arith, refl)
feeds-fits (c ∷ b) (suc n) = (refl, omega arith, refl)

feeds-moves :
    (b : Bytes) (n : ℕ)
    → 1 ≤ n
    → (1 ≤ length (payload (next_brigade b n).1)) ⊎ (ends_with_eos (next_brigade b n).1 ≡ true)
feeds-moves [] n h = inr refl
feeds-moves (c ∷ b) zero h = absurd (omega arith)
feeds-moves (c ∷ b) (suc n) h = inl (omega arith)

feeds-ends :
    (b : Bytes) (n : ℕ) → ends_with_eos (next_brigade b n).1 ≡ true → (next_brigade b n).0 ≡ []
feeds-ends [] n e = refl
feeds-ends (c ∷ b) zero e = cc
feeds-ends (c ∷ b) (suc n) e = cc

feeds : Feeds input (λ b. b)
feeds = record {
  creates = refl;
  succeeds = λ s n. (feeds-fits s n).0;
  splits = feeds-splits;
  bounded = λ s n. (feeds-fits s n).1;
  moves = feeds-moves;
  ends = feeds-ends;
  flattens = λ s n. (feeds-fits s n).2;
}

abbrev body : Bytes
body = 7 ∷ (8 ∷ (9 ∷ []))

request_read-Reads_example :
    Reads input (λ b. b) (7 ∷ (8 ∷ [])) (9 ∷ []) (request_read input 2 body 2)
request_read-Reads_example = request_read-Reads input (λ b. b) feeds 2 body 2 (omega arith)

-- The next filter refuses every brigade.
abbrev env : Env
env = record {
  bufsize = 4;
  pass_brigade = λ sent. pos 104;
  get_brigade = ([], ok);
  scan_headers = λ r b. (r, ok);
}

abbrev buffer : Wbucket
buffer = record (new_wbucket []) { outbuf = 1 ∷ (2 ∷ []) }

abbrev args : List Bytes
args = (3 ∷ []) ∷ ((4 ∷ (5 ∷ [])) ∷ [])

buffer-IsBuffer : IsBuffer env buffer
buffer-IsBuffer = record { fits = omega arith; plain = refl }

print-Prints_example :
    let (wbucket, out) = print env true (some buffer) args in
    Prints env buffer (joined env args) true wbucket out
print-Prints_example = print-Prints env buffer args true buffer-IsBuffer
