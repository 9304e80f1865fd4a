-- ===== src/Filter/Read.antt =====
-- Reading from a filter: get_bucket and modperl_filter_read.
pub mod Stream
use mod_perl.Prelude.{
  ℕ, zero, suc, ◌+◌, ◌-◌, Bool, true, false, Option, none, some, List, [], ◌∷◌, ◌++◌, ◌==◌, ltb,
  leb, if◌then◌else◌, length, take, drop,
}
use mod_perl.Status.{Status, ok, is_ok}
use mod_perl.Cgi.{Bytes}
use mod_perl.Filter.{Bucket, bytes, unreadable, eos, flush, Brigade, Filter}

-- What `get_bucket` does at the bucket that it has moved to; `[]` stands for the sentinel.
arrive : Filter → Brigade → Filter × Option Bucket
arrive f [] = (record f { bucket = none; bb_in = some [] }, none)
arrive f (eos ∷ rest) = (record f { bucket = some (eos ∷ rest); seen_eos = true }, none)
arrive f (flush ∷ rest) = (record f { bucket = some (flush ∷ rest); flush = true }, none)
arrive f (bytes b ∷ rest) = (record f { bucket = some (bytes b ∷ rest) }, some (bytes b))
arrive f (unreadable rc ∷ rest) =
    (record f { bucket = some (unreadable rc ∷ rest) }, some (unreadable rc))

abbrev pub next_of : Brigade → Brigade
next_of [] = []
next_of (b ∷ rest) = rest

-- The buckets that `get_bucket` has not come to.
abbrev pub ahead : Option Brigade → Brigade → Brigade
ahead none bb = bb
ahead (some at) bb = next_of at

-- The bucket to read, or `none` for 0.
pub get_bucket : Filter → Filter × Option Bucket
unfolding arrive
get_bucket f = elim f.bb_in [
  | none ↦ (f, none)
  | some bb ↦ elim bb [ [] ↦ (f, none) | b ∷ rest ↦ arrive f (ahead f.bucket (b ∷ rest)) ]
]

-- The buffer and its length, or the status that modperl_croak is called with.
pub data ReadResult : Type 0 where
  got : Filter → Bytes → ℕ → ReadResult
  croaked : Filter → Status → ReadResult

-- One bucket that was read, its bytes longer than what is wanted or not: the loop's body. The
-- second argument stands for the rounds to come.
read_bytes : (Filter → Bytes → ℕ → ReadResult) → Filter → Bytes → ℕ → ℕ → Bytes → ReadResult
read_bytes go_on f buffer len wanted buf =
    if length buf == 0
    then go_on f buffer len
    else if leb wanted (length buffer + length buf)
    then (let nibble = wanted - length buffer in
        got (record f { leftover = drop nibble buf }) (buffer ++ take nibble buf) (len + nibble))
    else go_on f (buffer ++ buf) (len + length buf)

-- What a round does with the bucket that `get_bucket` returned.
read_round : (Filter → Bytes → ℕ → ReadResult) → ℕ → Bytes → ℕ → Filter × Option Bucket → ReadResult
unfolding read_bytes
read_round go_on wanted buffer len (f, none) = got f buffer len
read_round go_on wanted buffer len (f, some (bytes buf)) =
    read_bytes go_on (record f { rc = ok }) buffer len wanted buf
read_round go_on wanted buffer len (f, some (unreadable rc)) = croaked (record f { rc = rc }) rc
read_round go_on wanted buffer len (f, some _) = got f buffer len

-- `while (1)`. Each round moves on by one bucket, so one round more than there are buckets is enough.
pub read_loop : ℕ → ℕ → Filter → Bytes → ℕ → ReadResult
read_loop zero wanted f buffer len = got f buffer len
read_loop (suc fuel) wanted f buffer len =
    read_round (read_loop fuel wanted) wanted buffer len (get_bucket f)

-- The number of rounds given to the loop.
abbrev pub rounds : Filter → ℕ
rounds f = elim f.bb_in [ none ↦ 1 | some bb ↦ suc (length bb) ]

-- modperl_filter_read behind its test of `seen_eos`.
read_open : Filter → ℕ → ReadResult
read_open f wanted =
    if length f.leftover == 0
    then read_loop (rounds f) wanted f [] 0
    else if leb wanted (length f.leftover)
    then got (record f { leftover = drop wanted f.leftover }) (take wanted f.leftover) wanted
    else read_loop (rounds f) wanted (record f { leftover = [] }) f.leftover (length f.leftover)

pub filter_read : Filter → ℕ → ReadResult
filter_read f wanted = let r = read_open f wanted in if f.seen_eos then got f [] 0 else r
