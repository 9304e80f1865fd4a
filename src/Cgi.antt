-- ===== src/Cgi.antt =====
-- src/modules/perl/modperl_cgi.c: the headers that a script prints are cut off its output, and a
-- Location header is acted on. ap_scan_script_header_err_strs is a parameter: it returns the
-- request with the headers stored, and its status.
pub mod Split
pub mod Tests
use mod_perl.Prelude.{
  ℕ, zero, suc, ◌+◌, ◌-◌, Bool, true, false, not, ◌&&◌, ◌||◌, Option, none, some, List, [], ◌∷◌,
  ◌==◌, leb, if◌then◌else◌, length, drop,
}
use mod_perl.Status.{Status, pos, same_status, ok, declined, http_moved_temporarily}

abbrev pub Bytes : Type 0
Bytes = List ℕ

-- What the code reads and writes of a request_rec: its headers_out "Location", the "Content-Length"
-- of headers_in, the internal redirects that were run, and the status of its mod_perl config.
pub record Request : Type 0 where
  pub status : Status
  pub location : Option Bytes
  pub method : Bytes
  pub method_number : ℕ
  pub content_length : Option Bytes
  pub redirects : List Bytes
  pub rcfg_status : Status

-- M_GET of httpd.h.
abbrev pub m_get : ℕ
m_get = 0

-- `newln` after one more byte; CR is 13.
pub next_newln : ℕ → ℕ → ℕ
next_newln newln c =
    let kept = if not (c == 13) && not (c == b'\n') then 0 else newln in
    if c == b'\n' then kept + 1 else kept

-- `tmp - buffer` where the loop ends.
pub header_length : ℕ → Bytes → ℕ
header_length newln [] = 0
header_length newln (c ∷ rest) =
    let more = suc (header_length (next_newln newln c) rest) in
    if next_newln newln c == 2 then 1 else more

-- `*body`, and the new `*len`.
pub split_body : Bytes → Option Bytes × ℕ
split_body buffer =
    let consumed = header_length 0 buffer in
    if leb (length buffer) consumed
    then (none, 0)
    else (some (drop consumed buffer), length buffer - consumed)

pub record Parsed : Type 0 where
  pub request : Request
  pub status : Status
  pub body : Option Bytes
  pub len : ℕ

-- `location[0] == '/'`
abbrev pub is_local : Bytes → Bool
is_local [] = false
is_local (c ∷ rest) = c == b'/'

-- The redirect of a successful scan, with the status that is returned.
pub redirect : Request → Status → Request × Status
redirect r status = elim r.location [
  | none ↦ (r, status)
  | some location ↦
      if is_local location && same_status r.status (pos 200)
      then (
        record r {
          method = b'G' ∷ b'E' ∷ b'T' ∷ [];
          method_number = m_get;
          content_length = none;
          redirects = location ∷ r.redirects;
        },
        ok,
      )
      else if same_status r.status (pos 200)
      then (record r { rcfg_status = http_moved_temporarily }, http_moved_temporarily)
      else (r, status)
]

-- `len` is the number of bytes at `buffer` before the call; NULL leaves `*len` and `*body` alone.
pub header_parse : (Request → Bytes → Request × Status) → Request → Option Bytes → ℕ → Parsed
unfolding split_body redirect
header_parse scan r none len = record { request = r; status = declined; body = none; len = len }
header_parse scan r (some buffer) len =
    let (body, rest) = split_body buffer in
    let (scanned, status) = scan r buffer in
    let (r', status') = redirect scanned status in
    record { request = r'; status = status'; body = body; len = rest }
