-- ===== src/Status.antt =====
-- The `int` that handlers return and the `apr_status_t` that filters return, with the constants of
-- httpd.h and apr_errno.h that the code names: OK and APR_SUCCESS are 0, DECLINED is -1.
use mod_perl.Prelude.{ℕ, Bool, false, ◌==◌}

-- `negsuc n` is -(n + 1).
pub data ℤ : Type 0 where
  pos : ℕ → ℤ
  negsuc : ℕ → ℤ

abbrev pub Status : Type 0
Status = ℤ

abbrev pub ok : Status
ok = pos 0

abbrev pub declined : Status
declined = negsuc 0

abbrev pub http_moved_temporarily : Status
http_moved_temporarily = pos 302

abbrev pub http_internal_server_error : Status
http_internal_server_error = pos 500

-- `s == t` on ints.
abbrev pub same_status : Status → Status → Bool
same_status (pos m) (pos n) = m == n
same_status (negsuc m) (negsuc n) = m == n
same_status (pos m) (negsuc n) = false
same_status (negsuc m) (pos n) = false

abbrev pub is_ok : Status → Bool
is_ok s = same_status s ok

abbrev pub is_declined : Status → Bool
is_declined s = same_status s declined
