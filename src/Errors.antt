-- ===== src/Errors.antt =====
-- reckless/include/reckless/writer.hpp, reckless/src/writer.cpp and
-- reckless/src/posix_error_category.hpp: the error codes of writers.
use reckless.Prelude.{ℕ, Bool, true, false, ◌||◌, ◌==◌, if◌then◌else◌}

pub data Errc : Type 0 where
  temporary_failure permanent_failure : Errc

-- A code of the category of `writer`, or an `errno` in `posix_error_category`.
pub data ErrorCode : Type 0 where
  writer_code : Errc → ErrorCode
  posix_code : ℕ → ErrorCode

-- The values of `errno` that are told apart, on Linux.
abbrev pub eio : ℕ
eio = 5

abbrev pub eintr : ℕ
eintr = 4

abbrev pub enospc : ℕ
enospc = 28

abbrev pub enobufs : ℕ
enobufs = 105

abbrev pub edquot : ℕ
edquot = 122

-- `file_writer_to_writer_category`.
unfoldable pub file_writer_to_writer_category : ℕ → Errc
file_writer_to_writer_category code =
    if code == enospc || (code == enobufs || (code == edquot || code == eio))
    then temporary_failure
    else permanent_failure

abbrev pub is_temporary_errc : Errc → Bool
is_temporary_errc temporary_failure = true
is_temporary_errc permanent_failure = false

-- `error == writer::temporary_failure`: by `posix_error_category::equivalent` for an `errno`.
unfoldable pub is_temporary : ErrorCode → Bool
unfolding file_writer_to_writer_category
is_temporary (writer_code e) = is_temporary_errc e
is_temporary (posix_code n) = is_temporary_errc (file_writer_to_writer_category n)
