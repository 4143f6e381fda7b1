-- ===== src/FdWriter.antt =====
-- reckless/src/fd_writer.cpp: a writer over a file descriptor. `::write` is a parameter: it is
-- handed the bytes from `p` on and answers with a count or an `errno`.
pub mod Whole
use reckless.Prelude.{
  ℕ, zero, suc, ◌+◌, List, Option, none, some, Bool, ◌==◌, if◌then◌else◌, take, drop,
}
use reckless.Errors.{ErrorCode, posix_code, eintr}

-- What `::write` returns: a count, or -1 with an `errno`.
pub data Answer : Type 0 where
  written : ℕ → Answer
  failed : ℕ → Answer

-- What `fd_writer::write` returns, with its error code, and the state of the system then.
pub record Written (W : Type 0) : Type 0 where
  pub returned : ℕ
  pub ec : Option ErrorCode
  pub system : W

-- What the loop does with an answer; `again` is the next round, from a place on.
pub after_answer : {W : Type 0} → (ℕ → W → Option (Written W)) → ℕ → Answer → W → Option (Written W)
after_answer again p (written n) w = again (p + n) w
after_answer again p (failed errno) w =
    let retry = again p w in
    if errno == eintr
    then retry
    else some (record { returned = p; ec = some (posix_code errno); system = w })

module _ {W : Type 0} (write : List ℕ → W → Answer × W) where
  -- The loop; `memory` is what stands at `pbuffer`, which may go on behind the `count` bytes of the
  -- buffer, and `p` is the distance from there. `none` is a call that has not returned yet.
  pub fd_write_loop : ℕ → List ℕ → ℕ → ℕ → W → Option (Written W)
  fd_write_loop zero memory count p w = none
  fd_write_loop (suc fuel) memory count p w =
      let (answer, w') = write (take count (drop p memory)) w in
      let next = after_answer (fd_write_loop fuel memory count) p answer w' in
      if p == count then some (record { returned = p; ec = none; system = w }) else next

  -- `fd_writer::write`.
  pub fd_write : ℕ → List ℕ → ℕ → W → Option (Written W)
  fd_write fuel memory count w = fd_write_loop fuel memory count 0 w
