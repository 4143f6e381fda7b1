-- ===== src/OutputBuffer.antt =====
-- reckless/src/output_buffer.cpp and reckless/include/reckless/output_buffer.hpp: the buffer between
-- the formatters and the writer.
pub mod Flush
pub mod Overrun
pub mod Lost
pub mod Framed
pub mod Working
pub mod Emit
use reckless.Prelude.{
  ℕ, zero, suc, ◌+◌, ◌-◌, ◌/◌, ◌≤◌, ◌≡◌, Bool, true, false, List, [], ◌∷◌, ◌++◌, Option, none, some,
  ltb, leb, ◌==◌, if◌then◌else◌, length, take, drop, min, max, add64,
}
use reckless.Errors.{ErrorCode, writer_code, permanent_failure, is_temporary}

pub data ErrorPolicy : Type 0 where
  ignore notify_on_recovery block fail_immediately : ErrorPolicy

-- The memory of the buffer is `committed ++ stale`: `pcommit_end_` stands between the two, and
-- `frame_end` is the distance of `pframe_end_` from the beginning. `sink` is what the writer has
-- accepted so far, and `writer` is the state of the writer itself.
pub record OutputBuffer (W : Type 0) : Type 0 where
  pub writer : W
  pub sink : List ℕ
  pub committed : List ℕ
  pub stale : List ℕ
  pub frame_end : ℕ
  pub lost_input_frames : ℕ
  pub initial_error : Option ErrorCode
  pub error_code : Option ErrorCode
  pub error_flag : Bool
  pub panic_flush : Bool
  pub temporary_error_policy : ErrorPolicy
  pub permanent_error_policy : ErrorPolicy

-- What a call of `writer::write` comes to: the count that it returns with its error code, or an
-- exception.
pub data WriteResult : Type 0 where
  wrote : ℕ → Option ErrorCode → WriteResult
  exception : WriteResult

-- How a call of the buffer ends. `undefined` is an access outside of the buffer.
pub data Call (S : Type 0) : Type 0 where
  done : S → Call S
  flush_error : ErrorCode → S → Call S
  excessive_output_by_frame : S → Call S
  undefined : Call S
  blocked : S → Call S

-- What one round of the loop of `flush` comes to; `again` has the next value of `remaining`.
pub data Round (S : Type 0) : Type 0 where
  leave : S → Round S
  fail : ErrorCode → S → Round S
  again : ℕ → S → Round S
  outside : Round S

abbrev pub count_of : WriteResult → ℕ
count_of (wrote n e) = n
count_of exception = 0

abbrev pub error_of : WriteResult → Option ErrorCode
error_of (wrote n e) = e
error_of exception = some (writer_code permanent_failure)

-- The wait between two polls of a writer that blocks, in milliseconds.
pub next_block_time : ℕ → ℕ
next_block_time t = min (t + max 1 (t / 4)) 1000

-- `if(!initial_error_) initial_error_ = error;`
abbrev pub first_error : Option ErrorCode → ErrorCode → Option ErrorCode
first_error none e = some e
first_error (some e0) e = some e0

module _ {W : Type 0} where
  abbrev pub capacity : OutputBuffer W → ℕ
  capacity s = length s.committed + length s.stale

  -- `reset(pwriter, max_capacity)`, with what `malloc` finds in the new memory; what the writer gets
  -- is counted from here.
  unfoldable pub reset : W → List ℕ → OutputBuffer W → OutputBuffer W
  reset writer memory s = record s {
    writer = writer;
    sink = [];
    committed = [];
    stale = memory;
    frame_end = 0;
  }

  -- `memmove(pbuffer_, pbuffer_ + written, …); pframe_end_ -= written; pcommit_end_ -= written;`
  unfoldable pub discard : ℕ → OutputBuffer W → OutputBuffer W
  discard written s =
      let rest = drop written s.committed in
      record s {
        committed = rest;
        stale = drop (length rest) (s.committed ++ s.stale);
        frame_end = s.frame_end - written;
      }

  unfoldable pub frame_end : OutputBuffer W → OutputBuffer W
  frame_end s = record s { frame_end = length s.committed }

  -- `++lost_input_frames_; pcommit_end_ = pframe_end_;`
  unfoldable pub lost_frame : OutputBuffer W → OutputBuffer W
  lost_frame s = record s {
    committed = take s.frame_end s.committed;
    stale = drop s.frame_end s.committed ++ s.stale;
    lost_input_frames = suc s.lost_input_frames;
  }

  unfoldable pub has_complete_frame : OutputBuffer W → Bool
  has_complete_frame s = if s.frame_end == 0 then false else true

  unfoldable pub commit : List ℕ → OutputBuffer W → OutputBuffer W
  commit bytes s = record s {
    committed = s.committed ++ bytes;
    stale = drop (length bytes) s.stale;
  }

  -- The `switch` over the policy, after a failed write.
  pub on_error : ErrorCode → ErrorPolicy → ℕ → OutputBuffer W → Round (OutputBuffer W)
  on_error e ignore remaining s = fail e s
  on_error e notify_on_recovery remaining s =
      fail e (record s { initial_error = first_error s.initial_error e })
  on_error e block remaining s = if s.panic_flush then fail e s else again remaining s
  on_error e fail_immediately remaining s =
      fail e (if s.error_flag then s else record s { error_code = some e; error_flag = true })

-- The writer, and the callback for recovered errors with what it does to the buffer, which belong to
-- the program that uses the library.
module _ {W : Type 0} (write : W → List ℕ → WriteResult × W)
    (callback : Option (Option ErrorCode → ℕ → OutputBuffer W → OutputBuffer W)) where
  -- The writer works again: frames that were lost in the meantime are reported.
  unfoldable pub on_success : OutputBuffer W → Round (OutputBuffer W)
  on_success s =
      let s1 = record s { error_code = none; error_flag = false } in
      if s1.lost_input_frames == 0
      then leave s1
      else (let s2 = record s1 { lost_input_frames = 0 } in
          elim callback [
            | none ↦ again s2.frame_end s2
            | some f ↦
                let s3 = f s1.initial_error s1.lost_input_frames s2 in
                let s4 = frame_end (record s3 { initial_error = none }) in again s4.frame_end s4
          ])

  -- One round, from the return of the writer on: discard what was written of `sent`, and see to the
  -- error. `remaining` is the loop's variable: after an error it keeps its value.
  unfoldable pub after_write :
      ℕ → List ℕ → WriteResult × W → OutputBuffer W → Round (OutputBuffer W)
  after_write remaining sent (result, w) s =
      let written = count_of result in
      let s1 = record s { writer = w; sink = s.sink ++ take written sent } in
      if ltb (length s.committed) written then outside else elim (error_of result) [
        | none ↦ on_success (discard written s1)
        | some e ↦
            on_error e
              (if is_temporary e then s.temporary_error_policy else s.permanent_error_policy)
              remaining (discard written s1)
      ]

  unfoldable pub flush_round : ℕ → OutputBuffer W → Round (OutputBuffer W)
  flush_round remaining s =
      let sent = take remaining (s.committed ++ s.stale) in
      after_write remaining sent (write s.writer sent) s

  unfoldable pub flush_loop : ℕ → ℕ → OutputBuffer W → Call (OutputBuffer W)
  flush_loop zero remaining s = blocked s
  flush_loop (suc fuel) remaining s =
      let next : Call (OutputBuffer W) = elim (flush_round remaining s) [
        | leave s' ↦ done s'
        | fail e s' ↦ flush_error e s'
        | again remaining' s' ↦ flush_loop fuel remaining' s'
        | outside ↦ undefined
      ] in
      if remaining == 0 then done s else next

  unfoldable pub flush : ℕ → OutputBuffer W → Call (OutputBuffer W)
  flush fuel s = flush_loop fuel s.frame_end s

  unfoldable pub reserve_slow_path : ℕ → ℕ → OutputBuffer W → Call (OutputBuffer W)
  reserve_slow_path fuel size s =
      let frame_size = add64 (length s.committed - s.frame_end) size in
      if ltb (capacity s) frame_size then excessive_output_by_frame s else flush fuel s

  unfoldable pub reserve : ℕ → ℕ → OutputBuffer W → Call (OutputBuffer W)
  reserve fuel size s = if leb size (length s.stale) then done s else reserve_slow_path fuel size s

  -- `memcpy(pcommit_end_, …); pcommit_end_ += …`, where the source does not look at the room again.
  pub copy_in : List ℕ → OutputBuffer W → Call (OutputBuffer W)
  copy_in bytes s = if ltb (length s.stale) (length bytes) then undefined else done (commit bytes s)

  -- The loop of `write(buf, count)`: `available` is the loop's variable `available_buffer`.
  pub write_loop : ℕ → ℕ → ℕ → List ℕ → OutputBuffer W → Call (OutputBuffer W)
  write_loop fuel zero available input s = blocked s
  write_loop fuel (suc rounds) available input s =
      let last : Call (OutputBuffer W) = copy_in input s in
      let more : Call (OutputBuffer W) = elim (copy_in (take available input) s) [
        | done s1 ↦ elim (flush fuel s1) [
          | done s2 ↦ write_loop fuel rounds (capacity s) (drop available input) s2
          | flush_error e s2 ↦ flush_error e s2
          | excessive_output_by_frame s2 ↦ excessive_output_by_frame s2
          | undefined ↦ undefined
          | blocked s2 ↦ blocked s2
        ]
        | flush_error e s1 ↦ flush_error e s1
        | excessive_output_by_frame s1 ↦ excessive_output_by_frame s1
        | undefined ↦ undefined
        | blocked s1 ↦ blocked s1
      ] in
      if ltb available (length input) then more else last

  pub write_bytes : ℕ → ℕ → List ℕ → OutputBuffer W → Call (OutputBuffer W)
  write_bytes fuel rounds input s = write_loop fuel rounds (length s.stale) input s
