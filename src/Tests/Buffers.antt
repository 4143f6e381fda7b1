-- ===== src/Tests/Buffers.antt =====
-- The buffers and the writers of reckless/src at chosen states.
use reckless.Prelude.{
  ℕ, zero, suc, ◌+◌, ◌≤◌, ◌<◌, ◌≡◌, ◌≢◌, refl, List, [], ◌∷◌, ◌++◌, Option, none, some, arith,
  false, length, take, codes, replicate,
}
use reckless.Errors.{writer_code, temporary_failure, is_temporary}
use reckless.InputBuffer.{
  InputBuffer, align, advance, store, try_allocate, revert_allocation, frame_alignment,
}
use reckless.InputBuffer.Frames.{Holds, one_piece, frame, stop}
use reckless.InputBuffer.Allocate.{Pushed, try_allocate-Pushed}
use reckless.InputBuffer.Consume.{Pops, Holds-pop}
use reckless.InputBuffer.Bounds.{IsAligned, try_allocate-IsAligned}
use reckless.InputBuffer.Revert.{Reverted, revert_allocation-Reverted, revert_allocation-empty}
use reckless.OutputBuffer.{
  OutputBuffer, ignore, block, fail_immediately, WriteResult, wrote, flush, flush_round, reserve,
  write_bytes, undefined, again,
}
use reckless.OutputBuffer.Flush.{IsWriter, Flushed, flush-Flushed, Reserved, reserve-Reserved}
use reckless.OutputBuffer.Lost.{Recovered, reserve-lost_frame}
use reckless.OutputBuffer.Overrun.{flush_round-block, write_bytes-overrun}
use reckless.FdWriter.{Answer, written, fd_write}
use reckless.FdWriter.Whole.{IsBeyond, fd_write-overrun}

-- Frames of 16 bytes with the dispatch pointer 7.
abbrev frame_size : ℕ → ℕ
frame_size f = 16

abbrev contents : ℕ → ℕ → Option ℕ
contents p q = some 7

-- A buffer of 64 bytes.
abbrev buffer : ℕ → ℕ → InputBuffer ℕ
buffer first last = record {
  size = 64;
  input_start = first;
  input_end = last;
  word = contents 0;
  input_consumed_flag = false;
}

one_frame : Holds frame_size (buffer 16 32) (7 ∷ [])
one_frame = one_piece (frame refl (omega arith) (stop refl)) (omega arith)

no_frame : Holds frame_size (buffer 16 16) []
no_frame = one_piece (stop refl) (omega arith)

try_allocate-Pushed_example :
    Pushed frame_size 7 contents (7 ∷ []) (try_allocate (buffer 16 32) (frame_size 7))
try_allocate-Pushed_example =
    try_allocate-Pushed frame_size 7 contents (buffer 16 32) (λ p. refl) (omega arith) (omega arith)
      (7 ∷ []) one_frame

Holds-pop_example : Pops frame_size 7 [] (buffer 16 32)
Holds-pop_example = Holds-pop frame_size (buffer 16 32) 7 [] one_frame

try_allocate-IsAligned_example :
    IsAligned (buffer 16 48) × (32 + align 16 < 64) × (32 + frame_alignment ≤ 64)
unfolding try_allocate advance
try_allocate-IsAligned_example =
    try_allocate-IsAligned (buffer 16 32) 16 32 (buffer 16 48)
      (record {
        size_aligned = refl;
        start_aligned = refl;
        end_aligned = refl;
        start_inside = omega arith;
        end_inside = omega arith;
      })
      (omega arith) refl

revert_allocation-Reverted_example :
    Reverted frame_size 16 32 contents (7 ∷ []) (try_allocate (buffer 16 32) 16)
revert_allocation-Reverted_example =
    revert_allocation-Reverted frame_size 16 contents (buffer 16 32) (omega arith) (7 ∷ [])
      one_frame

revert_allocation-empty_example :
    let after = revert_allocation 16 (store 0 16 (contents 0) (buffer 0 16)) in
    (after.input_start ≡ 0) × (after.input_end ≡ 16) × (after.input_start ≢ after.input_end)
unfolding try_allocate advance
revert_allocation-empty_example =
    revert_allocation-empty (buffer 16 16) 16 0 (buffer 0 16) (contents 0) refl (omega arith) refl

-- A writer that takes all it is given, and one that fails after the first byte.
abbrev take_all : Unit {0} → List ℕ → WriteResult × Unit {0}
take_all w d = (wrote (length d) none, tt)

abbrev take_one : Unit {0} → List ℕ → WriteResult × Unit {0}
take_one w d = (wrote 1 (some (writer_code temporary_failure)), tt)

take_all-IsWriter : IsWriter take_all
take_all-IsWriter = record { at_most = λ w d. omega arith; all = λ w d e. refl }

-- Six bytes, of which `frames` belong to complete frames, and room for two more.
abbrev output : ℕ → OutputBuffer (Unit {0})
output frames = record {
  writer = tt;
  sink = [];
  committed = codes "ab\ncde";
  stale = replicate 2 0;
  frame_end = frames;
  lost_input_frames = 0;
  initial_error = none;
  error_code = none;
  error_flag = false;
  panic_flush = false;
  temporary_error_policy = ignore;
  permanent_error_policy = fail_immediately;
}

flush-Flushed_example : Flushed (output 3) (flush take_all none 2 (output 3))
flush-Flushed_example =
    flush-Flushed take_all 0 (output 3) take_all-IsWriter (omega arith) ((λ e. cc), (λ e. cc))

reserve-Reserved_example : Reserved take_all 4 (output 3) (reserve take_all none 2 4 (output 3))
reserve-Reserved_example =
    reserve-Reserved take_all 0 4 (output 3) take_all-IsWriter (omega arith) ((λ e. cc), (λ e. cc))
      (omega arith)

reserve-lost_frame_example : Recovered (output 3) (reserve take_all none 2 9 (output 3))
reserve-lost_frame_example =
    reserve-lost_frame take_all 0 9 (output 3) take_all-IsWriter (omega arith)
      ((λ e. cc), (λ e. cc))

abbrev blocking : OutputBuffer (Unit {0})
blocking = record (output 3) { temporary_error_policy = block }

flush_round-block_example :
    (s' : OutputBuffer (Unit {0})) × (flush_round take_one none 3 blocking ≡ again 3 s')
    × (s'.frame_end + 1 ≡ 3)
    × (s'.temporary_error_policy ≡ block)
unfolding is_temporary
flush_round-block_example =
    flush_round-block take_one none blocking 1 (writer_code temporary_failure) tt refl refl refl
      refl (omega arith) (omega arith)

write_bytes-overrun_example : write_bytes take_all none 1 2 (codes "long") (output 0) ≡ undefined
write_bytes-overrun_example =
    write_bytes-overrun take_all none 0 0 (codes "long") (output 0) refl (omega arith) (omega arith)

-- A file that takes all it is given.
abbrev append_all : List ℕ → List ℕ → Answer × List ℕ
append_all d file = (written (length d), file ++ take (length d) d)

-- A system that takes two bytes at first, and all later.
abbrev short_first : List ℕ → ℕ → Answer × ℕ
short_first d zero = (written 2, 1)
short_first d (suc n) = (written (length d), suc (suc n))

fd_write-overrun_example : IsBeyond short_first 4 (fd_write short_first 10 (codes "abcdefgh") 4 0)
fd_write-overrun_example =
    fd_write-overrun short_first 10 (codes "abcdefgh") 4 2 0 1 2 refl (omega arith) (omega arith)
      refl
