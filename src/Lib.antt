-- ===== src/Lib.antt =====
-- The reckless logging library, a logger that hands formatting and output over to a worker thread.
-- A thread that logs a message puts a frame with the message's arguments into its own circular
-- input buffer. The worker takes the frames from the buffers, calls the formatter that each frame
-- names, and the formatter writes text into the output buffer. When the output buffer is full, or
-- there is nothing left to do, it is flushed to a writer, such as a file.
--
-- - InputBuffer: reckless/src/thread_input_buffer.cpp and its header in
--   reckless/include/reckless/detail. A buffer is its size, the two pointers as offsets, and the
--   dispatch pointer found at each offset. `try_allocate` is one round of the loop of
--   `allocate_input_frame`, with the choice to wait as a result; `next_frame` is the head of the
--   loop in `output_worker` of reckless/src/basic_log.cpp. InputBuffer/Frames says which frames
--   a buffer holds, in one piece or two.
-- - OutputBuffer: reckless/src/output_buffer.cpp and reckless/include/reckless/output_buffer.hpp.
--   The memory is the committed bytes and the stale ones behind them. The writer and the callback
--   for recovered errors are parameters, with the state of the writer kept in the buffer.
--   Exceptions are values of `Call`.
-- - Output: the same buffer as the formatters see it, a record of `reserve` and `commit` with the
--   laws that they rely on; Output/Appends is the postcondition of formatting code, for calls that
--   return and for calls that an exception ends.
-- - Ntoa: reckless/src/ntoa.cpp. Log has the logarithms, Cursor the memory that is filled from its
--   end, Digits the digit loops, Itoa the integer conversions, Significand the 18 decimal digits
--   of a `double` and Float the floating-point conversions. Float/Rounding is the number that is
--   left at a precision, Float/Fixed `ftoa_base10_f_normal` with the layout of its digits and the
--   carry of rounding, Float/Exponent `ftoa_base10_e_normal`, and Float/General `ftoa_base10_g`.
--   Integers are native numbers, with `% 2 ^ 32` where the source computes in `unsigned`; the
--   precision that `ftoa_base10_g` keeps in an `int` is its 32 bits, negative from 2^31 on.
-- - Formatter: reckless/src/template_formatter.cpp and its header: format strings, conversion
--   specifications and the overloads of `format`. A C string is the list of its bytes.
-- - FdWriter: reckless/src/fd_writer.cpp. The system call `::write` is a parameter.
-- - Errors: reckless/include/reckless/writer.hpp, reckless/src/writer.cpp and
--   reckless/src/posix_error_category.hpp.
-- - Event: reckless/include/reckless/detail/spsc_event.hpp, as steps on the futex word, the place
--   of the thread that waits and the number of threads that have still to wake it.
-- - Log: reckless/src/basic_log.cpp and reckless/include/reckless/basic_log.hpp. Log has the
--   functions of the worker, Log/System the threads as steps: `write` and `send_log_entries` of
--   any number of threads, whose two checks and whose push are steps of their own, the loops of
--   `output_worker`, `close` and `panic_flush`. The shared queue is a parameter, a record of
--   `push` and `pop` with their laws. The run keeps a history of the frames sent and formatted.
--   Log/Placed adds to each frame in an input buffer the end of its extent, Log/Flights follows
--   the frames between threads and worker, Log/Invariant and Log/Steps keep the invariant through
--   the steps, and Log/Frame is the output of one frame. Log/Order, Log/Close and Log/Panic draw
--   the conclusions for whole runs, Log/Text follows the output buffer through a run, Log/Drained
--   says what is left in it at the end, and Log/Lines and Log/Complete put threads, worker, output
--   buffer and formatters together, for a writer that may fail and for one that works.
-- - PolicyLog: reckless/include/reckless/policy_log.hpp and severity_log.hpp, over Output.
-- - CrashHandler: reckless/src/crash_handler.cpp. The system call `sigaction` is a parameter, a
--   record with the laws of its documentation, and so is the effect of a log's `panic_flush`.
-- - OutputBuffer/Framed makes an output buffer, in the course of a frame, one of Output, and
--   OutputBuffer/Emit is a formatter's use of it. Where the sum of the sizes wraps around in
--   `reserve`, it can return without the room; a formatter that goes on then is `overrun`, which is
--   undefined in the source, and the worker gets no buffer back.
-- - Tests: each theorem below that has conditions, applied at a concrete state.
--
-- Loops that are not structural run on fuel: the digit loops with the value or the number of digits,
-- which fall in each round; `specifier_loop` and `format_rest` with one more than the length of the
-- string, each round of which takes a character; the binary search of the trailing zeroes with its
-- range, which is halved. `flush` needs two rounds under a policy that does not block, which each
-- step of Log/System has at least, and `fd_write` two more than the number of interrupted calls;
-- the theorems are for that fuel and more.
--
-- The steps of Log/System are sequentially consistent, and each step accesses the queue or one input
-- buffer. A thread that waits takes no step, so that the waits for the events are not steps; Event
-- is separate. Nothing is sent after `close`, which basic_log.hpp leaves undefined. The theorems on
-- the order of frames are for runs in which no allocation was reverted, for a writer error or an
-- exception of an argument's constructor, since `revert_allocation` can leave an input buffer in
-- disorder.
--
-- Not modelled: the relaxed memory order of the input buffers' pointers; the destructors of logs and
-- buffers and the release of memory; header fields and formatters of programs that use the
-- library; utility and the opening of files, which are system calls; the x87 and
-- libm code that takes a `double` apart, which is a parameter of Float; strftime and sprintf, which
-- are parameters of PolicyLog.
pub mod Prelude
pub mod Output
pub mod Errors
pub mod OutputBuffer
pub mod InputBuffer
pub mod Ntoa
pub mod Formatter
pub mod FdWriter
pub mod Event
pub mod Log
pub mod PolicyLog
pub mod CrashHandler
pub mod Tests
