-- ===== src/Tests/Lines.antt =====
-- Frames of the output buffer and lines of the log at chosen inputs.
use reckless.Prelude.{
  ℕ, refl, arith, false, List, [], ◌∷◌, ◌++◌, none, length, replicate, codes, map,
}
use reckless.Output.{Outcome, emit}
use reckless.Output.Appends.{Appends, emit-Appends}
use reckless.OutputBuffer.{OutputBuffer, WriteResult, wrote, ignore, fail_immediately, commit}
use reckless.OutputBuffer.Flush.{IsWriter}
use reckless.OutputBuffer.Framed.{FormatError, Framed, framed_reserve, framed_commit, framed_buffer}
use reckless.Log.{output_frame}
use reckless.Log.Frame.{FrameOutput, output_frame-FrameOutput}
use reckless.Formatter.Expand.{unescape, format-unescape}
use reckless.Ntoa.Itoa.{ConversionSpecification}
use reckless.PolicyLog.{
  Timeval, indent, timestamp, severity, info, letter, construct_header_field, write,
}
use reckless.PolicyLog.Line.{header_text, indent_text, write-Appends}
use reckless.Tests.Samples.{Page, page_buffer, empty_page}

-- A writer that takes all it is given.
abbrev take_all : Unit {0} → List ℕ → WriteResult × Unit {0}
take_all w d = (wrote (length d) none, tt)

take_all-IsWriter : IsWriter take_all
take_all-IsWriter = record { at_most = λ w d. omega arith; all = λ w d e. refl }

-- A buffer with one complete frame, and room for four bytes.
abbrev after_frame : Framed (Unit {0}) (codes "a\n")
after_frame = record {
  buffer = record {
    writer = tt;
    sink = [];
    committed = codes "a\n";
    stale = replicate 4 0;
    frame_end = 2;
    lost_input_frames = 0;
    initial_error = none;
    error_code = none;
    error_flag = false;
    panic_flush = false;
    temporary_error_policy = ignore;
    permanent_error_policy = fail_immediately;
  };
  bounded = omega arith;
  quiet = ((λ e. cc), (λ e. cc));
  complete = refl;
}

-- A formatter that writes its argument.
abbrev one_byte :
    ℕ
    → Framed (Unit {0}) (codes "a\n")
    → Outcome FormatError (Framed (Unit {0}) (codes "a\n")) (Unit {0})
one_byte f = emit (framed_buffer take_all take_all-IsWriter (codes "a\n")) 1 (λ mem. f ∷ [])

abbrev dispatch :
    ℕ → OutputBuffer (Unit {0}) → Outcome FormatError (OutputBuffer (Unit {0})) (Unit {0})
dispatch f s = Outcome.done tt (commit (f ∷ []) s)

output_frame-FrameOutput_example :
    FrameOutput
      (7 ∷ [])
      (one_byte 7 after_frame)
      (output_frame dispatch (λ f s. s) 7 after_frame.buffer)
unfolding emit framed_reserve framed_commit
output_frame-FrameOutput_example =
    output_frame-FrameOutput take_all take_all-IsWriter (codes "a\n") dispatch 7 (one_byte 7)
      (7 ∷ []) after_frame
      (record { orderly = record { complete = refl; quiet = after_frame.quiet }; shown = refl })
      refl
      (emit-Appends (framed_buffer take_all take_all-IsWriter (codes "a\n")) 1 (λ mem. 7 ∷ [])
        (7 ∷ []) after_frame (λ mem e. refl) refl)

-- A clock that shows zeroes.
abbrev strftime : ℕ → List ℕ
strftime t = replicate 20 b'0'

abbrev sprintf : ℕ → List ℕ
sprintf n = replicate 3 b'0'

abbrev now : Timeval
now = record { tv_sec = 0; tv_usec = 0 }

abbrev ftoa : Unit {0} → ConversionSpecification → Page → Outcome (Unit {0}) Page (Unit {0})
ftoa d cs s = Outcome.done tt s

write-Appends_example :
    Appends page_buffer
      (header_text strftime sprintf page_buffer b' '
          (map (construct_header_field now (letter info)) (timestamp ∷ severity ∷ []))
        ++ (indent_text strftime sprintf page_buffer (indent 4 b' ' 2)
            ++ (unescape (codes "50%%") ++ b'\n' ∷ [])))
      empty_page
      (write strftime sprintf page_buffer ftoa now b' '
        (timestamp ∷ severity ∷ [])
        (indent 4 b' ' 2)
        info
        (codes "50%%")
        []
        empty_page)
write-Appends_example =
    write-Appends strftime sprintf page_buffer ftoa now b' ' (timestamp ∷ severity ∷ [])
      (indent 4 b' ' 2) info (codes "50%%") [] (unescape (codes "50%%"))
      (record { date = refl; milliseconds = refl })
      (λ s. format-unescape page_buffer ftoa (codes "50%%") s) empty_page
