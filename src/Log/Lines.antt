-- ===== src/Log/Lines.antt =====
-- The log as a whole: threads, worker, output buffer and formatters together.
use reckless.Prelude.{
  ℕ, ◌≡◌, refl, sym, ap, ◌∙◌, arith, List, [], ◌∷◌, ◌++◌, append-nil, Option, none, some, length,
  take, length-append,
}
use reckless.Output.{Outcome}
use reckless.Output.Appends.{Appends}
use reckless.OutputBuffer.{OutputBuffer, WriteResult}
use reckless.OutputBuffer.Flush.{IsWriter, stream, DoesNotBlock}
use reckless.OutputBuffer.Framed.{
  FormatError, flush_failed, excessive_output, overrun, other_exception, Framed, framed_buffer,
}
use reckless.OutputBuffer.Emit.{plain}
use reckless.Log.{Queue, output_frame}
use reckless.Log.Frame.{FrameOutput, output_frame-FrameOutput}
use reckless.Log.System.{System, History, returned, Reach}
use reckless.Log.Order.{returned-formatted}
use reckless.Log.Text.{Shows, Moved-Shows, IsOrderly-IsBounded, Reach-Output, Reach-Shows}

-- Of the text of each frame a first part, which may be all or nothing of it, in order.
pub data Written {F : Type 0} (text : F → List ℕ) : List (ℕ × F) → List ℕ → Type 0 where
  nothing : Written text [] []
  behind :
      {fs : List (ℕ × F)} {t : List ℕ} (i : ℕ) (f : F) (first rest : List ℕ)
      → Written text fs t
      → text f ≡ first ++ rest
      → Written text (fs ++ (i, f) ∷ []) (t ++ first)

take_all : (xs : List ℕ) (n : ℕ) → n ≡ length xs → take n xs ≡ xs
take_all [] n h = rw h refl
take_all (x ∷ xs) n h = rw h (ap (λ t. x ∷ t) (take_all xs (length xs) refl))

-- A formatter acts on the buffer as `code` does through the interface, and appends its text.
module _ {F W : Type 0} (q : Queue) (frame_size : F → ℕ) (write : W → List ℕ → WriteResult × W)
    (lawful : IsWriter write) (text : F → List ℕ)
    (dispatch : F → OutputBuffer W → Outcome FormatError (OutputBuffer W) (Unit {0}))
    (code : (t : List ℕ) → F → Framed W t → Outcome FormatError (Framed W t) (Unit {0}))
    (acts : (t : List ℕ) (f : F) (v : Framed W t) → dispatch f v.buffer ≡ plain (code t f v))
    (appends : (t : List ℕ) (f : F) (v : Framed W t)
      → Appends (framed_buffer write lawful t) (text f) v (code t f v)) where
  framed : (t : List ℕ) (s : OutputBuffer W) → Shows t s → Framed W t
  framed t s h = record {
    buffer = s;
    bounded = IsOrderly-IsBounded s h.orderly;
    quiet = h.orderly.quiet;
    complete =
        take_all (stream s) _ (omega (arith, length-append s.sink s.committed, h.orderly.complete))
        ∙ h.shown;
  }

  Adds : List (ℕ × F) → List ℕ → ℕ → F → OutputBuffer W → Type 0
  Adds fs t i f o = (t' : List ℕ) × Written text (fs ++ (i, f) ∷ []) t' × Shows t' o

  FrameOutput-Adds :
      (fs : List (ℕ × F)) (i : ℕ) (f : F) (t : List ℕ) (o : OutputBuffer W)
      (c : Outcome FormatError (Framed W t) (Unit {0})) (r : Option (OutputBuffer W))
      → r ≡ some o
      → Written text fs t
      → FrameOutput (text f) c r
      → Adds fs t i f o
  unfolding Adds
  FrameOutput-Adds fs i f t o (Outcome.done a v) r e w (s', e', h) =
      let same : s' ≡ o = cc in
      (t ++ text f, behind i f (text f) [] w (sym (append-nil (text f))), rw (sym same) h)
  FrameOutput-Adds fs i f t o (Outcome.threw (flush_failed x) v) r e w (s', e', h) =
      let same : s' ≡ o = cc in
      (t ++ [], behind i f [] (text f) w refl, rw (sym same, append-nil t) h)
  FrameOutput-Adds fs i f t o (Outcome.threw excessive_output v) r e w
        (s', first, rest, e', parts, h) =
      let same : s' ≡ o = cc in (t ++ first, behind i f first rest w parts, rw (sym same) h)
  FrameOutput-Adds fs i f t o (Outcome.threw other_exception v) r e w
        (s', first, rest, e', parts, h) =
      let same : s' ≡ o = cc in (t ++ first, behind i f first rest w parts, rw (sym same) h)
  FrameOutput-Adds fs i f t o (Outcome.threw overrun v) r e w h = cc
  FrameOutput-Adds fs i f t o (Outcome.blocked v) r e w h = cc

  output_frame-Adds :
      (fs : List (ℕ × F)) (i : ℕ) (f : F) (t : List ℕ) (s o : OutputBuffer W)
      → output_frame dispatch (λ f s. s) f s ≡ some o
      → Written text fs t
      → Shows t s
      → Adds fs t i f o
  unfolding framed
  output_frame-Adds fs i f t s o e w h =
      let v = framed t s h in
      FrameOutput-Adds fs i f t o (code t f v) _ e w (
        output_frame-FrameOutput write lawful t dispatch f (code t f) (text f) v h (acts t f v)
          (appends t f v))

  -- For a lawful writer, policies that do not block, no callback for writer or format errors, and
  -- formatters that append the text of their frame, returning or failing, and act on the output
  -- buffer as their framed versions do: in a run from an opened log in which no allocation was
  -- reverted, when the worker has returned after `close`, what the writer has got and what the
  -- output buffer still holds are together, for each frame sent and in the order of sending, a
  -- first part of its text, which may be all or none of it.
  pub returned-Written :
      {l0 : System F W q} {h : History F} {l : System F W q}
      → DoesNotBlock l0.output
      → Reach q frame_size write none (output_frame dispatch (λ f s. s)) l0 h l
      → h.refused ≡ 0
      → l.worker ≡ returned
      → Written text h.sent (stream l.output)
  unfolding Adds
  returned-Written quiet reach r worker =
      let (t, w, h) =
        Reach-Output q frame_size write (output_frame dispatch (λ f s. s)) lawful (Written text)
          Shows (λ t s h. h.orderly) (λ t s s' k m h. Moved-Shows k m h) output_frame-Adds nothing
          (Reach-Shows q frame_size write (output_frame dispatch (λ f s. s)) quiet reach) reach in
      rw
        (
          h.shown,
          sym
              (returned-formatted q frame_size write none (output_frame dispatch (λ f s. s)) reach r
                worker).0,
        )
        w
