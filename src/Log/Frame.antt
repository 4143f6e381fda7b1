-- ===== src/Log/Frame.antt =====
-- What the worker of reckless/src/basic_log.cpp makes of one frame: the output of its formatter as
-- a whole, or nothing of it.
use reckless.Prelude.{
  ℕ, suc, ◌+◌, ◌≤◌, ◌≡◌, refl, sym, ap, ◌∙◌, List, [], ◌∷◌, ◌++◌, Option, none, some, arith, length,
  take,
}
use reckless.Output.{Outcome}
use reckless.Output.Appends.{Appends}
use reckless.OutputBuffer.{OutputBuffer, WriteResult, frame_end, lost_frame}
use reckless.OutputBuffer.Flush.{IsWriter, stream, DoesNotBlock}
use reckless.OutputBuffer.Framed.{
  FormatError, flush_failed, excessive_output, overrun, other_exception, Framed, framed_buffer,
}
use reckless.OutputBuffer.Emit.{plain}
use reckless.Log.Text.{Shows}
use reckless.Log.{after_format, output_frame}

take-drop_end :
    (xs ys : List ℕ) (n : ℕ) → n ≤ length ys → take (length xs + n) (xs ++ ys) ≡ xs ++ take n ys
take-drop_end [] ys n h = let e : 0 + n ≡ n = omega arith in rw e refl
take-drop_end (x ∷ xs) ys n h =
    let e : suc (length xs) + n ≡ suc (length xs + n) = omega arith in
    rw e (ap (λ t. x ∷ t) (take-drop_end xs ys n h))

module _ {W : Type 0} where
  -- What is committed after a formatter that writes `text`, by the way that it ends.
  abbrev pub FrameOutput :
      {t : List ℕ}
      → List ℕ
      → Outcome FormatError (Framed W t) (Unit {0})
      → Option (OutputBuffer W)
      → Type 0
  FrameOutput {t} text (Outcome.done a f) o =
      (s' : OutputBuffer W) × (o ≡ some s') × Shows (t ++ text) s'
  FrameOutput {t} text (Outcome.threw (flush_failed e) f) o =
      (s' : OutputBuffer W) × (o ≡ some s') × Shows t s'
  FrameOutput {t} text (Outcome.threw excessive_output f) o =
      (s' : OutputBuffer W) × (first : List ℕ) × (rest : List ℕ) × (o ≡ some s')
      × (text ≡ first ++ rest)
      × Shows (t ++ first) s'
  FrameOutput {t} text (Outcome.threw other_exception f) o =
      (s' : OutputBuffer W) × (first : List ℕ) × (rest : List ℕ) × (o ≡ some s')
      × (text ≡ first ++ rest)
      × Shows (t ++ first) s'
  FrameOutput text (Outcome.threw overrun f) o = o ≡ none
  FrameOutput text (Outcome.blocked f) o = o ≡ none

  frame_end-Shows :
      (t : List ℕ) (s : OutputBuffer W) → stream s ≡ t → DoesNotBlock s → Shows t (frame_end s)
  unfolding frame_end
  frame_end-Shows t s h p = record { orderly = record { complete = refl; quiet = p }; shown = h }

  lost-Shows : {t : List ℕ} (f : Framed W t) → Shows t (frame_end (lost_frame f.buffer))
  unfolding lost_frame
  lost-Shows {t} f =
      frame_end-Shows t (lost_frame f.buffer)
        (sym (take-drop_end f.buffer.sink f.buffer.committed f.buffer.frame_end f.bounded)
          ∙ f.complete)
        f.quiet

module _ {F W : Type 0} (write : W → List ℕ → WriteResult × W) (lawful : IsWriter write)
    (t : List ℕ) (dispatch : F → OutputBuffer W → Outcome FormatError (OutputBuffer W) (Unit {0}))
    (f : F) where
  from_outcome :
      (text : List ℕ) (v : Framed W t)
      → stream v.buffer ≡ t
      → (o : Outcome FormatError (Framed W t) (Unit {0}))
      → Appends (framed_buffer write lawful t) text v o
      → FrameOutput text o (after_format dispatch (λ f s. s) f (plain o))
  unfolding after_format
  from_outcome text v h (Outcome.done a f') p = (
    frame_end f'.buffer,
    refl,
    frame_end-Shows (t ++ text) f'.buffer (p ∙ ap (λ u. u ++ text) h) f'.quiet,
  )
  from_outcome text v h (Outcome.threw (flush_failed e) f') p =
      (frame_end (lost_frame f'.buffer), refl, lost-Shows f')
  from_outcome text v h (Outcome.threw excessive_output f') (first, rest, e, p) = (
    frame_end f'.buffer,
    first,
    rest,
    refl,
    e,
    frame_end-Shows (t ++ first) f'.buffer (p ∙ ap (λ u. u ++ first) h) f'.quiet,
  )
  from_outcome text v h (Outcome.threw other_exception f') (first, rest, e, p) = (
    frame_end f'.buffer,
    first,
    rest,
    refl,
    e,
    frame_end-Shows (t ++ first) f'.buffer (p ∙ ap (λ u. u ++ first) h) f'.quiet,
  )
  from_outcome text v h (Outcome.threw overrun f') p = refl
  from_outcome text v h (Outcome.blocked f') p = refl

  -- For a lawful writer, policies that do not block, no callback for format errors, an output
  -- buffer that ends with a complete frame, and a formatter that appends `text` and acts on the
  -- buffer as its framed version does: if the formatter returns, all of `text` is added as one
  -- frame; if a flush fails, nothing is; after another exception a first part of it is, as a
  -- frame. In each case the buffer ends with a complete frame again, and the worker gets no buffer
  -- back exactly if the formatter does not return, or goes on where `reserve` has left no room.
  pub output_frame-FrameOutput :
      (format : Framed W t → Outcome FormatError (Framed W t) (Unit {0})) (text : List ℕ)
      (v : Framed W t)
      → Shows t v.buffer
      → dispatch f v.buffer ≡ plain (format v)
      → Appends (framed_buffer write lawful t) text v (format v)
      → FrameOutput text (format v) (output_frame dispatch (λ f s. s) f v.buffer)
  unfolding output_frame
  output_frame-FrameOutput format text v at_end e p =
      rw e (from_outcome text v at_end.shown (format v) p)
