-- ===== src/Log/Complete.antt =====
-- The log as a whole where the writer works and each frame's text fits into the output buffer.
use reckless.Prelude.{
  ℕ, ◌≤◌, ◌<◌, ◌^◌, ◌≡◌, refl, sym, ap, ◌∙◌, append_assoc, append-nil, arith, List, [], ◌∷◌, ◌++◌,
  Option, none, some, length, take, length-append, length-drop, length-take, le→leb,
}
use reckless.Output.{Outcome}
use reckless.OutputBuffer.{OutputBuffer, WriteResult, done, commit, frame_end, capacity}
use reckless.OutputBuffer.Flush.{Moved, DoesNotBlock}
use reckless.OutputBuffer.Working.{IsWorking, reserve-room}
use reckless.OutputBuffer.Emit.{emit_call, filled}
use reckless.Log.{Queue, output_frame, after_format}
use reckless.Log.System.{System, History, returned, Reach}
use reckless.Log.Order.{returned-formatted}
use reckless.Log.Drained.{Reach-Drained}
use reckless.Log.Text.{
  IsOrderly, Shows, Moved-Shows, IsOrderly-IsBounded, Reach-Output, Reach-Shows,
}

-- The texts of frames in a row.
pub texts : {F : Type 0} → (F → List ℕ) → List (ℕ × F) → List ℕ
texts text [] = []
texts text ((i, f) ∷ fs) = text f ++ texts text fs

texts-snoc :
    {F : Type 0} (text : F → List ℕ) (fs : List (ℕ × F)) (i : ℕ) (f : F)
    → texts text (fs ++ (i, f) ∷ []) ≡ texts text fs ++ text f
unfolding texts
texts-snoc text [] i f = append-nil (text f)
texts-snoc text ((j, g) ∷ fs) i f =
    ap (λ x. text g ++ x) (texts-snoc text fs i f)
    ∙ sym (append_assoc (text g) (texts text fs) (text f))

-- A buffer of a given capacity with a given text.
pub record Has {W : Type 0} (room : ℕ) (t : List ℕ) (s : OutputBuffer W) : Type 0 where
  pub shows : Shows t s
  pub same_room : capacity s ≡ room

module _ {W : Type 0} (room : ℕ) where
  Moved-Has :
      (t : List ℕ) (s s' : OutputBuffer W) (k : ℕ) → Moved k s s' → Has room t s → Has room t s'
  Moved-Has t s s' k m h = record {
    shows = Moved-Shows k m h.shows;
    same_room = m.room ∙ h.same_room;
  }

  commit-Has :
      (t bytes : List ℕ) (s : OutputBuffer W)
      → length bytes ≤ length s.stale
      → Has room t s
      → Has room (t ++ bytes) (frame_end (commit bytes s))
  unfolding frame_end commit
  commit-Has t bytes s h b = record {
    shows = record {
      orderly = record { complete = refl; quiet = b.shows.orderly.quiet };
      shown = sym (append_assoc s.sink s.committed bytes) ∙ ap (λ x. x ++ bytes) b.shows.shown;
    };
    same_room =
        omega
          (arith, b.same_room, length-append s.committed bytes, length-drop (length bytes) s.stale);
  }

-- A formatter reserves the length of its text, fills the room with it and commits it.
module _ {F W : Type 0} (q : Queue) (frame_size : F → ℕ) (write : W → List ℕ → WriteResult × W)
    (working : IsWorking write) (text : F → List ℕ) (fill : F → List ℕ → List ℕ)
    (fills : (f : F) (mem : List ℕ) → length mem ≡ length (text f) → fill f mem ≡ text f) (room : ℕ)
    (small : room < 2 ^ 64) (fits : (f : F) → length (text f) ≤ room)
    (format_error_callback : F → OutputBuffer W → OutputBuffer W) where
  abbrev format : F → OutputBuffer W → Option (OutputBuffer W)
  format = output_frame (λ f s. emit_call write (length (text f)) (fill f) s) format_error_callback

  filled-done :
      (f : F) (s : OutputBuffer W)
      → length (text f) ≤ length s.stale
      → filled write (length (text f)) (fill f) s (done s) ≡ Outcome.done tt (commit (text f) s)
  unfolding filled
  filled-done f s h =
      rw
        (
          le→leb (length (text f)) (length s.stale) h,
          fills f (take (length (text f)) s.stale)
              (omega (arith, length-take (length (text f)) s.stale)),
        )
        refl

  format-Has :
      (f : F) (t : List ℕ) (s : OutputBuffer W)
      → Has room t s
      → (o : OutputBuffer W) × (format f s ≡ some o) × Has room (t ++ text f) o
  unfolding output_frame after_format emit_call filled
  format-Has f t s h =
      let orderly = h.shows.orderly in
      let (s', k, returns, m, found) =
        reserve-room write (length (text f)) s working (IsOrderly-IsBounded s orderly) orderly.quiet
          (omega (arith, orderly.complete, h.same_room, fits f))
          (omega (arith, orderly.complete, fits f)) in
      (
        frame_end (commit (text f) s'),
        rw (returns) (
            ap
              (after_format (λ f s. emit_call write (length (text f)) (fill f) s)
                format_error_callback f)
              (filled-done f s' found)),
        commit-Has room t (text f) s' found (Moved-Has room t s s' k m h),
      )

  adds-text :
      (fs : List (ℕ × F)) (i : ℕ) (f : F) (t : List ℕ) (s o : OutputBuffer W)
      → format f s ≡ some o
      → t ≡ texts text fs
      → Has room t s
      → (t' : List ℕ) × (t' ≡ texts text (fs ++ (i, f) ∷ [])) × Has room t' o
  adds-text fs i f t s o e same h =
      let (o', e', h') = format-Has f t s h in
      let it : o' ≡ o = cc in
      (t ++ text f, ap (λ x. x ++ text f) same ∙ sym (texts-snoc text fs i f), rw (sym it) h')

  Complete : History F → System F W q → Type 0
  Complete h l = (t : List ℕ) × (t ≡ texts text h.formatted) × Has room t l.output

  Reach-Complete :
      {l0 : System F W q} {h : History F} {l : System F W q}
      → DoesNotBlock l0.output
      → capacity l0.output ≡ room
      → Reach q frame_size write none format l0 h l
      → Complete h l
  unfolding Complete texts
  Reach-Complete quiet size reach =
      Reach-Output q frame_size write format working.lawful (λ fs t. t ≡ texts text fs) (Has room)
        (λ t s h. h.shows.orderly) (Moved-Has room) adds-text refl
        (record { shows = Reach-Shows q frame_size write format quiet reach; same_room = size })
        reach

  Complete-IsOrderly : (h : History F) (l : System F W q) → Complete h l → IsOrderly l.output
  unfolding Complete
  Complete-IsOrderly h l (t, same, b) = b.shows.orderly

  -- For a lawful writer that reports no error, policies that do not block, no callback for writer
  -- errors, formatters that reserve the length of their text, fill the room with the text and
  -- commit it, and an output buffer below 2^64 bytes into which each frame's text fits: in a run
  -- from an opened log in which no allocation was reverted, when the worker has returned after
  -- `close`, the writer has got the texts of all frames sent, whole and in the order in which they
  -- were sent, and nothing else, and nothing is left in the output buffer.
  pub returned-texts :
      {l0 : System F W q} {h : History F} {l : System F W q}
      → DoesNotBlock l0.output
      → capacity l0.output ≡ room
      → Reach q frame_size write none format l0 h l
      → h.refused ≡ 0
      → l.worker ≡ returned
      → (l.output.sink ≡ texts text h.sent) × (l.output.committed ≡ [])
  unfolding Complete
  returned-texts {l = l} quiet size reach r worker =
      let (t, same, h) = Reach-Complete quiet size reach in
      let drained =
        Reach-Drained q frame_size write format working
          (λ h' l' reach'. Complete-IsOrderly h' l' (Reach-Complete quiet size reach')) reach
          worker in
      (
        sym (append-nil l.output.sink)
            ∙ ap (λ x. l.output.sink ++ x) (sym drained)
            ∙ h.shows.shown
            ∙ same
            ∙ ap (texts text) (returned-formatted q frame_size write none format reach r worker).0,
        drained,
      )
