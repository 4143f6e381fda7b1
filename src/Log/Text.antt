-- ===== src/Log/Text.antt =====
-- What the log writes in a run: the output of the formatters, one behind the other, as the writer
-- has got it and the output buffer holds it.
use reckless.Prelude.{
  ℕ, suc, ◌≡◌, sym, ap, ◌∙◌, arith, List, [], ◌∷◌, ◌++◌, Option, none, some, length, length-drop,
  Bool-cases, inl, inr,
}
use reckless.OutputBuffer.{
  OutputBuffer, WriteResult, Call, done, flush_error, excessive_output_by_frame, undefined, blocked,
  reset, flush, has_complete_frame,
}
use reckless.OutputBuffer.Flush.{
  IsWriter, stream, Moved, IsBounded, DoesNotBlock, Flushed, flush-Flushed,
}
use reckless.Log.{Queue, flush_frames, flush_output_buffer}
use reckless.Log.System.{
  System, Action, History, noted, after_frame, Step, opened, IsOpened, Reach, write_frame,
  pass_halt, pass_error, send, refuse, construct_throws, close, panic, take_extent, take_terminator,
  panic_done, idle, poll, process, finish, start, later,
}

module _ {W : Type 0} where
  -- A buffer that ends with a complete frame, under policies that do not block.
  pub record IsOrderly (s : OutputBuffer W) : Type 0 where
    pub complete : s.frame_end ≡ length s.committed
    pub quiet : DoesNotBlock s

  pub IsOrderly-IsBounded : (s : OutputBuffer W) → IsOrderly s → IsBounded s
  IsOrderly-IsBounded s h = omega (arith, h.complete)

  -- An output buffer that is orderly and whose text is `t`.
  pub record Shows (t : List ℕ) (s : OutputBuffer W) : Type 0 where
    pub orderly : IsOrderly s
    pub shown : stream s ≡ t

  pub Moved-Shows :
      {t : List ℕ} {s s' : OutputBuffer W} (k : ℕ) → Moved k s s' → Shows t s → Shows t s'
  Moved-Shows {s = s} {s' = s'} k m h = record {
    orderly = record {
      complete = omega (
        arith,
        m.inside,
        m.frames,
        h.orderly.complete,
        ap length m.rest,
        length-drop k s.committed,
      );
      quiet = rw (m.temporary, m.permanent) h.orderly.quiet;
    };
    shown = m.same_stream ∙ h.shown;
  }

-- What holds of an orderly buffer, and still holds when a first part of it is written.
module _ {W : Type 0} (write : W → List ℕ → WriteResult × W) (lawful : IsWriter write)
    (P : OutputBuffer W → Type 0) (orderly : (s : OutputBuffer W) → P s → IsOrderly s)
    (moved : (s s' : OutputBuffer W) (k : ℕ) → Moved k s s' → P s → P s') where
  Flushed-keeps :
      (s : OutputBuffer W) {o : OutputBuffer W} (c : Call (OutputBuffer W))
      → Flushed s c
      → P s
      → (elim c [
        | done s' ↦ done s'
        | flush_error e s' ↦ done s'
        | excessive_output_by_frame s' ↦ excessive_output_by_frame s'
        | undefined ↦ undefined
        | blocked s' ↦ blocked s'
      ])
        ≡ done o
      → P o
  Flushed-keeps s {o} (done s') m h e =
      let same : s' ≡ o = cc in (moved s o s.frame_end (rw same at m) h)
  Flushed-keeps s {o} (flush_error x s') (k, m) h e =
      let same : s' ≡ o = cc in moved s o k (rw same at m) h
  Flushed-keeps s (excessive_output_by_frame s') m h e = absurd m
  Flushed-keeps s undefined m h e = absurd m
  Flushed-keeps s (blocked s') m h e = absurd m

  flush_frames-keeps :
      (fuel : ℕ) (s : OutputBuffer W) {o : OutputBuffer W}
      → flush_frames write none (suc (suc fuel)) s ≡ done o
      → P s
      → P o
  unfolding flush_frames flush_output_buffer
  flush_frames-keeps fuel s {o} e h = elim (Bool-cases (has_complete_frame s)) [
    | inl some_frame ↦
        Flushed-keeps s (flush write none (suc (suc fuel)) s)
          (flush-Flushed write fuel s lawful (IsOrderly-IsBounded s (orderly s h))
            (orderly s h).quiet)
          h (simp some_frame at e)
    | inr no_frame ↦
        let same : done s ≡ done o = simp no_frame at e in
        let same' : s ≡ o = cc in rw (sym same') h
  ]

-- Each formatter that returns has written behind what was there, and leaves the buffer orderly;
-- `rel` says what the formatters of some frames may have written together.
module _ {F W : Type 0} (q : Queue) (frame_size : F → ℕ) (write : W → List ℕ → WriteResult × W)
    (format : F → OutputBuffer W → Option (OutputBuffer W)) (lawful : IsWriter write)
    (rel : List (ℕ × F) → List ℕ → Type 0) (P : List ℕ → OutputBuffer W → Type 0)
    (orderly : (t : List ℕ) (s : OutputBuffer W) → P t s → IsOrderly s)
    (moved : (t : List ℕ) (s s' : OutputBuffer W) (k : ℕ) → Moved k s s' → P t s → P t s') where
  -- The output of the frames formatted.
  abbrev Output : History F → System F W q → Type 0
  Output h l = (t : List ℕ) × rel h.formatted t × P t l.output

  abbrev Writes : Type 0
  Writes =
      (fs : List (ℕ × F)) (i : ℕ) (f : F) (t : List ℕ) (s o : OutputBuffer W)
      → format f s ≡ some o
      → rel fs t
      → P t s
      → (t' : List ℕ) × rel (fs ++ (i, f) ∷ []) t' × P t' o

  Step-Output :
      (h : History F) {a : Action F} {l l' : System F W q}
      → Writes
      → Step q frame_size write none format l a l'
      → Output h l
      → Output (noted a h) l'
  unfolding noted after_frame
  Step-Output h writes (write_frame i f raw is_ready positive short e header) s = s
  Step-Output h writes (pass_halt i e before calm) s = s
  Step-Output h writes (pass_error i before fine) s = s
  Step-Output h writes (send i e passed life pushes) s = s
  Step-Output h writes (refuse i e passed error) s = s
  Step-Output h writes (construct_throws i e before) s = s
  Step-Output h writes (close life pushes) s = s
  Step-Output h writes panic s = s
  Step-Output h writes (take_extent popping pops) s = s
  Step-Output h {l = l} writes (take_terminator fuel popping pops flushes) (t, r, s) =
      (t, r, flush_frames-keeps write lawful (P t) (orderly t) (moved t) fuel l.output flushes s)
  Step-Output h {l = l} writes (panic_done fuel worker pops panicking flushes) (t, r, s) =
      (t, r, flush_frames-keeps write lawful (P t) (orderly t) (moved t) fuel l.output flushes s)
  Step-Output h {l = l} writes (idle fuel worker pops panicking flushes) (t, r, s) =
      (t, r, flush_frames-keeps write lawful (P t) (orderly t) (moved t) fuel l.output flushes s)
  Step-Output h {l = l} writes (poll fuel worker pops flushes) (t, r, s) =
      (t, r, flush_frames-keeps write lawful (P t) (orderly t) (moved t) fuel l.output flushes s)
  Step-Output h {l = l} writes (process {i = i} {f = f} {o = o} worker ne found formatted)
        (t, r, s) =
      writes h.formatted i f t l.output o formatted r s
  Step-Output h writes (finish worker at_end) s = s

  pub Reach-Output :
      {l0 : System F W q} {h : History F} {l : System F W q}
      → Writes
      → rel [] []
      → P [] l0.output
      → Reach q frame_size write none format l0 h l
      → Output h l
  Reach-Output writes empty begins (start opened_log) = ([], empty, begins)
  Reach-Output writes empty begins (later {h = h} reach step) =
      Step-Output h writes step (Reach-Output writes empty begins reach)

module _ {F W : Type 0} (q : Queue) (frame_size : F → ℕ) (write : W → List ℕ → WriteResult × W)
    (format : F → OutputBuffer W → Option (OutputBuffer W)) where
  opened-Shows :
      {l : System F W q}
      → DoesNotBlock l.output
      → IsOpened q frame_size write none format l
      → Shows [] l.output
  unfolding reset
  opened-Shows quiet
        (opened size raw w memory before positive buffers senders checks empty worker life output) =
      record {
        orderly = record {
          complete = ap (λ s. s.frame_end) output ∙ ap length (ap (λ s. s.committed) (sym output));
          quiet = quiet;
        };
        shown = ap stream output;
      }

  -- What the log starts from.
  pub Reach-Shows :
      {l0 : System F W q} {h : History F} {l : System F W q}
      → DoesNotBlock l0.output
      → Reach q frame_size write none format l0 h l
      → Shows [] l0.output
  Reach-Shows quiet (start opened_log) = opened-Shows quiet opened_log
  Reach-Shows quiet (later reach step) = Reach-Shows quiet reach
