-- ===== src/Log/Drained.antt =====
-- What the worker of reckless/src/basic_log.cpp leaves in the output buffer when it returns, where
-- the writer works.
use reckless.Prelude.{
  ℕ, zero, suc, ◌≡◌, refl, sym, ap, ◌∙◌, arith, List, [], ◌∷◌, Option, none, length, drop, ◌==◌,
  Bool-cases, inl, inr,
}
use reckless.OutputBuffer.{
  OutputBuffer, WriteResult, Call, done, flush_error, excessive_output_by_frame, undefined, blocked,
  flush, has_complete_frame,
}
use reckless.OutputBuffer.Working.{IsWorking, Returns, flush-Returns}
use reckless.Log.{Queue, flush_frames, flush_output_buffer}
use reckless.Log.System.{
  System, Action, History, after_frame, returned, Step, opened, Reach, write_frame, pass_halt,
  pass_error, send, refuse, construct_throws, close, panic, take_extent, take_terminator,
  panic_done, idle, poll, process, finish, start, later,
}
use reckless.Log.Text.{IsOrderly, IsOrderly-IsBounded}

drop-all : (xs : List ℕ) (n : ℕ) → n ≡ length xs → drop n xs ≡ []
drop-all [] zero h = refl
drop-all [] (suc n) h = refl
drop-all (x ∷ xs) zero h = absurd (omega arith)
drop-all (x ∷ xs) (suc n) h = drop-all xs n (omega arith)

module _ {W : Type 0} (write : W → List ℕ → WriteResult × W) (working : IsWorking write) where
  Returns-drained :
      (s o : OutputBuffer W) (c : Call (OutputBuffer W))
      → IsOrderly s
      → Returns write s c
      → (elim c [
        | done s' ↦ done s'
        | flush_error e s' ↦ done s'
        | excessive_output_by_frame s' ↦ excessive_output_by_frame s'
        | undefined ↦ undefined
        | blocked s' ↦ blocked s'
      ])
        ≡ done o
      → o.committed ≡ []
  Returns-drained s o c h (s', returns, m) e =
      let e' = rw returns at e in
      let same : s' ≡ o = cc in
      ap (λ x. x.committed) (sym same) ∙ m.rest ∙ drop-all s.committed s.frame_end h.complete

  flush_frames-drained :
      (fuel : ℕ) (s o : OutputBuffer W)
      → IsOrderly s
      → flush_frames write none (suc (suc fuel)) s ≡ done o
      → o.committed ≡ []
  unfolding flush_frames flush_output_buffer has_complete_frame
  flush_frames-drained fuel s o h e = elim (Bool-cases (s.frame_end == 0)) [
    | inl empty ↦
        let e' = rw empty at e in
        let same : s ≡ o = cc in
        ap (λ x. x.committed) (sym same) ∙ drop-all s.committed 0 (ground (arith, h.complete))
    | inr some_frame ↦
        Returns-drained s o (flush write none (suc (suc fuel)) s) h
          (flush-Returns write fuel s working (IsOrderly-IsBounded s h) h.quiet)
          (rw some_frame at e)
  ]

module _ {F W : Type 0} (q : Queue) (frame_size : F → ℕ) (write : W → List ℕ → WriteResult × W)
    (format : F → OutputBuffer W → Option (OutputBuffer W)) (working : IsWorking write) where
  abbrev Drained : System F W q → Type 0
  Drained l = l.worker ≡ returned → l.output.committed ≡ []

  Step-Drained :
      {a : Action F} {l l' : System F W q}
      → Step q frame_size write none format l a l'
      → IsOrderly l.output
      → Drained l
      → Drained l'
  unfolding after_frame
  Step-Drained (write_frame i f raw is_ready positive short e header) h d = d
  Step-Drained (pass_halt i e before calm) h d = d
  Step-Drained (pass_error i before fine) h d = d
  Step-Drained (send i e passed life pushes) h d = d
  Step-Drained (refuse i e passed error) h d = d
  Step-Drained (construct_throws i e before) h d = d
  Step-Drained (close life pushes) h d = d
  Step-Drained panic h d = d
  Step-Drained (take_extent popping pops) h d = λ e. absurd cc
  Step-Drained {l = l} (take_terminator fuel popping pops flushes) h d =
      λ e. flush_frames-drained write working fuel l.output _ h flushes
  Step-Drained (panic_done fuel worker pops panicking flushes) h d = λ e. absurd cc
  Step-Drained (idle fuel worker pops panicking flushes) h d = λ e. absurd cc
  Step-Drained (poll fuel worker pops flushes) h d = λ e. absurd cc
  Step-Drained (process worker ne found formatted) h d = λ e. absurd cc
  Step-Drained (finish worker at_end) h d = λ e. absurd cc

  -- Where the output buffer ends with a complete frame throughout, nothing is left in it when the
  -- worker has returned.
  pub Reach-Drained :
      {l0 : System F W q} {h : History F} {l : System F W q}
      → ((h : History F) (l : System F W q)
          → Reach q frame_size write none format l0 h l
          → IsOrderly l.output)
      → Reach q frame_size write none format l0 h l
      → l.worker ≡ returned
      → l.output.committed ≡ []
  Reach-Drained orderly
        (start (
          opened size raw w memory before positive buffers senders checks empty worker life
            output)) =
      λ e. absurd cc
  Reach-Drained orderly (later {h = h} {l = l} reach step) =
      Step-Drained step (orderly h l reach) (Reach-Drained orderly reach)
