-- ===== src/Log/Order.antt =====
-- The log keeps the order of its frames: what is formatted is what was sent.
use reckless.Prelude.{
  ℕ, ◌≡◌, ◌≢◌, sym, ap, ◌∙◌, List, [], ◌∷◌, ◌++◌, append-nil, Option, none, some, inl, inr,
}
use reckless.Errors.{ErrorCode}
use reckless.InputBuffer.{InputBuffer, discard_input_frame}
use reckless.OutputBuffer.{OutputBuffer, WriteResult}
use reckless.Log.{Queue, fetch}
use reckless.Log.System.{System, processing, returned, History, IsPopping, Reach}
use reckless.Log.Flights.{entries, AtWork-popping, none_left}
use reckless.Log.Steps.{Reach-IsOrdered, oldest-Fetched}

module _ {F W : Type 0} (q : Queue) (frame_size : F → ℕ) (write : W → List ℕ → WriteResult × W)
    (callback : Option (Option ErrorCode → ℕ → OutputBuffer W → OutputBuffer W))
    (format : F → OutputBuffer W → Option (OutputBuffer W)) where
  -- In any run from an opened log in which no allocation was reverted, the frames that were
  -- formatted are a first part of those sent, with their threads and in the order in which they
  -- were sent: none is lost, repeated or overtaken.
  pub formatted_in_order :
      {l0 : System F W q} {h : History F} {l : System F W q}
      → Reach q frame_size write callback format l0 h l
      → h.refused ≡ 0
      → (waiting : List (ℕ × F)) × (h.sent ≡ h.formatted ++ waiting)
  formatted_in_order reach r =
      let o = Reach-IsOrdered q frame_size write callback format reach r in
      (entries o.flights, o.order)

  -- In a run in which no allocation was reverted, when the worker has returned after `close` the
  -- frames formatted are exactly those sent, and the queue is empty.
  pub returned-formatted :
      {l0 : System F W q} {h : History F} {l : System F W q}
      → Reach q frame_size write callback format l0 h l
      → h.refused ≡ 0
      → l.worker ≡ returned
      → (h.formatted ≡ h.sent) × (q.contents l.queue ≡ [])
  returned-formatted {h} reach r worker =
      let o = Reach-IsOrdered q frame_size write callback format reach r in
      let (empty, life, c) = rw worker at o.at_work in
      (sym (o.order ∙ ap (λ x. h.formatted ++ entries x) empty ∙ append-nil h.formatted), c)

  -- In a run in which no allocation was reverted, when the worker is about to pop and the queue is
  -- empty the frames formatted are exactly those sent.
  pub idle-formatted :
      {l0 : System F W q} {h : History F} {l : System F W q}
      → Reach q frame_size write callback format l0 h l
      → h.refused ≡ 0
      → IsPopping l.worker
      → q.pop l.queue ≡ none
      → h.formatted ≡ h.sent
  idle-formatted {h} {l} reach r popping empty_queue =
      let o = Reach-IsOrdered q frame_size write callback format reach r in
      let work = AtWork-popping l.buffers (q.contents l.queue) l.life o.flights popping o.at_work in
      let empty = none_left o.flights l.life (sym (q.pop_empty l.queue empty_queue) ∙ work) in
      sym (o.order ∙ ap (λ x. h.formatted ++ entries x) empty ∙ append-nil h.formatted)

  -- In any run from an opened log in which no allocation was reverted, where the worker stands at a
  -- place other than the end of its extent, it finds a frame there, or at the beginning of the
  -- buffer behind the marker; it is the oldest frame sent and not yet formatted, and the next place
  -- is the end of the extent.
  pub process-finds :
      {l0 : System F W q} {h : History F} {l : System F W q} {i p e : ℕ}
      → Reach q frame_size write callback format l0 h l
      → h.refused ≡ 0
      → l.worker ≡ processing i p e
      → p ≢ e
      → (f : F) × (b : InputBuffer F) × (waiting : List (ℕ × F)) × (fetch p (l.buffers i)
          ≡ (some f, b))
        × ((discard_input_frame (frame_size f) b).input_start ≡ e)
        × (h.sent ≡ h.formatted ++ (i, f) ∷ waiting)
  process-finds {h} {l} {i} {p} {e} reach r worker ne =
      let o = Reach-IsOrdered q frame_size write callback format reach r in
      elim (rw worker at o.at_work) [
        | inl (at_end, c) ↦ absurd (ne at_end)
        | inr (f, rest, at, same, c) ↦
            let it =
              oldest-Fetched q frame_size write callback format l.buffers l.senders o.flights rest i
                e f same (o.held i) in
            (
              f,
              it.behind,
              entries rest,
              rw at it.found,
              it.at_end,
              o.order ∙ ap (λ x. h.formatted ++ entries x) same,
            )
      ]
