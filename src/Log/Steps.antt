-- ===== src/Log/Steps.antt =====
-- Each step of the threads of the log keeps the invariant.
use reckless.Prelude.{
  ℕ, ◌-◌, ◌<◌, ◌≡◌, refl, sym, ap, ◌∙◌, List, [], ◌∷◌, ◌++◌, append_assoc, append-nil, Option, ◌==◌,
  ==_iff, Bool-cases, if◌then◌else◌, Bool, true, false, inl, inr,
}
use reckless.Errors.{ErrorCode}
use reckless.InputBuffer.{InputBuffer, align, store, try_allocate, allocated}
use reckless.OutputBuffer.{OutputBuffer, WriteResult}
use reckless.Log.{Extent, extent, terminator, Queue}
use reckless.Log.Placed.{Placed-create, write-start}
use reckless.Log.Placed.Fetch.{Fetched, Placed-Fetched, process-end}
use reckless.Log.System.{
  System, Sender, ready, starting, processing, returned, halted, Life, ended, Action, silent, sends,
  refuses, formats, History, noted, update, after_frame, Step, IsOpened, opened, Reach, write_frame,
  pass_halt, pass_error, send, refuse, construct_throws, close, panic, take_extent, take_terminator,
  panic_done, idle, poll, process, finish, start, later,
}
use reckless.Log.Flights.{
  Flight, entries, of_thread, pending, thread_self, entries-snoc, AtWork, AtWork-send, AtWork-close,
  AtWork-buffers, AtWork-popping, oldest, last_one,
}
use reckless.Log.Invariant.{
  Held, write-Held, send-Held, process-Held, clear-Held, update_self, update_ne, store-start,
}

module _ {F W : Type 0} (q : Queue) (frame_size : F → ℕ) where
  -- The invariant.
  pub record IsOrdered (h : History F) (l : System F W q) : Type 0 where
    pub flights : List (Flight F)
    pub order : h.sent ≡ h.formatted ++ entries flights
    pub at_work : AtWork l.worker l.buffers (q.contents l.queue) l.life flights
    pub held : (i : ℕ) → Held frame_size l.buffers l.senders flights i

module _ {F W : Type 0} (q : Queue) (frame_size : F → ℕ) (write : W → List ℕ → WriteResult × W)
    (callback : Option (Option ErrorCode → ℕ → OutputBuffer W → OutputBuffer W))
    (format : F → OutputBuffer W → Option (OutputBuffer W)) where
  refused_before : (a : Action F) (h : History F) → (noted a h).refused ≡ 0 → h.refused ≡ 0
  unfolding noted
  refused_before silent h e = e
  refused_before (sends i f) h e = e
  refused_before refuses h e = cc
  refused_before (formats i f) h e = e

  IsOpened-IsOrdered :
      {l : System F W q}
      → IsOpened q frame_size write callback format l
      → IsOrdered q frame_size (record { sent = []; formatted = []; refused = 0 }) l
  IsOpened-IsOrdered {l}
        (opened size raw w memory before positive buffers senders checks empty worker life output) =
      record {
        flights = [];
        order = refl;
        at_work = simp (worker, empty, life) refl;
        held = λ i.
            rw (ap (λ g. g i) buffers, ap (λ g. g i) senders)
              (Placed-create frame_size (raw i) size positive);
      }

  write-same :
      (bs : ℕ → InputBuffer F) (ss : ℕ → Sender F) (fl : List (Flight F)) (i : ℕ) (f : F)
      (raw : ℕ → Option F) {p : ℕ} {b : InputBuffer F}
      → ss i ≡ ready
      → 0 < align (frame_size f)
      → align (frame_size f) < (bs i).size - 1
      → try_allocate (bs i) (frame_size f) ≡ allocated p b
      → Held frame_size bs ss fl i
      → (j : ℕ) (x : F × ℕ) (xs : List (F × ℕ)) → of_thread j fl ≡ x ∷ xs
      → (update i (store p (align (frame_size f)) raw b) bs j).input_start ≡ (bs j).input_start
  write-same bs ss fl i f raw {p} {b} is_ready positive short e held j x xs some_left =
      elim (Bool-cases (i == j)) [
        | inl same' ↦
            let same : i ≡ j = (==_iff i j).0 same' in
            let some_left' = rw (sym same) at some_left in
            let holds = rw (is_ready, append-nil (of_thread i fl), some_left') at held in
            rw (sym same) (
              ap (λ x. x.input_start) (update_self i (store p (align (frame_size f)) raw b) bs)
              ∙ store-start p (align (frame_size f)) raw b
              ∙ write-start frame_size (bs i) f raw positive short e x xs holds)
        | inr ne ↦
            ap (λ x. x.input_start) (update_ne i j (store p (align (frame_size f)) raw b) bs ne)
      ]

  end-AtWork :
      (panicking : Bool) (bs : ℕ → InputBuffer F) (c : List Extent) (fl : List (Flight F))
      → fl ≡ []
      → c ≡ []
      → AtWork (if panicking then halted else returned) bs c ended fl
  end-AtWork true bs c fl empty nothing = rw (empty, nothing) refl
  end-AtWork false bs c fl empty nothing = (empty, refl, nothing)

  pub oldest-Fetched :
      (bs : ℕ → InputBuffer F) (ss : ℕ → Sender F) (fl rest : List (Flight F)) (i e : ℕ) (f : F)
      → fl ≡ (i, (f, e)) ∷ rest
      → Held frame_size bs ss fl i
      → Fetched frame_size (bs i) f e (of_thread i rest ++ pending (ss i) (bs i).input_end)
  oldest-Fetched bs ss fl rest i e f same held =
      Placed-Fetched frame_size (bs i) f e (of_thread i rest ++ pending (ss i) (bs i).input_end)
        (rw (thread_self i) at (rw same at held))

  finish-AtWork :
      (bs : ℕ → InputBuffer F) (ss : ℕ → Sender F) (c : List Extent) (life : Life)
      (fl : List (Flight F)) {i p e : ℕ}
      → ((j : ℕ) → Held frame_size bs ss fl j)
      → p ≡ e
      → AtWork (processing i p e) bs c life fl
      → AtWork starting bs c life fl
  finish-AtWork bs ss c life fl held at_end (inl (x, h)) = h
  finish-AtWork bs ss c life fl {i} {e = e} held at_end (inr (f, rest, at, same, h)) =
      absurd ((oldest-Fetched bs ss fl rest i e f same (held i)).not_end (sym at ∙ at_end))

  pub Step-IsOrdered :
      {h : History F} {a : Action F} {l l' : System F W q}
      → Step q frame_size write callback format l a l'
      → (noted a h).refused ≡ 0
      → IsOrdered q frame_size h l
      → IsOrdered q frame_size (noted a h) l'
  unfolding noted after_frame
  Step-IsOrdered {l = l} (write_frame i f raw is_ready positive short e header) r o = record {
    flights = o.flights;
    order = o.order;
    at_work =
        AtWork-buffers l.worker l.buffers _ (q.contents l.queue) l.life o.flights
          (write-same l.buffers l.senders o.flights i f raw is_ready positive short e (o.held i))
          o.at_work;
    held =
        write-Held frame_size l.buffers l.senders o.flights i f raw (l.buffers i).input_end is_ready
          positive short e header o.held;
  }
  Step-IsOrdered (pass_halt i e before calm) r o = record {
    flights = o.flights;
    order = o.order;
    at_work = o.at_work;
    held = o.held;
  }
  Step-IsOrdered (pass_error i before fine) r o = record {
    flights = o.flights;
    order = o.order;
    at_work = o.at_work;
    held = o.held;
  }
  Step-IsOrdered {h = h} {l = l} (send i {marker = marker} {f = f} e passed life pushes) r o =
      let end = (l.buffers i).input_end in
      record {
        flights = o.flights ++ (i, (f, end)) ∷ [];
        order =
            ap (λ x. x ++ (i, f) ∷ []) o.order
            ∙ append_assoc h.formatted (entries o.flights) ((i, f) ∷ [])
            ∙ ap (λ x. h.formatted ++ x) (sym (entries-snoc o.flights i end f));
        at_work =
            rw (life, q.contents-push (extent i end) l.queue pushes)
              (AtWork-send l.worker l.buffers (q.contents l.queue) o.flights i end f
                (rw life at o.at_work));
        held = send-Held frame_size l.buffers l.senders o.flights i marker f e o.held;
      }
  Step-IsOrdered {l = l} (refuse i e passed error) r o = cc
  Step-IsOrdered {l = l} (construct_throws i e before) r o = cc
  Step-IsOrdered {l = l} (close life pushes) r o = record {
    flights = o.flights;
    order = o.order;
    at_work =
        rw (q.contents-push terminator l.queue pushes)
          (AtWork-close l.worker l.buffers (q.contents l.queue) o.flights (rw life at o.at_work));
    held = o.held;
  }
  Step-IsOrdered panic r o = record {
    flights = o.flights;
    order = o.order;
    at_work = o.at_work;
    held = o.held;
  }
  Step-IsOrdered {l = l} (take_extent {i = i} {e = e} {s = s} popping pops) r o =
      let work = AtWork-popping l.buffers (q.contents l.queue) l.life o.flights popping o.at_work in
      let (f, rest, same, behind) =
        oldest o.flights l.life i e (q.contents s) (sym (q.contents-pop l.queue pops) ∙ work) in
      record {
        flights = o.flights;
        order = o.order;
        at_work = inr (f, rest, refl, same, behind);
        held = o.held;
      }
  Step-IsOrdered {l = l} (take_terminator fuel {s = s} popping pops flushes) r o =
      let work = AtWork-popping l.buffers (q.contents l.queue) l.life o.flights popping o.at_work in
      let (empty, nothing) =
        last_one o.flights l.life (q.contents s) (sym (q.contents-pop l.queue pops) ∙ work) in
      record {
        flights = o.flights;
        order = o.order;
        at_work = end-AtWork l.panic_flush l.buffers (q.contents s) o.flights empty nothing;
        held = o.held;
      }
  Step-IsOrdered {l = l} (panic_done fuel worker pops panicking flushes) r o = record {
    flights = o.flights;
    order = o.order;
    at_work = rw worker at o.at_work;
    held = o.held;
  }
  Step-IsOrdered {l = l} (idle fuel worker pops panicking flushes) r o = record {
    flights = o.flights;
    order = o.order;
    at_work = rw worker at o.at_work;
    held = clear-Held frame_size l.buffers l.senders o.flights l.touched o.held;
  }
  Step-IsOrdered {l = l} (poll fuel worker pops flushes) r o = record {
    flights = o.flights;
    order = o.order;
    at_work = rw worker at o.at_work;
    held = o.held;
  }
  Step-IsOrdered {h = h} {l = l}
        (process {i = i} {p = p} {e = e} {f = f} {b = b} worker ne found formatted) r o =
      elim (rw worker at o.at_work) [
        | inl (at_end, c) ↦ absurd (ne at_end)
        | inr (f', rest, at, same, c) ↦
            let it = oldest-Fetched l.buffers l.senders o.flights rest i e f' same (o.held i) in
            let both = sym (rw at at found) ∙ it.found in
            let same_frame : f ≡ f' = cc in
            let same_buffer : b ≡ it.behind = cc in
            record {
              flights = rest;
              order =
                  o.order
                  ∙ ap (λ x. h.formatted ++ entries x) same
                  ∙ ap (λ x. h.formatted ++ (i, x) ∷ entries rest) (sym same_frame)
                  ∙ sym (append_assoc h.formatted ((i, f) ∷ []) (entries rest));
              at_work = inl (rw (same_frame, same_buffer) it.at_end, c);
              held =
                  process-Held frame_size l.buffers l.senders rest i e f b l.panic_flush l.touched
                    (process-end frame_size p (frame_size f) (l.buffers i) found)
                    (rw (same_frame, same_buffer) it.others)
                    (rw (same ∙ ap (λ x. (i, (x, e)) ∷ rest) (sym same_frame)) at o.held);
            }
      ]
  Step-IsOrdered {l = l} (finish worker at_end) r o = record {
    flights = o.flights;
    order = o.order;
    at_work =
        finish-AtWork l.buffers l.senders (q.contents l.queue) l.life o.flights o.held at_end
          (rw worker at o.at_work);
    held = o.held;
  }

  pub Reach-IsOrdered :
      {l0 : System F W q} {h : History F} {l : System F W q}
      → Reach q frame_size write callback format l0 h l
      → h.refused ≡ 0
      → IsOrdered q frame_size h l
  Reach-IsOrdered (start opened_log) r = IsOpened-IsOrdered opened_log
  Reach-IsOrdered (later {h = h} {a = a} before step) r =
      Step-IsOrdered step r (Reach-IsOrdered before (refused_before a h r))
