-- ===== src/FdWriter/Whole.antt =====
-- What `fd_writer::write` of reckless/src/fd_writer.cpp does with the answers of `::write`.
use reckless.Prelude.{
  ℕ, zero, suc, ◌+◌, ◌≤◌, ◌<◌, ◌≡◌, ◌≢◌, refl, ◌⊎◌, inl, inr, List, ◌++◌, Option, none, some, false,
  ◌==◌, Bool-cases, length, take, drop, arith,
}
use reckless.Errors.{posix_code, eintr}
use reckless.FdWriter.{Answer, written, failed, Written, after_answer, fd_write_loop, fd_write}

-- What `::write` documents: the file grows by the bytes that were accepted, at most the bytes that
-- were handed over, and by none when the call fails. `interrupts` bounds the signals to come.
pub record IsFile {W : Type 0} (write : List ℕ → W → Answer × W) (file : W → List ℕ)
    (interrupts : W → ℕ) : Type 0 where
  pub accepted :
      (d : List ℕ) (w : W) {n : ℕ} {w' : W}
      → write d w ≡ (written n, w')
      → (n ≤ length d) × (file w' ≡ file w ++ take n d)
  pub refused :
      (d : List ℕ) (w : W) {e : ℕ} {w' : W} → write d w ≡ (failed e, w') → file w' ≡ file w
  pub interrupted :
      (d : List ℕ) (w : W) {w' : W} → write d w ≡ (failed eintr, w') → interrupts w' < interrupts w

-- All is in the file; or nothing is, and there is an error other than EINTR; or `::write` has
-- accepted fewer bytes than it was handed, when nothing was in the file yet.
pub Outcomes :
    {W : Type 0}
    → (List ℕ → W → Answer × W)
    → (W → List ℕ)
    → List ℕ
    → List ℕ
    → Option (Written W)
    → Type 0
Outcomes write file before buf o =
    ((w : _) × (o ≡ some (record { returned = length buf; ec = none; system = w }))
      × (file w ≡ before ++ buf))
    ⊎ (((e : ℕ) × (w : _) × (e ≢ eintr)
          × (o ≡ some (record { returned = 0; ec = some (posix_code e); system = w }))
          × (file w ≡ before))
        ⊎ ((n : ℕ) × (w w' : _) × (n < length buf)
            × (file w ≡ before)
            × (write buf w ≡ (written n, w'))
            × (file w' ≡ before ++ take n buf)))

module _ {W : Type 0} (write : List ℕ → W → Answer × W) where
  -- A call that has not returned, or has returned more than there was to write.
  abbrev pub IsBeyond : ℕ → Option (Written W) → Type 0
  IsBeyond count none = Unit
  IsBeyond count (some r) = count < r.returned

  after-IsBeyond :
      (count : ℕ) (again : ℕ → W → Option (Written W))
      → ((q : ℕ) (w : W) → count < q → IsBeyond count (again q w))
      → (p : ℕ) (answer : Answer) (w : W) → count < p
      → IsBeyond count (after_answer again p answer w)
  unfolding after_answer
  after-IsBeyond count again h p (written n) w l = h (p + n) w (omega arith)
  after-IsBeyond count again h p (failed errno) w l = elim (Bool-cases (errno == eintr)) [
    | inl e ↦ rw e (h p w l)
    | inr e ↦ rw e l
  ]

  loop-IsBeyond :
      (fuel : ℕ) (memory : List ℕ) (count p : ℕ) (w : W)
      → count < p
      → IsBeyond count (fd_write_loop write fuel memory count p w)
  unfolding fd_write_loop
  loop-IsBeyond zero memory count p w h = tt
  loop-IsBeyond (suc fuel) memory count p w h =
      let e : (p == count) ≡ false = ground arith in
      rw e (
        after-IsBeyond count (fd_write_loop write fuel memory count)
          (λ q w' l. loop-IsBeyond fuel memory count q w' l) p _ _ h)

  first :
      (again : ℕ → W → Option (Written W)) (p n : ℕ) (w : W) (r : Answer × W)
      → r ≡ (written n, w)
      → after_answer again p r.0 r.1 ≡ again (p + n) w
  unfolding after_answer
  first again p n w r e = rw e refl

  -- If `::write` takes only `k` bytes of `count`, more than none, and then takes all that the
  -- second call offers, `count` bytes from the `k`th on, then for no number of rounds does
  -- `fd_writer::write` return `count` or less: it has not returned, or its count is larger.
  pub fd_write-overrun :
      (fuel : ℕ) (memory : List ℕ) (count k : ℕ) (w w1 w2 : W)
      → write (take count memory) w ≡ (written k, w1)
      → 0 < k
      → k < count
      → write (take count (drop k memory)) w1 ≡ (written count, w2)
      → IsBeyond count (fd_write write fuel memory count w)
  unfolding fd_write fd_write_loop
  fd_write-overrun zero memory count k w w1 w2 e1 positive short e2 = tt
  fd_write-overrun (suc zero) memory count k w w1 w2 e1 positive short e2 =
      let e : (0 == count) ≡ false = ground arith in
      rw (e, first (fd_write_loop write 0 memory count) 0 k w1 _ e1) tt
  fd_write-overrun (suc (suc fuel)) memory count k w w1 w2 e1 positive short e2 =
      let e : (0 == count) ≡ false = ground arith in
      let e' : (k == count) ≡ false = ground arith in
      let again = fd_write_loop write fuel memory count in
      let zero_left : 0 + k ≡ k = omega arith in
      rw (e, first (fd_write_loop write (suc fuel) memory count) 0 k w1 _ e1)
        (rw (zero_left, fd_write_loop, e', first again k count w2 _ e2)
          (loop-IsBeyond fuel memory count (k + count) w2 (omega arith)))
