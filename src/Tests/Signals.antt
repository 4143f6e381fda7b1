-- ===== src/Tests/Signals.antt =====
-- The handlers of reckless/src/crash_handler.cpp for three signals, one of which cannot be handled.
use mathlib.Core.Option.{some-ne-none}
use reckless.Prelude.{
  ℕ, ◌≡◌, ◌≢◌, refl, true, false, [], ◌∷◌, Option, none, some, ◌==◌, if◌then◌else◌, inl, inr,
  Bool-cases, ap, sym, arith,
}
use reckless.CrashHandler.{Sigaction, Handlers, install_crash_handler}
use reckless.CrashHandler.Restore.{Restorable, install-Restorable}
use reckless.CrashHandler.Installed.{Installs, install-Installs}

-- A disposition is a number, 0 by default. Signal 9 cannot be handled.
abbrev changed : ℕ → ℕ → (ℕ → ℕ) → Option ℕ × (ℕ → ℕ)
changed signal a k =
    if signal == 9 then (some 22, k) else (none, λ x. if x == signal then a else k x)

changed-same :
    (signal a : ℕ) (k : ℕ → ℕ) → (changed signal a k).0 ≡ none → (changed signal a k).1 signal ≡ a
changed-same signal a k h = elim (Bool-cases (signal == 9)) [
  | inl e ↦ let h' = rw e at h in absurd (some-ne-none 22 h')
  | inr e ↦ let t : (signal == signal) ≡ true = ground arith in rw (e, t) refl
]

changed_other : (signal x a : ℕ) (k : ℕ → ℕ) → x ≢ signal → (changed signal a k).1 x ≡ k x
changed_other signal x a k ne =
    let t : (x == signal) ≡ false = ground arith in
    elim (Bool-cases (signal == 9)) [ inl e ↦ rw e refl | inr e ↦ rw (e, t) refl ]

changed_fails :
    (signal x a errno : ℕ) (k : ℕ → ℕ)
    → (changed signal a k).0 ≡ some errno
    → (changed signal a k).1 x ≡ k x
changed_fails signal x a errno k h = elim (Bool-cases (signal == 9)) [
  | inl e ↦ rw e refl
  | inr e ↦ let h' = rw e at h in absurd (some-ne-none errno (sym h'))
]

changed_again :
    (signal a a' : ℕ) (k k' : ℕ → ℕ)
    → (changed signal a k).0 ≡ none
    → (changed signal a' k').0 ≡ none
changed_again signal a a' k k' h = elim (Bool-cases (signal == 9)) [
  | inl e ↦ let h' = rw e at h in absurd (some-ne-none 22 h')
  | inr e ↦ rw e refl
]

abbrev table : Sigaction
table = record {
  Kernel = ℕ → ℕ;
  Action = ℕ;
  is_default = λ a. a == 0;
  query = λ signal k. some (k signal);
  query_errno = λ signal k. 22;
  change = changed;
  change_same = λ signal a k h. ap some (changed-same signal a k h);
  change_other = λ signal x a k ne. ap some (changed_other signal x a k ne);
  change_fails = λ signal x a k errno h. ap some (changed_fails signal x a errno k h);
  change_again = λ signal a a' k k' h. changed_again signal a a' k k' h;
}

-- Signal 11 is handled by the program already.
abbrev before : Handlers table ℕ
before = record { logs = []; old_sigactions = []; kernel = λ signal. if signal == 11 then 5 else 0 }

install-Restorable_example :
    Restorable table ℕ before.kernel
      (install_crash_handler table ℕ 7 (15 ∷ 9 ∷ 11 ∷ 2 ∷ 15 ∷ []) (1 ∷ []) before)
install-Restorable_example =
    install-Restorable table ℕ 7 (15 ∷ 9 ∷ 11 ∷ 2 ∷ 15 ∷ []) (1 ∷ []) before refl

install-Installs_example :
    Installs table ℕ 7
      (15 ∷ 9 ∷ 11 ∷ 2 ∷ 15 ∷ [])
      before.kernel
      (install_crash_handler table ℕ 7 (15 ∷ 9 ∷ 11 ∷ 2 ∷ 15 ∷ []) (1 ∷ []) before)
install-Installs_example = install-Installs table ℕ 7 (15 ∷ 9 ∷ 11 ∷ 2 ∷ 15 ∷ []) (1 ∷ []) before
