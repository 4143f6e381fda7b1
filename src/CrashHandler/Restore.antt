-- ===== src/CrashHandler/Restore.antt =====
-- `uninstall_crash_handler` of reckless/src/crash_handler.cpp takes back what
-- `install_crash_handler` has done, also where an exception ends it.
use native.Mathlib.Decide.{ℕ_discrete}
use reckless.Prelude.{
  ℕ, ◌≡◌, ◌≢◌, refl, sym, ◌∙◌, ap, List, [], ◌∷◌, none, some, ◌==◌, inl, inr, Bool-cases,
  Option-cases,
}
use reckless.Output.{Outcome, done, threw, blocked}
use reckless.CrashHandler.{
  Sigaction, Handlers, install_loop, uninstall_loop, uninstall_crash_handler, undo,
  install_crash_handler, unique_signals, einval,
}

module _ (sys : Sigaction) where
  -- Every signal has the disposition in `k` that it has in `k'`.
  abbrev pub Same : sys.Kernel → sys.Kernel → Type 0
  Same k k' = (x : ℕ) → sys.query x k ≡ sys.query x k'

  -- The changes that have led from the dispositions of `base` to those of `k`.
  pub data Changed (base : sys.Kernel) : sys.Kernel → List (ℕ × sys.Action) → Type 0 where
    unchanged : (k : sys.Kernel) → Same k base → Changed base k []
    one_more :
        (k k' : sys.Kernel) (signal : ℕ) (oldact : sys.Action) (old : List (ℕ × sys.Action))
        → Changed base k old
        → sys.query signal k ≡ some oldact
        → ((a : sys.Action) (k1 : sys.Kernel) → (sys.change signal a k1).0 ≡ none)
        → ((x : ℕ) → x ≢ signal → sys.query x k' ≡ sys.query x k)
        → Changed base k' ((signal, oldact) ∷ old)

  Changed-Same :
      {base k k' : sys.Kernel} {old : List (ℕ × sys.Action)}
      → Same k' k
      → Changed base k old
      → Changed base k' old
  Changed-Same {base} {k} {k'} h (unchanged _ e) = unchanged k' (λ x. h x ∙ e x)
  Changed-Same {base} {k} {k'} h (one_more k0 _ signal oldact old c q again other) =
      one_more k0 k' signal oldact old c q again (λ x ne. h x ∙ other x ne)

  module _ (L : Type 0) where
    -- Nothing is left of the handlers, and the dispositions are those of `base`.
    pub record IsUndone (base : sys.Kernel) (s : Handlers sys L) : Type 0 where
      pub no_logs : s.logs ≡ []
      pub no_actions : s.old_sigactions ≡ []
      pub same : Same s.kernel base

    -- The call returns, and all is undone.
    abbrev pub Undoes : sys.Kernel → Outcome ℕ (Handlers sys L) (Unit {0}) → Type 0
    Undoes base (done a s) = IsUndone base s
    Undoes base (threw e s) = ⊥
    Undoes base (blocked s) = ⊥

    uninstall_loop-Undoes :
        (base : sys.Kernel) (old : List (ℕ × sys.Action)) (s : Handlers sys L)
        → Changed base s.kernel old
        → Undoes base (uninstall_loop sys L old s)
    unfolding uninstall_loop
    uninstall_loop-Undoes base [] s (unchanged _ e) = record {
      no_logs = refl;
      no_actions = refl;
      same = e;
    }
    uninstall_loop-Undoes base ((signal, oldact) ∷ rest) s (one_more k _ _ _ _ c q again other) =
        let ok = again oldact s.kernel in
        let k' = (sys.change signal oldact s.kernel).1 in
        let back : Same k' k = λ x. elim (ℕ_discrete x signal) [
          | yes e ↦
              ap (λ t. sys.query t k') e
              ∙ sys.change_same signal oldact s.kernel ok
              ∙ sym (ap (λ t. sys.query t k) e ∙ q)
          | no ne ↦ sys.change_other signal x oldact s.kernel ne ∙ other x ne
        ] in
        rw (uninstall_loop, ok) (uninstall_loop-Undoes base rest _ (Changed-Same back c))

    -- However the call ends, the changes are those that are noted.
    abbrev Tracks : sys.Kernel → Outcome ℕ (Handlers sys L) (Unit {0}) → Type 0
    Tracks base (done a s) = Changed base s.kernel s.old_sigactions
    Tracks base (threw e s) = Changed base s.kernel s.old_sigactions
    Tracks base (blocked s) = ⊥

    install_loop-Tracks :
        (base : sys.Kernel) (act : sys.Action) (signals : List ℕ) (s : Handlers sys L)
        → Changed base s.kernel s.old_sigactions
        → Tracks base (install_loop sys L act signals s)
    unfolding install_loop
    install_loop-Tracks base act [] s c = c
    install_loop-Tracks base act (signal ∷ rest) s c =
        let same = λ (errno : ℕ) (f : (sys.change signal act s.kernel).0 ≡ some errno).
          Changed-Same (λ x. sys.change_fails signal x act s.kernel errno f) c in
        elim (Option-cases (sys.query signal s.kernel)) [
          | inl e ↦ rw (install_loop, e) c
          | inr (oldact, e) ↦ elim (Bool-cases (sys.is_default oldact)) [
            | inr other ↦ rw (install_loop, e, other) (install_loop-Tracks base act rest s c)
            | inl def ↦ elim (Option-cases (sys.change signal act s.kernel).0) [
              | inl f ↦
                  rw (install_loop, e, def, f)
                    (install_loop-Tracks base act rest _ (
                      one_more s.kernel (sys.change signal act s.kernel).1 signal oldact
                        s.old_sigactions c e (λ a k1. sys.change_again signal act a s.kernel k1 f)
                        (λ x ne. sys.change_other signal x act s.kernel ne)))
              | inr (errno, f) ↦ elim (Bool-cases (errno == einval)) [
                | inl t ↦
                    rw (install_loop, e, def, f, t)
                      (install_loop-Tracks base act rest _ (same errno f))
                | inr t ↦ rw (install_loop, e, def, f, t) (same errno f)
              ]
            ]
          ]
        ]

    -- What an installation leaves behind: if it threw, nothing.
    abbrev pub Restorable : sys.Kernel → Outcome ℕ (Handlers sys L) (Unit {0}) → Type 0
    Restorable base (done a s) = Undoes base (uninstall_crash_handler sys L s)
    Restorable base (threw e s) = IsUndone base s
    Restorable base (blocked s) = ⊥

    undo_from :
        (base : sys.Kernel) (errno : ℕ) (o : Outcome ℕ (Handlers sys L) (Unit {0}))
        → Undoes base o
        → Restorable base (elim o [
          | done a s' ↦ threw errno s'
          | threw errno' s' ↦ threw errno' s'
          | blocked s' ↦ blocked s'
        ])
    undo_from base errno (done a s) u = u
    undo_from base errno (threw e s) u = elim u [ ]
    undo_from base errno (blocked s) u = elim u [ ]

    undo-Restorable :
        (base : sys.Kernel) (o : Outcome ℕ (Handlers sys L) (Unit {0}))
        → Tracks base o
        → Restorable base (undo sys L o)
    unfolding undo uninstall_crash_handler
    undo-Restorable base (done a s) c = uninstall_loop-Undoes base s.old_sigactions s c
    undo-Restorable base (threw errno s) c =
        undo_from base errno _ (uninstall_loop-Undoes base s.old_sigactions s c)
    undo-Restorable base (blocked s) c = c

    -- For a `sigaction` that behaves as documented, and no old dispositions noted before: if
    -- `install_crash_handler` returns, `uninstall_crash_handler` returns too and gives every signal
    -- the disposition that it had before the installation; if it throws, every signal has that
    -- disposition already. In both cases no log and no old disposition is left.
    pub install-Restorable :
        (act : sys.Action) (signals : List ℕ) (logs : List L) (s : Handlers sys L)
        → s.old_sigactions ≡ []
        → Restorable s.kernel (install_crash_handler sys L act signals logs s)
    unfolding install_crash_handler
    install-Restorable act signals logs s e = undo-Restorable s.kernel _ (
        install_loop-Tracks s.kernel act (unique_signals signals) (record s { logs = logs })
          (rw e (unchanged s.kernel (λ x. refl))))
