-- ===== src/CrashHandler.antt =====
-- reckless/src/crash_handler.cpp: handlers for the signals that end a process. The system call
-- `sigaction` is a parameter, and so are the numbers of the signals.
pub mod Restore
pub mod Installed
use reckless.Prelude.{
  ℕ, zero, suc, ◌≡◌, ◌≢◌, refl, Bool, true, false, ltb, ◌==◌, if◌then◌else◌, List, [], ◌∷◌, Option,
  none, some,
}
use reckless.Output.{Outcome, done, threw, blocked}

-- `sigaction`, for reading a disposition and for changing one; `none` is success and `some` has the
-- value of `errno`. The laws are what its documentation says: reading changes nothing, a change
-- that succeeds is one of this signal's disposition only, one that fails is none, and whether a
-- change succeeds depends on the signal.
pub record Sigaction : Type 1 where
  pub Kernel : Type 0
  pub Action : Type 0
  pub is_default : Action → Bool
  pub query : ℕ → Kernel → Option Action
  pub query_errno : ℕ → Kernel → ℕ
  pub change : ℕ → Action → Kernel → Option ℕ × Kernel
  pub change_same :
      (signal : ℕ) (a : Action) (k : Kernel)
      → (change signal a k).0 ≡ none
      → query signal (change signal a k).1 ≡ some a
  pub change_other :
      (signal x : ℕ) (a : Action) (k : Kernel)
      → x ≢ signal
      → query x (change signal a k).1 ≡ query x k
  pub change_fails :
      (signal x : ℕ) (a : Action) (k : Kernel) (errno : ℕ)
      → (change signal a k).0 ≡ some errno
      → query x (change signal a k).1 ≡ query x k
  pub change_again :
      (signal : ℕ) (a a' : Action) (k k' : Kernel)
      → (change signal a k).0 ≡ none
      → (change signal a' k').0 ≡ none

-- `std::sort`.
pub insert : ℕ → List ℕ → List ℕ
insert x [] = x ∷ []
insert x (y ∷ ys) = let rest = insert x ys in if ltb y x then y ∷ rest else x ∷ y ∷ ys

pub sort : List ℕ → List ℕ
sort [] = []
sort (x ∷ xs) = insert x (sort xs)

-- `unique` with `erase`: the first of each run of equal elements.
pub unique : List ℕ → List ℕ
unique [] = []
unique (x ∷ []) = x ∷ []
unique (x ∷ y ∷ xs) = let rest = unique (y ∷ xs) in if x == y then rest else x ∷ rest

abbrev pub unique_signals : List ℕ → List ℕ
unique_signals signals = unique (sort signals)

abbrev pub einval : ℕ
einval = 22

module _ (sys : Sigaction) (L : Type 0) where
  -- `g_logs`, `g_old_sigactions` with its last element first, and the dispositions.
  pub record Handlers : Type 0 where
    pub logs : List L
    pub old_sigactions : List (ℕ × sys.Action)
    pub kernel : sys.Kernel

  -- `signal_handler`, for the effect that `panic_flush` of a log has.
  pub signal_handler : {S : Type 0} → (L → S → S) → List L → S → S
  signal_handler panic_flush [] s = s
  signal_handler panic_flush (plog ∷ logs) s = signal_handler panic_flush logs (panic_flush plog s)

  -- The loop of `install_crash_handler`.
  pub install_loop : sys.Action → List ℕ → Handlers → Outcome ℕ Handlers (Unit {0})
  install_loop act [] s = done tt s
  install_loop act (signal ∷ rest) s =
      let (failed, changed) = sys.change signal act s.kernel in
      let skip = install_loop act rest s in
      let unknown = install_loop act rest (record s { kernel = changed }) in
      elim (sys.query signal s.kernel) [
        | none ↦ threw (sys.query_errno signal s.kernel) s
        | some oldact ↦
            if sys.is_default oldact
            then elim failed [
              | some errno ↦
                  if errno == einval then unknown else threw errno (record s { kernel = changed })
              | none ↦ install_loop act rest (record s {
                old_sigactions = (signal, oldact) ∷ s.old_sigactions;
                kernel = changed;
              })
            ]
            else skip
      ]

  -- The loop of `uninstall_crash_handler`, on `g_old_sigactions`, and its end.
  pub uninstall_loop : List (ℕ × sys.Action) → Handlers → Outcome ℕ Handlers (Unit {0})
  uninstall_loop [] s = done tt (record s { logs = []; old_sigactions = [] })
  uninstall_loop ((signal, oldact) ∷ rest) s =
      let (failed, changed) = sys.change signal oldact s.kernel in
      elim failed [
        | some errno ↦
            threw errno (record s { old_sigactions = (signal, oldact) ∷ rest; kernel = changed })
        | none ↦ uninstall_loop rest (record s { old_sigactions = rest; kernel = changed })
      ]

  pub uninstall_crash_handler : Handlers → Outcome ℕ Handlers (Unit {0})
  uninstall_crash_handler s = uninstall_loop s.old_sigactions s

  -- `catch(...) { uninstall_crash_handler(); throw; }`.
  pub undo : Outcome ℕ Handlers (Unit {0}) → Outcome ℕ Handlers (Unit {0})
  undo (done a s) = done a s
  undo (blocked s) = blocked s
  undo (threw errno s) = elim (uninstall_crash_handler s) [
    | done a s' ↦ threw errno s'
    | threw errno' s' ↦ threw errno' s'
    | blocked s' ↦ blocked s'
  ]

  -- `act` is the disposition that calls `signal_handler` and is reset when it does.
  pub install_crash_handler :
      sys.Action → List ℕ → List L → Handlers → Outcome ℕ Handlers (Unit {0})
  install_crash_handler act signals logs s =
      undo (install_loop act (unique_signals signals) (record s { logs = logs }))
