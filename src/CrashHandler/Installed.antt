-- ===== src/CrashHandler/Installed.antt =====
-- Which signals `install_crash_handler` of reckless/src/crash_handler.cpp handles.
use native.Mathlib.Decide.{ℕ_discrete}
use mathlib.Core.List.{Memᴰ}
use mathlib.Core.List.Memᴰ.{head, tail}
use mathlib.Core.Option.{some-ne-none}
use reckless.Prelude.{
  ℕ, ◌≡◌, ◌≢◌, refl, sym, ◌∙◌, ap, true, List, [], ◌∷◌, none, some, ◌==◌, ltb, inl, inr, ◌⊎◌,
  Bool-cases, Option-cases, ==_iff,
}
use reckless.Output.{Outcome, done, threw, blocked}
use reckless.CrashHandler.{
  Sigaction, Handlers, install_loop, undo, install_crash_handler, unique_signals, insert, sort,
  unique, einval, uninstall_crash_handler,
}

-- Sorting and dropping what stands twice keep what is in a list.
insert-Mem : (x y : ℕ) (ys : List ℕ) → (x ≡ y) ⊎ Memᴰ x ys → Memᴰ x (insert y ys)
unfolding insert
insert-Mem x y [] (inl e) = head e
insert-Mem x y [] (inr m) = tail m
insert-Mem x y (z ∷ ys) (inl e) = elim (Bool-cases (ltb z y)) [
  | inr last ↦ rw last (head e)
  | inl more ↦ rw more (tail (insert-Mem x y ys (inl e)))
]
insert-Mem x y (z ∷ ys) (inr (head e)) = elim (Bool-cases (ltb z y)) [
  | inr last ↦ rw last (tail (head e))
  | inl more ↦ rw more (head e)
]
insert-Mem x y (z ∷ ys) (inr (tail m)) = elim (Bool-cases (ltb z y)) [
  | inr last ↦ rw last (tail (tail m))
  | inl more ↦ rw more (tail (insert-Mem x y ys (inr m)))
]

Mem-insert : (x y : ℕ) (ys : List ℕ) → Memᴰ x (insert y ys) → (x ≡ y) ⊎ Memᴰ x ys
unfolding insert
Mem-insert x y [] (head e) = inl e
Mem-insert x y [] (tail m) = inr m
Mem-insert x y (z ∷ ys) m = elim (Bool-cases (ltb z y)) [
  | inr last ↦ let m' = rw last at m in elim m' [ head e ↦ inl e | tail t ↦ inr t ]
  | inl more ↦
      let m' = rw more at m in
      elim m' [
        | head e ↦ inr (head e)
        | tail t ↦ elim (Mem-insert x y ys t) [ inl e ↦ inl e | inr r ↦ inr (tail r) ]
      ]
]

sort-Mem : (x : ℕ) (xs : List ℕ) → Memᴰ x xs → Memᴰ x (sort xs)
unfolding sort
sort-Mem x [] m = m
sort-Mem x (y ∷ ys) (head e) = insert-Mem x y (sort ys) (inl e)
sort-Mem x (y ∷ ys) (tail m) = insert-Mem x y (sort ys) (inr (sort-Mem x ys m))

Mem-sort : (x : ℕ) (xs : List ℕ) → Memᴰ x (sort xs) → Memᴰ x xs
unfolding sort
Mem-sort x [] m = m
Mem-sort x (y ∷ ys) m = elim (Mem-insert x y (sort ys) m) [
  | inl e ↦ head e
  | inr r ↦ tail (Mem-sort x ys r)
]

unique-Mem : (x : ℕ) (xs : List ℕ) → Memᴰ x xs → Memᴰ x (unique xs)
unfolding unique
unique-Mem x [] m = m
unique-Mem x (y ∷ []) m = m
unique-Mem x (y ∷ z ∷ ys) (head e) = elim (Bool-cases (y == z)) [
  | inl t ↦ rw t (unique-Mem x (z ∷ ys) (head (e ∙ (==_iff y z).0 t)))
  | inr t ↦ rw t (head e)
]
unique-Mem x (y ∷ z ∷ ys) (tail m) = elim (Bool-cases (y == z)) [
  | inl t ↦ rw t (unique-Mem x (z ∷ ys) m)
  | inr t ↦ rw t (tail (unique-Mem x (z ∷ ys) m))
]

Mem-unique : (x : ℕ) (xs : List ℕ) → Memᴰ x (unique xs) → Memᴰ x xs
unfolding unique
Mem-unique x [] m = m
Mem-unique x (y ∷ []) m = m
Mem-unique x (y ∷ z ∷ ys) m = elim (Bool-cases (y == z)) [
  | inl t ↦ let m' = rw t at m in tail (Mem-unique x (z ∷ ys) m')
  | inr t ↦
      let m' = rw t at m in elim m' [ head e ↦ head e | tail r ↦ tail (Mem-unique x (z ∷ ys) r) ]
]

module _ (sys : Sigaction) (L : Type 0) where
  -- The default disposition of `x` was replaced by `act`.
  abbrev pub Replaced : sys.Action → ℕ → sys.Kernel → sys.Kernel → Type 0
  Replaced act x base k =
      (sys.query x k ≡ some act)
      × (oldact : sys.Action) × (sys.query x base ≡ some oldact)
      × (sys.is_default oldact ≡ true)

  -- Signals of the list with a default disposition that can be changed have `act`; no other
  -- disposition is another one.
  pub record IsInstalled (act : sys.Action) (signals : List ℕ) (base k : sys.Kernel) : Type 0 where
    pub handled :
        (x : ℕ) (oldact : sys.Action)
        → Memᴰ x signals
        → sys.query x base ≡ some oldact
        → sys.is_default oldact ≡ true
        → ((k1 : sys.Kernel) → (sys.change x act k1).0 ≡ none)
        → sys.query x k ≡ some act
    pub kept :
        (x : ℕ) → (sys.query x k ≡ sys.query x base) ⊎ (Memᴰ x signals × Replaced act x base k)

  abbrev pub Installs :
      sys.Action → List ℕ → sys.Kernel → Outcome ℕ (Handlers sys L) (Unit {0}) → Type 0
  Installs act signals base (done a s) = IsInstalled act signals base s.kernel
  Installs act signals base (threw e s) = Unit
  Installs act signals base (blocked s) = Unit

  -- The rest of the loop does it for the rest of the list, from dispositions `k`.
  skipped :
      (act : sys.Action) (signal : ℕ) (rest : List ℕ) (base k : sys.Kernel)
      (o : Outcome ℕ (Handlers sys L) (Unit {0}))
      → ((x : ℕ) → sys.query x k ≡ sys.query x base)
      → ((oldact : sys.Action)
          → sys.query signal base ≡ some oldact
          → sys.is_default oldact ≡ true
          → ((k1 : sys.Kernel) → (sys.change signal act k1).0 ≡ none)
          → ⊥)
      → Installs act rest k o
      → Installs act (signal ∷ rest) base o
  skipped act signal rest base k (done a s) same not_this i = record {
    handled = λ x oldact m q d c. elim m [
      | head e ↦ absurd (
          not_this oldact (ap (λ t. sys.query t base) (sym e) ∙ q) d
            (λ k1. ap (λ t. (sys.change t act k1).0) (sym e) ∙ c k1))
      | tail r ↦ i.handled x oldact r (same x ∙ q) d c
    ];
    kept = λ x. elim (i.kept x) [
      | inl e ↦ inl (e ∙ same x)
      | inr (m, (e, oldact, q, d)) ↦ inr (tail m, (e, oldact, sym (same x) ∙ q, d))
    ];
  }
  skipped act signal rest base k (threw e s) same not_this i = tt
  skipped act signal rest base k (blocked s) same not_this i = tt

  replaced :
      (act oldact : sys.Action) (signal : ℕ) (rest : List ℕ) (base k : sys.Kernel)
      (o : Outcome ℕ (Handlers sys L) (Unit {0}))
      → sys.query signal base ≡ some oldact
      → sys.is_default oldact ≡ true
      → sys.query signal k ≡ some act
      → ((x : ℕ) → x ≢ signal → sys.query x k ≡ sys.query x base)
      → Installs act rest k o
      → Installs act (signal ∷ rest) base o
  replaced act oldact signal rest base k (done a s) q0 d0 new other i =
      let of_signal : (x : ℕ) → x ≡ signal → sys.query x s.kernel ≡ some act = λ x e.
        elim (i.kept x) [
          | inl e' ↦ e' ∙ ap (λ t. sys.query t k) e ∙ new
          | inr (m, (e', old, q, d)) ↦ e'
        ] in
      record {
        handled = λ x old m q d c. elim m [
          | head e ↦ of_signal x e
          | tail r ↦ elim (ℕ_discrete x signal) [
            | yes e ↦ of_signal x e
            | no ne ↦ i.handled x old r (other x ne ∙ q) d c
          ]
        ];
        kept = λ x. elim (ℕ_discrete x signal) [
          | yes e ↦ inr (head e, (of_signal x e, oldact, ap (λ t. sys.query t base) e ∙ q0, d0))
          | no ne ↦ elim (i.kept x) [
            | inl e ↦ inl (e ∙ other x ne)
            | inr (m, (e, old, q, d)) ↦ inr (tail m, (e, old, sym (other x ne) ∙ q, d))
          ]
        ];
      }
  replaced act oldact signal rest base k (threw e s) q0 d0 new other i = tt
  replaced act oldact signal rest base k (blocked s) q0 d0 new other i = tt

  install_loop-Installs :
      (act : sys.Action) (signals : List ℕ) (s : Handlers sys L)
      → Installs act signals s.kernel (install_loop sys L act signals s)
  unfolding install_loop
  install_loop-Installs act [] s = record { handled = λ x old m. elim m [ ]; kept = λ x. inl refl }
  install_loop-Installs act (signal ∷ rest) s = elim (Option-cases (sys.query signal s.kernel)) [
    | inl e ↦ rw (install_loop, e) tt
    | inr (oldact, e) ↦ elim (Bool-cases (sys.is_default oldact)) [
      | inr other ↦
          rw (install_loop, e, other)
            (skipped act signal rest s.kernel s.kernel _ (λ x. refl) (λ old q d c. cc)
              (install_loop-Installs act rest s))
      | inl def ↦ elim (Option-cases (sys.change signal act s.kernel).0) [
        | inl f ↦
            rw (install_loop, e, def, f)
              (replaced act oldact signal rest s.kernel (sys.change signal act s.kernel).1 _ e def
                (sys.change_same signal act s.kernel f)
                (λ x ne. sys.change_other signal x act s.kernel ne)
                (install_loop-Installs act rest _))
        | inr (errno, f) ↦ elim (Bool-cases (errno == einval)) [
          | inl t ↦
              rw (install_loop, e, def, f, t)
                (skipped act signal rest s.kernel (sys.change signal act s.kernel).1 _
                  (λ x. sys.change_fails signal x act s.kernel errno f)
                  (λ old q d c. some-ne-none errno (sym f ∙ c s.kernel))
                  (install_loop-Installs act rest _))
          | inr t ↦ rw (install_loop, e, def, f, t) tt
        ]
      ]
    ]
  ]

  of_unique :
      (act : sys.Action) (signals : List ℕ) (base k : sys.Kernel)
      → IsInstalled act (unique_signals signals) base k
      → IsInstalled act signals base k
  of_unique act signals base k i = record {
    handled = λ x oldact m. i.handled x oldact (unique-Mem x (sort signals) (sort-Mem x signals m));
    kept = λ x. elim (i.kept x) [
      | inl e ↦ inl e
      | inr (m, r) ↦ inr (Mem-sort x signals (Mem-unique x (sort signals) m), r)
    ];
  }

  undo_failed :
      (act : sys.Action) (signals : List ℕ) (base : sys.Kernel) (errno : ℕ)
      (o : Outcome ℕ (Handlers sys L) (Unit {0}))
      → Installs act signals base (elim o [
        | done a s' ↦ threw errno s'
        | threw errno' s' ↦ threw errno' s'
        | blocked s' ↦ blocked s'
      ])
  undo_failed act signals base errno (done a s) = tt
  undo_failed act signals base errno (threw e s) = tt
  undo_failed act signals base errno (blocked s) = tt

  undo-Installs :
      (act : sys.Action) (signals : List ℕ) (base : sys.Kernel)
      (o : Outcome ℕ (Handlers sys L) (Unit {0}))
      → Installs act (unique_signals signals) base o
      → Installs act signals base (undo sys L o)
  unfolding undo
  undo-Installs act signals base (done a s) i = of_unique act signals base s.kernel i
  undo-Installs act signals base (threw errno s) i =
      undo_failed act signals base errno (uninstall_crash_handler sys L s)
  undo-Installs act signals base (blocked s) i = tt

  -- For a `sigaction` that behaves as documented: after an `install_crash_handler` that returns,
  -- each listed signal that had its default disposition, and whose disposition can be changed, has
  -- the handler, whatever the order of the list and the repetitions in it; and every other
  -- disposition than those of listed signals that were the default is as before.
  pub install-Installs :
      (act : sys.Action) (signals : List ℕ) (logs : List L) (s : Handlers sys L)
      → Installs act signals s.kernel (install_crash_handler sys L act signals logs s)
  unfolding install_crash_handler
  install-Installs act signals logs s =
      undo-Installs act signals s.kernel _
        (install_loop-Installs act (unique_signals signals) (record s { logs = logs }))
