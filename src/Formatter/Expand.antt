-- ===== src/Formatter/Expand.antt =====
-- What format strings of reckless/src/template_formatter.cpp expand to.
use reckless.Prelude.{
  ℕ, zero, suc, ◌≤◌, ◌<◌, ◌≡◌, refl, List, [], ◌∷◌, ◌++◌, append-nil, Option, none, some, arith,
  sym, length, ◌==◌, ◌&&◌, if◌then◌else◌, Bool-cases, inl, inr,
}
use reckless.Output.{Buffer, Outcome, return, ◌>>◌}
use reckless.Output.Appends.{
  Appends, Yields, emit-Appends, bind-Appends, bind-Yields, return-Yields, use-Yields,
}
use reckless.Ntoa.Itoa.{ConversionSpecification}
use reckless.Formatter.{
  strchrnul, append, append_percent, at_specifier, specifier_loop, next_specifier, format_rest,
  format,
}

-- The text up to the next specifier, with `%` for `%%`, and the specifier behind its `%`.
unfoldable pub expand : List ℕ → List ℕ × Option (List ℕ)
expand [] = ([], none)
expand (c ∷ []) = if c == b'%' then ([], some []) else (c ∷ [], none)
expand (c ∷ d ∷ s) =
    let (text, next) = expand s in
    let (text', next') = expand (d ∷ s) in
    if c == b'%'
    then (if d == b'%' then (b'%' ∷ text, next) else ([], some (d ∷ s)))
    else (c ∷ text', next')

-- What `next_specifier` does from the place that `strchrnul` found.
behind : List ℕ → List ℕ × Option (List ℕ)
unfolding expand
behind [] = ([], none)
behind (p ∷ []) = ([], some [])
behind (p ∷ c ∷ s) = if c == b'%' then (b'%' ∷ (expand s).0, (expand s).1) else ([], some (c ∷ s))

expand-strchrnul :
    (s : List ℕ)
    → let (before, rest) = strchrnul s in expand s ≡ (before ++ (behind rest).0, (behind rest).1)
unfolding expand behind strchrnul
expand-strchrnul [] = refl
expand-strchrnul (c ∷ []) = ground arith
expand-strchrnul (c ∷ d ∷ s) = ground (arith, expand-strchrnul (d ∷ s))

length-strchrnul : (s : List ℕ) → length (strchrnul s).1 ≤ length s
unfolding strchrnul
length-strchrnul [] = omega arith
length-strchrnul (c ∷ s) = ground (arith, length-strchrnul s)

-- A format string without arguments: `%%` is one `%`, and all else stands for itself.
unfoldable pub unescape : List ℕ → List ℕ
unescape [] = []
unescape (c ∷ []) = c ∷ []
unescape (c ∷ d ∷ s) =
    let short = unescape s in
    let long = unescape (d ∷ s) in if c == b'%' && d == b'%' then b'%' ∷ short else c ∷ long

-- What `format` writes for a specifier that has no argument.
unused : Option (List ℕ) → List ℕ
unused none = []
unused (some q) = b'%' ∷ unescape q

unescape-expand : (p : List ℕ) → unescape p ≡ (expand p).0 ++ unused (expand p).1
unfolding unescape expand unused
unescape-expand [] = refl
unescape-expand (c ∷ []) = ground arith
unescape-expand (c ∷ d ∷ s) = ground (arith, unescape-expand s, unescape-expand (d ∷ s))

-- A specifier stands in what is left of the string.
Shorter : List ℕ → Option (List ℕ) → Type 0
Shorter p none = Unit
Shorter p (some q) = length q < length p

expand-Shorter : (p : List ℕ) → Shorter p (expand p).1
unfolding expand Shorter
expand-Shorter [] = tt
expand-Shorter (c ∷ []) = elim (Bool-cases (c == b'%')) [
  | inl e ↦ rw e (omega arith)
  | inr e ↦ rw e tt
]
expand-Shorter (c ∷ d ∷ s) = elim (Bool-cases (c == b'%')) [
  | inl e ↦ rw e (elim (Bool-cases (d == b'%')) [
    | inl e' ↦ rw e' (Shorter-trans s (c ∷ d ∷ s) (expand s).1 (omega arith) (expand-Shorter s))
    | inr e' ↦ rw e' (omega arith)
  ])
  | inr e ↦
      rw e (
        Shorter-trans (d ∷ s) (c ∷ d ∷ s) (expand (d ∷ s)).1 (omega arith) (expand-Shorter (d ∷ s)))
]
  where
    Shorter-trans :
        (p p' : List ℕ) (o : Option (List ℕ)) → length p ≤ length p' → Shorter p o → Shorter p' o
    Shorter-trans p p' none h l = tt
    Shorter-trans p p' (some q) h l = omega arith

module _ (b : Buffer) where
  pub append-Appends : (bytes : List ℕ) (s : b.State) → Appends b bytes s (append b bytes s)
  unfolding append
  append-Appends bytes s = emit-Appends b (length bytes) (λ mem. bytes) bytes s (λ mem e. refl) refl

  pub append_percent-Appends : (s : b.State) → Appends b (b'%' ∷ []) s (append_percent b s)
  unfolding append_percent
  append_percent-Appends s = append-Appends (b'%' ∷ []) s

  at_specifier-Yields :
      (again : List ℕ → b.State → Outcome b.Error b.State (Option (List ℕ))) (p : List ℕ)
      (s : b.State)
      → ((q : List ℕ) (s' : b.State)
          → length q < length p
          → Yields b (expand q).0 (expand q).1 s' (again q s'))
      → Yields b (behind p).0 (behind p).1 s (at_specifier b again p s)
  unfolding at_specifier behind
  at_specifier-Yields again [] s h = return-Yields b none s
  at_specifier-Yields again (c ∷ []) s h = return-Yields b (some []) s
  at_specifier-Yields again (c ∷ d ∷ q) s h = elim (Bool-cases (d == b'%')) [
    | inl e ↦
        rw (at_specifier, e)
          (bind-Yields b (b'%' ∷ []) (expand q).0 (expand q).1 s (append_percent b) (λ a. again q)
            (append_percent-Appends s) (λ a s'. h q s' (omega arith)))
    | inr e ↦ rw (at_specifier, e) (return-Yields b (some (d ∷ q)) s)
  ]

  specifier_loop-Yields :
      (fuel : ℕ) (p : List ℕ) (s : b.State)
      → length p < fuel
      → Yields b (expand p).0 (expand p).1 s (specifier_loop b fuel p s)
  unfolding specifier_loop
  specifier_loop-Yields zero p s h = absurd (omega arith)
  specifier_loop-Yields (suc fuel) p s h =
      let (before, rest) = strchrnul p in
      rw (expand-strchrnul p) (
        bind-Yields b before (behind rest).0 (behind rest).1 s (append b before)
          (λ a. at_specifier b (specifier_loop b fuel) rest) (append-Appends before s)
          (λ a s'.
            at_specifier-Yields (specifier_loop b fuel) rest s'
              (λ q t l. specifier_loop-Yields fuel q t (omega (arith, length-strchrnul p, l, h)))))

  -- `next_specifier` appends the text before the next specifier, with `%` for each `%%` in it, and
  -- returns what stands behind the specifier's `%`, or nullptr if there is no specifier; or, if the
  -- buffer fails, has appended a first part of that text.
  pub next_specifier-Yields :
      (p : List ℕ) (s : b.State) → Yields b (expand p).0 (expand p).1 s (next_specifier b p s)
  unfolding next_specifier
  next_specifier-Yields p s = specifier_loop-Yields (suc (length p)) p s (omega arith)

module _ (b : Buffer) {D : Type 0}
    (ftoa : D → ConversionSpecification → b.State → Outcome b.Error b.State (Unit {0})) where
  unused-Appends :
      (again : List ℕ → b.State → Outcome b.Error b.State (Unit {0})) (p : List ℕ)
      (o : Option (List ℕ)) (s : b.State)
      → Shorter p o
      → ((q : List ℕ) (t : b.State) → length q < length p → Appends b (unescape q) t (again q t))
      → Appends b (unused o) s (
          elim o as (λ o. b.State → Outcome b.Error b.State (Unit {0})) [
            | none ↦ return tt
            | some q ↦ append_percent b >> again q
          ]
            s)
  unfolding unused Shorter
  unused-Appends again p none s l h = sym (append-nil (b.text s))
  unused-Appends again p (some q) s l h =
      bind-Appends b (b'%' ∷ []) (unescape q) s (append_percent b) (λ a. again q)
        (append_percent-Appends b s) (λ a t. h q t l)

  format_rest-Appends :
      (fuel : ℕ) (p : List ℕ) (s : b.State)
      → length p < fuel
      → Appends b (unescape p) s (format_rest b ftoa fuel p s)
  unfolding format_rest
  format_rest-Appends zero p s h = absurd (omega arith)
  format_rest-Appends (suc fuel) p s h = rw (unescape-expand p) (
      use-Yields b (expand p).0 (unused (expand p).1) (expand p).1 s (next_specifier b p) _
        (next_specifier-Yields b p s)
        (λ t.
          unused-Appends (format_rest b ftoa fuel) p (expand p).1 t (expand-Shorter p)
            (λ q t' l. format_rest-Appends fuel q t' (omega arith))))

  -- Without arguments `format` appends the format string with one `%` for each `%%`, where a `%`
  -- before another character, or at the end, stands for itself; or, if the buffer fails, a first
  -- part of that.
  pub format-unescape : (p : List ℕ) (s : b.State) → Appends b (unescape p) s (format b ftoa p [] s)
  unfolding format
  format-unescape p s = format_rest-Appends (suc (length p)) p s (omega arith)
