-- ===== src/Ntoa/Cursor/Forward.antt =====
-- reckless/src/ntoa.cpp: text that is written from the first character to the last.
use reckless.Prelude.{
  ℕ, zero, suc, ◌+◌, ◌≤◌, ◌<◌, ◌≡◌, refl, ap, ◌∙◌, List, [], ◌∷◌, ◌++◌, append-nil, append_assoc,
  arith, length, take, replicate, set, length-set, length-append, length-replicate, sym,
}
use reckless.Ntoa.Cursor.{memset, memcpy}

memset-memcpy : (str : List ℕ) (p c n : ℕ) → memset str p c n ≡ memcpy str p (replicate n c)
unfolding memset memcpy
memset-memcpy str p c zero = refl
memset-memcpy str p c (suc n) = memset-memcpy (set str p c) (p + 1) c n

length-memcpy : (str : List ℕ) (p : ℕ) (bytes : List ℕ) → length (memcpy str p bytes) ≡ length str
unfolding memcpy
length-memcpy str p [] = refl
length-memcpy str p (c ∷ bytes) = length-memcpy (set str p c) (p + 1) bytes ∙ length-set str p c

take-set :
    (str : List ℕ) (p c : ℕ) → p < length str → take (suc p) (set str p c) ≡ take p str ++ c ∷ []
take-set [] p c h = absurd (omega arith)
take-set (x ∷ str) zero c h = refl
take-set (x ∷ str) (suc p) c h = ap (λ t. x ∷ t) (take-set str p c (omega arith))

-- The memory has `size` characters, and the text stands at its beginning.
pub record Starts (size : ℕ) (text str : List ℕ) : Type 0 where
  pub whole : length str ≡ size
  pub head : take (length text) str ≡ text

pub Starts-nil : (size : ℕ) (str : List ℕ) → length str ≡ size → Starts size [] str
Starts-nil size str h = record { whole = h; head = refl }

set_here :
    (size c : ℕ) (text str : List ℕ)
    → length text < size
    → Starts size text str
    → Starts size (text ++ c ∷ []) (set str (length text) c)
set_here size c text str h s = record {
  whole = length-set str (length text) c ∙ s.whole;
  head =
      let e : length (text ++ c ∷ []) ≡ suc (length text) =
        omega (arith, length-append text (c ∷ [])) in
      rw e (take-set str (length text) c (omega (arith, s.whole)) ∙ ap (λ t. t ++ c ∷ []) s.head);
}

memcpy_here :
    (size : ℕ) (bytes text str : List ℕ)
    → length text + length bytes ≤ size
    → Starts size text str
    → Starts size (text ++ bytes) (memcpy str (length text) bytes)
unfolding memcpy
memcpy_here size [] text str h s = rw (append-nil text) s
memcpy_here size (c ∷ bytes) text str h s =
    let e : length (text ++ c ∷ []) ≡ length text + 1 = length-append text (c ∷ []) in
    let rest =
      memcpy_here size bytes (text ++ c ∷ []) (set str (length text) c) (omega arith)
        (set_here size c text str (omega arith) s) in
    rw (e, append_assoc text (c ∷ []) bytes) at rest

memset_here :
    (size c n : ℕ) (text str : List ℕ)
    → length text + n ≤ size
    → Starts size text str
    → Starts size (text ++ replicate n c) (memset str (length text) c n)
memset_here size c n text str h s =
    rw (memset-memcpy str (length text) c n)
      (memcpy_here size (replicate n c) text str (omega (arith, length-replicate n c)) s)

-- The same, at a place that is known to be behind the text.
pub set-Starts :
    (size place c : ℕ) (text str : List ℕ)
    → length text ≡ place
    → place < size
    → Starts size text str
    → Starts size (text ++ c ∷ []) (set str place c)
set-Starts size place c text str e h s = rw (← e) (set_here size c text str (omega arith) s)

pub memcpy-Starts :
    (size place : ℕ) (bytes text str : List ℕ)
    → length text ≡ place
    → place + length bytes ≤ size
    → Starts size text str
    → Starts size (text ++ bytes) (memcpy str place bytes)
memcpy-Starts size place bytes text str e h s =
    rw (← e) (memcpy_here size bytes text str (omega arith) s)

pub memset-Starts :
    (size place c n : ℕ) (text str : List ℕ)
    → length text ≡ place
    → place + n ≤ size
    → Starts size text str
    → Starts size (text ++ replicate n c) (memset str place c n)
memset-Starts size place c n text str e h s =
    rw (← e) (memset_here size c n text str (omega arith) s)

take-length : (xs : List ℕ) → take (length xs) xs ≡ xs
take-length [] = refl
take-length (x ∷ xs) = ap (λ t. x ∷ t) (take-length xs)

-- A text that fills the memory is all that is in it.
pub Starts-full :
    (size : ℕ) (text str : List ℕ) → length text ≡ size → Starts size text str → str ≡ text
Starts-full size text str h s =
    let e : length text ≡ length str = omega (arith, s.whole) in
    let whole = s.head in sym (take-length str) ∙ (rw e at whole)
