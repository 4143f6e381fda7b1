-- ===== src/Ntoa/Cursor.antt =====
-- reckless/src/ntoa.cpp writes a number from its last character to its first, into memory that
-- was reserved for it: `str` is that memory and `pos` the place of the last character written.
pub mod Forward
use reckless.Prelude.{
  ℕ, zero, suc, ◌+◌, ◌≤◌, ◌<◌, ◌^◌, ◌≡◌, refl, List, [], ◌∷◌, ◌++◌, arith, sub32, length, set, drop,
  replicate, length-set, ap, ◌∙◌,
}

pub record Cursor : Type 0 where
  pub str : List ℕ
  pub pos : ℕ

-- `str[--pos] = c;`
pub put : ℕ → Cursor → Cursor
put c cur = let p = sub32 cur.pos 1 in record { str = set cur.str p c; pos = p }

-- `std::memset(str + pos, c, n)`.
pub memset : List ℕ → ℕ → ℕ → ℕ → List ℕ
memset str pos c zero = str
memset str pos c (suc n) = memset (set str pos c) (pos + 1) c n

-- `pos -= n; std::memset(str + pos, c, n);`
pub fill : ℕ → ℕ → Cursor → Cursor
fill c n cur = let p = sub32 cur.pos n in record { str = memset cur.str p c n; pos = p }

-- `room` characters are still to be written before `text`, in a region of `size` characters.
pub record Holds (size room : ℕ) (text : List ℕ) (cur : Cursor) : Type 0 where
  pub small : size < 2 ^ 32
  pub inside : room ≤ size
  pub whole : length cur.str ≡ size
  pub place : cur.pos ≡ room
  pub tail : drop room cur.str ≡ text

drop-set_self : (xs : List ℕ) (p c : ℕ) → p < length xs → drop p (set xs p c) ≡ c ∷ drop (suc p) xs
drop-set_self [] p c h = absurd (omega arith)
drop-set_self (x ∷ xs) zero c h = refl
drop-set_self (x ∷ xs) (suc p) c h = drop-set_self xs p c (omega arith)

length-memset : (xs : List ℕ) (p c n : ℕ) → length (memset xs p c n) ≡ length xs
unfolding memset
length-memset xs p c zero = refl
length-memset xs p c (suc n) =
    omega (arith, length-memset (set xs p c) (p + 1) c n, length-set xs p c)

set-set : (xs : List ℕ) (p q c d : ℕ) → q < p → set (set xs q d) p c ≡ set (set xs p c) q d
set-set [] p q c d h = refl
set-set (x ∷ xs) zero q c d h = absurd (omega arith)
set-set (x ∷ xs) (suc p) zero c d h = refl
set-set (x ∷ xs) (suc p) (suc q) c d h = ap (λ r. x ∷ r) (set-set xs p q c d (omega arith))

-- The cells before the place are left alone.
set-memset :
    (xs : List ℕ) (p q c d n : ℕ) → q < p → memset (set xs q d) p c n ≡ set (memset xs p c n) q d
unfolding memset
set-memset xs p q c d zero h = refl
set-memset xs p q c d (suc n) h =
    rw (set-set xs p q c d h) (set-memset (set xs p c) (p + 1) q c d n (omega arith))

drop-memset :
    (xs : List ℕ) (p c n : ℕ)
    → p + n ≤ length xs
    → drop p (memset xs p c n) ≡ replicate n c ++ drop (p + n) xs
unfolding memset
drop-memset xs p c zero h = ap (λ k. drop k xs) (omega arith)
drop-memset xs p c (suc n) h =
    let e : suc p ≡ p + 1 = omega arith in
    let e' : p + 1 + n ≡ p + suc n = omega arith in
    rw (
      set-memset xs (p + 1) p c c n (omega arith),
      drop-set_self (memset xs (p + 1) c n) p c (omega (arith, length-memset xs (p + 1) c n)),
      e,
      drop-memset xs (p + 1) c n (omega arith),
      e',
    )

pub put-Holds :
    (size room c : ℕ) (text : List ℕ) (cur : Cursor)
    → Holds size (suc room) text cur
    → Holds size room (c ∷ text) (put c cur)
unfolding put
put-Holds size room c text cur h =
    let e : sub32 cur.pos 1 ≡ room = omega (arith, h.small, h.inside, h.place) in
    rw e (record {
      small = h.small;
      inside = omega (arith, h.inside);
      whole = omega (arith, h.whole, length-set cur.str room c);
      place = refl;
      tail =
          drop-set_self cur.str room c (omega (arith, h.inside, h.whole)) ∙ ap (λ t. c ∷ t) h.tail;
    })

pub fill-Holds :
    (size room c n : ℕ) (text : List ℕ) (cur : Cursor)
    → Holds size (room + n) text cur
    → Holds size room (replicate n c ++ text) (fill c n cur)
unfolding fill
fill-Holds size room c n text cur h =
    let e : sub32 cur.pos n ≡ room = omega (arith, h.small, h.inside, h.place) in
    rw e (record {
      small = h.small;
      inside = omega (arith, h.inside);
      whole = omega (arith, h.whole, length-memset cur.str room c n);
      place = refl;
      tail =
          drop-memset cur.str room c n (omega (arith, h.inside, h.whole))
          ∙ ap (λ t. replicate n c ++ t) h.tail;
    })

-- The reserved memory, before anything is written.
abbrev pub start : List ℕ → ℕ → Cursor
start str size = record { str = str; pos = size }

drop-length : (xs : List ℕ) → drop (length xs) xs ≡ []
drop-length [] = refl
drop-length (x ∷ xs) = drop-length xs

pub start-Holds :
    (str : List ℕ) (size : ℕ)
    → size < 2 ^ 32
    → length str ≡ size
    → Holds size size [] (start str size)
start-Holds str size small e = record {
  small = small;
  inside = omega arith;
  whole = e;
  place = refl;
  tail = rw (← e) (drop-length str);
}

-- `memcpy(str + pos, bytes, …)`.
pub memcpy : List ℕ → ℕ → List ℕ → List ℕ
memcpy str pos [] = str
memcpy str pos (c ∷ bytes) = memcpy (set str pos c) (pos + 1) bytes

-- A character in front of what is filled stays.
pub set-fill :
    (c n d : ℕ) (cur : Cursor)
    → 0 < sub32 cur.pos n
    → (fill c n (record cur { str = set cur.str 0 d })).str ≡ set (fill c n cur).str 0 d
unfolding fill
set-fill c n d cur h = set-memset cur.str (sub32 cur.pos n) 0 c d n h

pub fill-none : (c : ℕ) (cur : Cursor) → (fill c 0 cur).str ≡ cur.str
unfolding fill memset
fill-none c cur = refl
