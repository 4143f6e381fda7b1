-- ===== src/Ntoa/Float/Exponent.antt =====
-- The characters that `ftoa_base10_e_normal` of reckless/src/ntoa.cpp writes, from left to right.
pub mod Plan
pub mod Field
pub mod Refine
use native.Mathlib.Nat.{pow-suc, one-le-pow, div-lt_iff_lt-mul}
use reckless.Prelude.{
  ℕ, zero, suc, ◌+◌, ◌-◌, ◌*◌, ◌/◌, ◌%◌, ◌≤◌, ◌<◌, ◌^◌, ◌≡◌, refl, List, [], ◌∷◌, ◌++◌,
  append_assoc, append-nil, arith, Bool, true, false, not, ◌||◌, ◌&&◌, ◌==◌, if◌then◌else◌, length,
  replicate, ap, ◌∙◌, sym, inl, inr, Bool-cases, set, drop, sub32,
}
use reckless.Prelude.Int.{ℤ, pos, negsuc, nat_abs}
use reckless.Ntoa.Cursor.{
  Cursor, put, fill, memset, start, Holds, put-Holds, fill-Holds, start-Holds, set-fill, fill-none,
}
use reckless.Ntoa.Digits.Base10.{decimal, decimal-append, length-decimal}
use reckless.Ntoa.Itoa.{ConversionSpecification, one_if_set}
use reckless.Ntoa.Itoa.Text.{sign_text, Holds-room, full, left_start, length-sign_text}
use reckless.Ntoa.Float.{FloatLayout, put_digits, write_e, exponent_parts, exponent_digits}
use reckless.Ntoa.Float.Fixed.{put_digits-Holds}

-- The sign of the exponent, and at least two digits.
abbrev pub exponent_text : ℤ → List ℕ → List ℕ
exponent_text e rest =
    b'e'
    ∷ ((exponent_parts e).0
        ∷ decimal (exponent_digits (exponent_parts e).1) (exponent_parts e).1 rest)

-- One character in front of the dot, for all that the digits behind it leave of `n`.
abbrev pub scientific_text : Bool → ℕ → ℕ → ℤ → List ℕ → List ℕ
scientific_text dot n precision e rest =
    (b'0' + n / 10 ^ precision)
    ∷ ((if dot then b'.' ∷ [] else []) ++ decimal precision n (exponent_text e rest))

abbrev pub scientific_size : Bool → ℕ → ℤ → ℕ
scientific_size dot precision e =
    suc ((if dot then 1 else 0) + (precision + suc (suc (exponent_digits (exponent_parts e).1))))

dot-Holds :
    (size room : ℕ) (dot : Bool) (text : List ℕ) (cur : Cursor)
    → Holds size (room + (if dot then 1 else 0)) text cur
    → Holds size room ((if dot then b'.' ∷ [] else []) ++ text) (if dot then put b'.' cur else cur)
dot-Holds size room dot text cur h = elim (Bool-cases dot) [
  | inl e ↦
      let h' = rw e at h in rw e (put-Holds size room b'.' text cur (Holds-room (omega arith) h'))
  | inr e ↦ let h' = rw e at h in rw e (Holds-room (omega arith) h')
]

-- `str[0] = sign;`
abbrev first_sign : ℕ → Cursor → Cursor
first_sign sign cur = if sign == 0 then cur else record cur { str = set cur.str 0 sign }

set_first : (xs : List ℕ) (c : ℕ) → 0 < length xs → set xs 0 c ≡ c ∷ drop 1 xs
set_first [] c h = absurd (omega arith)
set_first (x ∷ xs) c h = refl

-- The sign stands in the first place, and the spaces behind it.
sign_fill :
    (size padding sign : ℕ) (text : List ℕ) (cur : Cursor)
    → Holds size (one_if_set sign + padding) text cur
    → (fill b' ' padding (first_sign sign cur)).str
      ≡ sign_text sign ++ (replicate padding b' ' ++ text)
sign_fill size padding sign text cur h = elim (Bool-cases (sign == 0)) [
  | inl e ↦ let h' = rw e at h in rw e (full (fill-Holds size 0 b' ' padding text cur h'))
  | inr e ↦
      let h' = rw e at h in
      let filled = fill-Holds size 1 b' ' padding text cur h' in
      let p : 0 < sub32 cur.pos padding = omega (arith, h'.place, h'.small, h'.inside) in
      rw e (
        set-fill b' ' padding sign cur p
        ∙ set_first _ sign (omega (arith, filled.whole, filled.inside))
        ∙ ap (λ t. sign ∷ t) filled.tail)
]

-- A carry makes the first digit ten.
first_digit : (p q : ℕ) → q ≤ 10 ^ suc p → q / 10 ^ p < 11
first_digit p q h =
    let positive = one-le-pow p 10 (omega arith) in
    (div-lt_iff_lt-mul positive).1 (omega (arith, pow-suc 10 p, positive))

scientific-Holds :
    (l : FloatLayout) (e : ℤ) (room : ℕ) (rest : List ℕ) (cur : Cursor)
    → l.mantissa ≤ 10 ^ suc l.places.digits_after_dot
    → Holds l.size (room + scientific_size l.dot l.places.digits_after_dot e) rest cur
    → let (c1, unused) =
        put_digits cur (exponent_parts e).1 (exponent_digits (exponent_parts e).1) in
      let c2 = put b'e' (put (exponent_parts e).0 c1) in
      let (c3, mantissa) = put_digits c2 l.mantissa l.places.digits_after_dot in
      let c4 = if l.dot then put b'.' c3 else c3 in
      Holds l.size room
        (scientific_text l.dot l.mantissa l.places.digits_after_dot e rest)
        (put ((b'0' + mantissa) % 256) c4)
scientific-Holds l e room rest cur most h =
    let p : ℕ = l.places.digits_after_dot in
    let k : ℕ = exponent_digits (exponent_parts e).1 in
    let d : ℕ = if l.dot then 1 else 0 in
    let (exponent, unused) =
      put_digits-Holds l.size (suc room + d + p + 2) (exponent_parts e).1 k rest cur
        (Holds-room (omega arith) h) in
    let letter = put-Holds l.size (suc room + d + p) b'e' _ _ (
      put-Holds l.size (suc (suc room + d + p)) (exponent_parts e).0 _ _
        (Holds-room (omega arith) exponent)) in
    let (digits, left) = put_digits-Holds l.size (suc room + d) l.mantissa p _ _ letter in
    let dotted = dot-Holds l.size (suc room) l.dot _ _ digits in
    let c : (b'0' + l.mantissa / 10 ^ p) % 256 ≡ b'0' + l.mantissa / 10 ^ p =
      omega (arith, first_digit p l.mantissa most) in
    rw (left, c) (put-Holds l.size room _ _ _ dotted)

-- The parts make up the size, which is an `unsigned`.
pub record IsExact (l : FloatLayout) (e : ℤ) (cs : ConversionSpecification) : Type 0 where
  pub small : l.size < 2 ^ 32
  pub sum :
      l.size
      ≡ l.padding
        + (l.pad_zeroes + (one_if_set l.sign + scientific_size l.dot l.places.digits_after_dot e))
  pub most : l.mantissa ≤ 10 ^ suc l.places.digits_after_dot
  pub stay : cs.left_justify ≡ true → l.pad_zeroes ≡ 0

-- Behind the sign stand zeroes or spaces, and the number.
abbrev pub sign_first : FloatLayout → ConversionSpecification → List ℕ → List ℕ
sign_first l cs number =
    if cs.left_justify
    then sign_text l.sign ++ (number ++ replicate l.padding b' ')
    else sign_text l.sign ++ (replicate l.padding b' ' ++ (replicate l.pad_zeroes b'0' ++ number))

scientific-append :
    (dot : Bool) (n precision : ℕ) (e : ℤ) (rest : List ℕ)
    → scientific_text dot n precision e rest ≡ scientific_text dot n precision e [] ++ rest
scientific-append dot n precision e rest =
    ap (λ t. (b'0' + n / 10 ^ precision) ∷ t) (simp (append_assoc, decimal-append) refl)

-- Whatever is in the reserved memory, all of it becomes the field.
pub write_e_lem :
    (l : FloatLayout) (e : ℤ) (cs : ConversionSpecification) (str : List ℕ)
    → IsExact l e cs
    → length str ≡ l.size
    → write_e l e cs str
      ≡ sign_first l cs (scientific_text l.dot l.mantissa l.places.digits_after_dot e [])
unfolding write_e
write_e_lem l e cs str x len = elim (Bool-cases cs.left_justify) [
  | inl left ↦
      let z = x.stay left in
      let size : ℕ = one_if_set l.sign + scientific_size l.dot l.places.digits_after_dot e in
      let number =
        scientific-Holds l e (one_if_set l.sign + 0 + 0) (replicate l.padding b' ') _ x.most (
          Holds-room (omega arith)
            (left_start l.size l.padding size str x.small (omega (arith, x.sum, z)) len)) in
      let text = scientific_text l.dot l.mantissa l.places.digits_after_dot e in
      let zeroed =
        fill-Holds l.size (one_if_set l.sign + 0) b'0' l.pad_zeroes _ _
          (Holds-room (omega (arith, z)) number) in
      rw left (
        sym (fill-none b' ' _)
        ∙ sign_fill l.size 0 l.sign _ _ zeroed
        ∙ ap (λ t. sign_text l.sign ++ t)
            (rw z (scientific-append l.dot l.mantissa l.places.digits_after_dot e _)))
  | inr right ↦
      let number =
        scientific-Holds l e (one_if_set l.sign + l.padding + l.pad_zeroes) [] _ x.most
          (Holds-room (omega (arith, x.sum)) (start-Holds str l.size x.small len)) in
      rw right (
        sign_fill l.size l.padding l.sign _ _
          (fill-Holds l.size (one_if_set l.sign + l.padding) b'0' l.pad_zeroes _ _ number))
]
