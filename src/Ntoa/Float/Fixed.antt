-- ===== src/Ntoa/Float/Fixed.antt =====
-- The characters that `ftoa_base10_f_normal` of reckless/src/ntoa.cpp writes, from left to right.
pub mod Shares
pub mod Carry
pub mod Plan
pub mod Refine
pub mod Printed
use reckless.Prelude.{
  ℕ, zero, suc, ◌+◌, ◌*◌, ◌/◌, ◌≤◌, ◌<◌, ◌^◌, ◌≡◌, refl, List, [], ◌∷◌, ◌++◌, append_assoc,
  append-nil, arith, Bool, true, false, if◌then◌else◌, length, replicate, ap, ◌∙◌, sym, inl, inr,
  Bool-cases, length-append, length-replicate,
}
use reckless.Ntoa.Cursor.{Cursor, put, fill, start, Holds, put-Holds, fill-Holds, start-Holds}
use reckless.Ntoa.Digits.Base10.{decimal, utoa_digits-Holds, decimal-append, length-decimal}
use reckless.Ntoa.Digits.{utoa_base10}
use reckless.Ntoa.Itoa.{put_sign, ConversionSpecification, one_if_set}
use reckless.Ntoa.Itoa.Text.{
  sign_text, Holds-room, full, number_base10, left_start, length-sign_text,
}
use reckless.Ntoa.Itoa.Laws.{CountsDecimal}
use reckless.Ntoa.Float.{FloatLayout, put_digits, write_fraction, write_f}
use reckless.Ntoa.Float.Special.{padded, length-padded}

-- What stands behind the dot, and the dot.
abbrev pub fraction_text : FloatLayout → List ℕ → List ℕ
fraction_text l rest =
    if l.dot
    then b'.'
      ∷ (replicate l.places.zeroes_after_dot b'0'
          ++ decimal l.places.digits_after_dot l.mantissa (replicate l.suffix_zeroes b'0' ++ rest))
    else rest

abbrev pub fraction_size : FloatLayout → ℕ
fraction_size l =
    if l.dot
    then suc (l.places.zeroes_after_dot + (l.places.digits_after_dot + l.suffix_zeroes))
    else 0

-- The digits in front of the dot.
abbrev pub whole_part : FloatLayout → ℕ
whole_part l = l.mantissa / 10 ^ l.places.digits_after_dot

abbrev pub layout_text : FloatLayout → List ℕ → List ℕ
layout_text l rest =
    sign_text l.sign
    ++ (replicate l.pad_zeroes b'0'
        ++ decimal l.places.digits_before_dot (whole_part l)
            (replicate l.places.zeroes_before_dot b'0' ++ fraction_text l rest))

-- The parts make up the size, which is an `unsigned`, and the digits are all written.
pub record IsExact (l : FloatLayout) : Type 0 where
  pub small : l.size < 2 ^ 32
  pub sum :
      l.size
      ≡ l.padding
        + (one_if_set l.sign
            + (l.pad_zeroes
                + (l.places.digits_before_dot + (l.places.zeroes_before_dot + fraction_size l))))
  pub whole : CountsDecimal l.places.digits_before_dot (whole_part l)
  pub all_whole : l.dot ≡ false → l.places.digits_after_dot ≡ 0

pub put_digits-Holds :
    (size room value digits : ℕ) (rest : List ℕ) (cur : Cursor)
    → Holds size (room + digits) rest cur
    → Holds size room (decimal digits value rest) (put_digits cur value digits).0
      × ((put_digits cur value digits).1 ≡ value / 10 ^ digits)
unfolding put_digits
put_digits-Holds size room value digits rest cur h =
    utoa_digits-Holds size room value digits rest cur h

write_fraction-Holds :
    (l : FloatLayout) (size room : ℕ) (rest : List ℕ) (cur : Cursor)
    → (l.dot ≡ false → l.places.digits_after_dot ≡ 0)
    → Holds size (room + fraction_size l) rest cur
    → Holds size room (fraction_text l rest) (write_fraction l cur).0
      × ((write_fraction l cur).1 ≡ whole_part l)
unfolding write_fraction
write_fraction-Holds l size room rest cur none h = elim (Bool-cases l.dot) [
  | inr e ↦
      let h' = simp e at h in
      let e' : l.mantissa ≡ l.mantissa / 10 ^ 0 = omega arith in
      simp e (Holds-room (omega arith) h', e' ∙ ap (λ k. l.mantissa / 10 ^ k) (sym (none e)))
  | inl e ↦
      let za : ℕ = l.places.zeroes_after_dot in
      let da : ℕ = l.places.digits_after_dot in
      let h' = simp e at h in
      let zeroes =
        fill-Holds size (room + suc (za + da)) b'0' l.suffix_zeroes rest cur
          (Holds-room (omega arith) h') in
      let (digits, left) =
        put_digits-Holds size (suc room + za) l.mantissa da _ _ (Holds-room (omega arith) zeroes) in
      simp e (put-Holds size room b'.' _ _ (fill-Holds size (suc room) b'0' za _ _ digits), left)
]

-- The writes between the two paddings.
layout-Holds :
    (l : FloatLayout) (room : ℕ) (rest : List ℕ) (cur : Cursor)
    → IsExact l
    → Holds l.size
        (room
          + (one_if_set l.sign
              + (l.pad_zeroes
                  + (l.places.digits_before_dot + (l.places.zeroes_before_dot + fraction_size l)))))
        rest
        cur
    → let (c, mantissa) = write_fraction l cur in
      Holds l.size room (layout_text l rest) (
        put_sign l.sign
          (fill b'0' l.pad_zeroes (utoa_base10 (fill b'0' l.places.zeroes_before_dot c) mantissa)))
layout-Holds l room rest cur x h =
    let db : ℕ = l.places.digits_before_dot in
    let zb : ℕ = l.places.zeroes_before_dot in
    let n : ℕ = one_if_set l.sign + (l.pad_zeroes + db) in
    let (fraction, left) =
      write_fraction-Holds l l.size (room + n + zb) rest cur x.all_whole
        (Holds-room (omega arith) h) in
    rw left (
      number_base10 l.size room l.sign l.pad_zeroes db (whole_part l) _ _ x.whole
        (fill-Holds l.size (room + n) b'0' zb _ _ fraction))

layout_text-append :
    (l : FloatLayout) (rest : List ℕ) → layout_text l rest ≡ layout_text l [] ++ rest
layout_text-append l rest = elim (Bool-cases l.dot) [
  | inl e ↦ simp e (simp (append_assoc, decimal-append, append-nil) refl)
  | inr e ↦ simp e (simp (append_assoc, decimal-append, append-nil) refl)
]

-- Whatever is in the reserved memory, all of it becomes the field.
pub write_f_lem :
    (l : FloatLayout) (cs : ConversionSpecification) (str : List ℕ)
    → IsExact l
    → length str ≡ l.size
    → write_f l cs str ≡ padded cs.left_justify l.padding (layout_text l [])
unfolding write_f
write_f_lem l cs str x e = elim (Bool-cases cs.left_justify) [
  | inl left ↦ rw left (
      full (
        layout-Holds l 0 (replicate l.padding b' ') _ x
          (Holds-room (omega arith) (left_start l.size l.padding _ str x.small x.sum e)))
      ∙ layout_text-append l (replicate l.padding b' '))
  | inr right ↦ rw right (
      full (
        fill-Holds l.size 0 b' ' l.padding _ _ (
          Holds-room (omega arith) (
            layout-Holds l l.padding [] _ x
              (Holds-room x.sum (start-Holds str l.size x.small e))))))
]
