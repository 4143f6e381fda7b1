-- ===== src/Ntoa/Itoa/Text.antt =====
-- The characters that the conversions of reckless/src/ntoa.cpp write, as a text from left to right.
use reckless.Prelude.{
  ℕ, suc, ◌+◌, ◌<◌, ◌^◌, ◌≡◌, refl, List, [], ◌∷◌, ◌++◌, append-nil, append_assoc, arith, Bool,
  ◌==◌, if◌then◌else◌, length, replicate, ap, ◌∙◌, ◌⊎◌, inl, inr, Bool-cases, length-append,
  length-replicate,
}
use reckless.Ntoa.Cursor.{Cursor, fill, start, Holds, put-Holds, fill-Holds, start-Holds}
use reckless.Ntoa.Digits.{utoa_base10, utoa_base16}
use reckless.Ntoa.Digits.Base10
use reckless.Ntoa.Digits.Base10.{
  decimal, utoa_base10-Holds, utoa_base10-zero, decimal-append, length-decimal,
}
use reckless.Ntoa.Digits.Base16
use reckless.Ntoa.Digits.Base16.{
  hexadecimal, utoa_base16-Holds, hexadecimal-append, length-hexadecimal,
}
use reckless.Ntoa.Itoa.{
  ConversionSpecification, Layout, one_if_set, put_sign, put_prefix, write_base10, write_base16,
}

abbrev pub sign_text : ℕ → List ℕ
sign_text sign = if sign == 0 then [] else sign ∷ []

abbrev pub prefix_text : ℕ → Bool → List ℕ
prefix_text prefix uppercase =
    if prefix == 0 then [] else b'0' ∷ (if uppercase then b'X' else b'x') ∷ []

-- Sign, prefix, zeroes and digits, with the padding on the side away from the justification.
abbrev pub field_text : Layout → ConversionSpecification → List ℕ → List ℕ
field_text l cs digits =
    let number =
      sign_text l.sign
      ++ (prefix_text l.prefix cs.uppercase ++ (replicate l.zeroes b'0' ++ digits)) in
    let spaces = replicate l.padding b' ' in
    if cs.left_justify then number ++ spaces else spaces ++ number

-- The parts make up the size, which is an `unsigned`.
pub record IsExact (l : Layout) : Type 0 where
  pub small : l.size < 2 ^ 32
  pub sum : l.size ≡ l.padding + (one_if_set l.sign + (l.prefix + (l.zeroes + l.digits)))
  pub prefix_size : (l.prefix ≡ 0) ⊎ (l.prefix ≡ 2)

pub Holds-room :
    {size room room' : ℕ} {text : List ℕ} {cur : Cursor}
    → room ≡ room'
    → Holds size room text cur
    → Holds size room' text cur
Holds-room e h = rw (← e) h

put_sign-Holds :
    (size room sign : ℕ) (text : List ℕ) (cur : Cursor)
    → Holds size (one_if_set sign + room) text cur
    → Holds size room (sign_text sign ++ text) (put_sign sign cur)
unfolding put_sign
put_sign-Holds size room sign text cur h = elim (Bool-cases (sign == 0)) [
  | inl e ↦ rw e (Holds-room (ground arith) h)
  | inr e ↦ rw e (put-Holds size room sign text cur (Holds-room (ground arith) h))
]

put_prefix-Holds :
    (size room prefix : ℕ) (u : Bool) (text : List ℕ) (cur : Cursor)
    → (prefix ≡ 0) ⊎ (prefix ≡ 2)
    → Holds size (prefix + room) text cur
    → Holds size room (prefix_text prefix u ++ text) (put_prefix prefix u cur)
unfolding put_prefix
put_prefix-Holds size room prefix u text cur (inl e) h =
    let h' = Holds-room {room' = room} (omega (arith, e)) h in rw e h'
put_prefix-Holds size room prefix u text cur (inr e) h =
    let h' = Holds-room {room' = suc (suc room)} (omega (arith, e)) h in
    rw e (put-Holds size room _ _ _ (put-Holds size (suc room) _ _ _ h'))

-- With nothing left to write, the memory is the text.
pub full : {size : ℕ} {text : List ℕ} {cur : Cursor} → Holds size 0 text cur → cur.str ≡ text
full h = h.tail

-- The writes between the two paddings, in base 10.
pub number_base10 :
    (size room sign zeroes digits value : ℕ) (text : List ℕ) (cur : Cursor)
    → (Base10.HasDigits digits value × (0 < value)) ⊎ ((digits ≡ 0) × (value ≡ 0))
    → Holds size (room + (one_if_set sign + (zeroes + digits))) text cur
    → Holds size room
        (sign_text sign ++ (replicate zeroes b'0' ++ decimal digits value text))
        (put_sign sign (fill b'0' zeroes (utoa_base10 cur value)))
unfolding decimal
number_base10 size room sign zeroes digits value text cur (inl (d, pos)) h =
    put_sign-Holds size room sign _ _ (
      fill-Holds size (one_if_set sign + room) b'0' zeroes _ _ (
        utoa_base10-Holds digits size (one_if_set sign + room + zeroes) value text cur d pos
          (Holds-room (omega arith) h)))
number_base10 size room sign zeroes digits value text cur (inr (d, v)) h =
    rw (d, v, utoa_base10-zero)
      (put_sign-Holds size room sign _ _ (
        fill-Holds size (one_if_set sign + room) b'0' zeroes _ _ (Holds-room (omega (arith, d)) h)))

number_base16 :
    (size room sign prefix zeroes digits value : ℕ) (u : Bool) (text : List ℕ) (cur : Cursor)
    → (prefix ≡ 0) ⊎ (prefix ≡ 2)
    → Base16.HasDigits digits value
    → Holds size (room + (one_if_set sign + (prefix + (zeroes + digits)))) text cur
    → Holds size room
        (sign_text sign
          ++ (prefix_text prefix u ++ (replicate zeroes b'0' ++ hexadecimal u digits value text)))
        (put_sign sign (put_prefix prefix u (fill b'0' zeroes (utoa_base16 u cur value))))
number_base16 size room sign prefix zeroes digits value u text cur p d h =
    put_sign-Holds size room sign _ _ (
      put_prefix-Holds size (one_if_set sign + room) prefix u _ _ p (
        fill-Holds size (prefix + (one_if_set sign + room)) b'0' zeroes _ _ (
          utoa_base16-Holds digits size (prefix + (one_if_set sign + room) + zeroes) value u text
            cur d (Holds-room (omega arith) h))))

-- The padding behind the number.
pub left_start :
    (size padding rest : ℕ) (str : List ℕ)
    → size < 2 ^ 32
    → size ≡ padding + rest
    → length str ≡ size
    → Holds size rest (replicate padding b' ') (fill b' ' padding (start str size))
left_start size padding rest str small e len = rw (← append-nil {A = ℕ} (replicate padding b' ')) (
    fill-Holds size rest b' ' padding [] _
      (Holds-room (omega (arith, e)) (start-Holds str size small len)))

-- Whatever is in the reserved memory, all of it becomes the field.
pub write_base10_lem :
    (l : Layout) (value : ℕ) (cs : ConversionSpecification) (str : List ℕ)
    → IsExact l
    → l.prefix ≡ 0
    → (Base10.HasDigits l.digits value × (0 < value)) ⊎ ((l.digits ≡ 0) × (value ≡ 0))
    → length str ≡ l.size
    → write_base10 l value cs str ≡ field_text l cs (decimal l.digits value [])
unfolding write_base10
write_base10_lem l value cs str x p d e = elim (Bool-cases cs.left_justify) [
  | inl left ↦
      rw (left, p)
        (full (
            number_base10 l.size 0 l.sign l.zeroes l.digits value (replicate l.padding b' ') _ d (
              Holds-room (omega arith) (
                left_start l.size l.padding _ str x.small
                  (x.sum
                    ∙ ap (λ k. l.padding + (one_if_set l.sign + (k + (l.zeroes + l.digits)))) p)
                  e)))
          ∙ simp (append_assoc, decimal-append))
  | inr right ↦
      rw (right, p)
        (full (
          fill-Holds l.size 0 b' ' l.padding _ _ (
            Holds-room (omega arith) (
              number_base10 l.size l.padding l.sign l.zeroes l.digits value [] _ d
                (Holds-room (omega (arith, x.sum, p)) (start-Holds str l.size x.small e))))))
]

pub write_base16_lem :
    (l : Layout) (value : ℕ) (cs : ConversionSpecification) (str : List ℕ)
    → IsExact l
    → Base16.HasDigits l.digits value
    → length str ≡ l.size
    → write_base16 l value cs str ≡ field_text l cs (hexadecimal cs.uppercase l.digits value [])
unfolding write_base16
write_base16_lem l value cs str x d e = elim (Bool-cases cs.left_justify) [
  | inl left ↦ rw left (
      full (
        number_base16 l.size 0 l.sign l.prefix l.zeroes l.digits value cs.uppercase
          (replicate l.padding b' ') _ x.prefix_size d
          (Holds-room (omega arith) (left_start l.size l.padding _ str x.small x.sum e)))
      ∙ simp (append_assoc, hexadecimal-append))
  | inr right ↦ rw right (
      full (
        fill-Holds l.size 0 b' ' l.padding _ _ (
          Holds-room (omega arith) (
            number_base16 l.size l.padding l.sign l.prefix l.zeroes l.digits value cs.uppercase [] _
              x.prefix_size d
              (Holds-room (omega (arith, x.sum)) (start-Holds str l.size x.small e))))))
]

pub length-sign_text : (c : ℕ) → length (sign_text c) ≡ one_if_set c
length-sign_text c = ground arith

pub length-prefix_text :
    (prefix : ℕ) (u : Bool) → (prefix ≡ 0) ⊎ (prefix ≡ 2) → length (prefix_text prefix u) ≡ prefix
length-prefix_text prefix u (inl e) = rw e refl
length-prefix_text prefix u (inr e) = rw e refl

-- The field has the size that was reserved for it.
pub length-field_text :
    (l : Layout) (cs : ConversionSpecification) (ds : List ℕ)
    → IsExact l
    → length ds ≡ l.digits
    → length (field_text l cs ds) ≡ l.size
length-field_text l cs ds x e = elim (Bool-cases cs.left_justify) [
  | inl left ↦ rw left (
      simp (length-append, length-replicate, length-sign_text)
        (omega (arith, length-prefix_text l.prefix cs.uppercase x.prefix_size, x.sum, e)))
  | inr right ↦ rw right (
      simp (length-append, length-replicate, length-sign_text)
        (omega (arith, length-prefix_text l.prefix cs.uppercase x.prefix_size, x.sum, e)))
]
