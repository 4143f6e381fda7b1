-- ===== src/Ntoa/Itoa/Spec.antt =====
-- The text that printf prescribes for an integer, and the sizes of reckless/src/ntoa.cpp.
use reckless.Prelude.{
  ℕ, zero, suc, ◌+◌, ◌-◌, ◌≤◌, ◌<◌, ◌^◌, ◌≡◌, refl, List, ◌∷◌, ◌++◌, append_assoc, arith, Bool,
  true, false, not, ◌&&◌, ◌==◌, if◌then◌else◌, length, replicate, ap, ◌⊎◌, inl, inr, Bool-cases,
  length-append, length-replicate,
}
use reckless.Ntoa.Itoa.{ConversionSpecification, one_if_set, plan, unspecified_precision}
use reckless.Ntoa.Itoa.Text.{
  sign_text, prefix_text, field_text, IsExact, length-sign_text, length-prefix_text,
}

abbrev pub pad_left : ℕ → ℕ → List ℕ → List ℕ
pad_left width c text = replicate (width - length text) c ++ text

-- What the format asks for: at least `precision` digits (one by default), the sign and the prefix
-- before them, in a field of at least the minimum width. The field is filled with spaces on the
-- right if it is left-justified; else with zeroes behind the prefix, if these are asked for and no
-- precision is given; else with spaces on the left.
unfoldable pub number_text : ConversionSpecification → Bool → List ℕ → List ℕ → List ℕ
number_text cs negative prefix digits =
    let sign = sign_text (if negative then b'-' else cs.plus_sign) in
    let unspecified = cs.precision == unspecified_precision in
    let body = pad_left (if unspecified then 1 else cs.precision) b'0' digits in
    let number = sign ++ (prefix ++ body) in
    let width = cs.minimum_field_width in
    if cs.left_justify
    then number ++ replicate (width - length number) b' '
    else if cs.pad_with_zeroes && unspecified
    then sign ++ (prefix ++ pad_left (width - length sign - length prefix) b'0' body)
    else pad_left width b' ' number

-- The fields of the specification are `unsigned`, and the number with its sign and prefix has a
-- size that is one.
pub record IsPrintable (prefix : ℕ) (cs : ConversionSpecification) : Type 0 where
  pub width_small : cs.minimum_field_width < 2 ^ 32
  pub precision_small :
      (cs.precision ≡ unspecified_precision) ⊎ (prefix + 1 + cs.precision < 2 ^ 32)

-- No size wraps around.
pub plan-IsExact :
    (negative : Bool) (prefix digits : ℕ) (cs : ConversionSpecification)
    → (prefix ≡ 0) ⊎ (prefix ≡ 2)
    → digits ≤ 20
    → IsPrintable prefix cs
    → IsExact (plan negative prefix digits cs)
unfolding plan
plan-IsExact negative prefix digits cs p d h = record {
  small = ground (arith, h.width_small, h.precision_small);
  sum = ground (arith, h.width_small, h.precision_small);
  prefix_size = p;
}

-- The precision that the code works with, and the length of the number without padding.
abbrev effective : ConversionSpecification → ℕ
effective cs = if cs.precision == unspecified_precision then 1 else cs.precision

abbrev sign_of : Bool → ConversionSpecification → ℕ
sign_of negative cs = if negative then b'-' else cs.plus_sign

abbrev number_length : Bool → ℕ → ℕ → ConversionSpecification → ℕ
number_length negative prefix digits cs =
    one_if_set (sign_of negative cs) + (prefix + (effective cs - digits + digits))

-- Whether zeroes take the place of the spaces.
abbrev moves : ConversionSpecification → Bool
moves cs = cs.pad_with_zeroes && not cs.left_justify && (cs.precision == unspecified_precision)

module _ (negative : Bool) (prefix digits : ℕ) (cs : ConversionSpecification)
    (p : (prefix ≡ 0) ⊎ (prefix ≡ 2)) (d : digits ≤ 20) (h : IsPrintable prefix cs) where
  spaces_stay :
      moves cs ≡ false
      → ((plan negative prefix digits cs).zeroes ≡ effective cs - digits)
        × ((plan negative prefix digits cs).padding
            ≡ cs.minimum_field_width - number_length negative prefix digits cs)
  unfolding plan
  spaces_stay m = rw m (
    ground (arith, h.width_small, h.precision_small),
    ground (arith, h.width_small, h.precision_small),
  )

  spaces_move :
      moves cs ≡ true
      → ((plan negative prefix digits cs).zeroes
          ≡ (cs.minimum_field_width - number_length negative prefix digits cs)
            + (effective cs - digits))
        × ((plan negative prefix digits cs).padding ≡ 0)
  unfolding plan
  spaces_move m = rw m (ground (arith, h.width_small, h.precision_small), refl)

  sign-plan : (plan negative prefix digits cs).sign ≡ sign_of negative cs
  unfolding plan
  sign-plan = refl

  prefix-plan : (plan negative prefix digits cs).prefix ≡ prefix
  unfolding plan
  prefix-plan = refl

replicate-add : (m n c : ℕ) → replicate (m + n) c ≡ replicate m c ++ replicate n c
replicate-add zero n c = ap (λ k. replicate k c) (omega arith)
replicate-add (suc m) n c =
    let e : suc m + n ≡ suc (m + n) = omega arith in rw e (ap (λ t. c ∷ t) (replicate-add m n c))

-- The length of the number with its sign and prefix.
length-number :
    (negative : Bool) (prefix digits : ℕ) (cs : ConversionSpecification) (ds : List ℕ)
    → (prefix ≡ 0) ⊎ (prefix ≡ 2)
    → length ds ≡ digits
    → length (
        sign_text (sign_of negative cs)
        ++ (prefix_text prefix cs.uppercase ++ pad_left (effective cs) b'0' ds))
      ≡ number_length negative prefix digits cs
length-number negative prefix digits cs ds p e =
    simp (length-append, length-replicate, length-sign_text)
      (omega (arith, length-prefix_text prefix cs.uppercase p, e))

-- The room for zeroes behind the prefix.
zero_room :
    (negative : Bool) (prefix digits : ℕ) (cs : ConversionSpecification) (ds : List ℕ)
    → (prefix ≡ 0) ⊎ (prefix ≡ 2)
    → length ds ≡ digits
    → cs.minimum_field_width
        - length (sign_text (sign_of negative cs))
        - length (prefix_text prefix cs.uppercase)
        - length (pad_left (effective cs) b'0' ds)
      ≡ cs.minimum_field_width - number_length negative prefix digits cs
zero_room negative prefix digits cs ds p e =
    rw
      (
        length-append,
        length-replicate,
        length-sign_text,
        length-prefix_text prefix cs.uppercase p,
        e,
      )
      (omega arith)

-- The code's layout is the one that the format asks for.
pub field_text-plan :
    (negative : Bool) (prefix digits : ℕ) (cs : ConversionSpecification) (ds : List ℕ)
    → (prefix ≡ 0) ⊎ (prefix ≡ 2)
    → digits ≤ 20
    → IsPrintable prefix cs
    → length ds ≡ digits
    → field_text (plan negative prefix digits cs) cs ds
      ≡ number_text cs negative (prefix_text prefix cs.uppercase) ds
unfolding number_text
field_text-plan negative prefix digits cs ds p d h e = elim (Bool-cases cs.left_justify) [
  | inl left ↦
      let (z, w) = spaces_stay negative prefix digits cs p d h (ground arith) in
      rw (sign-plan, prefix-plan, z, w, left, length-number negative prefix digits cs ds p e, e)
  | inr right ↦ elim (Bool-cases (cs.pad_with_zeroes && (cs.precision == unspecified_precision))) [
    | inl zero_pad ↦
        let (z, w) = spaces_move negative prefix digits cs p d h (ground arith) in
        let c = zero_room negative prefix digits cs ds p e in
        rw (sign-plan, prefix-plan, z, w, right, zero_pad, c, e, replicate-add, append_assoc)
    | inr space_pad ↦
        let (z, w) = spaces_stay negative prefix digits cs p d h (ground arith) in
        rw (
          sign-plan,
          prefix-plan,
          z,
          w,
          right,
          space_pad,
          length-number negative prefix digits cs ds p e,
          e,
        )
  ]
]
