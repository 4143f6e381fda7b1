-- ===== src/Ntoa/Float/Exponent/Field.antt =====
-- The text that printf prescribes for a number with an exponent, and the field that
-- `ftoa_base10_e_normal` of reckless/src/ntoa.cpp puts it in.
use reckless.Prelude.{
  ℕ, suc, ◌+◌, ◌-◌, ◌/◌, ◌%◌, ◌≤◌, ◌<◌, ◌≡◌, refl, List, [], ◌∷◌, ◌++◌, arith, Bool, true, not,
  ◌||◌, ◌&&◌, ap, ◌∙◌, inl, inr, Bool-cases, ◌==◌, if◌then◌else◌, length, replicate, length-append,
  length-replicate, ltb,
}
use reckless.Prelude.Int.{ℤ, pos, negsuc, nat_abs}
use reckless.Ntoa.Digits.Base10.{decimal, length-decimal}
use reckless.Ntoa.Itoa.{ConversionSpecification, one_if_set}
use reckless.Ntoa.Itoa.Text.{sign_text, length-sign_text}
use reckless.Ntoa.Itoa.Spec.{pad_left}
use reckless.Ntoa.Itoa.Laws.{CountsDecimal}
use reckless.Ntoa.Float.{FloatLayout, exponent_parts, exponent_digits}
use reckless.Ntoa.Float.Exponent.{sign_first, scientific_text, scientific_size, exponent_text}

-- The sign in the first place, and behind it a number that is filled up to the minimum width: with
-- spaces on the right if it is left-justified, else with zeroes or spaces on the left.
abbrev pub sign_field : ConversionSpecification → Bool → List ℕ → List ℕ
sign_field cs negative number =
    let sign = sign_text (if negative then b'-' else cs.plus_sign) in
    let room = cs.minimum_field_width - length sign in
    if cs.left_justify
    then sign ++ (number ++ replicate (room - length number) b' ')
    else sign ++ pad_left room (if cs.pad_with_zeroes then b'0' else b' ') number

-- The exponent with its sign, in at least two digits.
abbrev pub exponent_form : ℕ → ℤ → List ℕ
exponent_form digits (pos n) = b'e' ∷ (b'+' ∷ pad_left 2 b'0' (decimal digits n []))
exponent_form digits (negsuc n) = b'e' ∷ (b'-' ∷ pad_left 2 b'0' (decimal digits (suc n) []))

-- The digits of `n`, with a dot behind the first if more follow or the alternative form asks for
-- it, and an exponent.
abbrev pub scientific_form : Bool → ℕ → ℕ → ℕ → List ℕ → List ℕ
scientific_form alternative_form first n precision exponent =
    first
    ∷ ((if not (precision == 0) || alternative_form then b'.' ∷ [] else [])
        ++ (decimal precision n [] ++ exponent))

-- Two or three digits of an exponent, with a leading zero where it has one.
exponent_pad :
    (x : ℕ)
    → x < 1000
    → (d : ℕ) × CountsDecimal d x
      × (decimal (exponent_digits x) x [] ≡ pad_left 2 b'0' (decimal d x []))
unfolding decimal
exponent_pad x h = elim (Bool-cases (ltb x 100)) [
  | inr big ↦
      let pos : 100 ≤ x = ground arith in
      rw big (3, inl (record { below = omega arith; above = omega arith }, omega arith), refl)
  | inl small ↦ elim (Bool-cases (ltb x 10)) [
    | inr two ↦
        let pos : 10 ≤ x = ground arith in
        let top : x < 100 = ground arith in
        rw small (2, inl (record { below = omega arith; above = omega arith }, omega arith), refl)
    | inl one ↦ elim (Bool-cases (x == 0)) [
      | inl z ↦ let e : x ≡ 0 = ground arith in rw e (0, inr (refl, refl), refl)
      | inr nz ↦
          let pos : 0 < x = ground arith in
          let top : x < 10 = ground arith in
          let e : x / 10 % 10 ≡ 0 = omega arith in
          rw (small, e)
            (1, inl (record { below = omega arith; above = omega arith }, omega arith), refl)
    ]
  ]
]

pub sign_from :
    (left zeroes : Bool) (width padding pad_zeroes one : ℕ) (sign number : List ℕ)
    → length sign ≡ one
    → padding ≡ (if zeroes && not left then 0 else width - (one + length number))
    → pad_zeroes ≡ (if zeroes && not left then width - (one + length number) else 0)
    → (if left
        then sign ++ (number ++ replicate padding b' ')
        else sign ++ (replicate padding b' ' ++ (replicate pad_zeroes b'0' ++ number)))
      ≡ (if left
          then sign ++ (number ++ replicate (width - length sign - length number) b' ')
          else sign ++ pad_left (width - length sign) (if zeroes then b'0' else b' ') number)
sign_from left zeroes width padding pad_zeroes one sign number e e1 e2 =
    let r : width - length sign - length number ≡ width - (one + length number) =
      omega (arith, e) in
    elim (Bool-cases left) [
      | inl l ↦
          let p : padding ≡ width - (one + length number) = e1 ∙ ground arith in rw (l, r, p) refl
      | inr l ↦ elim (Bool-cases zeroes) [
        | inl z ↦
            let p : padding ≡ 0 = e1 ∙ rw (z, l) refl in
            let q : pad_zeroes ≡ width - (one + length number) = e2 ∙ rw (z, l) refl in
            rw (l, z, r, p, q) refl
        | inr z ↦
            let p : padding ≡ width - (one + length number) = e1 ∙ rw z refl in
            let q : pad_zeroes ≡ 0 = e2 ∙ rw z refl in rw (l, z, r, p, q) refl
      ]
    ]

pub exponent_lem :
    (e : ℤ)
    → nat_abs e < 1000
    → (d : ℕ) × CountsDecimal d (nat_abs e) × (exponent_text e [] ≡ exponent_form d e)
exponent_lem (pos n) h =
    let (d, counts, e) = exponent_pad n h in (d, counts, ap (λ t. b'e' ∷ (b'+' ∷ t)) e)
exponent_lem (negsuc n) h =
    let (d, counts, e) = exponent_pad (suc n) h in
    let one : n + 1 ≡ suc n = omega arith in (d, counts, ap (λ t. b'e' ∷ (b'-' ∷ t)) (rw one e))

pub length-scientific :
    (dot : Bool) (n precision : ℕ) (e : ℤ)
    → length (scientific_text dot n precision e []) ≡ scientific_size dot precision e
length-scientific dot n precision e =
    let k : ℕ = exponent_digits (exponent_parts e).1 in
    let l1 = length-decimal k (exponent_parts e).1 [] in
    let l2 = length-decimal precision n (exponent_text e []) in
    elim (Bool-cases dot) [
      | inl t ↦ rw t (omega (arith, l1, l2))
      | inr t ↦ rw t (omega (arith, l1, l2))
    ]

pub length-sign_first :
    (l : FloatLayout) (cs : ConversionSpecification) (number : List ℕ)
    → (cs.left_justify ≡ true → l.pad_zeroes ≡ 0)
    → length (sign_first l cs number)
      ≡ l.padding + (l.pad_zeroes + (one_if_set l.sign + length number))
length-sign_first l cs number stay =
    let ls = length-sign_text l.sign in
    elim (Bool-cases cs.left_justify) [
      | inl left ↦ rw left (simp (length-append, length-replicate) (omega (arith, ls, stay left)))
      | inr right ↦ rw right (simp (length-append, length-replicate) (omega (arith, ls)))
    ]
