-- ===== src/Ntoa/Float/Special.antt =====
-- The text of a NaN or an infinity: `write_special_category` of reckless/src/ntoa.cpp.
use reckless.Prelude.{
  ℕ, ◌+◌, ◌-◌, ◌≤◌, ◌≡◌, refl, List, [], ◌++◌, append-nil, append_assoc, arith, Bool, ◌==◌,
  if◌then◌else◌, Bool-cases, ◌⊎◌, inl, inr, length, replicate, length-append, length-replicate, max,
  set, codes,
}
use reckless.Output.{Buffer}
use reckless.Output.Appends.{Appends, emit-Appends}
use reckless.Ntoa.Cursor.Forward.{
  Starts, Starts-nil, set-Starts, memcpy-Starts, memset-Starts, Starts-full,
}
use reckless.Ntoa.Itoa.{ConversionSpecification, one_if_set}
use reckless.Ntoa.Itoa.Text.{sign_text}
use reckless.Ntoa.Float.{
  special_text, write_special_category, Category, fp_nan, fp_infinite, fp_finite, write_nan,
  write_inf, ftoa_base10_f, ftoa_base10_g,
}

-- A text with spaces up to a width, on the left or on the right.
abbrev pub padded : Bool → ℕ → List ℕ → List ℕ
padded left_justify padding text =
    let spaces = replicate padding b' ' in if left_justify then text ++ spaces else spaces ++ text

pub length-padded :
    (left_justify : Bool) (padding : ℕ) (text : List ℕ)
    → length (padded left_justify padding text) ≡ padding + length text
length-padded left_justify padding text =
    let spaces : List ℕ = replicate padding b' ' in
    let lr : length spaces ≡ padding = length-replicate padding b' ' in
    elim (Bool-cases left_justify) [
      | inl e ↦ rw e (omega (arith, length-append text spaces))
      | inr e ↦ rw e (omega (arith, length-append spaces text))
    ]

length-sign_text : (sign : ℕ) → length (sign_text sign) ≡ one_if_set sign
length-sign_text sign = elim (Bool-cases (sign == 0)) [ inl e ↦ rw e refl | inr e ↦ rw e refl ]

-- `if(sign) str[pos++] = sign;`
sign-Starts :
    (size place sign : ℕ) (text str : List ℕ)
    → length text ≡ place
    → place + one_if_set sign ≤ size
    → Starts size text str
    → Starts size (text ++ sign_text sign) (if sign == 0 then str else set str place sign)
sign-Starts size place sign text str l h s = elim (Bool-cases (sign == 0)) [
  | inl e ↦ rw (e, append-nil text) s
  | inr e ↦ let h' = rw e at h in rw e (set-Starts size place sign text str l (omega arith) s)
]

special_text_lem :
    (sign padding : ℕ) (cs : ConversionSpecification) (category str : List ℕ)
    → length category ≡ 3
    → length str ≡ padding + (one_if_set sign + 3)
    → special_text sign padding cs category str
      ≡ padded cs.left_justify padding (sign_text sign ++ category)
unfolding special_text
special_text_lem sign padding cs category str three whole =
    let size : ℕ = padding + (one_if_set sign + 3) in
    let l = length-sign_text sign in
    let lc = length-append (sign_text sign) category in
    let lr : length (replicate {A = ℕ} padding b' ') ≡ padding = length-replicate padding b' ' in
    let s0 = Starts-nil size str whole in
    elim (Bool-cases cs.left_justify) [
      | inl e ↦ simp e (
          Starts-full size ((sign_text sign ++ category) ++ replicate padding b' ') _
            (omega (arith, lr, length-append (sign_text sign ++ category) (replicate padding b' ')))
            (memset-Starts size _ b' ' padding _ _ (omega arith) (omega arith) (
              memcpy-Starts size _ category _ _ l (omega arith)
                (sign-Starts size 0 sign [] str refl (omega arith) s0))))
      | inr e ↦ simp e (
          Starts-full size (replicate padding b' ' ++ (sign_text sign ++ category)) _
            (omega (arith, lr, length-append (replicate padding b' ') (sign_text sign ++ category)))
            (simp (← append_assoc (replicate padding b' ') (sign_text sign) category) (
              memcpy-Starts size _ category _ _
                (omega (arith, lr, length-append (replicate padding b' ') (sign_text sign)))
                (omega arith)
                (sign-Starts size padding sign _ _ lr (omega arith)
                  (memset-Starts size 0 b' ' padding [] str refl (omega arith) s0)))))
    ]

module _ (b : Buffer) where
  -- For a category of three characters, `write_special_category` appends the sign, if there is one
  -- to show, and the category, with spaces up to the minimum field width on the side that the
  -- justification leaves; or, if the buffer fails, a first part of that.
  pub write_special_category-Appends :
      (negative : Bool) (cs : ConversionSpecification) (category : List ℕ) (s : b.State)
      → length category ≡ 3
      → let text = sign_text (if negative then b'-' else cs.plus_sign) ++ category in
        Appends b
          (padded cs.left_justify (cs.minimum_field_width - length text) text)
          s
          (write_special_category b negative cs category s)
  unfolding write_special_category
  write_special_category-Appends negative cs category s three =
      let sign : ℕ = if negative then b'-' else cs.plus_sign in
      let content : ℕ = 3 + one_if_set sign in
      let l = length-sign_text sign in
      let lt = length-append (sign_text sign) category in
      let e : cs.minimum_field_width - length (sign_text sign ++ category)
          ≡ max content cs.minimum_field_width - content =
        omega arith in
      rw e (
        emit-Appends b (max content cs.minimum_field_width) _ _ s
          (λ mem h.
            special_text_lem sign (max content cs.minimum_field_width - content) cs category mem
              three (omega arith))
          (omega (
            arith,
            length-padded cs.left_justify (max content cs.minimum_field_width - content)
                (sign_text sign ++ category),
          )))

-- `nan` or `inf`.
abbrev name_of : Category → List ℕ
name_of (fp_nan negative) = codes "nan"
name_of (fp_infinite negative) = codes "inf"
name_of (fp_finite dv) = []

-- What `std::fpclassify` and the decomposition say of a `double` are parameters.
module _ (b : Buffer) {D : Type 0} (classify : D → Category) where
  -- For a value that is a NaN or an infinity, `ftoa_base10_f` and `ftoa_base10_g` both append its
  -- sign, if there is one to show, and `nan` or `inf`, with spaces up to the minimum field width on
  -- the side that the justification leaves; or, if the buffer fails, a first part of that.
  pub ftoa_base10-special :
      (value : D) (negative : Bool) (cs : ConversionSpecification) (s : b.State)
      → (classify value ≡ fp_nan negative) ⊎ (classify value ≡ fp_infinite negative)
      → let text =
          sign_text (if negative then b'-' else cs.plus_sign) ++ name_of (classify value) in
        let field = padded cs.left_justify (cs.minimum_field_width - length text) text in
        Appends b field s (ftoa_base10_f b classify value cs s)
        × Appends b field s (ftoa_base10_g b classify value cs s)
  unfolding ftoa_base10_f ftoa_base10_g write_nan write_inf
  ftoa_base10-special value negative cs s (inl e) =
      rw (ftoa_base10_f, ftoa_base10_g, e)
        (
          write_special_category-Appends b negative cs (codes "nan") s refl,
          write_special_category-Appends b negative cs (codes "nan") s refl,
        )
  ftoa_base10-special value negative cs s (inr e) =
      rw (ftoa_base10_f, ftoa_base10_g, e)
        (
          write_special_category-Appends b negative cs (codes "inf") s refl,
          write_special_category-Appends b negative cs (codes "inf") s refl,
        )
