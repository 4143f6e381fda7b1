-- ===== src/Formatter/Convert/Apply.antt =====
-- The overloads of `format` for one argument, in reckless/src/template_formatter.cpp, print what
-- the argument is printed as.
use reckless.Prelude.{
  ℕ, true, false, List, [], ◌∷◌, append-nil, Option, none, some, inr, arith, ◌<◌, ◌^◌,
}
use reckless.Prelude.Int.{ℤ}
use reckless.Output.{Buffer, Outcome, return, ◌>>◌}
use reckless.Output.Appends.{Appends, Yields, bind-Yields, return-Yields}
use reckless.Ntoa.Itoa.{
  ConversionSpecification, Integer, int, unsigned_long, w32, itoa_base10, itoa_base16,
}
use reckless.Ntoa.Digits.Base16.{HasDigits}
use reckless.Ntoa.Itoa.Laws.{InRange, width, value, itoa_base10-Appends, itoa_base16-Appends}
use reckless.Formatter.{
  Value, char, integer, floating, c_string, std_string, pointer, byte_of, append,
  pointer_specification, generic_format_int, generic_format_char, generic_format_float,
  format_c_string, format_std_string, format_pointer, format_value,
}
use reckless.Formatter.Expand.{append-Appends}
use reckless.Formatter.Convert.{
  IntegerText, with_d, with_x, with_upper_x, no_letter, other_letter, StringText, with_s,
  without_letter, without_s, CStringText, content, location, nothing, neither, PointerText,
  address_of, no_specifier, no_pointer, CharText, as_text, as_integer, FloatText, with_f,
  nothing_there, without_f, Converts, address_form,
}

module _ (b : Buffer) where
  -- A call that returns a pointer behind the specifier.
  and_return :
      (out rest : List ℕ) (m : b.State → Outcome b.Error b.State (Unit {0})) (s : b.State)
      → Appends b out s (m s)
      → Yields b out (some rest) s ((m >> return (some rest)) s)
  and_return out rest m s h = rw (← append-nil out) (
      bind-Yields b out [] (some rest) s m (λ a. return (some rest)) h
        (λ a t. return-Yields b (some rest) t))

  generic_format_int-Yields :
      (v : Integer) (specifier out : List ℕ) (next : Option (List ℕ)) (s : b.State)
      → InRange (width v) (value v)
      → IntegerText v specifier out next
      → Yields b out next s (generic_format_int b specifier v s)
  unfolding generic_format_int
  generic_format_int-Yields v specifier out next s h (with_d cs rest k e p d) =
      rw (generic_format_int, e, e)
        (and_return _ rest (itoa_base10 b v cs) s (itoa_base10-Appends b cs k s v h p d))
  generic_format_int-Yields v specifier out next s h (with_x cs rest k e p d) =
      rw (generic_format_int, e, e)
        (and_return _ rest (itoa_base16 b v (record cs { uppercase = false })) s (
          itoa_base16-Appends b (record cs { uppercase = false }) k s v h
            (record { width_small = p.width_small; precision_small = p.precision_small }) d))
  generic_format_int-Yields v specifier out next s h (with_upper_x cs rest k e p d) =
      rw (generic_format_int, e, e)
        (and_return _ rest (itoa_base16 b v (record cs { uppercase = true })) s (
          itoa_base16-Appends b (record cs { uppercase = true }) k s v h
            (record { width_small = p.width_small; precision_small = p.precision_small }) d))
  generic_format_int-Yields v specifier out next s h (no_letter cs e) =
      rw (generic_format_int, e) (return-Yields b none s)
  generic_format_int-Yields v specifier out next s h (other_letter cs c rest e d x upper) =
      rw (generic_format_int, e, d, x, upper) (return-Yields b none s)

  append_and_return :
      (out rest : List ℕ) (s : b.State)
      → Yields b out (some rest) s ((append b out >> return (some rest)) s)
  append_and_return out rest s = and_return out rest (append b out) s (append-Appends b out s)

  -- An address fits into 64 bits, and the specification for it is printable.
  address_and_return :
      (address k : ℕ) (rest : List ℕ) (s : b.State)
      → address < 2 ^ 64
      → HasDigits k address
      → Yields b
          (address_form address k)
          (some rest)
          s
          ((itoa_base16 b (unsigned_long address) pointer_specification >> return (some rest)) s)
  address_and_return address k rest s small d =
      and_return _ rest (itoa_base16 b (unsigned_long address) pointer_specification) s (
        itoa_base16-Appends b pointer_specification k s (unsigned_long address) small
          (record { width_small = omega arith; precision_small = inr (ground arith) }) d)

  generic_format_char-Yields :
      (v : ℤ) (specifier out : List ℕ) (next : Option (List ℕ)) (s : b.State)
      → InRange w32 v
      → CharText v specifier out next
      → Yields b out next s (generic_format_char b specifier v s)
  unfolding generic_format_char
  generic_format_char-Yields v specifier out next s h (as_text rest e) =
      rw (generic_format_char, e) (append_and_return (byte_of v ∷ []) rest s)
  generic_format_char-Yields v specifier _ _ s h (as_integer c rest out next e other t) =
      let t' = rw e at t in
      rw (generic_format_char, e, other)
        (generic_format_int-Yields (int v) (c ∷ rest) out next s h t')

  format_c_string-Yields :
      (address : ℕ) (text specifier out : List ℕ) (next : Option (List ℕ)) (s : b.State)
      → address < 2 ^ 64
      → CStringText address text specifier out next
      → Yields b out next s (format_c_string b specifier address text s)
  unfolding format_c_string
  format_c_string-Yields address text specifier out next s h (content rest e) =
      rw (format_c_string, e) (append_and_return text rest s)
  format_c_string-Yields address text specifier out next s h (location rest k e d) =
      rw (format_c_string, e) (address_and_return address k rest s h d)
  format_c_string-Yields address text specifier out next s h (nothing e) =
      rw (format_c_string, e) (return-Yields b none s)
  format_c_string-Yields address text specifier out next s h (neither c rest e t a) =
      rw (format_c_string, e, t, a) (return-Yields b none s)

  format_std_string-Yields :
      (text specifier out : List ℕ) (next : Option (List ℕ)) (s : b.State)
      → StringText text specifier out next
      → Yields b out next s (format_std_string b specifier text s)
  unfolding format_std_string
  format_std_string-Yields text specifier out next s (with_s rest e) =
      rw (format_std_string, e) (append_and_return text rest s)
  format_std_string-Yields text specifier out next s (without_letter e) =
      rw (format_std_string, e) (return-Yields b none s)
  format_std_string-Yields text specifier out next s (without_s c rest e t) =
      rw (format_std_string, e, t) (return-Yields b none s)

  format_pointer-Yields :
      (address : ℕ) (specifier out : List ℕ) (next : Option (List ℕ)) (s : b.State)
      → address < 2 ^ 64
      → PointerText address specifier out next
      → Yields b out next s (format_pointer b specifier address s)
  unfolding format_pointer
  format_pointer-Yields address specifier out next s h (address_of c rest k e t d) =
      rw (format_pointer, e, t) (address_and_return address k rest s h d)
  format_pointer-Yields address specifier out next s h (no_specifier e) =
      rw (format_pointer, e) (return-Yields b none s)
  format_pointer-Yields address specifier out next s h (no_pointer c rest e t) =
      rw (format_pointer, e, t) (return-Yields b none s)

module _ (b : Buffer) {D : Type 0}
    (ftoa : D → ConversionSpecification → b.State → Outcome b.Error b.State (Unit {0})) where
  generic_format_float-Yields :
      (v : D) (specifier out : List ℕ) (next : Option (List ℕ)) (s : b.State)
      → FloatText b ftoa v specifier out next
      → Yields b out next s (generic_format_float b ftoa specifier v s)
  unfolding generic_format_float
  generic_format_float-Yields v specifier _ _ s (with_f cs rest out e h) =
      rw (generic_format_float, e, e) (and_return b out rest (ftoa v cs) s (h s))
  generic_format_float-Yields v specifier out next s (nothing_there cs e) =
      rw (generic_format_float, e) (return-Yields b none s)
  generic_format_float-Yields v specifier out next s (without_f cs c rest e t) =
      rw (generic_format_float, e, t) (return-Yields b none s)

  -- Every overload of `format` prints what its argument is printed as.
  pub format_value-Yields :
      (v : Value D) (specifier out : List ℕ) (next : Option (List ℕ)) (s : b.State)
      → Converts b ftoa v specifier out next
      → Yields b out next s (format_value b ftoa specifier v s)
  unfolding format_value Converts
  format_value-Yields (char v) specifier out next s (h, t) =
      generic_format_char-Yields b v specifier out next s h t
  format_value-Yields (integer v) specifier out next s (h, t) =
      generic_format_int-Yields b v specifier out next s h t
  format_value-Yields (floating v) specifier out next s t =
      generic_format_float-Yields v specifier out next s t
  format_value-Yields (c_string address v) specifier out next s (h, t) =
      format_c_string-Yields b address v specifier out next s h t
  format_value-Yields (std_string v) specifier out next s t =
      format_std_string-Yields b v specifier out next s t
  format_value-Yields (pointer address) specifier out next s (h, t) =
      format_pointer-Yields b address specifier out next s h t
