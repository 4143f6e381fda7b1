-- ===== src/Formatter/Convert.antt =====
-- What one argument is printed as: the overloads of `format` in
-- reckless/src/template_formatter.cpp.
pub mod Apply
use reckless.Prelude.{
  ℕ, ◌≡◌, ◌||◌, true, false, Bool, List, [], ◌∷◌, Option, none, some, ◌==◌, ◌+◌, ◌<◌, ◌^◌,
}
use reckless.Prelude.Int.{ℤ, nat_abs}
use reckless.Output.{Buffer, Outcome}
use reckless.Output.Appends.{Appends}
use reckless.Ntoa.Digits.Base10.{decimal}
use reckless.Ntoa.Digits.Base16.{hexadecimal, HasDigits}
use reckless.Ntoa.Itoa.{ConversionSpecification, Integer, int, unsigned_long, w32}
use reckless.Ntoa.Itoa.Text.{prefix_text}
use reckless.Ntoa.Itoa.Spec.{number_text, IsPrintable}
use reckless.Ntoa.Itoa.Laws.{CountsDecimal, InRange, width, value, is_negative, prefix_of}
use reckless.Formatter.{
  parse_conversion_specification, Value, char, integer, floating, c_string, std_string, pointer,
  byte_of, pointer_specification,
}

-- The text of an integer for `d`, and for `x` and `X`, where a negative one has a minus sign.
abbrev pub decimal_form : ConversionSpecification → Integer → ℕ → List ℕ
decimal_form cs v k = number_text cs (is_negative (value v)) [] (decimal k (nat_abs (value v)) [])

abbrev pub hexadecimal_form : ConversionSpecification → Integer → ℕ → List ℕ
hexadecimal_form cs v k =
    number_text cs (is_negative (value v))
      (prefix_text (prefix_of cs (nat_abs (value v))) cs.uppercase)
      (hexadecimal cs.uppercase k (nat_abs (value v)) [])

-- What an integer is printed as for a specifier, and what is left of the string; `none` if the
-- specifier is not one for integers.
pub data IntegerText (v : Integer) (specifier : List ℕ) : List ℕ → Option (List ℕ) → Type 0 where
  with_d :
      (cs : ConversionSpecification) (rest : List ℕ) (k : ℕ)
      → parse_conversion_specification specifier ≡ (cs, b'd' ∷ rest)
      → IsPrintable 0 cs
      → CountsDecimal k (nat_abs (value v))
      → IntegerText v specifier (decimal_form cs v k) (some rest)
  with_x :
      (cs : ConversionSpecification) (rest : List ℕ) (k : ℕ)
      → parse_conversion_specification specifier ≡ (cs, b'x' ∷ rest)
      → IsPrintable (prefix_of cs (nat_abs (value v))) cs
      → HasDigits k (nat_abs (value v))
      → IntegerText v specifier (hexadecimal_form (record cs { uppercase = false }) v k) (some rest)
  with_upper_x :
      (cs : ConversionSpecification) (rest : List ℕ) (k : ℕ)
      → parse_conversion_specification specifier ≡ (cs, b'X' ∷ rest)
      → IsPrintable (prefix_of cs (nat_abs (value v))) cs
      → HasDigits k (nat_abs (value v))
      → IntegerText v specifier (hexadecimal_form (record cs { uppercase = true }) v k) (some rest)
  no_letter :
      (cs : ConversionSpecification)
      → parse_conversion_specification specifier ≡ (cs, [])
      → IntegerText v specifier [] none
  other_letter :
      (cs : ConversionSpecification) (c : ℕ) (rest : List ℕ)
      → parse_conversion_specification specifier ≡ (cs, c ∷ rest)
      → (c == b'd') ≡ false
      → (c == b'x') ≡ false
      → (c == b'X') ≡ false
      → IntegerText v specifier [] none

-- What a text is printed as: itself for `s`.
pub data StringText (text specifier : List ℕ) : List ℕ → Option (List ℕ) → Type 0 where
  with_s : (rest : List ℕ) → specifier ≡ b's' ∷ rest → StringText text specifier text (some rest)
  without_letter : specifier ≡ [] → StringText text specifier [] none
  without_s :
      (c : ℕ) (rest : List ℕ)
      → specifier ≡ c ∷ rest
      → (c == b's') ≡ false
      → StringText text specifier [] none

-- The address of a pointer.
abbrev pub address_form : ℕ → ℕ → List ℕ
address_form address k = hexadecimal_form pointer_specification (unsigned_long address) k

-- A C string is itself for `s` and its address for `p`.
pub data CStringText (address : ℕ) (text specifier : List ℕ)
    : List ℕ → Option (List ℕ) → Type 0 where
  content :
      (rest : List ℕ)
      → specifier ≡ b's' ∷ rest
      → CStringText address text specifier text (some rest)
  location :
      (rest : List ℕ) (k : ℕ)
      → specifier ≡ b'p' ∷ rest
      → HasDigits k address
      → CStringText address text specifier (address_form address k) (some rest)
  nothing : specifier ≡ [] → CStringText address text specifier [] none
  neither :
      (c : ℕ) (rest : List ℕ)
      → specifier ≡ c ∷ rest
      → (c == b's') ≡ false
      → (c == b'p') ≡ false
      → CStringText address text specifier [] none

-- Another pointer is its address for both.
pub data PointerText (address : ℕ) (specifier : List ℕ) : List ℕ → Option (List ℕ) → Type 0 where
  address_of :
      (c : ℕ) (rest : List ℕ) (k : ℕ)
      → specifier ≡ c ∷ rest
      → (c == b'p' || c == b's') ≡ true
      → HasDigits k address
      → PointerText address specifier (address_form address k) (some rest)
  no_specifier : specifier ≡ [] → PointerText address specifier [] none
  no_pointer :
      (c : ℕ) (rest : List ℕ)
      → specifier ≡ c ∷ rest
      → (c == b'p' || c == b's') ≡ false
      → PointerText address specifier [] none

-- A `char` is a text of one byte for `s`, and else an integer.
pub data CharText (v : ℤ) (specifier : List ℕ) : List ℕ → Option (List ℕ) → Type 0 where
  as_text :
      (rest : List ℕ) → specifier ≡ b's' ∷ rest → CharText v specifier (byte_of v ∷ []) (some rest)
  as_integer :
      (c : ℕ) (rest out : List ℕ) (next : Option (List ℕ))
      → specifier ≡ c ∷ rest
      → (c == b's') ≡ false
      → IntegerText (int v) specifier out next
      → CharText v specifier out next

-- What `format` prints for an argument, where floating-point numbers are printed by `ftoa`.
module _ (b : Buffer) {D : Type 0}
    (ftoa : D → ConversionSpecification → b.State → Outcome b.Error b.State (Unit {0})) where
  pub data FloatText (v : D) (specifier : List ℕ) : List ℕ → Option (List ℕ) → Type 0 where
    with_f :
        (cs : ConversionSpecification) (rest out : List ℕ)
        → parse_conversion_specification specifier ≡ (cs, b'f' ∷ rest)
        → ((s : b.State) → Appends b out s (ftoa v cs s))
        → FloatText v specifier out (some rest)
    nothing_there :
        (cs : ConversionSpecification)
        → parse_conversion_specification specifier ≡ (cs, [])
        → FloatText v specifier [] none
    without_f :
        (cs : ConversionSpecification) (c : ℕ) (rest : List ℕ)
        → parse_conversion_specification specifier ≡ (cs, c ∷ rest)
        → (c == b'f') ≡ false
        → FloatText v specifier [] none

  unfoldable pub Converts : Value D → List ℕ → List ℕ → Option (List ℕ) → Type 0
  Converts (char v) specifier out next = InRange w32 v × CharText v specifier out next
  Converts (integer v) specifier out next =
      InRange (width v) (value v) × IntegerText v specifier out next
  Converts (floating v) specifier out next = FloatText v specifier out next
  Converts (c_string address v) specifier out next =
      (address < 2 ^ 64) × CStringText address v specifier out next
  Converts (std_string v) specifier out next = StringText v specifier out next
  Converts (pointer address) specifier out next =
      (address < 2 ^ 64) × PointerText address specifier out next
