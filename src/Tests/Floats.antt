-- ===== src/Tests/Floats.antt =====
-- Finite floating-point numbers, as reckless/src/ntoa.cpp prints them.
use reckless.Prelude.{ℕ, refl, arith, true, false, ◌+◌, ◌/◌, ◌^◌, ◌<◌, inr}
use reckless.Prelude.Int.{pos, negsuc}
use reckless.Output.Appends.{Appends}
use reckless.Ntoa.Significand.{Decimal18, rounded_divide, rounded_rshift}
use reckless.Ntoa.Significand.Round.{IsNearest}
use reckless.Ntoa.Itoa.{ConversionSpecification, default_specification}
use reckless.Ntoa.Itoa.Laws.{CountsDecimal}
use reckless.Ntoa.Float.{
  Category, fp_finite, precision_g, ftoa_base10_f, ftoa_base10_g, ftoa_base10_f_normal,
  ftoa_base10_e_normal,
}
use reckless.Ntoa.Float.Rounding.{IsRounded, units}
use reckless.Ntoa.Float.Fixed.Printed.{Prints, ftoa_base10_f-Appends, ftoa_base10_f-overshoots}
use reckless.Ntoa.Float.Exponent.Field.{sign_field, scientific_form, exponent_form}
use reckless.Ntoa.Float.Exponent.Refine.{ftoa_base10_e_normal-Appends, ftoa_base10_e_normal-carry}
use reckless.Ntoa.Float.General.{ftoa_base10_g-keeps}
use reckless.Ntoa.Float.General.Scientific.{IsTrimmed, PrintsScientific, ftoa_base10_g-trims}
use reckless.Tests.Samples.{page_buffer, empty_page}

-- 3.14159.
abbrev pi : Decimal18
pi = record { sign = false; mantissa = 314159000000000000; exponent = pos 0 }

-- -12500000000000000000000.
abbrev large : Decimal18
large = record { sign = true; mantissa = 125000000000000000; exponent = pos 22 }

-- 0.006.
abbrev tiny : Decimal18
tiny = record { sign = false; mantissa = 600000000000000000; exponent = negsuc 2 }

-- 9.99.
abbrev nines : Decimal18
nines = record { sign = false; mantissa = 999000000000000000; exponent = pos 0 }

-- 1.0000001.
abbrev near_one : Decimal18
near_one = record { sign = false; mantissa = 100000010000000010; exponent = pos 0 }

-- The value that a `double` has, whatever it is.
abbrev always : Decimal18 → Unit {0} → Category
always dv v = fp_finite dv

abbrev digits : ℕ → ConversionSpecification
digits n = record default_specification { precision = n }

-- `%8.2f`.
abbrev eight_two : ConversionSpecification
eight_two = record default_specification { minimum_field_width = 8; precision = 2 }

ftoa_base10_f-Appends_example :
    (n : ℕ) × IsRounded pi 2 n
    × Prints page_buffer eight_two false 2 n empty_page
        (ftoa_base10_f page_buffer (always pi) tt eight_two empty_page)
ftoa_base10_f-Appends_example =
    ftoa_base10_f-Appends page_buffer (always pi) tt pi eight_two empty_page refl
      (record {
        width_small = omega arith;
        size_small = omega arith;
        decimal = inr (omega arith, omega arith);
      })
      (omega arith)

ftoa_base10_f-overshoots_example :
    IsRounded tiny 1 0
    × Prints page_buffer
        (digits 1)
        false
        1
        1
        empty_page
        (ftoa_base10_f_normal page_buffer tiny 1 (digits 1) empty_page)
ftoa_base10_f-overshoots_example =
    ftoa_base10_f-overshoots page_buffer tiny 2 1 (digits 1) empty_page
      (record {
        width_small = omega arith;
        size_small = omega arith;
        decimal = inr (omega arith, omega arith);
      })
      refl (omega arith) (omega arith) (omega arith)

ftoa_base10_e_normal-Appends_example :
    (n d : ℕ) × IsNearest 125000000000000000 (10 ^ 15) n
    × (n < 1000)
    × CountsDecimal d 22
    × Appends page_buffer
        (sign_field
          (digits 3)
          true
          (scientific_form false (b'0' + n / 100) n 2 (exponent_form d (pos 22))))
        empty_page
        (ftoa_base10_e_normal page_buffer large 2 (digits 3) empty_page)
ftoa_base10_e_normal-Appends_example =
    ftoa_base10_e_normal-Appends page_buffer large 2 (digits 3) empty_page
      (record {
        width_small = omega arith;
        precision_small = omega arith;
        exponent_small = omega arith;
        mantissa_small = omega arith;
      })
      (omega arith)

ftoa_base10_e_normal-carry_example :
    (d : ℕ) × CountsDecimal d 0
    × Appends page_buffer
        (sign_field (digits 1) false (scientific_form false b':' 0 1 (exponent_form d (pos 0))))
        empty_page
        (ftoa_base10_e_normal page_buffer nines 1 (digits 1) empty_page)
ftoa_base10_e_normal-carry_example =
    ftoa_base10_e_normal-carry page_buffer nines 1 (digits 1) empty_page
      (record {
        width_small = omega arith;
        precision_small = omega arith;
        exponent_small = omega arith;
        mantissa_small = omega arith;
      })
      (omega arith)

ftoa_base10_g-keeps_example :
    Prints page_buffer default_specification false 5
      (units near_one 5)
      empty_page
      (ftoa_base10_g page_buffer (always near_one) tt default_specification empty_page)
unfolding precision_g rounded_divide rounded_rshift
ftoa_base10_g-keeps_example =
    ftoa_base10_g-keeps page_buffer (always near_one) tt near_one default_specification empty_page 0
      refl refl (omega arith) (omega arith) (λ e. absurd (omega arith)) refl
      (record {
        width_small = omega arith;
        size_small = omega arith;
        decimal = inr (omega arith, omega arith);
      })

ftoa_base10_g-trims_example :
    (n precision : ℕ) × IsTrimmed large 6 n precision
    × PrintsScientific page_buffer large default_specification n precision empty_page
        (ftoa_base10_g page_buffer (always large) tt default_specification empty_page)
unfolding precision_g
ftoa_base10_g-trims_example =
    ftoa_base10_g-trims page_buffer (always large) tt large default_specification empty_page refl
      refl refl (omega arith) (omega arith) (omega arith) (omega arith)
