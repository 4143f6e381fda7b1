-- ===== src/Tests/Ntoa.antt =====
-- Conversions of reckless/src/ntoa.cpp at chosen values.
use reckless.Prelude.{refl, [], arith, true, false, replicate, codes, inl, inr}
use reckless.Prelude.Int.{negsuc}
use reckless.Output.Appends.{Appends}
use reckless.Ntoa.Cursor.{Cursor, Holds, start, start-Holds}
use reckless.Ntoa.Digits.Base10.{decimal}
use reckless.Ntoa.Digits.Base16.{hexadecimal}
use reckless.Ntoa.Itoa.{
  ConversionSpecification, default_specification, int, unsigned_long, itoa_base10, itoa_base16,
}
use reckless.Ntoa.Itoa.Spec.{number_text}
use reckless.Ntoa.Itoa.Laws.{itoa_base10-Appends, itoa_base16-Appends}
use reckless.Ntoa.Float.{Category, fp_infinite, ftoa_base10_f, ftoa_base10_g}
use reckless.Ntoa.Float.Special.{ftoa_base10-special}
use reckless.Tests.Samples.{page_buffer, empty_page}

-- Memory for five characters, and the place behind the last.
abbrev five : Cursor
five = start (replicate 5 0) 5

five-Holds : Holds 5 5 [] five
five-Holds = start-Holds (replicate 5 0) 5 (omega arith) refl

-- `%08d`.
abbrev eight_wide : ConversionSpecification
eight_wide = record default_specification { minimum_field_width = 8; pad_with_zeroes = true }

-- `%#x`.
abbrev alternative : ConversionSpecification
alternative = record default_specification { alternative_form = true }

itoa_base10-Appends_example :
    Appends page_buffer
      (number_text eight_wide true [] (decimal 3 742 []))
      empty_page
      (itoa_base10 page_buffer (int (negsuc 741)) eight_wide empty_page)
itoa_base10-Appends_example =
    itoa_base10-Appends page_buffer eight_wide 3 empty_page (int (negsuc 741)) (omega arith)
      (record { width_small = omega arith; precision_small = inl refl })
      (inl (record { below = omega arith; above = omega arith }, omega arith))

itoa_base16-Appends_example :
    Appends page_buffer
      (number_text alternative false (codes "0x") (hexadecimal false 3 3054 []))
      empty_page
      (itoa_base16 page_buffer (unsigned_long 3054) alternative empty_page)
itoa_base16-Appends_example =
    itoa_base16-Appends page_buffer alternative 3 empty_page (unsigned_long 3054) (omega arith)
      (record { width_small = omega arith; precision_small = inl refl })
      (record { below = omega arith; above = omega arith })

-- One value, which is an infinity.
abbrev infinite : Unit {0} → Category
infinite v = fp_infinite false

ftoa_base10-special_example :
    Appends page_buffer
      (codes "     inf")
      empty_page
      (ftoa_base10_f page_buffer infinite tt eight_wide empty_page)
    × Appends page_buffer
        (codes "     inf")
        empty_page
        (ftoa_base10_g page_buffer infinite tt eight_wide empty_page)
ftoa_base10-special_example =
    ftoa_base10-special page_buffer infinite tt false eight_wide empty_page (inr refl)
