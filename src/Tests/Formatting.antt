-- ===== src/Tests/Formatting.antt =====
-- Format strings of reckless/src/template_formatter.cpp.
use reckless.Prelude.{List, inl, ◌∷◌, ◌≡◌, refl, arith, [], codes}
use reckless.Prelude.Int.{pos}
use reckless.Output.{Outcome, return}
use reckless.Output.Appends.{Appends}
use reckless.Ntoa.Digits.Base10.{decimal}
use reckless.Ntoa.Itoa.{ConversionSpecification, default_specification, int}
use reckless.Ntoa.Itoa.Spec.{number_text}
use reckless.Formatter.Parse.{parse-width_precision}
use reckless.Formatter.{
  parse_conversion_specification, parse_flags, set_flag, number_or, parse_precision, format, Value,
  std_string, integer,
}
use reckless.Formatter.Expand.{expand, unescape}
use reckless.Formatter.Convert.{with_s, with_d, Converts}
use reckless.Formatter.Message.{Expands, converted, no_arguments, format-Expands}
use reckless.Tests.Samples.{page_buffer, empty_page, Page}

parse-width_precision_example :
    parse_conversion_specification (decimal 2 10 (b'.' ∷ decimal 1 3 (codes "d")))
    ≡ (record default_specification { minimum_field_width = 10; precision = 3 }, codes "d")
parse-width_precision_example =
    parse-width_precision 1 0 10 3 (codes "d") (omega arith) (omega arith) (omega arith)
      (omega arith) (omega arith) refl

-- No floating-point number is among the arguments.
abbrev no_float : Unit {0} → ConversionSpecification → Page → Outcome (Unit {0}) Page (Unit {0})
no_float v cs = return tt

abbrev arguments : List (Value (Unit {0}))
arguments = std_string (codes "rate") ∷ integer (int (pos 42)) ∷ []

rate-Expands : Expands page_buffer no_float (codes "%s: %d%%") arguments (codes "rate: 42%")
unfolding expand unescape Converts parse_conversion_specification parse_flags set_flag number_or
    parse_precision decimal number_text
rate-Expands =
    converted (codes "%s: %d%%") [] (codes "s: %d%%") (codes "rate") (codes ": %d%%")
      (codes ": 42%") (std_string (codes "rate")) (integer (int (pos 42)) ∷ []) refl
      (with_s (codes ": %d%%") refl)
      (converted (codes ": %d%%") (codes ": ") (codes "d%%") (codes "42") (codes "%%") (codes "%")
        (integer (int (pos 42))) [] refl
        (
          omega arith,
          with_d default_specification (codes "%%") 2 refl
              (record { width_small = omega arith; precision_small = inl refl })
              (inl (record { below = omega arith; above = omega arith }, omega arith)),
        )
        (no_arguments (codes "%%")))

format-Expands_example :
    Appends page_buffer
      (codes "rate: 42%")
      empty_page
      (format page_buffer no_float (codes "%s: %d%%") arguments empty_page)
format-Expands_example =
    format-Expands page_buffer no_float (codes "%s: %d%%") (codes "rate: 42%") arguments empty_page
      rate-Expands
