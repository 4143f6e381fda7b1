-- ===== src/PolicyLog.antt =====
-- reckless/include/reckless/policy_log.hpp and severity_log.hpp: the line that a log writes for an
-- entry, with its header fields and its indentation.
pub mod Line
use reckless.Prelude.{
  ℕ, ◌+◌, ◌-◌, ◌*◌, ◌/◌, ◌%◌, ◌^◌, List, [], ◌∷◌, ◌++◌, length, take, drop, replicate, map,
}
use reckless.Output.{Buffer, Outcome, return, ◌>>◌, emit}
use reckless.Ntoa.Itoa.{ConversionSpecification}
use reckless.Formatter
use reckless.Formatter.{Value}

-- `timeval`.
pub record Timeval : Type 0 where
  pub tv_sec : ℕ
  pub tv_usec : ℕ

-- The `unsigned` of `scoped_indent`, which its constructor and its destructor change.
pub enter_indent : ℕ → ℕ
enter_indent level = (level + 1) % 2 ^ 32

pub leave_indent : ℕ → ℕ
leave_indent level = (level + 2 ^ 32 - 1) % 2 ^ 32

-- The classes for `IndentPolicy`; `indent` has its template parameters, and the level at which it
-- was constructed.
pub data IndentPolicy : Type 0 where
  no_indent : IndentPolicy
  indent : ℕ → ℕ → ℕ → IndentPolicy

-- The header fields of the library.
pub data HeaderField : Type 0 where
  timestamp_field : Timeval → HeaderField
  severity_field : ℕ → HeaderField

-- A class of header fields, as a template parameter of the logs.
pub data HeaderClass : Type 0 where
  timestamp severity : HeaderClass

pub data Severity : Type 0 where
  debug info warn error : Severity

pub letter : Severity → ℕ
letter debug = b'D'
letter info = b'I'
letter warn = b'W'
letter error = b'E'

-- `construct_header_field`; `now` is what `gettimeofday` finds.
pub construct_header_field : Timeval → ℕ → HeaderClass → HeaderField
construct_header_field now c timestamp = timestamp_field now
construct_header_field now c severity = severity_field c

-- Bytes written over a region from `offset` on.
pub print_at : ℕ → List ℕ → List ℕ → List ℕ
print_at offset bytes mem = take offset mem ++ bytes ++ drop (offset + length bytes) mem

-- The C library's `strftime` with the format of the source, of the `localtime_r` of a time, and
-- `sprintf` of a number with "%03u", both without the terminating 0.
module _ (strftime : ℕ → List ℕ) (sprintf : ℕ → List ℕ) (b : Buffer) where
  -- The bytes of a time stamp: two strings with their terminating 0, the second over the first one's.
  pub fill_timestamp : Timeval → List ℕ → List ℕ
  fill_timestamp tv mem =
      let p = print_at 0 (strftime tv.tv_sec ++ 0 ∷ []) mem in
      take 24 (print_at 20 (sprintf (tv.tv_usec / 1000) ++ b' ' ∷ 0 ∷ []) p)

  pub format_field : HeaderField → b.State → Outcome b.Error b.State (Unit {0})
  format_field (timestamp_field tv) = emit b 25 (fill_timestamp tv)
  format_field (severity_field c) = emit b 1 (λ mem. c ∷ [])

  pub apply : IndentPolicy → b.State → Outcome b.Error b.State (Unit {0})
  apply no_indent = return tt
  apply (indent multiplier character level) =
      let n = multiplier * level % 2 ^ 32 in emit b n (λ mem. replicate n character)

  pub format_fields : ℕ → List HeaderField → b.State → Outcome b.Error b.State (Unit {0})
  format_fields separator [] = return tt
  format_fields separator (field ∷ remaining) = do
    format_field field
    emit b 1 (λ mem. separator ∷ [])
    format_fields separator remaining

  module _ {D : Type 0}
      (ftoa : D → ConversionSpecification → b.State → Outcome b.Error b.State (Unit {0})) where
    -- `policy_formatter::format`.
    pub format :
        ℕ
        → List HeaderField
        → IndentPolicy
        → List ℕ
        → List (Value D)
        → b.State
        → Outcome b.Error b.State (Unit {0})
    format separator fields policy pformat args = do
      format_fields separator fields
      apply policy
      Formatter.format b ftoa pformat args
      emit b 1 (λ mem. b'\n' ∷ [])

    -- The formatter's call for `debug`, `info`, `warn` and `error` of a `severity_log`.
    pub write :
        Timeval
        → ℕ
        → List HeaderClass
        → IndentPolicy
        → Severity
        → List ℕ
        → List (Value D)
        → b.State
        → Outcome b.Error b.State (Unit {0})
    write now separator classes policy s =
        format separator (map (construct_header_field now (letter s)) classes) policy
