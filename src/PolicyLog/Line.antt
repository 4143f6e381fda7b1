-- ===== src/PolicyLog/Line.antt =====
-- The line of an entry: its fields, each with the separator behind it, the indentation, the text of
-- the message and a line feed.
use reckless.Prelude.{
  ℕ, ◌*◌, ◌/◌, ◌%◌, ◌^◌, ◌<◌, ◌≡◌, refl, sym, ap, ◌∙◌, arith, List, [], ◌∷◌, ◌++◌, append-nil,
  append_assoc, length, take, replicate, map, length-append, length-replicate,
}
use reckless.Output.{Buffer, Outcome, emit}
use reckless.Output.Appends.{Appends, emit-Appends, emit_part-Appends, then-Appends}
use reckless.Ntoa.Itoa.{ConversionSpecification}
use reckless.Formatter
use reckless.Formatter.{Value}
use reckless.PolicyLog.{
  Timeval, IndentPolicy, no_indent, indent, HeaderField, timestamp_field, severity_field,
  HeaderClass, timestamp, severity, Severity, letter, construct_header_field, print_at,
  fill_timestamp, format_field, apply, format_fields, format, write, enter_indent, leave_indent,
}

-- The destructor of a `scoped_indent` undoes its constructor.
pub leave-enter_indent : (level : ℕ) → level < 2 ^ 32 → leave_indent (enter_indent level) ≡ level
unfolding leave_indent enter_indent
leave-enter_indent level h = omega arith

take_all : (xs ys : List ℕ) (n : ℕ) → length xs ≡ n → take n (xs ++ ys) ≡ xs
take_all [] ys n h = rw (sym h) refl
take_all (x ∷ xs) ys n h = rw (sym h) (ap (λ t. x ∷ t) (take_all xs ys (length xs) refl))

-- The bytes printed at the beginning, those printed over their end, and those committed.
stamp :
    (date ms rest behind : List ℕ)
    → length date ≡ 20
    → length ms ≡ 3
    → take 24 (take 20 ((date ++ 0 ∷ []) ++ rest) ++ (ms ++ b' ' ∷ 0 ∷ []) ++ behind)
      ≡ date ++ ms ++ b' ' ∷ []
stamp date ms rest behind h k =
    let first : take 20 ((date ++ 0 ∷ []) ++ rest) ≡ date =
      ap (take 20) (append_assoc date (0 ∷ []) rest) ∙ take_all date (0 ∷ rest) 20 h in
    let whole =
      ap (λ x. x ++ behind) (sym (append_assoc date ms (b' ' ∷ 0 ∷ [])))
      ∙ append_assoc (date ++ ms) (b' ' ∷ 0 ∷ []) behind
      ∙ sym (append_assoc (date ++ ms) (b' ' ∷ []) (0 ∷ behind)) in
    ap (λ x. take 24 (x ++ (ms ++ b' ' ∷ 0 ∷ []) ++ behind)) first
    ∙ ap (take 24) whole
    ∙ take_all (date ++ ms ++ b' ' ∷ []) (0 ∷ behind) 24
        (omega (arith, h, k, length-append (date ++ ms) (b' ' ∷ []), length-append date ms))

-- What the C library documents: the date and the time up to the second take 20 characters in the
-- years of four digits, and a number below 1000 is padded to three.
pub record IsTimePrinter (strftime sprintf : ℕ → List ℕ) (tv : Timeval) : Type 0 where
  pub date : length (strftime tv.tv_sec) ≡ 20
  pub milliseconds : length (sprintf (tv.tv_usec / 1000)) ≡ 3

module _ (strftime sprintf : ℕ → List ℕ) (b : Buffer) where
  abbrev FieldPrints : HeaderField → Type 0
  FieldPrints (timestamp_field tv) = IsTimePrinter strftime sprintf tv
  FieldPrints (severity_field c) = Unit

  abbrev Prints : List HeaderField → Type 0
  Prints [] = Unit
  Prints (field ∷ fields) = FieldPrints field × Prints fields

  constructed-Prints :
      (now : Timeval) (c : ℕ) (classes : List HeaderClass)
      → IsTimePrinter strftime sprintf now
      → Prints (map (construct_header_field now c) classes)
  unfolding construct_header_field
  constructed-Prints now c [] h = tt
  constructed-Prints now c (timestamp ∷ classes) h = (h, constructed-Prints now c classes h)
  constructed-Prints now c (severity ∷ classes) h = (tt, constructed-Prints now c classes h)

  -- The text of a field.
  pub field_text : HeaderField → List ℕ
  field_text (timestamp_field tv) = strftime tv.tv_sec ++ sprintf (tv.tv_usec / 1000) ++ b' ' ∷ []
  field_text (severity_field c) = c ∷ []

  pub indent_text : IndentPolicy → List ℕ
  indent_text no_indent = []
  indent_text (indent multiplier character level) =
      replicate (multiplier * level % 2 ^ 32) character

  pub header_text : ℕ → List HeaderField → List ℕ
  header_text separator [] = []
  header_text separator (field ∷ fields) =
      field_text field ++ separator ∷ header_text separator fields

  fill_timestamp_lem :
      (tv : Timeval) (mem : List ℕ)
      → IsTimePrinter strftime sprintf tv
      → fill_timestamp strftime sprintf b tv mem ≡ field_text (timestamp_field tv)
  unfolding fill_timestamp print_at field_text
  fill_timestamp_lem tv mem printer =
      stamp (strftime tv.tv_sec) (sprintf (tv.tv_usec / 1000)) _ _ printer.date printer.milliseconds

  character-Appends : (c : ℕ) (s : b.State) → Appends b (c ∷ []) s (emit b 1 (λ mem. c ∷ []) s)
  character-Appends c s = emit-Appends b 1 (λ mem. c ∷ []) (c ∷ []) s (λ mem e. refl) refl

  field-Appends :
      (field : HeaderField)
      → FieldPrints field
      → (s : b.State) → Appends b (field_text field) s (format_field strftime sprintf b field s)
  unfolding format_field field_text
  field-Appends (timestamp_field tv) printer s =
      let date = strftime tv.tv_sec in
      let ms = sprintf (tv.tv_usec / 1000) in
      emit_part-Appends b 25 (fill_timestamp strftime sprintf b tv) (date ++ ms ++ b' ' ∷ []) s
        (λ mem e. fill_timestamp_lem tv mem printer)
        (omega (
          arith,
          printer.date,
          printer.milliseconds,
          length-append (date ++ ms) (b' ' ∷ []),
          length-append date ms,
        ))
  field-Appends (severity_field c) h s = character-Appends c s

  apply-Appends :
      (policy : IndentPolicy) (s : b.State)
      → Appends b (indent_text policy) s (apply strftime sprintf b policy s)
  unfolding apply indent_text
  apply-Appends no_indent s = sym (append-nil (b.text s))
  apply-Appends (indent multiplier character level) s =
      emit-Appends b _ (λ mem. replicate _ character) _ s (λ mem e. refl)
        (length-replicate _ character)

  fields-Appends :
      (separator : ℕ) (fields : List HeaderField)
      → Prints fields
      → (s : b.State)
      → Appends b
          (header_text separator fields)
          s
          (format_fields strftime sprintf b separator fields s)
  unfolding format_fields header_text
  fields-Appends separator [] h s = sym (append-nil (b.text s))
  fields-Appends separator (field ∷ fields) (h, h') s =
      then-Appends b _ _ (field_text field) (separator ∷ header_text separator fields)
        (field-Appends field h)
        (then-Appends b _ _ (separator ∷ []) (header_text separator fields)
          (character-Appends separator) (fields-Appends separator fields h'))
        s

  module _ {D : Type 0}
      (ftoa : D → ConversionSpecification → b.State → Outcome b.Error b.State (Unit {0})) where
    format-Appends :
        (separator : ℕ) (fields : List HeaderField) (policy : IndentPolicy) (p : List ℕ)
        (args : List (Value D)) (body : List ℕ)
        → Prints fields
        → ((s : b.State) → Appends b body s (Formatter.format b ftoa p args s))
        → (s : b.State)
        → Appends b
            (header_text separator fields ++ (indent_text policy ++ (body ++ b'\n' ∷ [])))
            s
            (format strftime sprintf b ftoa separator fields policy p args s)
    unfolding format
    format-Appends separator fields policy p args body h message =
        then-Appends b _ _ (header_text separator fields)
          (indent_text policy ++ (body ++ b'\n' ∷ [])) (fields-Appends separator fields h)
          (then-Appends b _ _ (indent_text policy) (body ++ b'\n' ∷ []) (apply-Appends policy)
            (then-Appends b _ _ body (b'\n' ∷ []) message (character-Appends b'\n')))

    -- If the format string and its arguments append `body`, and the time is printed in 20
    -- characters and its milliseconds in 3, then `debug`, `info`, `warn` and `error` of a
    -- `severity_log` append each header field with the separator behind it, the indentation, `body`
    -- and a line feed; or, if the buffer fails, a first part of that.
    pub write-Appends :
        (now : Timeval) (separator : ℕ) (classes : List HeaderClass) (policy : IndentPolicy)
        (level : Severity) (p : List ℕ) (args : List (Value D)) (body : List ℕ)
        → IsTimePrinter strftime sprintf now
        → ((s : b.State) → Appends b body s (Formatter.format b ftoa p args s))
        → (s : b.State)
        → Appends b
            (header_text separator (map (construct_header_field now (letter level)) classes)
              ++ (indent_text policy ++ (body ++ b'\n' ∷ [])))
            s
            (write strftime sprintf b ftoa now separator classes policy level p args s)
    unfolding write
    write-Appends now separator classes policy level p args body printer message =
        format-Appends separator _ policy p args body
          (constructed-Prints now (letter level) classes printer) message
