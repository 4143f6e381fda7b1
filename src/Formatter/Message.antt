-- ===== src/Formatter/Message.antt =====
-- What `template_formatter::format` of reckless/src/template_formatter.cpp makes of a format string
-- and its arguments.
use reckless.Prelude.{ℕ, ◌≡◌, List, [], ◌∷◌, ◌++◌, append-nil, Option, none, some, sym}
use reckless.Output.{Buffer, Outcome}
use reckless.Output.Appends.{Appends, Yields, bind-Appends, use-Yields}
use reckless.Ntoa.Itoa.{ConversionSpecification}
use reckless.Formatter.{Value, format, format_value, next_specifier, append_percent}
use reckless.Formatter.Expand.{
  expand, unescape, next_specifier-Yields, append_percent-Appends, format-unescape,
}
use reckless.Formatter.Convert.{Converts}
use reckless.Formatter.Convert.Apply.{format_value-Yields}

module _ (b : Buffer) {D : Type 0}
    (ftoa : D → ConversionSpecification → b.State → Outcome b.Error b.State (Unit {0})) where
  -- The message for a format string and its arguments: each takes the next specifier. A specifier
  -- that is not one for its argument stays, with its `%`, and the argument is used up; arguments
  -- behind the last specifier are left out.
  pub data Expands : List ℕ → List (Value D) → List ℕ → Type 0 where
    no_arguments : (p : List ℕ) → Expands p [] (unescape p)
    arguments_left :
        (p text : List ℕ) (v : Value D) (args : List (Value D))
        → expand p ≡ (text, none)
        → Expands p (v ∷ args) text
    converted :
        (p text specifier out rest more : List ℕ) (v : Value D) (args : List (Value D))
        → expand p ≡ (text, some specifier)
        → Converts b ftoa v specifier out (some rest)
        → Expands rest args more
        → Expands p (v ∷ args) (text ++ (out ++ more))
    not_converted :
        (p text specifier more : List ℕ) (v : Value D) (args : List (Value D))
        → expand p ≡ (text, some specifier)
        → Converts b ftoa v specifier [] none
        → Expands specifier args more
        → Expands p (v ∷ args) (text ++ (b'%' ∷ more))

  found :
      (p text : List ℕ) (next : Option (List ℕ)) (s : b.State)
      → expand p ≡ (text, next)
      → Yields b text next s (next_specifier b p s)
  found p text next s e = let y = next_specifier-Yields b p s in rw e at y

  -- For a format string and arguments with a message, integers and addresses that fit their types,
  -- and a conversion of floating-point numbers that appends their texts: `format` appends the
  -- message; or, if the buffer fails, a first part of it. In the message, each argument takes the
  -- next specifier and stands there as `Converts` says: an integer in decimal for `d`, and for `x`
  -- and `X` as the hexadecimal digits of its absolute value with a minus sign if it is negative,
  -- with the flags, width and precision that `parse_conversion_specification` reads; a text for
  -- `s`, a pointer as its address, a floating-point number as its conversion has it. A specifier
  -- that is not one for its argument stays and the argument is left out, as are arguments behind
  -- the last specifier; `%%` is one `%`, and specifiers behind the last argument stay.
  pub format-Expands :
      (p text : List ℕ) (args : List (Value D)) (s : b.State)
      → Expands p args text
      → Appends b text s (format b ftoa p args s)
  unfolding format
  format-Expands _ _ _ s (no_arguments p) = format-unescape b ftoa p s
  format-Expands _ _ _ s (arguments_left p text v args e) = rw (← append-nil text) (
      use-Yields b text [] none s (next_specifier b p) _ (found p text none s e)
        (λ t. sym (append-nil (b.text t))))
  format-Expands _ _ _ s (converted p t specifier out rest more v args e c m) =
      use-Yields b t (out ++ more) (some specifier) s (next_specifier b p) _
        (found p t (some specifier) s e)
        (λ s'.
          use-Yields b out more (some rest) s' (format_value b ftoa specifier v) _
            (format_value-Yields b ftoa v specifier out (some rest) s' c)
            (λ s''. format-Expands rest more args s'' m))
  format-Expands _ _ _ s (not_converted p t specifier more v args e c m) =
      use-Yields b t (b'%' ∷ more) (some specifier) s (next_specifier b p) _
        (found p t (some specifier) s e)
        (λ s'.
          use-Yields b [] (b'%' ∷ more) none s' (format_value b ftoa specifier v) _
            (format_value-Yields b ftoa v specifier [] none s' c)
            (λ s''.
              bind-Appends b (b'%' ∷ []) more s'' (append_percent b)
                (λ a. format b ftoa specifier args) (append_percent-Appends b s'')
                (λ a t'. format-Expands specifier more args t' m)))
