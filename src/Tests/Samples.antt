-- ===== src/Tests/Samples.antt =====
-- An output buffer without a limit, as the conversions of reckless/src/ntoa.cpp use it.
use reckless.Prelude.{ℕ, ◌-◌, refl, sym, ap, List, ◌++◌, length, replicate, length-replicate, arith}
use reckless.Output.{Buffer, Outcome, done, threw, blocked}

-- The text so far, and the room that is left without a flush.
pub record Page : Type 0 where
  pub text : List ℕ
  pub room : ℕ

abbrev pub empty_page : Page
empty_page = record { text = List.[]; room = 1024 }

-- The page after a call, as far as the call has come.
abbrev pub page_of : {A : Type 0} → Outcome (Unit {0}) Page A → Page
page_of (done a s) = s
page_of (threw e s) = s
page_of (blocked s) = s

abbrev pub page_buffer : Buffer
page_buffer = record {
  State = Page;
  Error = Unit;
  text = λ s. s.text;
  space = λ s. s.room;
  reserve = λ n s. done tt s;
  region = λ n s. replicate n 0;
  commit = λ bytes s. record { text = s.text ++ bytes; room = s.room - length bytes };
  reserve_done = λ n s e. sym (ap (λ o. (page_of o).text) e);
  reserve_threw = λ n s e. sym (ap (λ o. (page_of o).text) e);
  reserve_blocked = λ n s e. sym (ap (λ o. (page_of o).text) e);
  reserve_fits = λ n s h. refl;
  length-region = λ n s e. length-replicate n 0;
  text-commit = λ n bytes s e h. refl;
  space-commit = λ n bytes s h e. omega arith;
}
