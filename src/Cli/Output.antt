-- ===== src/Cli/Output.antt =====
-- What ts/src/cli.ts writes to the standard output.
use veritrail.Prelude.{
  ◌≡◌, refl, sym, List, [], ◌∷◌, ◌++◌, append_assoc, All-append, Option, none, some,
}
use veritrail.Platform.{Platform}
use veritrail.Text.{Str, Bytes, codes}
use veritrail.Value.{Value}
use veritrail.Value.Json.{parse}
use veritrail.Jcs.{jcs_string, quote}
use veritrail.Jcs.Lines.{IsLine, quote-IsLine, jcs_string-IsLine}
use veritrail.Outcome.{Outcome}
use veritrail.Cli.{
  read_stdin, error_line, run_command, result_of, result_line, on_input, on_stdin, main,
}
use veritrail.Cli.Inputs.{Host}

-- A text that is one line with its break.
pub record IsOneLine (s : Str) : Type 0 where
  pub line : Str
  pub ends : s ≡ line ++ 10 ∷ []
  pub is_line : IsLine line

error_line-IsOneLine : (code : Str) → IsOneLine (error_line code)
unfolding error_line
error_line-IsOneLine code = record {
  line = codes "{\"error\":" ++ quote code ++ codes "}";
  ends = sym (append_assoc (codes "{\"error\":" ++ quote code) (codes "}") (10 ∷ []));
  is_line =
      All-append _ (codes "{\"error\":" ++ quote code) (codes "}")
        (All-append _ (codes "{\"error\":") (quote code)
          (refl, (refl, (refl, (refl, (refl, (refl, (refl, (refl, (refl, tt)))))))))
          (quote-IsLine code))
        (refl, tt);
}

module _ (p : Platform) (host : Host p) (numbers : (n : p.Num) → IsLine (p.number_text n)) where
  open p use {Num}

  result_line-IsOneLine : (o : Outcome Str (Value Num)) → IsOneLine (result_line p host o)
  unfolding result_line
  result_line-IsOneLine o = record {
    line = jcs_string p (result_of p host o);
    ends = refl;
    is_line = jcs_string-IsLine p numbers (result_of p host o);
  }

  on_input-IsOneLine :
      (command : Str) (input : Option (Value Num)) → IsOneLine (on_input p host command input)
  unfolding on_input
  on_input-IsOneLine command none = error_line-IsOneLine (codes "invalid_json")
  on_input-IsOneLine command (some input) = result_line-IsOneLine (run_command p host command input)

  -- Whatever the command and the input, and whether or not a command throws, the program writes one
  -- line, and the break at its end is the only one; the texts of numbers hold no line break.
  pub main-IsOneLine :
      (command : Option Str) (stdin : Option (List Bytes)) → IsOneLine (main p host command stdin)
  unfolding main on_stdin
  main-IsOneLine none stdin = error_line-IsOneLine (codes "missing_command")
  main-IsOneLine (some []) stdin = error_line-IsOneLine (codes "missing_command")
  main-IsOneLine (some (c ∷ cs)) none = error_line-IsOneLine (codes "stdin_read_error")
  main-IsOneLine (some (c ∷ cs)) (some chunks) =
      on_input-IsOneLine (c ∷ cs) (parse p (read_stdin chunks))
