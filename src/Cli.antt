-- ===== src/Cli.antt =====
-- ts/src/cli.ts: one command, its JSON input on the standard input, one line of canonical JSON.
pub mod Inputs
pub mod Commands
pub mod Output
pub mod Verify
use veritrail.Prelude.{[], ◌∷◌, ◌++◌, List, Option, none, some, if◌then◌else◌, flat_map}
use veritrail.Platform.{Platform}
use veritrail.Text.{Str, Bytes, codes, str_eq}
use veritrail.Text.Utf8.{lossy_utf8}
use veritrail.Value.{Value, obj, str, Fields, end, field}
use veritrail.Value.Json.{parse}
use veritrail.Jcs.{jcs_string, quote}
use veritrail.Outcome.{Outcome, pass, fail, thrown}
use veritrail.Cli.Inputs.{Host}
use veritrail.Cli.Commands.{
  jcs_command, hashstring_command, digest_command, receipt_id_command, sse_command, cost_command,
  verify_command, chain_command, artifact_command, sign_command,
}

-- `readStdin`, on the chunks of the stream.
unfoldable pub read_stdin : List Bytes → Str
unfolding lossy_utf8
read_stdin chunks = lossy_utf8 (flat_map (λ chunk. chunk) chunks)

-- `JSON.stringify({ error: code }) + '\n'`
unfoldable pub error_line : Str → Str
unfolding quote
error_line code = codes "{\"error\":" ++ quote code ++ codes "}\n"

module _ (p : Platform) (host : Host p) where
  open p use {Num}

  -- The `switch` of `main`.
  unfoldable pub run_command : Str → Value Num → Outcome Str (Value Num)
  unfolding str_eq
  run_command command input =
      if str_eq command (codes "jcs")
      then jcs_command p host input
      else if str_eq command (codes "hashstring")
      then hashstring_command p host input
      else if str_eq command (codes "digest")
      then digest_command p host input
      else if str_eq command (codes "receipt-id")
      then receipt_id_command p input
      else if str_eq command (codes "sse-outputs-hash")
      then sse_command p host input
      else if str_eq command (codes "cost-canon")
      then cost_command p input
      else if str_eq command (codes "verify")
      then verify_command p host input
      else if str_eq command (codes "verify-chain")
      then chain_command p host input
      else if str_eq command (codes "a2a-artifact-hash")
      then artifact_command p input
      else if str_eq command (codes "sign")
      then sign_command p input
      else fail (codes "unknown_command")

  -- What `result` holds after the `switch` and its `catch`.
  unfoldable pub result_of : Outcome Str (Value Num) → Value Num
  result_of (pass v) = v
  result_of (fail code) = obj (field (codes "error") (str code) end)
  result_of thrown = obj (field (codes "error") (str (codes "internal_error")) end)

  -- The last line of `main`.
  unfoldable pub result_line : Outcome Str (Value Num) → Str
  unfolding result_of jcs_string
  result_line o = jcs_string p (result_of o) ++ codes "\n"

  unfoldable pub on_input : Str → Option (Value Num) → Str
  unfolding error_line run_command result_line
  on_input command none = error_line (codes "invalid_json")
  on_input command (some input) = result_line (run_command command input)

  unfoldable pub on_stdin : Str → Option (List Bytes) → Str
  unfolding error_line on_input read_stdin parse
  on_stdin command none = error_line (codes "stdin_read_error")
  on_stdin command (some chunks) = on_input command (parse p (read_stdin chunks))

  -- `main`: `process.argv[2]` and the chunks of the standard input, `none` where reading it throws,
  -- give what is written to the standard output.
  unfoldable pub main : Option Str → Option (List Bytes) → Str
  unfolding error_line on_stdin
  main none stdin = error_line (codes "missing_command")
  main (some []) stdin = error_line (codes "missing_command")
  main (some (c ∷ cs)) stdin = on_stdin (c ∷ cs) stdin
