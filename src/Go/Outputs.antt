-- ===== src/Go/Outputs.antt =====
-- go/veritrail.go: `SSEOutputsHash`.
pub mod Agreement
use veritrail.Prelude.{List, [], ◌∷◌, Option, none, some, if◌then◌else◌, ◌>>=◌}
use veritrail.Text.{Str, Bytes, codes, str_eq, join}
use veritrail.Text.Hex.{to_hex}
use veritrail.Sse.{SseOutput}
use veritrail.Go.Library.{Library}
use veritrail.Go.Sse.{sse_decode}
use veritrail.Go.Verify.{lookup}
use veritrail.Go.Chain.{digest}

module _ (lib : Library) where
  open lib use {unmarshal_object, transform}

  -- The `result` of a JSON-RPC message, if there is one.
  unfoldable pub raw_result : Bytes → Option Bytes
  unfolding lookup
  raw_result msg = unmarshal_object msg >>= λ rpc. lookup (codes "result") rpc

  -- One round of the loop over the messages: a message without a result is passed over.
  unfoldable pub add_part : Option Bytes → Option (List Bytes) → Option (List Bytes)
  add_part none rest = rest
  add_part (some raw) rest = transform raw >>= λ canon. rest >>= λ ps. some (canon ∷ ps)

  -- The loop over the messages; `none` is the error of `jcs.Transform`.
  unfoldable pub parts : List Bytes → Option (List Bytes)
  unfolding raw_result add_part
  parts [] = some []
  parts (msg ∷ messages) = add_part (raw_result msg) (parts messages)

  -- `switch mode`; `none` is an error.
  unfoldable pub committed : Str → List Bytes → Option Bytes
  unfolding str_eq join parts
  committed mode messages =
      if str_eq mode (codes "sse")
      then some (join (codes "\n") messages)
      else if str_eq mode (codes "sse-jsonrpc")
      then (parts messages >>= λ ps. some (join (codes "\n") ps))
      else none

  -- `SSEOutputsHash`
  unfoldable pub sse_outputs_hash : Bytes → Str → Option SseOutput
  unfolding committed sse_decode to_hex digest
  sse_outputs_hash raw mode = committed mode (sse_decode raw) >>= λ bytes.
      some (record { decoded_hex = to_hex bytes; outputs_hash = digest lib bytes })
