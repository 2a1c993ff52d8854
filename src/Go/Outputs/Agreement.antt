-- ===== src/Go/Outputs/Agreement.antt =====
-- `SSEOutputsHash` of go/veritrail.go and `sseOutputsHash` of ts/src/commands/sse-outputs-hash.ts.
use veritrail.Prelude.{
  some-injective, ◌≡◌, refl, ap, ◌∙◌, List, [], ◌∷◌, map, Option, none, some, All,
}
use veritrail.Platform.{Platform}
use veritrail.Text.{Str, Bytes, codes, str_eq}
use veritrail.Text.Utf8.{encode_utf8}
use veritrail.Text.Utf8.RoundTrip.{IsText}
use veritrail.Value.{Value}
use veritrail.Jcs.{jcs_bytes}
use veritrail.Hash.{digest_bytes, encode_hashstring}
use veritrail.Sse.{
  Mode, sse, sse_jsonrpc, mode_of, strip_bom, events, parse_sse, inner_result, result_parts,
  sse_output,
}
use veritrail.Sse
use veritrail.Go.Library.{Library}
use veritrail.Go.Sse.Agreement.{sse_decode-parse_sse, parse_sse-events, join-encode_utf8}
use veritrail.Go.Chain.{digest, hash_string_from_bytes}
use veritrail.Go.Outputs.{raw_result, add_part, parts, committed, sse_outputs_hash}

-- The name of a mode.
abbrev pub mode_text : Mode → Str
mode_text sse = codes "sse"
mode_text sse_jsonrpc = codes "sse-jsonrpc"

module _ (p : Platform) (lib : Library) where
  abbrev transformed : Option Bytes → Option (Option Bytes)
  transformed none = none
  transformed (some raw) = some (lib.transform raw)

  abbrev canonical : Option (Value p.Num) → Option (Option Bytes)
  canonical none = none
  canonical (some v) = some (some (jcs_bytes p v))

  -- A message whose result both programs find and canonicalise alike, or in which neither finds one.
  abbrev pub IsMessageAlike : Str → Type 0
  IsMessageAlike msg =
      transformed (raw_result lib (encode_utf8 msg)) ≡ canonical (inner_result p msg)

  part_step :
      (o : Option Bytes) (v : Option (Value p.Num)) (rest : List Bytes)
      → transformed o ≡ canonical v
      → add_part lib o (some rest) ≡ some (elim v [ none ↦ rest | some w ↦ jcs_bytes p w ∷ rest ])
  unfolding add_part
  part_step none none rest h = refl
  part_step none (some v) rest h = cc
  part_step (some raw) none rest h = cc
  part_step (some raw) (some v) rest h =
      let same : lib.transform raw ≡ some (jcs_bytes p v) = some-injective h in rw same refl

  parts-result_parts :
      (msgs : List Str)
      → All IsMessageAlike msgs
      → parts lib (map encode_utf8 msgs) ≡ some (result_parts p msgs)
  unfolding parts result_parts
  parts-result_parts [] h = refl
  parts-result_parts (msg ∷ msgs) (alike, h) =
      ap (add_part lib (raw_result lib (encode_utf8 msg))) (parts-result_parts msgs h)
      ∙ part_step (raw_result lib (encode_utf8 msg)) (inner_result p msg) (result_parts p msgs)
          alike

  -- What is asked of the messages in each mode.
  abbrev pub AreAlike : Mode → List Str → Type 0
  AreAlike sse msgs = Unit
  AreAlike sse_jsonrpc msgs = All IsMessageAlike msgs

  committed_as :
      (m : Mode) (s : Str)
      → IsText s
      → AreAlike m (events s)
      → committed lib (mode_text m) (map encode_utf8 (events s))
        ≡ some (Sse.committed p m (events s))
  unfolding committed Sse.committed str_eq
  committed_as sse s t h = ap some (join-encode_utf8 s t)
  committed_as sse_jsonrpc s t h = rw (parts-result_parts (events s) h) refl

  -- In either mode and on a stream that is UTF-8 behind a byte order mark, if it has one, Go commits
  -- to the bytes that TypeScript commits to, and returns the same hex text and the same hash. The two
  -- hash functions agree and, in the mode `sse-jsonrpc`, each message has a result that both programs
  -- find and canonicalise alike, or none that either finds.
  pub sse_outputs_hash-parse_sse :
      (m : Mode) (raw : Bytes) (s : Str)
      → strip_bom raw ≡ encode_utf8 s
      → IsText s
      → AreAlike m (events s)
      → ((b : Bytes) → lib.sha256 b ≡ p.sha256 b)
      → sse_outputs_hash lib raw (mode_text m)
        ≡ some (sse_output p (Sse.committed p m (parse_sse raw)))
  unfolding sse_outputs_hash sse_output digest digest_bytes hash_string_from_bytes encode_hashstring
  sse_outputs_hash-parse_sse m raw s h t alike same =
      rw
        (
          sse_decode-parse_sse raw s h t,
          parse_sse-events raw s h t,
          committed_as m s t alike,
          same (Sse.committed p m (events s)),
        )
        refl
