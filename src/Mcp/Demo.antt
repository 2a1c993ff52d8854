-- ===== src/Mcp/Demo.antt =====
-- ts/src/mcp/demo.ts: the checks of a client on the result of a tool call and on its receipt. What the
-- demo prints is left out.
use veritrail.Prelude.{◌∷◌, List, not, Option, none, some}
use veritrail.Platform.{Platform}
use veritrail.Text.{Str, codes, split}
use veritrail.Text.Base64.{from_base64}
use veritrail.Text.Utf8.{lossy_utf8}
use veritrail.Value.{Value, num, str, obj, Fields, prop, set, is_str, as_str, as_object}
use veritrail.Value.Json.{parse}
use veritrail.Stringify.{json_string}
use veritrail.Outcome.{Outcome, pass, or_throw, require, ◌>>=◌, ◌>>◌}
use veritrail.Artifact.{read_prop}
use veritrail.Verify.{Registry, Policy, verify}
use veritrail.Mcp.{
  KeyPair, generate_test_signer, registry_from_signer, compute_outputs_hash, receipt_meta_key,
  meta_key,
}
use veritrail.Mcp.Server.{Arithmetic, Moment, Transport, run_round_trip, text_content, single}

-- `xs[1]`
unfoldable pub second : List Str → Option Str
second (_ ∷ s ∷ _) = some s
second _ = none

-- `{ expected_binding: binding, expected_method: method }`
abbrev pub expecting : Str → Str → Policy
expecting binding method = record { expected_binding = some binding; expected_method = some method }

module _ (p : Platform) where
  open p use {Num, number_value}

  -- `(o as Record<string, string>)[RECEIPT_META_KEY]`, used as a string.
  unfoldable pub attached_receipt : Value Num → Outcome Str Str
  unfolding read_prop as_str or_throw
  attached_receipt o = do v ← read_prop receipt_meta_key o; or_throw (as_str v)

  -- `JSON.parse(Buffer.from(jws.split('.')[1], 'base64url').toString('utf8'))`
  unfoldable pub receipt_payload_of : Str → Outcome Str (Value Num)
  unfolding second or_throw
  receipt_payload_of jws = do
    seg ← or_throw (second (split b'.' jws))
    or_throw (parse p (lossy_utf8 (from_base64 seg)))

  -- The check that the demos make of a receipt: its `outputs_hash`, if `verify` accepts it.
  unfoldable pub verified_hash : Registry → Policy → Str → Outcome Str (Value Num)
  unfolding receipt_payload_of read_prop or_throw require
  verified_hash keys policy jws = do
    payload ← receipt_payload_of jws
    outputs_hash ← read_prop (codes "outputs_hash") payload
    v ←
        or_throw
          (verify p (record { signed_receipt = str jws; keys = some keys; policy = some policy }))
    require v.valid (codes "demo failed: receipt did not verify") >> pass outputs_hash

  -- Steps 2 to 4: the hash in the receipt of a result, if the receipt is accepted and binds the result.
  unfoldable pub accept_result : Registry → Fields Num → Outcome Str (Value Num)
  unfolding attached_receipt verified_hash is_str
  accept_result keys result = do
    jws ← attached_receipt (prop meta_key result)
    outputs_hash ← verified_hash keys (expecting (codes "mcp") (codes "mcp:add")) jws
    require (is_str (compute_outputs_hash p result) outputs_hash)
          (codes "demo failed: receipt does not bind the actual output")
        >> pass outputs_hash

  -- The forged result.
  unfoldable pub forge : Fields Num → Outcome Str (Fields Num)
  unfolding set as_object or_throw
  forge result = do
    copy ← or_throw (parse p (json_string p (obj result)))
    tampered ← or_throw (as_object copy)
    pass (
        set (codes "content") (text_content (codes "999")) (
          set (codes "structuredContent") (single (codes "sum") (num (number_value (codes "999"))))
            tampered))

  -- Step 5: its hash is not the one in the receipt.
  unfoldable pub reject_forged : Value Num → Fields Num → Outcome Str (Unit {0})
  unfolding forge is_str require
  reject_forged outputs_hash result = do
    tampered ← forge result
    require (not (is_str (compute_outputs_hash p tampered) outputs_hash))
        (codes "demo failed: tamper not caught")

  module _ (arithmetic : Arithmetic p) where
    -- `main`; `pair` is the key pair that is generated, and `spare` one that the server does not use.
    unfoldable pub demo : Transport p → KeyPair p → KeyPair p → Moment p → Outcome Str (Unit {0})
    unfolding run_round_trip accept_result reject_forged read_prop
    demo transport pair spare moment = do
      let signer = generate_test_signer p pair none none
      trip ← run_round_trip p arithmetic transport spare moment (record {
        signer = some signer;
        tool_name = codes "add";
        a = number_value (codes "2");
        b = number_value (codes "3");
      })
      sum ← read_prop (codes "sum") (prop (codes "structuredContent") trip.result)
      outputs_hash ← accept_result (registry_from_signer p signer) trip.result
      reject_forged outputs_hash trip.result
