-- ===== src/A2a/Demo.antt =====
-- ts/src/a2a/demo.ts: the checks of a consumer on an artifact and on its receipt. What the demo prints
-- is left out.
use veritrail.Prelude.{not, ◌++◌, none, some, if◌then◌else◌}
use veritrail.Platform.{Platform}
use veritrail.Text.{Str, codes}
use veritrail.Value.{Value, str, arr, obj, Items, nil, cons, set, is_str, as_array}
use veritrail.Value.Json.{parse}
use veritrail.Stringify.{json_string}
use veritrail.Outcome.{Outcome, pass, or_throw, require, ◌>>=◌, ◌>>◌}
use veritrail.Artifact.{read_prop, a2a_artifact_hash}
use veritrail.Verify.{Registry}
use veritrail.Mcp.{KeyPair, generate_test_signer, registry_from_signer}
use veritrail.Mcp.Server.{Moment, single}
use veritrail.Mcp.Demo.{expecting, attached_receipt, verified_hash}
use veritrail.A2a.Server.{Strings, Handler, run_a2a_round_trip}

abbrev pub tampered : Str
tampered = codes " (tampered)"

module _ (p : Platform) where
  open p use {Num}

  -- `hashOfParts`
  unfoldable pub hash_of_parts : Value Num → Outcome Str Str
  unfolding a2a_artifact_hash
  hash_of_parts parts =
      a2a_artifact_hash p (single (codes "parts") parts) >>= λ out. pass out.outputs_hash

  -- Steps 2 to 4: the hash in the receipt of an artifact, if the receipt is accepted and binds it.
  unfoldable pub accept_artifact : Registry → Value Num → Outcome Str (Value Num)
  unfolding attached_receipt verified_hash is_str require read_prop hash_of_parts
  accept_artifact keys artifact = do
    metadata ← read_prop (codes "metadata") artifact
    jws ← attached_receipt p metadata
    outputs_hash ← verified_hash p keys (expecting (codes "a2a") (codes "a2a:summarize")) jws
    parts ← read_prop (codes "parts") artifact
    recomputed ← hash_of_parts parts
    require (is_str recomputed outputs_hash)
          (codes "demo failed: receipt does not bind the artifact")
        >> pass outputs_hash

  module _ (strings : Strings p) where
    -- `v + ' (tampered)'`
    unfoldable pub tamper_text : Value Num → Outcome Str (Value Num)
    unfolding or_throw
    tamper_text (str s) = pass (str (s ++ tampered))
    tamper_text v = or_throw (strings.plus_string v tampered) >>= λ s. pass (str s)

    -- `p.text = …`, where `p` is an object, since it has a `kind`.
    unfoldable pub with_text : Value Num → Value Num → Value Num
    unfolding set
    with_text text (obj fs) = obj (set (codes "text") text fs)
    with_text text v = v

    -- The loop over the parts, which stops at the first text.
    unfoldable pub tamper_parts : Items Num → Outcome Str (Items Num)
    unfolding read_prop is_str tamper_text with_text
    tamper_parts nil = pass nil
    tamper_parts (cons v vs) = do
      let rest = tamper_parts vs
      kind ← read_prop (codes "kind") v
      if is_str (codes "text") kind
          then (do
            text ← read_prop (codes "text") v
            forged ← tamper_text text
            pass (cons (with_text forged v) vs))
          else (do ws ← rest; pass (cons v ws))

    -- Step 5: the hash of the forged parts is not the one in the receipt.
    unfoldable pub reject_tampered : Value Num → Value Num → Outcome Str (Unit {0})
    unfolding or_throw as_array tamper_parts hash_of_parts is_str require
    reject_tampered outputs_hash parts = do
      copy ← or_throw (parse p (json_string p parts))
      items ← or_throw (as_array copy)
      forged ← tamper_parts items
      recomputed ← hash_of_parts (arr forged)
      require (not (is_str recomputed outputs_hash)) (codes "demo failed: tamper not caught")

    -- `main`; `pair` is the key pair that is generated, and `spare` one that the agent does not use.
    unfoldable pub a2a_demo :
        Handler p → KeyPair p → KeyPair p → Moment p → Str → Str → Outcome Str (Unit {0})
    unfolding run_a2a_round_trip accept_artifact reject_tampered read_prop
    a2a_demo handler pair spare moment artifact_id message_id = do
      let signer = generate_test_signer p pair none none
      trip ←
          run_a2a_round_trip p strings handler spare moment artifact_id message_id
            (record { signer = some signer; skill = codes "summarize"; text = codes "hello world" })
      outputs_hash ← accept_artifact (registry_from_signer p signer) trip.artifact
      parts ← read_prop (codes "parts") trip.artifact
      reject_tampered outputs_hash parts
