-- ===== src/Cli/Commands.antt =====
-- The commands of ts/src/cli.ts on inputs of any type, with their outputs as values.
use veritrail.Prelude.{Option, none, some}
use veritrail.Platform.{Platform}
use veritrail.Text.{Str, Bytes, codes}
use veritrail.Text.Base64.{from_base64}
use veritrail.Text.Hex.{from_hex, to_hex}
use veritrail.Value.{
  Value, undefined, null, bool, num, str, obj, Fields, end, field, prop, is_str, as_str,
}
use veritrail.Jcs.{jcs, JcsOutput, jcs_bytes}
use veritrail.Hash.{Reply, reply, error, encode_hashstring, digest_bytes}
use veritrail.Receipt.{ReceiptIdOutput, receipt_id, cost_canon}
use veritrail.Sse.{SseOutput, mode_of, sse_output, committed, parse_sse, Mode}
use veritrail.Outcome.{or_throw, Outcome, pass, fail, thrown, ◌>>=◌, ◌>>◌, require, require_some}
use veritrail.Verify.{
  Reason, malformed, header_key_material, unknown_key, revoked_key, alg_not_allowed, bad_signature,
  non_canonical_payload, context_mismatch, ok, Registry, Policy, VerifyOutput, verify,
}
use veritrail.Chain.{
  ChainReason, empty_chain, receipt_invalid, malformed_chain, link_mismatch,
  parent_identity_mismatch, cycle, chain_ok, VerifyChainOutput, verify_chain,
}
use veritrail.Artifact.{read_prop, a2a_artifact_hash}
use veritrail.Sign.{sign}
use veritrail.Cli.Inputs.{Host, input_fields, as_policy, as_registry}

-- `{ [k]: s }` for a string.
abbrev pub one_field : {N : Type 0} → Str → Str → Value N
one_field k s = obj (field k (str s) end)

-- The reason codes, as the output spells them.
unfoldable pub reason_code : Reason → Str
reason_code malformed = codes "malformed"
reason_code header_key_material = codes "header_key_material"
reason_code unknown_key = codes "unknown_key"
reason_code revoked_key = codes "revoked_key"
reason_code alg_not_allowed = codes "alg_not_allowed"
reason_code bad_signature = codes "bad_signature"
reason_code non_canonical_payload = codes "non_canonical_payload"
reason_code context_mismatch = codes "context_mismatch"
reason_code ok = codes "ok"

unfoldable pub chain_reason_code : ChainReason → Str
chain_reason_code empty_chain = codes "empty_chain"
chain_reason_code receipt_invalid = codes "receipt_invalid"
chain_reason_code malformed_chain = codes "malformed_chain"
chain_reason_code link_mismatch = codes "link_mismatch"
chain_reason_code parent_identity_mismatch = codes "parent_identity_mismatch"
chain_reason_code cycle = codes "cycle"
chain_reason_code chain_ok = codes "ok"

-- `{ valid, reason }`
unfoldable pub verify_value : {N : Type 0} → VerifyOutput → Value N
unfolding reason_code
verify_value out = obj (
    field (codes "valid") (bool out.valid)
      (field (codes "reason") (str (reason_code out.reason)) end))

-- `{ error }`, or the output.
unfoldable pub of_reply : {A : Type 0} → Reply A → Outcome Str A
of_reply (reply a) = pass a
of_reply (error code) = fail code

module _ (p : Platform) where
  open p use {Num}

  -- `receiptId` on a receipt of any type: only null and undefined have no own properties to ask for.
  unfoldable pub receipt_id_of : Value Num → Outcome Str (ReceiptIdOutput p)
  unfolding of_reply receipt_id
  receipt_id_of undefined = thrown
  receipt_id_of null = thrown
  receipt_id_of (obj fs) = of_reply (receipt_id p fs)
  receipt_id_of v = pass (record {
    canonical_hex = to_hex (jcs_bytes p v);
    receipt_id = digest_bytes p (jcs_bytes p v);
  })

  unfoldable pub receipt_id_value : ReceiptIdOutput p → Value Num
  receipt_id_value out = obj (
      field (codes "canonical_hex") (str out.canonical_hex)
        (field (codes "receipt_id") (str out.receipt_id) end))

  -- `receipt-id`
  unfoldable pub receipt_id_command : Value Num → Outcome Str (Value Num)
  unfolding read_prop receipt_id_of receipt_id_value
  receipt_id_command input = do
    receipt ← read_prop (codes "receipt") input
    out ← receipt_id_of receipt
    pass (receipt_id_value out)

  -- `costCanon` on a cost of any type.
  unfoldable pub cost_of : Value Num → Outcome Str Str
  unfolding of_reply cost_canon
  cost_of undefined = thrown
  cost_of null = thrown
  cost_of (obj fs) = of_reply (cost_canon p fs)
  cost_of v = pass (to_hex (jcs_bytes p v))

  -- `cost-canon`
  unfoldable pub cost_command : Value Num → Outcome Str (Value Num)
  unfolding read_prop cost_of
  cost_command input = do
    cost ← read_prop (codes "cost") input
    hex ← cost_of cost
    pass (one_field (codes "canonical_hex") hex)

  -- `a2a-artifact-hash`
  unfoldable pub artifact_command : Value Num → Outcome Str (Value Num)
  unfolding read_prop a2a_artifact_hash
  artifact_command input = do
    artifact ← read_prop (codes "artifact") input
    out ← a2a_artifact_hash p artifact
    pass (
        obj (
          field (codes "outputs_hash") (str out.outputs_hash)
            (field (codes "descriptor_hex") (str out.descriptor_hex) end)))

  -- `sign`
  unfoldable pub sign_command : Value Num → Outcome Str (Value Num)
  unfolding sign
  sign_command input = do jws ← sign p input; pass (one_field (codes "signed_receipt") jws)

  module _ (host : Host p) where
    -- `Buffer.from(v, encoding)`, given how a string is decoded.
    unfoldable pub buffer : Str → (Str → Bytes) → Value Num → Outcome Str Bytes
    unfolding or_throw
    buffer encoding decode (str s) = pass (decode s)
    buffer encoding decode v = or_throw (host.buffer_from encoding v)

    unfoldable pub jcs_value : JcsOutput p → Value Num
    jcs_value out = obj (
        field (codes "canonical_hex") (str out.canonical_hex)
          (field (codes "byte_len") (num (host.number_of out.byte_len)) end))

    -- `jcs`
    unfoldable pub jcs_command : Value Num → Outcome Str (Value Num)
    unfolding read_prop jcs_value jcs
    jcs_command input = do v ← read_prop (codes "value") input; pass (jcs_value (jcs p v))

    -- `hashstring`
    unfoldable pub hashstring_command : Value Num → Outcome Str (Value Num)
    unfolding read_prop is_str buffer encode_hashstring from_hex
    hashstring_command input = do
      algo ← read_prop (codes "algo") input
      require (is_str (codes "sha2-256") algo) (codes "unsupported_algo")
      v ← read_prop (codes "digest_hex") input
      digest ← buffer (codes "hex") from_hex v
      pass (one_field (codes "hashstr") (encode_hashstring digest))

    -- `digest`
    unfoldable pub digest_command : Value Num → Outcome Str (Value Num)
    unfolding read_prop buffer digest_bytes from_base64
    digest_command input = do
      v ← read_prop (codes "bytes_b64") input
      raw ← buffer (codes "base64") from_base64 v
      pass (one_field (codes "hashstr") (digest_bytes p raw))

    -- `sse-outputs-hash`
    unfoldable pub mode_value : Option Str → Option Mode
    unfolding mode_of
    mode_value none = none
    mode_value (some m) = mode_of m

    unfoldable pub sse_value : SseOutput → Value Num
    sse_value out = obj (
        field (codes "decoded_hex") (str out.decoded_hex)
          (field (codes "outputs_hash") (str out.outputs_hash) end))

    unfoldable pub sse_command : Value Num → Outcome Str (Value Num)
    unfolding read_prop mode_value buffer from_base64 sse_value sse_output committed parse_sse
        as_str
    sse_command input = do
      m ← read_prop (codes "mode") input
      mode ← require_some (mode_value (as_str m)) (codes "unsupported_mode")
      v ← read_prop (codes "raw_b64") input
      raw ← buffer (codes "base64") from_base64 v
      pass (sse_value (sse_output p (committed p mode (parse_sse raw))))

    unfoldable pub chain_value : VerifyChainOutput → Value Num
    unfolding chain_reason_code
    chain_value out = obj (
        field (codes "valid") (bool out.valid) (
          field (codes "reason") (str (chain_reason_code out.reason))
            (field (codes "chain_len") (num (host.number_of out.chain_len)) end)))

    -- A call with the registry and the policy of the input, if they have their types.
    unfoldable pub typed :
        Str
        → Value Num
        → Option (Option Registry)
        → Option (Option Policy)
        → (Option Registry → Option Policy → Outcome Str (Value Num))
        → Outcome Str (Value Num)
    unfolding or_throw
    typed command input (some keys) (some policy) call = call keys policy
    typed command input _ _ call = or_throw (host.mistyped command input)

    unfoldable pub verify_call :
        Fields Num → Option Registry → Option Policy → Outcome Str (Value Num)
    unfolding verify verify_value or_throw
    verify_call fs keys policy = do
      out ← or_throw (
          verify p (record {
            signed_receipt = prop (codes "signed_receipt") fs;
            keys = keys;
            policy = policy;
          }))
      pass (verify_value out)

    -- `verify`
    unfoldable pub verify_command : Value Num → Outcome Str (Value Num)
    unfolding input_fields as_registry as_policy typed verify_call
    verify_command input = do
      fs ← input_fields input
      typed (codes "verify") input (as_registry (prop (codes "keys") fs))
          (as_policy (prop (codes "policy") fs)) (verify_call fs)

    unfoldable pub chain_call :
        Fields Num → Option Registry → Option Policy → Outcome Str (Value Num)
    unfolding verify_chain chain_value or_throw
    chain_call fs keys policy = do
      out ← or_throw (
          verify_chain p
            (record { receipts = prop (codes "receipts") fs; keys = keys; policy = policy }))
      pass (chain_value out)

    -- `verify-chain`
    unfoldable pub chain_command : Value Num → Outcome Str (Value Num)
    unfolding input_fields as_registry as_policy typed chain_call
    chain_command input = do
      fs ← input_fields input
      typed (codes "verify-chain") input (as_registry (prop (codes "keys") fs))
          (as_policy (prop (codes "policy") fs)) (chain_call fs)
