-- ===== src/A2a.antt =====
-- ts/src/a2a/veritrail-a2a-middleware.ts: receipts for A2A artifacts.
pub mod Server
pub mod Demo
pub mod Accepted
pub mod Tampered
pub mod Complete
use veritrail.Prelude.{◌++◌, Option}
use veritrail.Platform.{Platform}
use veritrail.Text.{Str, Bytes, codes}
use veritrail.Value.{Value, obj, Fields, end, field, prop}
use veritrail.Outcome.{Outcome, pass, fail, thrown, ◌>>=◌}
use veritrail.Artifact.{ArtifactHashOutput, a2a_artifact_hash}
use veritrail.Mcp.{TestSigner, receipt_payload, sign_receipt, attach}

module _ (p : Platform) where
  open p use {Num}

  -- A reply with `error` becomes an exception.
  unfoldable pub hash_or_throw : Outcome Str (ArtifactHashOutput p) → Outcome Str Str
  hash_or_throw (pass out) = pass out.outputs_hash
  hash_or_throw (fail _) = thrown
  hash_or_throw thrown = thrown

  -- `computeArtifactHash`
  unfoldable pub compute_artifact_hash : Value Num → Outcome Str Str
  unfolding hash_or_throw
  compute_artifact_hash parts =
      hash_or_throw (a2a_artifact_hash p (obj (field (codes "parts") parts end)))

  -- `nonce` is what `randomBytes(16)` returns.
  pub record BuildA2aReceiptOptions : Type 0 where
    pub signer : TestSigner p
    pub skill : Str
    pub request_parts : Value Num
    pub ts : Option Str
    pub wall_ms : Option Str
    pub nonce : Bytes

  -- `buildA2AReceiptPayload`, with the artifact's parts.
  unfoldable pub build_a2a_receipt_payload :
      BuildA2aReceiptOptions → Value Num → Outcome Str (Fields Num)
  build_a2a_receipt_payload opts artifact_parts = do
    inputs_hash ← compute_artifact_hash opts.request_parts
    outputs_hash ← compute_artifact_hash artifact_parts
    pass (
        receipt_payload (codes "a2a") opts.signer.performer_id (codes "a2a:" ++ opts.skill)
          inputs_hash outputs_hash opts.wall_ms opts.ts opts.nonce)

  -- `veritrailArtifact`: the artifact with the receipt attached.
  unfoldable pub veritrail_artifact : BuildA2aReceiptOptions → Fields Num → Outcome Str (Fields Num)
  veritrail_artifact opts artifact = do
    payload ← build_a2a_receipt_payload opts (prop (codes "parts") artifact)
    pass (attach (codes "metadata") (sign_receipt p payload opts.signer) artifact)
