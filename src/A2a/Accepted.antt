-- ===== src/A2a/Accepted.antt =====
-- The artifacts of ts/src/a2a/veritrail-a2a-middleware.ts under the checks of ts/src/a2a/demo.ts.
use veritrail.Prelude.{◌≡◌, ◌≢◌, refl, ap, ◌∙◌, subst, ◌++◌, All-append, Option, some, arith}
use veritrail.Platform.{Platform}
use veritrail.Text.{Str, codes, str_eq, str_eq_refl}
use veritrail.Value.{Value, str, obj, Fields, field, end, get, set, prop, or_undefined, is_str}
use veritrail.Value.Updates.{get-set-other}
use veritrail.Jcs.Quoted.{IsStr}
use veritrail.Jcs.Canonical.{HaveJson}
use veritrail.Jcs.{jcs_bytes}
use veritrail.Outcome.{
  Outcome, pass, fail, thrown, ◌>>=◌, ◌>>◌, require, >>=-eq-pass, pass-injective,
}
use veritrail.Artifact.{read_prop, a2a_artifact_hash, build_descriptor, ArtifactHashOutput}
use veritrail.Verify.{verify, ok}
use veritrail.Sign.Verified.{IsPublicHalf, verify-frame}
use veritrail.Mcp.{receipt_payload, registry_from_signer, sign_receipt, attach}
use veritrail.Mcp.Payload.{IsOptionalStr, receipt_payload-HaveJson, digest_bytes-IsStr, registered}
use veritrail.Mcp.Accepted.{attached_receipt-attach, verified_hash-frame}
use veritrail.Mcp.Demo.{expecting, attached_receipt, verified_hash}
use veritrail.A2a.{
  BuildA2aReceiptOptions, hash_or_throw, compute_artifact_hash, build_a2a_receipt_payload,
  veritrail_artifact,
}
use veritrail.A2a.Demo.{hash_of_parts, accept_artifact}

module _ (p : Platform) where
  open p use {Num}

  -- The names and texts in the options hold code units, and the key of the signer is active, for EdDSA
  -- and the public half of the private one.
  pub record IsReady (opts : BuildA2aReceiptOptions p) : Type 0 where
    pub kid : IsStr opts.signer.kid
    pub performer_id : IsStr opts.signer.performer_id
    pub skill : IsStr opts.skill
    pub wall_ms : IsOptionalStr opts.wall_ms
    pub ts : IsOptionalStr opts.ts
    pub active : opts.signer.public_jwk.status ≢ some (codes "revoked")
    pub alg : opts.signer.public_jwk.alg ≡ codes "EdDSA"
    pub half : IsPublicHalf p opts.signer.private_key opts.signer.public_jwk

  hash_or_throw-eq-pass :
      (o : Outcome Str (ArtifactHashOutput p)) (h : Str)
      → hash_or_throw p o ≡ pass h
      → (out : ArtifactHashOutput p) × (o ≡ pass out) × (out.outputs_hash ≡ h)
  unfolding hash_or_throw
  hash_or_throw-eq-pass (pass out) h e = (out, refl, pass-injective e)
  hash_or_throw-eq-pass (fail _) h e = cc
  hash_or_throw-eq-pass thrown h e = cc

  -- The two readings of the hash of parts agree where the middleware has one.
  pub hash_of_parts-eq-pass :
      (parts : Value Num) (h : Str)
      → compute_artifact_hash p parts ≡ pass h
      → hash_of_parts p parts ≡ pass h
  unfolding compute_artifact_hash hash_of_parts ◌>>=◌
  hash_of_parts-eq-pass parts h e =
      let (out, out_is, same) = hash_or_throw-eq-pass _ h e in rw out_is (ap pass same)

  hash-IsStr : (parts : Value Num) (h : Str) → compute_artifact_hash p parts ≡ pass h → IsStr h
  unfolding compute_artifact_hash a2a_artifact_hash
  hash-IsStr parts h e =
      let (out, out_is, same) = hash_or_throw-eq-pass _ h e in
      let (descriptor, _, made) =
        >>=-eq-pass (build_descriptor p (obj (field (codes "parts") parts end))) _ out_is in
      subst IsStr (ap (λ (o : ArtifactHashOutput p). o.outputs_hash) (pass-injective made) ∙ same)
        (digest_bytes-IsStr p (jcs_bytes p (obj descriptor)))

  -- The payload of an artifact: its two hashes.
  payload_made :
      (opts : BuildA2aReceiptOptions p) (parts : Value Num) (payload : Fields Num)
      → build_a2a_receipt_payload p opts parts ≡ pass payload
      → (inputs : Str) × (outputs : Str) × (compute_artifact_hash p opts.request_parts
          ≡ pass inputs)
        × (compute_artifact_hash p parts ≡ pass outputs)
        × (receipt_payload
              (codes "a2a")
              opts.signer.performer_id
              (codes "a2a:" ++ opts.skill)
              inputs
              outputs
              opts.wall_ms
              opts.ts
              opts.nonce
            ≡ payload)
  unfolding build_a2a_receipt_payload
  payload_made opts parts payload e =
      let (inputs, inputs_are, e1) = >>=-eq-pass _ _ e in
      let (outputs, outputs_are, e2) = >>=-eq-pass _ _ e1 in
      (inputs, outputs, inputs_are, outputs_are, pass-injective e2)

  payload-HaveJson :
      (opts : BuildA2aReceiptOptions p) (inputs outputs : Str)
      → IsReady opts
      → IsStr inputs
      → IsStr outputs
      → HaveJson p (
          receipt_payload
            (codes "a2a")
            opts.signer.performer_id
            (codes "a2a:" ++ opts.skill)
            inputs
            outputs
            opts.wall_ms
            opts.ts
            opts.nonce)
  payload-HaveJson opts inputs outputs r hi ho =
      receipt_payload-HaveJson p (codes "a2a") opts.signer.performer_id (codes "a2a:" ++ opts.skill)
        inputs outputs opts.wall_ms opts.ts opts.nonce (omega arith) r.performer_id
        (All-append _ (codes "a2a:") opts.skill (omega arith) r.skill) hi ho r.wall_ms r.ts

  artifact_receipt_verified :
      (opts : BuildA2aReceiptOptions p) (inputs outputs : Str)
      → IsReady opts
      → IsStr inputs
      → IsStr outputs
      → verified_hash p
          (registry_from_signer p opts.signer)
          (expecting (codes "a2a") (codes "a2a:" ++ opts.skill))
          (sign_receipt p
            (receipt_payload
              (codes "a2a")
              opts.signer.performer_id
              (codes "a2a:" ++ opts.skill)
              inputs
              outputs
              opts.wall_ms
              opts.ts
              opts.nonce)
            opts.signer)
        ≡ pass (str outputs)
  unfolding sign_receipt get str_eq
  artifact_receipt_verified opts inputs outputs r hi ho =
      let payload =
        receipt_payload (codes "a2a") opts.signer.performer_id (codes "a2a:" ++ opts.skill) inputs
          outputs opts.wall_ms opts.ts opts.nonce in
      let json = payload-HaveJson opts inputs outputs r hi ho in
      let policy = expecting (codes "a2a") (codes "a2a:" ++ opts.skill) in
      verified_hash-frame p (registry_from_signer p opts.signer) policy opts.signer.kid payload
        opts.signer.private_key outputs r.kid json r.half.are_bytes refl
        (verify-frame p opts.signer.kid opts.signer.performer_id payload opts.signer.private_key
          opts.signer.public_jwk (some (registry_from_signer p opts.signer)) (some policy) r.kid
          json refl (registered p opts.signer) r.active r.alg r.half
          (λ e h. ap str (some-injective h)) (λ e h. ap str (some-injective h)))
    where
      some-injective : {a b : Str} → ◌≡◌ {A = Option Str} (some a) (some b) → a ≡ b
      some-injective h = ground arith

  accept_artifact-steps :
      (keys : veritrail.Verify.Registry) (metadata parts : Value Num) (artifact : Fields Num)
      (jws hash : Str)
      → prop (codes "metadata") artifact ≡ metadata
      → prop (codes "parts") artifact ≡ parts
      → attached_receipt p metadata ≡ pass jws
      → verified_hash p keys (expecting (codes "a2a") (codes "a2a:summarize")) jws ≡ pass (str hash)
      → hash_of_parts p parts ≡ pass hash
      → accept_artifact p keys (obj artifact) ≡ pass (str hash)
  unfolding accept_artifact read_prop require is_str ◌>>=◌ ◌>>◌
  accept_artifact-steps keys metadata parts artifact jws hash metadata_is parts_are attached
        verified bound =
      rw (metadata_is, attached, verified, parts_are, bound, str_eq_refl hash)

  prop_parts :
      (v : Value Num) (artifact : Fields Num)
      → prop (codes "parts") (set (codes "metadata") v artifact) ≡ prop (codes "parts") artifact
  unfolding str_eq
  prop_parts v artifact =
      ap or_undefined (get-set-other (codes "parts") (codes "metadata") v artifact refl)

  -- The receipt that an artifact of known hashes gets.
  abbrev pub receipt_of : BuildA2aReceiptOptions p → Str → Str → Str
  receipt_of opts inputs outputs =
      sign_receipt p
        (receipt_payload (codes "a2a") opts.signer.performer_id (codes "a2a:" ++ opts.skill) inputs
          outputs opts.wall_ms opts.ts opts.nonce)
        opts.signer

  pub accept_artifact-attach :
      (opts : BuildA2aReceiptOptions p) (artifact : Fields Num) (inputs outputs : Str)
      → IsReady opts
      → opts.skill ≡ codes "summarize"
      → IsStr inputs
      → compute_artifact_hash p (prop (codes "parts") artifact) ≡ pass outputs
      → accept_artifact p
          (registry_from_signer p opts.signer)
          (obj (attach (codes "metadata") (receipt_of opts inputs outputs) artifact))
        ≡ pass (str outputs)
  unfolding attach
  accept_artifact-attach opts artifact inputs outputs r skill hi outputs_are =
      let ho : IsStr outputs = hash-IsStr (prop (codes "parts") artifact) outputs outputs_are in
      accept_artifact-steps (registry_from_signer p opts.signer) _ (prop (codes "parts") artifact)
        (attach (codes "metadata") (receipt_of opts inputs outputs) artifact)
        (receipt_of opts inputs outputs) outputs refl (prop_parts _ artifact)
        (attached_receipt-attach p (codes "metadata") (receipt_of opts inputs outputs) artifact)
        (subst
          (λ skill.
            verified_hash p (registry_from_signer p opts.signer)
              (expecting (codes "a2a") (codes "a2a:" ++ skill)) (receipt_of opts inputs outputs)
            ≡ pass (str outputs))
          skill (artifact_receipt_verified opts inputs outputs r hi ho))
        (hash_of_parts-eq-pass (prop (codes "parts") artifact) outputs outputs_are)

  -- An artifact that the middleware gives a receipt passes the checks of the consumer under the
  -- registry of its signer, and the hash that they find in the receipt is that of its parts before the
  -- receipt was attached, if the options are ready and their skill is `summarize`.
  pub accept_artifact-veritrail_artifact :
      (opts : BuildA2aReceiptOptions p) (artifact signed : Fields Num)
      → IsReady opts
      → opts.skill ≡ codes "summarize"
      → veritrail_artifact p opts artifact ≡ pass signed
      → (hash : Str) × (compute_artifact_hash p (prop (codes "parts") artifact) ≡ pass hash)
        × (accept_artifact p (registry_from_signer p opts.signer) (obj signed) ≡ pass (str hash))
  unfolding veritrail_artifact
  accept_artifact-veritrail_artifact opts artifact signed r skill e =
      let (payload, made, e1) = >>=-eq-pass _ _ e in
      let (inputs, outputs, inputs_are, outputs_are, payload_is) =
        payload_made opts (prop (codes "parts") artifact) payload made in
      let signed_is : attach (codes "metadata") (receipt_of opts inputs outputs) artifact ≡ signed =
        ap (λ x. attach (codes "metadata") (sign_receipt p x opts.signer) artifact) payload_is
        ∙ pass-injective e1 in
      (
        outputs,
        outputs_are,
        subst
            (λ s.
              accept_artifact p (registry_from_signer p opts.signer) (obj s) ≡ pass (str outputs))
            signed_is
            (accept_artifact-attach opts artifact inputs outputs r skill
              (hash-IsStr opts.request_parts inputs inputs_are) outputs_are),
      )
