-- ===== src/Mcp/Verified.antt =====
-- The receipts of ts/src/mcp/veritrail-middleware.ts under ts/src/commands/verify.ts.
use veritrail.Prelude.{◌≡◌, ◌≢◌, refl, ap, true, ◌++◌, Option, some, arith}
use veritrail.Platform.{Platform}
use veritrail.Text.{Str, codes, str_eq}
use veritrail.Value.{str, get}
use veritrail.Jcs.Quoted.{IsStr}
use veritrail.Verify.{verify, ok}
use veritrail.Sign.Verified.{IsPublicHalf, verify-frame}
use veritrail.Mcp.Payload.{IsOptionalStr, build_receipt_payload-HaveJson, registered}
use veritrail.Mcp.{BuildReceiptOptions, registry_from_signer, build_receipt_payload, sign_receipt}

module _ (p : Platform) where
  open p use {Num}

  -- The receipt of a tool call is accepted by `verify` under the registry of its signer and a policy that
  -- asks for its binding and its method, if the names and texts in the options hold code units and the
  -- signer's key is active, for EdDSA, and the public half of the private one.
  pub verify-sign_receipt :
      (opts : BuildReceiptOptions p)
      → IsStr opts.signer.kid
      → IsStr opts.signer.performer_id
      → IsStr opts.tool_name
      → IsOptionalStr opts.wall_ms
      → IsOptionalStr opts.ts
      → opts.signer.public_jwk.status ≢ some (codes "revoked")
      → opts.signer.public_jwk.alg ≡ codes "EdDSA"
      → IsPublicHalf p opts.signer.private_key opts.signer.public_jwk
      → verify p (record {
        signed_receipt = str (sign_receipt p (build_receipt_payload p opts) opts.signer);
        keys = some (registry_from_signer p opts.signer);
        policy = some (record {
          expected_binding = some (codes "mcp");
          expected_method = some (codes "mcp:" ++ opts.tool_name);
        });
      })
        ≡ some (record { valid = true; reason = ok })
  unfolding sign_receipt build_receipt_payload get str_eq
  verify-sign_receipt opts hk hp ht hw hts active alg half =
      verify-frame p opts.signer.kid opts.signer.performer_id (build_receipt_payload p opts)
        opts.signer.private_key opts.signer.public_jwk (some (registry_from_signer p opts.signer))
        (some (record {
          expected_binding = some (codes "mcp");
          expected_method = some (codes "mcp:" ++ opts.tool_name);
        }))
        hk
        (build_receipt_payload-HaveJson p opts
          (record { kid = hk; performer_id = hp; tool_name = ht; wall_ms = hw; ts = hts }))
        refl (registered p opts.signer) active alg half (λ e h. ap str (some-injective h))
        (λ e h. ap str (some-injective h))
    where
      some-injective : {a b : Str} → ◌≡◌ {A = Option Str} (some a) (some b) → a ≡ b
      some-injective h = ground arith
