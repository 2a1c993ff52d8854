-- ===== src/Mcp/Attached.antt =====
-- Attaching a receipt to a tool result, in ts/src/mcp/veritrail-middleware.ts.
use veritrail.Prelude.{◌≡◌, ap, some}
use veritrail.Platform.{Platform}
use veritrail.Value.{str, obj, get, prop, set}
use veritrail.Value.Updates.{remove-set, get-set-same}
use veritrail.Mcp.{
  meta_key, receipt_meta_key, strip_meta, attach, spread, BuildReceiptOptions, compute_outputs_hash,
  hash_of, build_receipt_payload, sign_receipt, veritrail_tool_result,
}

module _ (p : Platform) where
  -- The result with its receipt attached has the outputs hash of the result that the receipt commits
  -- to, and the receipt stands in the result under its key.
  pub compute_outputs_hash-veritrail_tool_result :
      (opts : BuildReceiptOptions p)
      → (compute_outputs_hash p (veritrail_tool_result p opts) ≡ compute_outputs_hash p opts.result)
        × (get receipt_meta_key (spread (prop meta_key (veritrail_tool_result p opts)))
            ≡ some (str (sign_receipt p (build_receipt_payload p opts) opts.signer)))
  unfolding compute_outputs_hash strip_meta veritrail_tool_result attach spread
  compute_outputs_hash-veritrail_tool_result opts = (
    ap (λ fs. hash_of p (obj fs)) (remove-set meta_key _ opts.result),
    rw
        (get-set-same meta_key
          (obj (
            set receipt_meta_key (str (sign_receipt p (build_receipt_payload p opts) opts.signer))
              (spread (prop meta_key opts.result))))
          opts.result)
        (get-set-same receipt_meta_key _ (spread (prop meta_key opts.result))),
  )
