-- ===== src/Tests/Outputs.antt =====
-- The theorems on outputs, streams and the registry lookup, at concrete inputs.
use veritrail.Prelude.{◌≡◌, refl, false, [], ◌∷◌, none, some, flat_map}
use veritrail.Text.{codes, str_eq}
use veritrail.Value.{null, obj, str, arr, cons, nil, get, prop, end}
use veritrail.Jcs.{jcs_string}
use veritrail.Jcs.Order.{swapped, objects, jcs_string-SameValue}
use veritrail.Sse.{events, split_lines}
use veritrail.Sse.Blocks.{block_message, blocks_from, events-blocks}
use veritrail.Verify.{alg_not_allowed, verify}
use veritrail.Verify.Inherited.{verify-inherited}
use veritrail.Sign.{frame}
use veritrail.Mcp.{
  BuildReceiptOptions, meta_key, receipt_meta_key, spread, compute_outputs_hash,
  build_receipt_payload, sign_receipt, veritrail_tool_result,
}
use veritrail.Mcp.Attached.{compute_outputs_hash-veritrail_tool_result}
use veritrail.Toy.{toy, toy_runs}
use veritrail.Tests.{V, text, entry, jwk, registry}

jcs_string-SameValue_example :
    jcs_string toy (obj (entry "b" null (entry "a" (text "x") end)))
    ≡ jcs_string toy (obj (entry "a" (text "x") (entry "b" null end)))
unfolding str_eq
jcs_string-SameValue_example =
    jcs_string-SameValue toy (obj (entry "b" null (entry "a" (text "x") end)))
      (obj (entry "a" (text "x") (entry "b" null end)))
      (objects _ _ (swapped (codes "b") (codes "a") null (text "x") end refl))

events-blocks_example :
    events (codes "data: a\r\n\r\n:c\ndata:b\n")
    ≡ flat_map block_message (blocks_from [] (split_lines (codes "data: a\r\n\r\n:c\ndata:b\n")))
events-blocks_example = events-blocks (codes "data: a\r\n\r\n:c\ndata:b\n")

-- A line of data with no text makes a message.
empty_message : events (codes "data:\n\n") ≡ [] ∷ []
unfolding events
empty_message = refl

abbrev options : BuildReceiptOptions toy
options = record {
  signer = record {
    private_key = 7 ∷ [];
    public_jwk = jwk;
    performer_id = codes "srv";
    kid = codes "k1";
  };
  tool_name = codes "add";
  params = obj (entry "a" (text "1") end);
  result =
      entry "content" (arr (cons (text "2") nil)) (entry "_meta" (obj (entry "x" null end)) end);
  ts = none;
  wall_ms = some (codes "12");
  nonce = 1 ∷ 2 ∷ 3 ∷ [];
}

compute_outputs_hash-veritrail_tool_result_example :
    (compute_outputs_hash toy (veritrail_tool_result toy options)
      ≡ compute_outputs_hash toy options.result)
    × (get receipt_meta_key (spread (prop meta_key (veritrail_tool_result toy options)))
        ≡ some (str (sign_receipt toy (build_receipt_payload toy options) options.signer)))
compute_outputs_hash-veritrail_tool_result_example =
    compute_outputs_hash-veritrail_tool_result toy options

-- A receipt in the name of `constructor`.
abbrev impostor : V
impostor = str (frame toy (codes "k1") (entry "performer_id" (text "constructor") end) (7 ∷ []))

verify-inherited_example :
    verify toy (record { signed_receipt = impostor; keys = some registry; policy = none })
    ≡ some (record { valid = false; reason = alg_not_allowed })
unfolding toy_runs
verify-inherited_example =
    verify-inherited toy impostor registry none (codes "constructor") (codes "k1") _ refl refl refl
      refl refl refl
