-- ===== src/Tests/Go.antt =====
-- The Go implementation beside the TypeScript one, at concrete inputs.
use veritrail.Prelude.{
  some-injective, ◌≡◌, refl, subst, true, false, List, [], ◌∷◌, ◌++◌, map, Option, none, some,
  arith,
}
use veritrail.Text.{Str, Bytes, codes, str_eq}
use veritrail.Text.Utf8.{encode_utf8}
use veritrail.Text.Utf8.RoundTrip.{IsText, IsText-append, IsText-ascii, text_of}
use veritrail.Value.{null, str, arr, elements, nil, cons, of_elements}
use veritrail.Sse.{strip_bom, parse_sse}
use veritrail.Verify.{Policy, verify}
use veritrail.Chain.{chain_ok, verify_chain}
use veritrail.Go.Sse.{sse_decode}
use veritrail.Go.Sse.Agreement.{sse_decode-parse_sse}
use veritrail.Go.Verify.{lookup, is_some}
use veritrail.Go.Verify as GoVerify
use veritrail.Go.Verify.Keys.{go_keys, go_policy}
use veritrail.Go.Verify.Agreement.{go_input, verify-go_input}
use veritrail.Go.Chain.Shared.{IsExpectingAll}
use veritrail.Go.Chain.Agreement.{verify_chain-shared}
use veritrail.Go.Chain as GoChain
use veritrail.Toy.{toy_runs}
use veritrail.Tests.{registry, signed}
use veritrail.Tests.Receipts.{
  brief, toy_go, IsAgreed-of, IsShared-of, root-IsChecked, child-IsChecked, read_of, root_id, raws,
  string_of, object_of,
}
use veritrail.Sse.{sse_jsonrpc, events, inner_result, sse_output, committed}
use veritrail.Go.Outputs.{raw_result, sse_outputs_hash}
use veritrail.Go.Outputs.Agreement.{mode_text, AreAlike, sse_outputs_hash-parse_sse}
use veritrail.Chain.Suffix.{verify_chain-rest}

-- A stream with a byte order mark, in which a message has a letter outside ASCII.
abbrev stream : Str
stream = codes "data: h" ++ 0xe9 ∷ codes "llo\r\ndata:b\r\n\r\ndata: lost"

abbrev marked : Bytes
marked = 0xef ∷ 0xbb ∷ 0xbf ∷ encode_utf8 stream

stream-IsText : IsText stream
stream-IsText = IsText-append (IsText-ascii (codes "data: h") (ground arith)) (
    IsText-append (text_of (0xe9 ∷ []) (ground arith))
      (IsText-ascii (codes "llo\r\ndata:b\r\n\r\ndata: lost") (ground arith)))

sse_decode-parse_sse_example : sse_decode marked ≡ map encode_utf8 (parse_sse marked)
sse_decode-parse_sse_example =
    sse_decode-parse_sse marked stream (unfold strip_bom in refl) stream-IsText

abbrev mcp : Option Policy
mcp = some (record { expected_binding = some (codes "mcp"); expected_method = none })

mcp-IsExpectingAll : IsExpectingAll mcp
unfolding str_eq
mcp-IsExpectingAll =
    ((λ e h. subst (λ s. str_eq [] s ≡ false) (some-injective h) refl), (λ e h. cc))

verify-go_input_example :
    verify brief (record { signed_receipt = str (signed null); keys = some registry; policy = mcp })
    ≡ some (GoVerify.verify toy_go (go_input (signed null) (some registry) mcp))
verify-go_input_example =
    verify-go_input brief toy_go (signed null) (some registry) mcp (read_of null)
      root-IsChecked.read_is (IsAgreed-of root-IsChecked) mcp-IsExpectingAll.0 mcp-IsExpectingAll.1

abbrev path : List Str
path = signed (str root_id) ∷ signed null ∷ []

verify_chain-shared_example :
    verify_chain brief
      (record { receipts = arr (of_elements (map str path)); keys = some registry; policy = mcp })
    ≡ some (
        GoChain.verify_chain toy_go
          (record { receipts = path; keys = go_keys (some registry); policy = go_policy mcp }))
verify_chain-shared_example =
    verify_chain-shared brief toy_go (some registry) mcp path
      (IsShared-of child-IsChecked, (IsShared-of root-IsChecked, tt)) mcp-IsExpectingAll

-- The Go program accepts the path.
path_accepted :
    GoChain.verify_chain toy_go
      (record { receipts = path; keys = go_keys (some registry); policy = go_policy mcp })
    ≡ record { valid = true; reason = chain_ok; chain_len = 2 }
unfolding toy_runs signed read_of raws string_of object_of GoChain.verify_chain root_id
path_accepted = refl

-- The path without its leaf.
verify_chain-rest_example :
    verify_chain brief (record {
      receipts = arr (cons (str (signed null)) nil);
      keys = some registry;
      policy = none;
    })
    ≡ some (record { valid = true; reason = chain_ok; chain_len = 1 })
unfolding toy_runs signed elements root_id
verify_chain-rest_example =
    verify_chain-rest brief (some registry) none (str (signed (str root_id))) (str (signed null))
      nil refl

abbrev rpc : Str
rpc = codes "data: {\"result\":{\"b\":1,\"a\":\"x\"}}\n\ndata: {}\n\ndata: no\n\n"

rpc_IsText : IsText rpc
rpc_IsText = IsText-ascii rpc (ground arith)

rpc_alike : AreAlike brief toy_go sse_jsonrpc (events rpc)
unfolding toy_runs raw_result inner_result events raws object_of encode_utf8
rpc_alike = (refl, (refl, (refl, tt)))

sse_outputs_hash-parse_sse_example :
    sse_outputs_hash toy_go (encode_utf8 rpc) (mode_text sse_jsonrpc)
    ≡ some (sse_output brief (committed brief sse_jsonrpc (parse_sse (encode_utf8 rpc))))
sse_outputs_hash-parse_sse_example =
    sse_outputs_hash-parse_sse brief toy_go sse_jsonrpc (encode_utf8 rpc) rpc
      (unfold strip_bom encode_utf8 in refl) rpc_IsText rpc_alike (λ b. refl)
