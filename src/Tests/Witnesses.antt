-- ===== src/Tests/Witnesses.antt =====
-- The theorems at concrete inputs.
use veritrail.Prelude.{
  ◌≡◌, ◌≢◌, ◌↔◌, refl, true, List, ℕ, [], ◌∷◌, ◌++◌, none, some, arith, length, map, flat_map,
}
use veritrail.Text.{codes, join, str_eq}
use veritrail.Text.Base64.{base64url, b64url_decode}
use veritrail.Text.Utf8.{strict_utf8, drop_bom, point_units}
use veritrail.Text.Utf8.Strict.{IsUtf8, strict_utf8_iff}
use veritrail.Text.Base64.RoundTrip.{b64url_decode-base64url}
use veritrail.Value.{as_array, null, obj, str, num, arr, cons, nil, Fields, end, has_own}
use veritrail.Value.Json.{parse, number_literal}
use veritrail.Jcs.{Members, member_text, jcs_string, jcs_members}
use veritrail.Jcs.Reread.{with_nulls, parse-jcs_string-SameValue}
use veritrail.Jcs.Sorted.{jcs_string-IsSorted}
use veritrail.Jcs.Sorting.{IsSorted}
use veritrail.Jcs.Order.{SameValue}
use mathlib.Core.List.{Perm}
use veritrail.Verify.{VerifyInput, ok, verify}
use veritrail.Verify.Accepts.{Accepts}
use veritrail.Verify.Stages.{verify_valid_iff}
use veritrail.Chain.{VerifyChainInput, chain_ok, or_empty, receipt_list, verify_chain}
use veritrail.Chain.Lineage.{IsLineage, verify_chain_valid_iff}
use veritrail.Toy.{toy}
use veritrail.Tests.{V, text, entry, registry, signed}

abbrev one_receipt : VerifyInput toy
one_receipt = record { signed_receipt = str (signed null); keys = some registry; policy = none }

verify_valid_iff_example :
    (verify toy one_receipt ≡ some (record { valid = true; reason = ok }))
    ↔ Accepts toy one_receipt.keys one_receipt.policy one_receipt.signed_receipt
verify_valid_iff_example = verify_valid_iff toy one_receipt

abbrev one_hop : VerifyChainInput toy
one_hop = record {
  receipts = arr (cons (str (signed null)) nil);
  keys = some registry;
  policy = none;
}

verify_chain_valid_iff_example :
    (verify_chain toy one_hop
      ≡ some (record {
        valid = true;
        reason = chain_ok;
        chain_len = length (receipt_list (as_array one_hop.receipts));
      }))
    ↔ ((receipt_list (as_array one_hop.receipts) ≢ [])
        × IsLineage toy one_hop.keys
            (or_empty one_hop.policy)
            (receipt_list (as_array one_hop.receipts)))
verify_chain_valid_iff_example = verify_chain_valid_iff toy one_hop

-- {"b": "é", "a": [1, null]}
abbrev nested : V
nested =
    obj (entry "b" (str (0xe9 ∷ [])) (entry "a" (arr (cons (num (codes "1")) (cons null nil))) end))

parse-jcs_string-SameValue_example :
    (w : V) × (parse toy (jcs_string toy nested) ≡ some w) × SameValue (with_nulls nested) w
unfolding has_own number_literal str_eq
parse-jcs_string-SameValue_example = parse-jcs_string-SameValue toy nested (
  (omega arith, tt),
  (
    refl,
    (
      (omega arith, tt),
      (
        (omega arith, tt),
        (
          refl,
          ((record { literal = refl; value = refl; ascii = (omega arith, tt) }, (tt, tt)), tt),
        ),
      ),
    ),
  ),
)

abbrev nested_fields : Fields (List ℕ)
nested_fields = entry "b" (text "x") (entry "a" null end)

jcs_string-IsSorted_example :
    (ms : Members) × (jcs_string toy (obj nested_fields)
      ≡ b'{' ∷ (join (codes ",") (map member_text ms) ++ b'}' ∷ []))
    × Perm ms (jcs_members toy nested_fields)
    × IsSorted ms
jcs_string-IsSorted_example = jcs_string-IsSorted toy nested_fields

b64url_decode-base64url_example :
    b64url_decode (base64url (255 ∷ 0 ∷ 62 ∷ 7 ∷ [])) ≡ some (255 ∷ 0 ∷ 62 ∷ 7 ∷ [])
b64url_decode-base64url_example = b64url_decode-base64url (255 ∷ 0 ∷ 62 ∷ 7 ∷ []) (omega arith)

strict_utf8_iff_example :
    (strict_utf8 (0xef ∷ 0xbb ∷ 0xbf ∷ 0xc3 ∷ 0xa9 ∷ []) ≡ some (0xe9 ∷ [])) ↔ (
      (points : List ℕ) × IsUtf8 (0xef ∷ 0xbb ∷ 0xbf ∷ 0xc3 ∷ 0xa9 ∷ []) points
      × (0xe9 ∷ [] ≡ flat_map point_units (drop_bom points)))
strict_utf8_iff_example = strict_utf8_iff (0xef ∷ 0xbb ∷ 0xbf ∷ 0xc3 ∷ 0xa9 ∷ []) (0xe9 ∷ [])
