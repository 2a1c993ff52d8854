-- ===== src/Tests/Signing.antt =====
-- The theorems on signing and on what ids commit to, at concrete inputs.
use veritrail.Prelude.{
  ℕ, ◌≡◌, ◌⊎◌, ◌↔◌, refl, ap, true, List, [], ◌∷◌, ◌++◌, none, some, arith, map, ◌%◌, drop,
}
use veritrail.Text.{Bytes, codes, str_eq, str_eq_refl}
use veritrail.Text.Base64.{from_base64}
use veritrail.Text.Base64.RoundTrip.{IsBytes}
use veritrail.Value.{obj, Fields, null, as_array, str, get, has_own, end, arr, cons, nil}
use veritrail.Outcome.{pass}
use veritrail.Hash.{encode_hashstring}
use veritrail.Hash.Injective.{Collision, from_base64-encode_hashstring}
use veritrail.Verify.{ok, verify, member}
use veritrail.Verify.Accepts.{IsRegistered}
use veritrail.Sign.{frame, sign, decode_flexible_base64, as_record}
use veritrail.Sign.Signable.{IsSignable, sign_iff}
use veritrail.Sign.Verified.{IsPublicHalf, verify-frame}
use veritrail.Sign.RoundTrip.{verify-sign}
use veritrail.Chain.{Hop, VerifyChainInput, compute_receipt_id, read_hops, receipt_list}
use veritrail.Chain.Evidence.{same_leaf}
use veritrail.Mcp.{BuildReceiptOptions, build_receipt_payload, registry_from_signer, sign_receipt}
use veritrail.Mcp.Verified.{verify-sign_receipt}
use veritrail.Toy.{toy, toy_digest, toy_runs}
use veritrail.Tests.{text, entry, receipt, jwk, registry, seed, sign_input, signed, chain_of_one}

pub map-IsBytes : (xs : List ℕ) → IsBytes (map (λ b. b % 256) xs)
map-IsBytes [] = tt
map-IsBytes (x ∷ xs) = (omega arith, map-IsBytes xs)

abbrev pub zeros : Bytes
zeros =
    0 ∷ 0 ∷ 0 ∷ 0 ∷ 0 ∷ 0 ∷ 0 ∷ 0 ∷ 0 ∷ 0 ∷ 0 ∷ 0 ∷ 0 ∷ 0 ∷ 0 ∷ 0 ∷ 0 ∷ 0 ∷ 0 ∷ 0 ∷ 0 ∷ 0 ∷ 0 ∷ 0
    ∷ 0 ∷ 0 ∷ 0 ∷ 0 ∷ 0 ∷ 0 ∷ 0 ∷ 0 ∷ []

pub zeros-IsPublicHalf : IsPublicHalf toy zeros jwk
unfolding toy_runs
zeros-IsPublicHalf = record {
  public_key = zeros;
  public_is = refl;
  are_bytes = λ t. map-IsBytes (zeros ++ t);
  checks = λ t. ap some (str_eq_refl (toy.sign_eddsa t zeros));
}

pub registered : IsRegistered (some registry) (codes "srv") (codes "k1") jwk
unfolding member str_eq
registered = record {
  registry = registry;
  entries = (codes "k1", jwk) ∷ [];
  given = refl;
  performer_is = refl;
  kid_is = refl;
}

verify-frame_example :
    verify toy (record {
      signed_receipt = str (frame toy (codes "k1") (receipt null) zeros);
      keys = some registry;
      policy = some (record { expected_binding = some (codes "mcp"); expected_method = none });
    })
    ≡ some (record { valid = true; reason = ok })
unfolding get has_own str_eq
verify-frame_example =
    verify-frame toy (codes "k1") (codes "srv") (receipt null) zeros jwk (some registry)
      (some (record { expected_binding = some (codes "mcp"); expected_method = none }))
      (omega arith)
      (
        omega arith,
        (
          refl,
          (omega arith, (omega arith, (refl, (omega arith, (omega arith, (refl, (tt, tt))))))),
        ),
      )
      refl registered (λ e. ground arith) refl zeros-IsPublicHalf (λ e h. ground arith)
      (λ e h. ground arith)

unfoldable pub signable : IsSignable toy (sign_input null) (signed null)
unfolding toy_runs signed decode_flexible_base64 as_record
signable = record {
  fields = _;
  fields_are = refl;
  receipt = receipt null;
  receipt_is = refl;
  no_id = refl;
  kid = codes "k1";
  kid_is = refl;
  kid_ne_empty = λ e. cc;
  encoded = seed;
  encoded_is = refl;
  seed = zeros;
  seed_is = refl;
  seed_length = refl;
  key = zeros;
  key_is = refl;
  jws_is = refl;
}

sign_iff_example :
    (sign toy (sign_input null) ≡ pass (signed null))
    ↔ IsSignable toy (sign_input null) (signed null)
sign_iff_example = sign_iff toy (sign_input null) (signed null)

verify-sign_example :
    (sign toy (sign_input null) ≡ pass (signed null))
    × (verify toy
          (record { signed_receipt = str (signed null); keys = some registry; policy = none })
        ≡ some (record { valid = true; reason = ok }))
unfolding get has_own str_eq signable
verify-sign_example =
    verify-sign toy (sign_input null) (signed null) (codes "srv") signable jwk (some registry) none
      (omega arith)
      (
        omega arith,
        (
          refl,
          (omega arith, (omega arith, (refl, (omega arith, (omega arith, (refl, (tt, tt))))))),
        ),
      )
      refl registered (λ e. ground arith) refl zeros-IsPublicHalf (λ e h. cc) (λ e h. cc)

abbrev chain : VerifyChainInput toy
chain = record {
  receipts = arr (cons (str (signed null)) nil);
  keys = some registry;
  policy = none;
}

abbrev leaf_payload : Fields (List ℕ)
leaf_payload = entry "binding" (text "mcp") (
    entry "parent_receipt_hash" null
      (entry "performer_id" (text "srv") (entry "v" (text "veritrail/0.1") end)))

abbrev leaf : Hop (List ℕ)
leaf = record { payload = leaf_payload; id = compute_receipt_id toy leaf_payload }

from_base64-encode_hashstring_example :
    from_base64 (drop 1 (encode_hashstring (7 ∷ 255 ∷ []))) ≡ 0x12 ∷ 0x20 ∷ 7 ∷ 255 ∷ []
from_base64-encode_hashstring_example = from_base64-encode_hashstring (7 ∷ 255 ∷ []) (omega arith)

leaf_read : read_hops toy (receipt_list (as_array chain.receipts)) ≡ pass (leaf ∷ [])
unfolding toy_runs signed
leaf_read = refl

same_leaf_example : (leaf ∷ [] ≡ leaf ∷ []) ⊎ Collision toy
unfolding toy_digest receipt_list as_array
same_leaf_example =
    same_leaf toy (λ b. map-IsBytes b) chain chain leaf leaf [] [] chain_of_one chain_of_one
      leaf_read leaf_read refl

abbrev tool_call : BuildReceiptOptions toy
tool_call = record {
  signer = record {
    private_key = zeros;
    public_jwk = jwk;
    performer_id = codes "srv";
    kid = codes "k1";
  };
  tool_name = codes "add";
  params = obj (entry "a" (text "1") end);
  result = entry "content" (text "2") end;
  ts = none;
  wall_ms = some (codes "12");
  nonce = 1 ∷ 2 ∷ 3 ∷ [];
}

verify-sign_receipt_example :
    verify toy (record {
      signed_receipt =
          str (sign_receipt toy (build_receipt_payload toy tool_call) tool_call.signer);
      keys = some (registry_from_signer toy tool_call.signer);
      policy = some (record {
        expected_binding = some (codes "mcp");
        expected_method = some (codes "mcp:" ++ codes "add");
      });
    })
    ≡ some (record { valid = true; reason = ok })
verify-sign_receipt_example =
    verify-sign_receipt toy tool_call (omega arith) (omega arith) (omega arith) (omega arith) tt
      (λ e. ground arith) refl zeros-IsPublicHalf
