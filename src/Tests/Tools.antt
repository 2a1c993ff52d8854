-- ===== src/Tests/Tools.antt =====
-- Round trips with the server of ts/src/mcp/server.ts, and the theorems on them at concrete inputs.
use veritrail.Prelude.{
  ℕ, ◌+◌, ◌-◌, ◌%◌, ◌≡◌, ◌⊎◌, refl, true, List, [], ◌∷◌, ◌++◌, none, some, arith, ◌>>=◌, map,
}
use veritrail.Text.{Str, codes, str_eq}
use veritrail.Value.{
  Value, num, str, obj, Fields, get, set, remove, prop, as_str, has_own, field, end,
}
use veritrail.Value.Json.{parse, number_literal}
use veritrail.Jcs.Quoted.{IsStr}
use veritrail.Jcs.Canonical.{IsNumber, IsJson, canonical}
use veritrail.Hash.Injective.{Collision}
use veritrail.Outcome.{pass, or_throw}
use veritrail.Artifact.{read_optional, read_prop}
use veritrail.Cli.Inputs.{as_registry}
use veritrail.Sign.Verified.{IsPublicHalf}
use veritrail.Mcp.{
  BuildReceiptOptions, attach, spread, compute_outputs_hash, veritrail_tool_result, sign_receipt,
  build_receipt_payload, TestSigner, KeyPair, generate_test_signer, registry_from_signer,
  strip_meta, meta_key, receipt_meta_key,
}
use veritrail.Mcp.Server.{
  sum_result, add_options, Arithmetic, Moment, build_server, call_tool, text_content,
}
use veritrail.Mcp.Payload.{AreStr}
use veritrail.Mcp.Published.{as_registry-build_server}
use veritrail.Mcp.Demo.{demo, attached_receipt, verified_hash, expecting, accept_result}
use veritrail.Mcp.Accepted.{
  receipt_attached, tool_receipt_verified, accept_result-steps, accept_result-veritrail_tool_result,
  accept_result-same,
}
use veritrail.Mcp.Complete.{Delivers, demo_complete}
use veritrail.Toy.{toy, toy_runs, toy_digest}
use veritrail.Tests.{V, entry, jwk}
use veritrail.Tests.Signing.{map-IsBytes, zeros, zeros-IsPublicHalf}

-- Sums of digits.
unfoldable digit_sum : List ℕ → List ℕ → List ℕ
digit_sum (m ∷ _) (n ∷ _) = (m + n - b'0') ∷ []
digit_sum _ _ = codes "0"

unfoldable number_of : V → List ℕ
number_of (num n) = n
number_of _ = codes "0"

abbrev digits : Arithmetic toy
digits = record {
  to_number = λ v. some (number_of v);
  plus = digit_sum;
  number_string = λ n. map (λ b. b % 0x10000) n;
  elapsed = λ t0 t1. codes "0";
}

abbrev pub pair : KeyPair toy
pair = record { private_key = zeros; kty = codes "OKP"; crv = codes "Ed25519"; x = jwk.x }

abbrev pub moment : Moment toy
moment = record { started = codes "1"; finished = codes "2"; nonce = 1 ∷ 2 ∷ [] }

-- Another tool has no receipt.
unknown_tool_run :
    call_tool toy digits
      (generate_test_signer toy pair none none)
      moment
      (record { name = codes "mul"; arguments = none })
    ≡ pass (
        entry "content"
          (text_content (codes "unknown tool: mul"))
          (entry "isError" (Value.bool true) end))
unfolding toy_runs call_tool
unknown_tool_run = refl

map-IsStr : (n : List ℕ) → IsStr (map (λ b. b % 0x10000) n)
map-IsStr [] = tt
map-IsStr (b ∷ n) = (omega arith, map-IsStr n)

delivers : Delivers toy digits (λ handler call. handler call)
unfolding Delivers
delivers handler call result h = h

pub generated-IsPublicHalf :
    IsPublicHalf toy zeros (generate_test_signer toy pair none none).public_jwk
unfolding generate_test_signer
generated-IsPublicHalf = zeros-IsPublicHalf

five : IsNumber toy (digit_sum (codes "2") (codes "3"))
unfolding digit_sum number_literal
five = record { literal = refl; value = refl; ascii = (omega arith, tt) }

demo_complete_example :
    (demo toy digits (λ handler call. handler call) pair pair moment ≡ pass tt) ⊎ Collision toy
unfolding number_literal number_of digit_sum toy_digest
demo_complete_example =
    demo_complete toy digits (λ handler call. handler call) pair pair moment (codes "2") (codes "3")
      (λ b. map-IsBytes b) delivers generated-IsPublicHalf refl refl five
      (record {
        literal = refl;
        value = refl;
        ascii = (omega arith, (omega arith, (omega arith, tt)));
      })
      (λ n. map-IsStr n) (λ e. ground arith)

abbrev pub generated : TestSigner toy
generated = generate_test_signer toy pair none none

as_registry-build_server_example :
    (parse toy (build_server toy digits generated).instructions >>= λ v.
    as_registry (read_optional (codes "veritrail_keys") v))
    ≡ some (some (registry_from_signer toy generated))
unfolding generate_test_signer
as_registry-build_server_example =
    as_registry-build_server toy digits generated (omega arith) (omega arith) (record {
      kty = omega arith;
      crv = omega arith;
      x = omega arith;
      y = tt;
      alg = omega arith;
      status = omega arith;
    })

abbrev params : Fields (List ℕ)
params = entry "a" (num (codes "2")) (entry "b" (num (codes "3")) end)

abbrev options : BuildReceiptOptions toy
options = add_options toy digits generated moment params (codes "5")

options-AreStr : AreStr toy options
unfolding generate_test_signer
options-AreStr = record {
  kid = omega arith;
  performer_id = omega arith;
  tool_name = omega arith;
  wall_ms = omega arith;
  ts = tt;
}

abbrev result : Fields (List ℕ)
result = veritrail_tool_result toy options

abbrev jws : Str
jws = sign_receipt toy (build_receipt_payload toy options) generated

-- The same result with its properties in another order.
abbrev shuffled : Fields (List ℕ)
shuffled = entry "_meta" (obj (field receipt_meta_key (str jws) end)) (
    entry "structuredContent" (obj (entry "sum" (num (codes "5")) end))
      (entry "content" (text_content (codes "5")) end))

pub five_is : IsNumber toy (codes "5")
unfolding number_literal
five_is = record { literal = refl; value = refl; ascii = (omega arith, tt) }

shuffled_attached : attached_receipt toy (prop meta_key shuffled) ≡ pass jws
unfolding attached_receipt get str_eq read_prop or_throw as_str veritrail.Outcome.◌>>=◌
shuffled_attached = refl

verified :
    verified_hash toy
      (registry_from_signer toy generated)
      (expecting (codes "mcp") (codes "mcp:" ++ codes "add"))
      jws
    ≡ pass (str (compute_outputs_hash toy options.result))
unfolding generate_test_signer
verified =
    tool_receipt_verified toy options options-AreStr (λ e. ground arith) refl generated-IsPublicHalf

shuffled_hash : compute_outputs_hash toy shuffled ≡ compute_outputs_hash toy options.result
unfolding toy_runs compute_outputs_hash sum_result
shuffled_hash = refl

text_is : IsJson toy (text_content (codes "5"))
unfolding has_own str_eq
text_is = (((omega arith, (refl, ((omega arith), (omega arith, (refl, (omega arith, tt)))))), tt))

result_is : IsJson toy (obj (strip_meta result))
unfolding veritrail_tool_result attach set spread get str_eq strip_meta remove has_own sum_result
result_is = (
  omega arith,
  (refl, (text_is, (omega arith, (refl, ((omega arith, (refl, (five_is, tt))), tt))))),
)

shuffled_is : IsJson toy (obj (strip_meta shuffled))
unfolding strip_meta remove str_eq has_own
shuffled_is = (
  omega arith,
  (refl, ((omega arith, (refl, (five_is, tt))), (omega arith, (refl, (text_is, tt))))),
)

accepted :
    accept_result toy (registry_from_signer toy generated) result
    ≡ pass (str (compute_outputs_hash toy options.result))
unfolding generate_test_signer
accepted =
    accept_result-veritrail_tool_result toy options options-AreStr refl (λ e. ground arith) refl
      generated-IsPublicHalf

accept_result-same_example :
    (canonical (obj (strip_meta result)) ≡ canonical (obj (strip_meta shuffled))) ⊎ Collision toy
unfolding toy_digest
accept_result-same_example =
    accept_result-same toy (λ b. map-IsBytes b) (registry_from_signer toy generated)
      (registry_from_signer toy generated) result shuffled jws
      (str (compute_outputs_hash toy options.result))
      (str (compute_outputs_hash toy options.result)) (receipt_attached toy options)
      shuffled_attached result_is shuffled_is accepted
      (accept_result-steps toy (registry_from_signer toy generated) shuffled jws
        (compute_outputs_hash toy options.result) shuffled_attached verified shuffled_hash)
