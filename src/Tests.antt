-- ===== src/Tests.antt =====
-- Runs of the model: the anchors of conformance/vectors/ that need no cryptography, and round trips
-- on the toy platform.
mod Witnesses
mod Outputs
mod Signing
mod CommandLine
mod Commits
mod Tools
mod Agents
mod Totals
mod Receipts
mod Go
use veritrail.Prelude.{◌≡◌, refl, true, List, [], ◌∷◌, none, some}
use Prim.Native.Nat.{ℕ}
use Prim.Native.String.{String}
use veritrail.Text.{Str, codes}
use veritrail.Value.{Value, str, obj, arr, null, num, Fields, end, field, cons, nil}
use veritrail.Value.Json.{parse}
use veritrail.Jcs.{jcs}
use veritrail.Hash.{reply, error}
use veritrail.Receipt.{cost_canon}
use veritrail.Sse.{parse_sse}
use veritrail.Outcome.{Outcome, pass, fail, thrown}
use veritrail.Sign.{sign}
use veritrail.Verify.{RegistryJwk, Registry, ok, verify}
use veritrail.Chain.{chain_ok, verify_chain}
use veritrail.Toy.{toy, toy_runs}

-- An object of the source's literals, for short tests.
abbrev pub V : Type 0
V = Value (List ℕ)

abbrev pub text : String → V
text s = str (codes s)

abbrev pub entry : String → V → Fields (List ℕ) → Fields (List ℕ)
entry k v fs = field (codes k) v fs

-- conformance/vectors/jcs-nested.json
jcs-nested :
    (jcs toy (
      obj (
        entry "z" (str (0xe9 ∷ [])) (
          entry "a"
            (arr (cons (num (codes "3")) (cons (num (codes "1")) (cons (num (codes "2")) nil))))
            end)))).canonical_hex
    ≡ codes "7b2261223a5b332c312c325d2c227a223a22c3a9227d"
unfolding toy_runs
jcs-nested = refl

-- Parsing undoes the canonical form of a string that needs escapes and surrogate pairs.
parse_escapes :
    parse toy (codes " {\"b\": [1, -2.5e3, true], \"b\":\"\\u0041\\n\\ud83d\\ude00\"} ")
    ≡ some (obj (entry "b" (str (b'A' ∷ 10 ∷ 0xd83d ∷ 0xde00 ∷ [])) end))
unfolding toy_runs
parse_escapes = refl

-- conformance/vectors/cost-valid.json and cost-number-error.json
abbrev cost : V → Fields (List ℕ)
cost tokens = entry "tokens" tokens (
    entry "usd_micros" (text "10000000000")
      (entry "wall_ms" (text "845") (entry "rail_ref" null end)))

cost-valid :
    cost_canon toy (cost (text "1500"))
    ≡ reply (
        codes
          "7b227261696c5f726566223a6e756c6c2c22746f6b656e73223a2231353030222c227573645f6d6963726f73223a223130303030303030303030222c2277616c6c5f6d73223a22383435227d")
unfolding cost_canon toy_runs
cost-valid = refl

cost_number : cost_canon toy (cost (num (codes "1500"))) ≡ error (codes "cost_must_be_string_int")
unfolding cost_canon toy_runs
cost_number = refl

-- conformance/vectors/sse-reframed-equivalent.json, with its text in place of its base64.
sse_reframed :
    parse_sse (
      codes
        "event: msg\r\n: a comment line\r\nid: 7\r\ndata: hello\r\ndata: world\r\n\r\ndata: lost\r\n")
    ≡ codes "hello\nworld" ∷ []
unfolding parse_sse
sse_reframed = refl

abbrev pub seed : Str
seed = codes "AAAAAAAAAAAAAAAAAAAAAAAAAAAAAAAAAAAAAAAAAAA="

abbrev pub receipt : V → Fields (List ℕ)
receipt parent =
    entry "performer_id" (text "srv")
      (entry "binding" (text "mcp") (entry "parent_receipt_hash" parent end))

abbrev pub sign_input : V → V
sign_input parent = obj (
    entry "receipt" (obj (receipt parent))
      (entry "kid" (text "k1") (entry "private_key_b64" (str seed) end)))

abbrev or_empty_string : Outcome Str Str → Str
or_empty_string (pass s) = s
or_empty_string (fail _) = []
or_empty_string thrown = []

unfoldable pub signed : V → Str
unfolding toy_runs
signed parent = or_empty_string (sign toy (sign_input parent))

abbrev pub jwk : RegistryJwk
jwk = record {
  kty = codes "OKP";
  crv = codes "Ed25519";
  x = codes "AAAAAAAAAAAAAAAAAAAAAAAAAAAAAAAAAAAAAAAAAAA";
  y = none;
  alg = codes "EdDSA";
  status = some (codes "active");
}

abbrev pub registry : Registry
registry = (codes "srv", (codes "k1", jwk) ∷ []) ∷ []

verifies :
    verify toy (record { signed_receipt = str (signed null); keys = some registry; policy = none })
    ≡ some (record { valid = true; reason = ok })
unfolding toy_runs signed
verifies = refl

-- A chain of two: the child names the id of its parent, "u" and the digest of its canonical payload.
pub chain_of_one :
    verify_chain toy (record {
      receipts = arr (cons (str (signed null)) nil);
      keys = some registry;
      policy = none;
    })
    ≡ some (record { valid = true; reason = chain_ok; chain_len = 1 })
unfolding toy_runs signed
chain_of_one = refl
