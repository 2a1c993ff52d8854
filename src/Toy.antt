-- ===== src/Toy.antt =====
-- A concrete platform for tests: numbers are their literals, and the cryptography keeps its input.
use veritrail.Prelude.{ℕ, ◌%◌, Bool, true, List, ◌++◌, Option, none, some, map, drop, if◌then◌else◌}
use veritrail.Platform.{Platform}
use veritrail.Text.{Bytes, codes, str_eq, split}
use veritrail.Text.Base64.{from_base64, b64url_decode}
use veritrail.Text.Utf8.{strict_utf8, lossy_utf8}
use veritrail.Value.{get, set, has_own, is_present, as_str, as_object, as_array}
use veritrail.Value.Json.{parse}
use veritrail.Jcs.{jcs_bytes, jcs}
use veritrail.Hash.{digest_bytes}
use veritrail.Sign.{frame, sign}
use veritrail.Verify.{verify}
use veritrail.Chain.{verify_list, verify_chain}

-- A signature that holds the key and the text.
unfoldable pub toy_signature : Bytes → Bytes → Bytes
toy_signature text key = map (λ b. b % 256) (key ++ text)

unfoldable pub toy_digest : Bytes → Bytes
toy_digest bytes = map (λ b. b % 256) bytes

-- Reading `caller` of a built-in function throws, and its other members count as truthy.
unfoldable pub toy_member : List ℕ → List ℕ → Option Bool
unfolding str_eq
toy_member j k = if str_eq k (codes "caller") then none else some true

unfoldable pub toy_falsy : List ℕ → Bool
unfolding str_eq
toy_falsy n = str_eq n (codes "0")

-- The public key is the seed.
unfoldable pub toy_public_key : List ℕ → List ℕ → List ℕ → Option (List ℕ) → Option Bytes
unfolding from_base64
toy_public_key kty crv x y = some (from_base64 x)

unfoldable pub toy_verify : Bytes → Bytes → Bytes → Option Bool
unfolding str_eq toy_signature
toy_verify text key sig = some (str_eq sig (toy_signature text key))

unfoldable pub toy_private_key : Bytes → Option Bytes
toy_private_key der = some (drop 16 der)

abbrev pub toy : Platform
toy = record {
  Num = List ℕ;
  number_text = λ n. n;
  number_value = λ s. s;
  number_falsy = toy_falsy;
  number_eq = str_eq;
  inherited_member = toy_member;
  sha256 = toy_digest;
  PublicKey = Bytes;
  create_public_key = toy_public_key;
  verify_eddsa = toy_verify;
  verify_es256 = λ text key sig. none;
  PrivateKey = Bytes;
  create_private_key = toy_private_key;
  sign_eddsa = toy_signature;
}

-- All that a run on the toy platform computes with.
unfoldable pub toy_runs : Unit {0}
unfolding toy_signature toy_digest toy_member toy_falsy toy_public_key toy_verify toy_private_key
    parse get set has_own jcs_bytes digest_bytes b64url_decode from_base64 strict_utf8 lossy_utf8
    str_eq split is_present as_str as_object as_array jcs frame sign verify verify_list verify_chain
toy_runs = tt
