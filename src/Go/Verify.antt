-- ===== src/Go/Verify.antt =====
-- go/verify.go: `Verify`.
pub mod Claims
pub mod Keys
pub mod Steps
pub mod Returns
pub mod Found
pub mod Signatures
pub mod Alike
pub mod Agreement
use veritrail.Prelude.{
  ℕ, ◌+◌, ◌*◌, Bool, true, false, not, ◌&&◌, List, [], ◌∷◌, Option, none, some, if◌then◌else◌, ◌==◌,
  length, take, drop,
}
use veritrail.Text.{Str, Bytes, codes, str_eq}
use veritrail.Text.Utf8.{encode_utf8}
use veritrail.Compact.{Segments, segments, signing_text}
use veritrail.Outcome.{Outcome, pass, fail, thrown, ◌>>=◌, ◌>>◌, require, require_some}
use veritrail.Verify.{
  Reason, malformed, header_key_material, unknown_key, revoked_key, alg_not_allowed, bad_signature,
  non_canonical_payload, context_mismatch, ok, VerifyOutput, forbidden_header_keys,
}
use veritrail.Go.Library.{Library, RawObject}
use veritrail.Go.Base64.{raw_url_decode}

-- A field that the input does not have is the empty string.
pub record RegistryKey : Type 0 where
  pub kty : Str
  pub crv : Str
  pub x : Str
  pub y : Str
  pub alg : Str
  pub status : Str

-- `none` is nil.
pub record VerifyPolicy : Type 0 where
  pub expected_binding : Option Str
  pub expected_method : Option Str

-- `map[string]map[string]RegistryKey`
abbrev pub Keys : Type 0
Keys = List (Str × List (Str × RegistryKey))

pub record VerifyInput : Type 0 where
  pub signed_receipt : Str
  pub keys : Keys
  pub policy : VerifyPolicy

-- `v, ok := m[k]`
unfoldable pub lookup : {T : Type 0} → Str → List (Str × T) → Option T
unfolding str_eq
lookup k [] = none
lookup k ((j, v) ∷ m) = if str_eq j k then some v else lookup k m

abbrev pub is_some : {A : Type 0} → Option A → Bool
is_some none = false
is_some (some a) = true

-- `new(big.Int).SetBytes(b)`, the most significant byte first.
unfoldable pub set_bytes : ℕ → Bytes → ℕ
set_bytes acc [] = acc
set_bytes acc (b ∷ bs) = set_bytes (acc * 256 + b) bs

-- The loop over `forbiddenHeaderKeys`.
unfoldable pub any_key : List Str → RawObject → Bool
unfolding lookup
any_key [] header = false
any_key (k ∷ ks) header = if is_some (lookup k header) then true else any_key ks header

-- `performerID == "" || kid == ""` and the two lookups.
unfoldable pub resolve : Keys → Str → Str → Outcome Reason RegistryKey
unfolding lookup str_eq
resolve keys performer kid = do
  require (not (str_eq performer [])) unknown_key
  require (not (str_eq kid [])) unknown_key
  perf_keys ← require_some (lookup performer keys) unknown_key
  require_some (lookup kid perf_keys) unknown_key

-- Steps 4 and 5.
unfoldable pub check_key : RegistryKey → Str → Outcome Reason (Unit {0})
unfolding str_eq
check_key key header_alg = do
  require (not (str_eq key.status (codes "revoked"))) revoked_key
  require (not (str_eq header_alg [])) alg_not_allowed
  require (not (str_eq header_alg (codes "none"))) alg_not_allowed
  require (str_eq header_alg key.alg) alg_not_allowed

-- `expected != nil && claim != *expected` does not hold.
unfoldable pub meets : Option Str → Str → Bool
unfolding str_eq
meets none claim = true
meets (some e) claim = str_eq claim e

-- Step 8.
unfoldable pub check_context : VerifyPolicy → Str → Str → Outcome Reason (Unit {0})
unfolding meets
check_context policy binding method = do
  require (meets policy.expected_binding binding) context_mismatch
  require (meets policy.expected_method method) context_mismatch

-- What step 1 reads.
pub record Opened : Type 0 where
  pub segs : Segments
  pub header : RawObject
  pub payload : RawObject
  pub payload_bytes : Bytes
  pub sig : Bytes

-- What `json.Unmarshal` leaves in the string variable.
abbrev pub string_or_empty : Option Str → Str
string_or_empty none = []
string_or_empty (some s) = s

module _ (lib : Library) where
  open lib use {
    unmarshal_object, unmarshal_string, utf8_valid, transform, sha256, ed25519_verify, is_on_curve,
    ecdsa_verify,
  }

  abbrev pub claim_text : Option Bytes → Str
  claim_text none = []
  claim_text (some raw) = string_or_empty (unmarshal_string raw)

  -- `stringClaim`
  unfoldable pub string_claim : RawObject → Str → Str
  unfolding lookup
  string_claim m key = claim_text (lookup key m)

  -- The checks of a public key and of a signature for "ES256".
  unfoldable pub verify_point : Bytes → Bytes → Bytes → Bytes → Bool
  unfolding set_bytes
  verify_point xb yb input sig =
      if is_on_curve (set_bytes 0 xb) (set_bytes 0 yb)
      then ecdsa_verify (set_bytes 0 xb) (set_bytes 0 yb) (sha256 input) (set_bytes 0 (take 32 sig))
          (set_bytes 0 (drop 32 sig))
      else false

  -- A coordinate or a key of 32 bytes.
  unfoldable pub key_bytes : Str → Option Bytes
  unfolding raw_url_decode
  key_bytes s = elim (raw_url_decode s) [
    | none ↦ none
    | some b ↦ if length b == 32 then some b else none
  ]

  unfoldable pub verify_ed25519 : Option Bytes → Bytes → Bytes → Bool
  verify_ed25519 none input sig = false
  verify_ed25519 (some pub_key) input sig = ed25519_verify pub_key input sig

  unfoldable pub verify_es256 : Option Bytes → Option Bytes → Bytes → Bytes → Bool
  unfolding verify_point
  verify_es256 (some xb) (some yb) input sig = verify_point xb yb input sig
  verify_es256 _ _ input sig = false

  -- `verifySignature`
  unfoldable pub verify_signature : RegistryKey → Str → Bytes → Bytes → Bool
  unfolding verify_ed25519 verify_es256 key_bytes str_eq
  verify_signature key alg input sig =
      if str_eq alg (codes "EdDSA")
      then verify_ed25519 (key_bytes key.x) input sig
      else if str_eq alg (codes "ES256")
      then (if length sig == 64
          then verify_es256 (key_bytes key.x) (key_bytes key.y) input sig
          else false)
      else false

  -- Step 1.
  unfoldable pub open_receipt : Str → Outcome Reason Opened
  unfolding segments raw_url_decode
  open_receipt jws = do
    segs ← require_some (segments jws) malformed
    header_bytes ← require_some (raw_url_decode segs.header_seg) malformed
    payload_bytes ← require_some (raw_url_decode segs.payload_seg) malformed
    sig_bytes ← require_some (raw_url_decode segs.sig_seg) malformed
    header ← require_some (unmarshal_object header_bytes) malformed
    require (utf8_valid payload_bytes) malformed
    payload ← require_some (unmarshal_object payload_bytes) malformed
    pass (record {
      segs = segs;
      header = header;
      payload = payload;
      payload_bytes = payload_bytes;
      sig = sig_bytes;
    })

  -- Step 7.
  unfoldable pub check_canonical : Bytes → Outcome Reason (Unit {0})
  unfolding str_eq
  check_canonical payload_bytes = do
    canon ← require_some (transform payload_bytes) non_canonical_payload
    require (str_eq payload_bytes canon) non_canonical_payload

  -- Steps 2 to 8.
  unfoldable pub check_opened : Keys → VerifyPolicy → Opened → Outcome Reason (Unit {0})
  unfolding any_key resolve check_key verify_signature check_canonical check_context string_claim
      encode_utf8
  check_opened keys policy o = do
    require (not (any_key forbidden_header_keys o.header)) header_key_material
    key ←
        resolve keys (string_claim o.payload (codes "performer_id"))
          (string_claim o.header (codes "kid"))
    check_key key (string_claim o.header (codes "alg"))
    require
        (verify_signature key (string_claim o.header (codes "alg"))
          (encode_utf8 (signing_text o.segs)) o.sig)
        bad_signature
    check_canonical o.payload_bytes
    check_context policy (string_claim o.payload (codes "binding"))
        (string_claim o.payload (codes "method"))

  unfoldable pub verify_steps : VerifyInput → Outcome Reason (Unit {0})
  unfolding open_receipt check_opened
  verify_steps input = do
    o ← open_receipt input.signed_receipt
    check_opened input.keys input.policy o

-- The two results of `Verify`; no step throws.
unfoldable pub verdict : Outcome Reason (Unit {0}) → VerifyOutput
verdict (pass _) = record { valid = true; reason = ok }
verdict (fail r) = record { valid = false; reason = r }
verdict thrown = record { valid = false; reason = malformed }

-- `Verify`
unfoldable pub verify : Library → VerifyInput → VerifyOutput
unfolding verify_steps verdict ◌>>=◌ ◌>>◌ require require_some
verify lib input = verdict (verify_steps lib input)
