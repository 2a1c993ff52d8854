-- ===== src/Sign.antt =====
-- ts/src/commands/sign.ts: a receipt signed as a compact EdDSA JWS from a 32-byte seed.
pub mod Signable
pub mod RoundTrip
pub mod Segments
pub mod Verified
use veritrail.Prelude.{not, [], ◌∷◌, ◌++◌, Option, none, some, ◌==◌, if◌then◌else◌, length}
use veritrail.Platform.{Platform}
use veritrail.Text.{Str, Bytes, codes, str_eq}
use veritrail.Text.Base64.{base64url, base64_unpadded, from_base64}
use veritrail.Text.Hex.{from_hex}
use veritrail.Text.Utf8.{encode_utf8}
use veritrail.Value.{
  Value, str, obj, arr, Fields, end, field, prop, has_own, set, as_str, as_object,
}
use veritrail.Jcs.{jcs_string, jcs_bytes}
use veritrail.Outcome.{Outcome, pass, ◌>>=◌, ◌>>◌, require, require_some}
use veritrail.Compact.{ascii_bytes}

-- version.ts `VERSION`
abbrev pub version : Str
version = codes "veritrail/0.1"

-- `PKCS8_ED25519_PREFIX`
unfoldable pub pkcs8_ed25519_prefix : Bytes
unfolding from_hex
pkcs8_ed25519_prefix = from_hex (codes "302e020100300506032b657004220420")

-- `s.replace(/=+$/, '')`
unfoldable pub strip_padding : Str → Str
strip_padding [] = []
strip_padding (c ∷ cs) = elim (strip_padding cs) [
  | [] ↦ (if c == b'=' then [] else c ∷ [])
  | d ∷ ds ↦ c ∷ d ∷ ds
]

-- `decodeFlexibleBase64`
unfoldable pub decode_flexible_base64 : Str → Option Bytes
unfolding strip_padding from_base64 base64_unpadded str_eq
decode_flexible_base64 s =
    if str_eq (base64_unpadded (from_base64 s)) (strip_padding s)
    then some (from_base64 s)
    else none

-- A value whose `typeof` is 'object', and that is not null: its own properties.
unfoldable pub as_record : {N : Type 0} → Value N → Option (Fields N)
as_record (obj fs) = some fs
as_record (arr _) = some end
as_record _ = none

-- `{ alg: 'EdDSA', kid }`
abbrev pub eddsa_header : {N : Type 0} → Str → Fields N
eddsa_header kid = field (codes "alg") (str (codes "EdDSA")) (field (codes "kid") (str kid) end)

module _ (p : Platform) where
  open p use {Num, PrivateKey, create_private_key, sign_eddsa}

  -- `${headerSeg}.${payloadSeg}` of a payload to be signed under a `kid`.
  unfoldable pub signing_input : Str → Fields Num → Str
  unfolding base64url
  signing_input kid payload =
      base64url (encode_utf8 (jcs_string p (obj (eddsa_header kid))))
      ++ b'.' ∷ base64url (jcs_bytes p (obj payload))

  -- The framing of the signed receipt.
  unfoldable pub frame : Str → Fields Num → PrivateKey → Str
  unfolding signing_input ascii_bytes
  frame kid payload key =
      signing_input kid payload
      ++ b'.' ∷ base64url (sign_eddsa (ascii_bytes (signing_input kid payload)) key)

  -- `privateKeyFromSeed`
  unfoldable pub private_key_from_seed : Bytes → Option PrivateKey
  private_key_from_seed seed =
      if length seed == 32 then create_private_key (pkcs8_ed25519_prefix ++ seed) else none

  abbrev pub invalid_private_key : Str
  invalid_private_key = codes "invalid_private_key"

  -- `sign`
  unfoldable pub sign : Value Num → Outcome Str Str
  unfolding private_key_from_seed pkcs8_ed25519_prefix as_record decode_flexible_base64
  sign input = do
    fs ← require_some (as_record input) (codes "invalid_input")
    receipt ← require_some (as_object (prop (codes "receipt") fs)) (codes "invalid_input")
    require (not (has_own (codes "receipt_id") receipt)) (codes "receipt_id_must_be_absent")
    kid ← require_some (as_str (prop (codes "kid") fs)) (codes "kid_required")
    require (not (str_eq kid [])) (codes "kid_required")
    encoded ← require_some (as_str (prop (codes "private_key_b64") fs)) invalid_private_key
    seed ← require_some (decode_flexible_base64 encoded) invalid_private_key
    require (length seed == 32) invalid_private_key
    key ← require_some (private_key_from_seed seed) invalid_private_key
    pass (frame kid (set (codes "v") (str version) receipt) key)
