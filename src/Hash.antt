-- ===== src/Hash.antt =====
-- ts/src/commands/hashstring.ts and digest.ts: hash strings, "u" + base64url(0x12 || 0x20 || digest).
pub mod Injective
pub mod Bounds
use veritrail.Prelude.{◌∷◌, if◌then◌else◌}
use veritrail.Platform.{Platform}
use veritrail.Text.{Str, Bytes, codes, str_eq}
use veritrail.Text.Base64.{base64url, from_base64}
use veritrail.Text.Hex.{from_hex}

-- `{ error: … }` of the commands, or their output.
pub data Reply (A : Type 0) : Type 0 where
  reply : A → Reply A
  error : Str → Reply A

-- `encodeHashstring`
unfoldable pub encode_hashstring : Bytes → Str
unfolding base64url
encode_hashstring digest = b'u' ∷ base64url (0x12 ∷ 0x20 ∷ digest)

-- `hashstring`
unfoldable pub hashstring : Str → Str → Reply Str
unfolding encode_hashstring from_hex str_eq
hashstring algo digest_hex =
    if str_eq algo (codes "sha2-256")
    then reply (encode_hashstring (from_hex digest_hex))
    else error (codes "unsupported_algo")

module _ (p : Platform) where
  -- `digestBytes`
  unfoldable pub digest_bytes : Bytes → Str
  unfolding encode_hashstring
  digest_bytes raw = encode_hashstring (p.sha256 raw)

  -- `digest`
  unfoldable pub digest : Str → Str
  unfolding digest_bytes from_base64
  digest bytes_b64 = digest_bytes (from_base64 bytes_b64)
