-- ===== src/Hash/Bounds.antt =====
-- How long the hash strings of ts/src/commands/hashstring.ts are.
use veritrail.Prelude.{◌+◌, ◌*◌, ◌/◌, ◌≡◌, [], ◌∷◌, arith, length}
use veritrail.Text.{Bytes}
use veritrail.Text.Base64.{base64url, encode_with}
use veritrail.Hash.{encode_hashstring}

length-base64url : (bs : Bytes) → length (base64url bs) ≡ (4 * length bs + 2) / 3
unfolding base64url encode_with
length-base64url [] = omega arith
length-base64url (a ∷ []) = omega arith
length-base64url (a ∷ b ∷ []) = omega arith
length-base64url (a ∷ b ∷ c ∷ rest) = let h = length-base64url rest in omega (arith, h)

-- The hash string of a digest of n bytes has (4 * n + 13) / 3 letters, rounded down: 47 for the 32 bytes
-- of SHA-256.
pub length-encode_hashstring :
    (digest : Bytes) → length (encode_hashstring digest) ≡ (4 * length digest + 13) / 3
unfolding encode_hashstring
length-encode_hashstring digest =
    let h = length-base64url (0x12 ∷ 0x20 ∷ digest) in omega (arith, h)
