-- ===== src/Hash/Injective.antt =====
-- The hash strings of ts/src/commands/hashstring.ts and digest.ts, decoded.
use veritrail.Prelude.{◌≡◌, ◌≢◌, ◌⊎◌, inl, inr, Bool-cases, sym, ap, ◌∙◌, ◌∷◌, arith, drop}
use veritrail.Platform.{Platform}
use veritrail.Text.{Bytes, str_eq, str_eq_iff}
use veritrail.Text.Base64.{from_base64}
use veritrail.Text.Base64.RoundTrip.{IsBytes, from_base64-base64url}
use veritrail.Hash.{encode_hashstring, digest_bytes}

-- Behind its first character, a hash string is the base64url form of the multihash.
pub from_base64-encode_hashstring :
    (digest : Bytes)
    → IsBytes digest
    → from_base64 (drop 1 (encode_hashstring digest)) ≡ 0x12 ∷ 0x20 ∷ digest
unfolding encode_hashstring
from_base64-encode_hashstring digest h =
    from_base64-base64url (0x12 ∷ 0x20 ∷ digest) (omega arith, (omega arith, h))

-- Two digests of bytes with the same hash string are the same.
pub encode_hashstring-injective :
    (a b : Bytes) → IsBytes a → IsBytes b → encode_hashstring a ≡ encode_hashstring b → a ≡ b
encode_hashstring-injective a b ha hb e = ap (drop 2) (
    sym (from_base64-encode_hashstring a ha)
    ∙ ap (λ s. from_base64 (drop 1 s)) e
    ∙ from_base64-encode_hashstring b hb)

-- Two byte strings with one SHA-256 digest.
pub record Collision (p : Platform) : Type 0 where
  pub left : Bytes
  pub right : Bytes
  pub differ : left ≢ right
  pub same_digest : p.sha256 left ≡ p.sha256 right

-- Two byte strings with one hash string are the same, or collide.
pub digest_bytes-injective :
    (p : Platform)
    → ((b : Bytes) → IsBytes (p.sha256 b))
    → (a b : Bytes) → digest_bytes p a ≡ digest_bytes p b
    → (a ≡ b) ⊎ Collision p
unfolding digest_bytes
digest_bytes-injective p bytes a b e = elim (Bool-cases (str_eq a b)) [
  | inl same ↦ inl ((str_eq_iff a b).0 same)
  | inr differ ↦ inr (record {
    left = a;
    right = b;
    differ = λ h. cc ((str_eq_iff a b).1 h, differ);
    same_digest = encode_hashstring-injective (p.sha256 a) (p.sha256 b) (bytes a) (bytes b) e;
  })
]
