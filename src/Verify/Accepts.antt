-- ===== src/Verify/Accepts.antt =====
-- When `verify` of ts/src/commands/verify.ts accepts a receipt: the conditions, with no order.
use veritrail.Prelude.{◌≡◌, ◌≢◌, ◌⊎◌, true, false, [], Option, some, All}
use veritrail.Platform.{Platform}
use veritrail.Text.{Str, Bytes, codes}
use veritrail.Value.{Value, str, obj, prop, has_own}
use veritrail.Jcs.{jcs_bytes}
use veritrail.Compact.{Compact, read_compact, signing_text, ascii_bytes}
use veritrail.Verify.{
  RegistryJwk, Dict, Registry, Policy, forbidden_header_keys, own, member, expected,
}

-- The registry holds `jwk` itself under the two names.
pub record IsRegistered (keys : Option Registry) (performer kid : Str) (jwk : RegistryJwk)
    : Type 0 where
  pub registry : Registry
  pub entries : Dict RegistryJwk
  pub given : keys ≡ some registry
  pub performer_is : member performer registry ≡ own entries
  pub kid_is : member kid entries ≡ own jwk

-- One of the two algorithms, and its check of the signature.
abbrev pub IsSigned : (p : Platform) → Str → Bytes → p.PublicKey → Bytes → Type 0
IsSigned p alg text key sig =
    ((alg ≡ codes "EdDSA") × (p.verify_eddsa text key sig ≡ some true))
    ⊎ ((alg ≡ codes "ES256") × (p.verify_es256 text key sig ≡ some true))

module _ (p : Platform) where
  open p use {Num, PublicKey, create_public_key}

  -- What an expected value of the policy asks of a field of the payload.
  abbrev pub Meets : Option Policy → (Policy → Option Str) → Value Num → Type 0
  Meets policy f v = (e : Str) → expected f policy ≡ some e → v ≡ str e

  -- A compact form that steps 2 to 8 accept under a registry and a policy.
  pub record IsAccepted (keys : Option Registry) (policy : Option Policy) (c : Compact Num)
      : Type 0 where
    pub no_key_material : All (λ k. has_own k c.header ≡ false) forbidden_header_keys
    pub performer : Str
    pub performer_is : prop (codes "performer_id") c.payload ≡ str performer
    pub kid : Str
    pub kid_is : prop (codes "kid") c.header ≡ str kid
    pub jwk : RegistryJwk
    pub registered : IsRegistered keys performer kid jwk
    pub active : jwk.status ≢ some (codes "revoked")
    pub alg_is : prop (codes "alg") c.header ≡ str jwk.alg
    pub alg_ne_none : jwk.alg ≢ codes "none"
    pub alg_ne_empty : jwk.alg ≢ []
    pub key : PublicKey
    pub key_is : create_public_key jwk.kty jwk.crv jwk.x jwk.y ≡ some key
    pub signed : IsSigned p jwk.alg (ascii_bytes (signing_text c.segs)) key c.sig
    pub canonical : jcs_bytes p (obj c.payload) ≡ c.payload_bytes
    pub binding_meets : Meets policy (λ q. q.expected_binding) (prop (codes "binding") c.payload)
    pub method_meets : Meets policy (λ q. q.expected_method) (prop (codes "method") c.payload)

  -- A receipt that `verify` accepts, with what step 1 reads from it.
  pub record Accepts (keys : Option Registry) (policy : Option Policy) (signed_receipt : Value Num)
      : Type 0 where
    pub read : Compact Num
    pub read_is : read_compact p signed_receipt ≡ some read
    pub accepted : IsAccepted keys policy read
