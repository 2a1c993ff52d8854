-- ===== src/Go/Verify/Signatures.antt =====
-- `verifySignature` of go/verify.go, and `buildPublicKey` and `verifySignature` of
-- ts/src/commands/verify.ts, on one entry of the registry.
use veritrail.Prelude.{
  ◌≡◌, refl, sym, Bool, true, false, Option, none, some, length, take, drop, ◌==◌, if◌then◌else◌,
  inl, inr, Bool-cases,
}
use veritrail.Text.{Str, Bytes, codes, str_eq}
use veritrail.Platform.{Platform}
use veritrail.Verify.{RegistryJwk, entry, caught, build_public_key}
use veritrail.Verify
use veritrail.Go.Library.{Library}
use veritrail.Go.Verify.{
  set_bytes, key_bytes, verify_ed25519, verify_es256, verify_point, verify_signature,
}
use veritrail.Go.Verify.Keys.{go_key}

-- The type and the curve of an entry are those of its algorithm. Go does not look at them.
pub record IsTyped (jwk : RegistryJwk) : Type 0 where
  pub eddsa :
      str_eq jwk.alg (codes "EdDSA") ≡ true → (jwk.kty ≡ codes "OKP") × (jwk.crv ≡ codes "Ed25519")
  pub es256 :
      str_eq jwk.alg (codes "ES256") ≡ true → (jwk.kty ≡ codes "EC") × (jwk.crv ≡ codes "P-256")

module _ (p : Platform) (lib : Library) where
  open p use {PublicKey, create_public_key, verify_eddsa}
  open lib use {sha256, ed25519_verify, is_on_curve, ecdsa_verify}

  -- `verify` with the key that is built, if one is built.
  abbrev pub signed_with : Option PublicKey → Str → Bytes → Bytes → Bool
  signed_with none alg input sig = false
  signed_with (some key) alg input sig = Verify.verify_signature p alg input key sig

  module _ (x : Str) (y : Option Str) (input sig : Bytes) where
    abbrev ed25519_key : Option PublicKey
    ed25519_key = create_public_key (codes "OKP") (codes "Ed25519") x y

    abbrev p256_key : Option PublicKey
    p256_key = create_public_key (codes "EC") (codes "P-256") x y

    -- `node:crypto` builds a key from 32 bytes, and from no other number of them, and `verify(null, …)`
    -- answers as `ed25519.Verify` does for this text and this signature.
    abbrev pub Ed25519Alike : Option Bytes → Type 0
    Ed25519Alike none = ed25519_key ≡ none
    Ed25519Alike (some b) =
        (key : PublicKey) × (ed25519_key ≡ some key)
        × (verify_eddsa input key sig ≡ some (ed25519_verify b input sig))

    -- `verify('sha256', …)` answers as `ecdsa.Verify` does for the two halves of a signature of 64
    -- bytes, and answers false or throws for any other.
    abbrev pub EcdsaAlike : Bool → PublicKey → Bytes → Bytes → Type 0
    EcdsaAlike true key xb yb =
        p.verify_es256 input key sig
        ≡ some (
            ecdsa_verify (set_bytes 0 xb) (set_bytes 0 yb) (sha256 input)
              (set_bytes 0 (take 32 sig)) (set_bytes 0 (drop 32 sig)))
    EcdsaAlike false key xb yb = caught (p.verify_es256 input key sig) ≡ false

    -- `node:crypto` builds a key from a point of P-256, and from no other pair of numbers.
    abbrev pub PointAlike : Bool → Bytes → Bytes → Type 0
    PointAlike false xb yb = p256_key ≡ none
    PointAlike true xb yb =
        (key : PublicKey) × (p256_key ≡ some key) × EcdsaAlike (length sig == 64) key xb yb

    -- It builds none from coordinates of another length than 32 bytes.
    abbrev pub P256Alike : Option Bytes → Option Bytes → Type 0
    P256Alike (some xb) (some yb) = PointAlike (is_on_curve (set_bytes 0 xb) (set_bytes 0 yb)) xb yb
    P256Alike _ _ = p256_key ≡ none

  -- The two crypto libraries agree on the key of an entry and on a signature under it.
  pub record CryptoAlike (jwk : RegistryJwk) (input sig : Bytes) : Type 0 where
    pub eddsa :
        str_eq jwk.alg (codes "EdDSA") ≡ true
        → Ed25519Alike jwk.x jwk.y input sig (key_bytes lib jwk.x)
    pub es256 :
        str_eq jwk.alg (codes "ES256") ≡ true
        → P256Alike jwk.x jwk.y input sig (key_bytes lib jwk.x) (key_bytes lib (go_key jwk).y)

  module _ (alg : Str) (x : Str) (y : Option Str) (input sig : Bytes) where
    ed25519-signed :
        (o : Option Bytes)
        → str_eq alg (codes "EdDSA") ≡ true
        → Ed25519Alike x y input sig o
        → verify_ed25519 lib o input sig ≡ signed_with (ed25519_key x y input sig) alg input sig
    unfolding verify_ed25519 Verify.verify_signature
    ed25519-signed none e h = rw h refl
    ed25519-signed (some b) e (key, built, same) = rw (built, Verify.verify_signature, e, same) refl

    -- The answer for the two halves of a signature of 64 bytes.
    abbrev halves : Bytes → Bytes → Bool
    halves xb yb =
        ecdsa_verify (set_bytes 0 xb) (set_bytes 0 yb) (sha256 input) (set_bytes 0 (take 32 sig))
          (set_bytes 0 (drop 32 sig))

    ecdsa-caught :
        (long : Bool) (key : PublicKey) (xb yb : Bytes)
        → EcdsaAlike x y input sig long key xb yb
        → (if long then halves xb yb else false) ≡ caught (p.verify_es256 input key sig)
    ecdsa-caught true key xb yb h = rw h refl
    ecdsa-caught false key xb yb h = sym h

    module _ (d : str_eq alg (codes "EdDSA") ≡ false) (e : str_eq alg (codes "ES256") ≡ true) where
      unsigned :
          p256_key x y input sig ≡ none
          → (b : Bool)
          → (if b then false else false) ≡ signed_with (p256_key x y input sig) alg input sig
      unsigned h true = rw h refl
      unsigned h false = rw h refl

      point-signed :
          (on : Bool) (xb yb : Bytes)
          → PointAlike x y input sig on xb yb
          → (if length sig == 64 then (if on then halves xb yb else false) else false)
            ≡ signed_with (p256_key x y input sig) alg input sig
      unfolding Verify.verify_signature
      point-signed false xb yb h = unsigned h (length sig == 64)
      point-signed true xb yb (key, built, same) =
          rw (built, Verify.verify_signature, d, e) (ecdsa-caught (length sig == 64) key xb yb same)

      p256-signed :
          (o o' : Option Bytes)
          → P256Alike x y input sig o o'
          → (if length sig == 64 then verify_es256 lib o o' input sig else false)
            ≡ signed_with (p256_key x y input sig) alg input sig
      unfolding verify_es256 verify_point
      p256-signed (some xb) (some yb) h =
          point-signed (is_on_curve (set_bytes 0 xb) (set_bytes 0 yb)) xb yb h
      p256-signed (some xb) none h = unsigned h (length sig == 64)
      p256-signed none o' h = unsigned h (length sig == 64)

    -- No other algorithm is known.
    signed_with-other :
        (o : Option PublicKey)
        → str_eq alg (codes "EdDSA") ≡ false
        → str_eq alg (codes "ES256") ≡ false
        → false ≡ signed_with o alg input sig
    unfolding Verify.verify_signature
    signed_with-other none d e = refl
    signed_with-other (some key) d e = rw (Verify.verify_signature, d, e) refl

  -- If the crypto libraries agree on the key of an entry and on the signature, and the entry has the type
  -- of its algorithm, Go finds the signature good exactly if TypeScript does.
  pub verify_signature-signed_with :
      (jwk : RegistryJwk) (input sig : Bytes)
      → IsTyped jwk
      → CryptoAlike jwk input sig
      → verify_signature lib (go_key jwk) jwk.alg input sig
        ≡ signed_with (build_public_key p (entry jwk)) jwk.alg input sig
  unfolding verify_signature build_public_key
  verify_signature-signed_with jwk input sig t c =
      elim (Bool-cases (str_eq jwk.alg (codes "EdDSA"))) [
        | inl d ↦
            let (kty, crv) = t.eddsa d in
            rw (verify_signature, d, kty, crv)
              (ed25519-signed jwk.alg jwk.x jwk.y input sig (key_bytes lib jwk.x) d (c.eddsa d))
        | inr d ↦ elim (Bool-cases (str_eq jwk.alg (codes "ES256"))) [
          | inl e ↦
              let (kty, crv) = t.es256 e in
              rw (verify_signature, d, e, kty, crv)
                (p256-signed jwk.alg jwk.x jwk.y input sig d e (key_bytes lib jwk.x)
                  (key_bytes lib (go_key jwk).y) (c.es256 e))
          | inr e ↦
              rw (verify_signature, d, e) (signed_with-other jwk.alg jwk.x jwk.y input sig _ d e)
        ]
      ]
