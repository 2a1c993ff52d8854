-- ===== src/Go/Verify/Alike.antt =====
-- A receipt that go/verify.go and ts/src/commands/verify.ts read alike: the single steps.
use veritrail.Prelude.{◌≡◌, refl, ap, Bool, true, not, Option, none, some}
use veritrail.Text.{codes, str_eq}
use veritrail.Text.Base64.{from_base64}
use veritrail.Value.{str, obj, prop}
use veritrail.Jcs.{jcs_bytes}
use veritrail.Platform.{Platform}
use veritrail.Compact.{Compact, signing_text, ascii_bytes}
use veritrail.Outcome.{pass, require, require_some}
use veritrail.Outcome.{◌>>◌, ◌>>=◌}
use veritrail.Verify.{
  Reason, unknown_key, header_key_material, bad_signature, non_canonical_payload, RegistryJwk,
  Registry, Policy, Resolved, entry, built_in, forbidden_header_keys, any_own, is_revoked,
  alg_allowed, expected, find_key, resolve_key, build_public_key, check_payload, check_signature,
  check_key, check_compact, verify_steps, status_of, alg_of, verify,
}
use veritrail.Verify
use veritrail.Go.Library.{Library}
use veritrail.Go.Verify.{
  Opened, any_key, resolve, check_context, string_claim, check_canonical, verify_signature,
}
use veritrail.Go.Verify.Signatures.{IsTyped, CryptoAlike, signed_with, verify_signature-signed_with}
use veritrail.Go.Verify.Claims.{IsReadBy, string_claim-prop, any_key-any_own}
use veritrail.Go.Verify.Keys.{go_key, go_keys, go_policy, go_resolved, IsPlainClaim, find_names}
use veritrail.Go.Verify.Steps.{IsExpecting, meets-text_of, str_eq_comm}

module _ (p : Platform) (lib : Library) where
  -- The library reads the header and the payload of a receipt as `verify` does, and canonicalises
  -- the payload as `jcsBytes` does.
  pub record ReadsAlike (c : Compact p.Num) : Type 0 where
    pub header : IsReadBy lib (from_base64 c.segs.header_seg) c.header
    pub payload : IsReadBy lib c.payload_bytes c.payload
    pub valid : lib.utf8_valid c.payload_bytes ≡ true
    pub canonical : lib.transform c.payload_bytes ≡ some (jcs_bytes p (obj c.payload))

  -- Whether the signature of a receipt is good for an entry of the registry.
  abbrev pub is_signed : RegistryJwk → Compact p.Num → Bool
  is_signed jwk c =
      signed_with p lib (build_public_key p (entry jwk)) jwk.alg (ascii_bytes (signing_text c.segs))
        c.sig

  -- The entry that the names of a receipt find, if its algorithm is the header's.
  pub record SignsAlike (jwk : RegistryJwk) (c : Compact p.Num) : Type 0 where
    pub typed : IsTyped jwk
    pub crypto : CryptoAlike p lib jwk (ascii_bytes (signing_text c.segs)) c.sig

  -- Its type is that of its algorithm, and the two crypto libraries agree on its key and on the
  -- signature.
  abbrev pub FindsAlike : Option Registry → Compact p.Num → Type 0
  FindsAlike keys c =
      (jwk : RegistryJwk)
      → find_key p keys c ≡ pass (entry jwk)
      → prop (codes "alg") c.header ≡ str jwk.alg
      → SignsAlike jwk c

  -- Step 6 comes to the same.
  pub verify_signature-is_signed :
      (jwk : RegistryJwk) (c : Compact p.Num)
      → SignsAlike jwk c
      → verify_signature lib (go_key jwk) jwk.alg (ascii_bytes (signing_text c.segs)) c.sig
        ≡ is_signed jwk c
  verify_signature-is_signed jwk c a =
      verify_signature-signed_with p lib jwk (ascii_bytes (signing_text c.segs)) c.sig a.typed
        a.crypto

  abbrev pub opened : (c : Compact p.Num) → ReadsAlike c → Opened
  opened c r = record {
    segs = c.segs;
    header = r.header.raw;
    payload = r.payload.raw;
    payload_bytes = c.payload_bytes;
    sig = c.sig;
  }

  pub check_signature-is_signed :
      (jwk : RegistryJwk) (c : Compact p.Num)
      → check_signature p jwk.alg (entry jwk) c ≡ require (is_signed jwk c) bad_signature
  unfolding check_signature require require_some ◌>>=◌
  check_signature-is_signed jwk c = go (build_public_key p (entry jwk))
    where
      go :
          (o : Option p.PublicKey)
          → (require_some o bad_signature >>= λ key.
              require
                (Verify.verify_signature p jwk.alg (ascii_bytes (signing_text c.segs)) key c.sig)
                bad_signature)
            ≡ require
                (signed_with p lib o jwk.alg (ascii_bytes (signing_text c.segs)) c.sig)
                bad_signature
      go none = refl
      go (some key) = refl

  check_canonical-eq :
      (c : Compact p.Num) (r : ReadsAlike c)
      → check_canonical lib c.payload_bytes
        ≡ require (str_eq (jcs_bytes p (obj c.payload)) c.payload_bytes) non_canonical_payload
  unfolding check_canonical require_some ◌>>=◌
  check_canonical-eq c r = rw r.canonical (
      ap (λ b. require b non_canonical_payload)
        (str_eq_comm c.payload_bytes (jcs_bytes p (obj c.payload))))

  -- Steps 7 and 8.
  pub payload_steps :
      (policy : Option Policy) (c : Compact p.Num) (r : ReadsAlike c)
      → IsExpecting (expected (λ q. q.expected_binding) policy)
      → IsExpecting (expected (λ q. q.expected_method) policy)
      → (check_canonical lib c.payload_bytes
          >> check_context
              (go_policy policy)
              (string_claim lib r.payload.raw (codes "binding"))
              (string_claim lib r.payload.raw (codes "method")))
        ≡ check_payload p policy c
  unfolding check_context check_payload
  payload_steps policy c r b m =
      rw
        (
          check_canonical-eq c r,
          string_claim-prop lib r.payload (codes "binding"),
          string_claim-prop lib r.payload (codes "method"),
          meets-text_of (expected (λ q. q.expected_binding) policy)
              (prop (codes "binding") c.payload) b,
          meets-text_of (expected (λ q. q.expected_method) policy) (prop (codes "method") c.payload)
              m,
        )
        refl

  -- Steps 2 and 3.
  pub find_steps :
      (keys : Option Registry) (c : Compact p.Num) (r : ReadsAlike c)
      → IsPlainClaim (prop (codes "performer_id") c.payload)
      → IsPlainClaim (prop (codes "kid") c.header)
      → (require (not (any_key forbidden_header_keys r.header.raw)) header_key_material
          >> resolve
              (go_keys keys)
              (string_claim lib r.payload.raw (codes "performer_id"))
              (string_claim lib r.header.raw (codes "kid")))
        ≡ go_resolved (find_key p keys c)
  unfolding find_key
  find_steps keys c r a b =
      rw
        (
          any_key-any_own lib r.header forbidden_header_keys,
          string_claim-prop lib r.payload (codes "performer_id"),
          string_claim-prop lib r.header (codes "kid"),
        )
        (find_names p keys _ (prop (codes "performer_id") c.payload) (prop (codes "kid") c.header) a
          b)
