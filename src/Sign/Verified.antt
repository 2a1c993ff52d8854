-- ===== src/Sign/Verified.antt =====
-- The framing of ts/src/commands/sign.ts under ts/src/commands/verify.ts.
use veritrail.Prelude.{◌≡◌, ◌≢◌, refl, ap, true, false, arith, All, Option, none, some, inl}
use veritrail.Platform.{Platform}
use veritrail.Text.{Str, Bytes, codes, str_lt, str_eq}
use veritrail.Text.Utf8.{encode_utf8}
use veritrail.Text.Base64.RoundTrip.{IsBytes}
use veritrail.Value.{Value, str, obj, Fields, get, has_own, prop, or_undefined}
use veritrail.Jcs.{jcs_bytes, sort_keys, insert_key}
use veritrail.Jcs.Quoted.{IsStr}
use veritrail.Jcs.Canonical.{
  canonical, of_members, canonical_members, HaveJson, jcs_string-canonical,
}
use veritrail.Jcs.Lookup.{canonical_fields, get-canonical_fields}
use veritrail.Compact.{ascii_bytes}
use veritrail.Verify.{RegistryJwk, Registry, Policy, verify, ok, forbidden_header_keys}
use veritrail.Verify.Accepts.{IsRegistered, Meets}
use veritrail.Verify.Stages.{verify_valid_iff}
use veritrail.Sign.{eddsa_header, signing_input, frame}
use veritrail.Sign.Segments.{read_compact-joined}

module _ (p : Platform) where
  open p use {Num, PublicKey, PrivateKey, create_public_key, verify_eddsa, sign_eddsa}

  -- The public half of a key: an entry of a registry under which every signature of the key checks.
  pub record IsPublicHalf (key : PrivateKey) (jwk : RegistryJwk) : Type 0 where
    pub public_key : PublicKey
    pub public_is : create_public_key jwk.kty jwk.crv jwk.x jwk.y ≡ some public_key
    pub are_bytes : (text : Bytes) → IsBytes (sign_eddsa text key)
    pub checks : (text : Bytes) → verify_eddsa text public_key (sign_eddsa text key) ≡ some true

  pub get-eq-str : (k s : Str) (fs : Fields Num) → prop k fs ≡ str s → get k fs ≡ some (str s)
  get-eq-str k s fs e = go (get k fs) e
    where
      go : (o : Option (Value Num)) → or_undefined o ≡ str s → o ≡ some (str s)
      go none h = ground arith
      go (some v) h = ap some h

  -- A field that holds a string has it in the canonical form, too.
  prop-canonical_fields :
      (k s : Str) (fs : Fields Num)
      → HaveJson p fs
      → prop k fs ≡ str s
      → prop k (canonical_fields p fs) ≡ str s
  unfolding canonical
  prop-canonical_fields k s fs h e =
      ap or_undefined (get-canonical_fields p k (str s) fs h (get-eq-str k s fs e))

  pub header-HaveJson : (kid : Str) → IsStr kid → HaveJson p (eddsa_header kid)
  unfolding has_own str_eq
  header-HaveJson kid h = (omega arith, (refl, (omega arith, (omega arith, (refl, (h, tt))))))

  header-canonical : (kid : Str) → canonical_fields p (eddsa_header kid) ≡ eddsa_header kid
  unfolding canonical_members canonical of_members sort_keys insert_key str_lt
  header-canonical kid = refl

  no_key_material :
      (kid : Str) → All (λ k. has_own k (eddsa_header {N = Num} kid) ≡ false) forbidden_header_keys
  unfolding has_own str_eq
  no_key_material kid = (refl, (refl, (refl, (refl, (refl, (refl, tt))))))

  jcs_bytes-canonical_fields :
      (fs : Fields Num) → jcs_bytes p (obj (canonical_fields p fs)) ≡ jcs_bytes p (obj fs)
  unfolding jcs_bytes canonical
  jcs_bytes-canonical_fields fs = ap encode_utf8 (jcs_string-canonical p (obj fs))

  -- A receipt framed with a key is accepted by `verify` if its payload is JSON data that names a
  -- performer, the registry holds the active public half of the key, for EdDSA, under that performer
  -- and the kid, and the payload meets the policy.
  pub verify-frame :
      (kid performer : Str) (payload : Fields Num) (key : PrivateKey) (jwk : RegistryJwk)
      (keys : Option Registry) (policy : Option Policy)
      → IsStr kid
      → HaveJson p payload
      → prop (codes "performer_id") payload ≡ str performer
      → IsRegistered keys performer kid jwk
      → jwk.status ≢ some (codes "revoked")
      → jwk.alg ≡ codes "EdDSA"
      → IsPublicHalf key jwk
      → Meets p policy (λ q. q.expected_binding) (prop (codes "binding") payload)
      → Meets p policy (λ q. q.expected_method) (prop (codes "method") payload)
      → verify p
          (record { signed_receipt = str (frame p kid payload key); keys = keys; policy = policy })
        ≡ some (record { valid = true; reason = ok })
  unfolding frame signing_input jcs_bytes get str_eq
  verify-frame kid performer payload key jwk keys policy hk hp perf reg active alg half meets_b
        meets_m =
      let sig : Bytes = sign_eddsa (ascii_bytes (signing_input p kid payload)) key in
      let read =
        read_compact-joined p (eddsa_header kid) payload sig (header-HaveJson kid hk) hp
          (half.are_bytes (ascii_bytes (signing_input p kid payload))) in
      (verify_valid_iff p (record {
        signed_receipt = str (frame p kid payload key);
        keys = keys;
        policy = policy;
      })).1
        (record {
          read = _;
          read_is = read;
          accepted = record {
            no_key_material = rw (header-canonical kid) (no_key_material kid);
            performer = performer;
            performer_is = prop-canonical_fields (codes "performer_id") performer payload hp perf;
            kid = kid;
            kid_is = rw (header-canonical kid);
            jwk = jwk;
            registered = reg;
            active = active;
            alg_is = rw (header-canonical kid, alg);
            alg_ne_none = λ e. ground (arith, alg, e);
            alg_ne_empty = λ e. ground (arith, alg, e);
            key = half.public_key;
            key_is = half.public_is;
            signed = inl (alg, half.checks _);
            canonical = jcs_bytes-canonical_fields payload;
            binding_meets =
                λ e h. prop-canonical_fields (codes "binding") e payload hp (meets_b e h);
            method_meets = λ e h. prop-canonical_fields (codes "method") e payload hp (meets_m e h);
          };
        })
