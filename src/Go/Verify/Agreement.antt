-- ===== src/Go/Verify/Agreement.antt =====
-- `Verify` of go/verify.go and `verify` of ts/src/commands/verify.ts on a receipt that is well formed.
use veritrail.Prelude.{some-injective, ◌≡◌, ◌≢◌, refl, sym, ap, ◌∙◌, not, Option, some}
use veritrail.Text.{Str, codes}
use veritrail.Text.Utf8.{encode_utf8}
use veritrail.Value.Strings.{as_str-eq-some_iff}
use veritrail.Value.{Value, str, prop, as_str}
use veritrail.Platform.{Platform}
use veritrail.Compact.{Compact, read_compact, signing_text, ascii_bytes}
use veritrail.Outcome.{
  Outcome, pass, fail, thrown, pass-injective, >>=-cong_pass, >>=-eq-pass, >>-eq-pass, require,
  require_some, require-eq-pass, require_some-eq-pass,
}
use veritrail.Outcome.{◌>>◌, ◌>>=◌}
use veritrail.Verify.{
  Reason, unknown_key, header_key_material, bad_signature, non_canonical_payload, RegistryJwk,
  Registry, Policy, Resolved, entry, built_in, forbidden_header_keys, any_own, is_revoked,
  alg_allowed, expected, find_key, resolve_key, build_public_key, check_payload, check_signature,
  check_key, check_compact, verify_steps, status_of, alg_of, verify,
}
use veritrail.Verify.Checks.{alg_allowed_iff}
use veritrail.Verify
use veritrail.Go.Library.{Library}
use veritrail.Go.Base64.{IsWhole, raw_url_decode-b64url_decode, b64url_decode-letters}
use veritrail.Go.Verify.{
  RegistryKey, VerifyPolicy, VerifyInput, Opened, string_or_empty, any_key, resolve, meets,
  check_context, string_claim, check_canonical, check_opened, verify_signature, open_receipt,
}
use veritrail.Go.Verify as GoVerify
use veritrail.Go.Verify.Claims.{string_claim-prop, text_of-as_str}
use veritrail.Go.Verify.Keys.{go_key, go_keys, go_policy, go_resolved, IsPlainClaim}
use veritrail.Go.Verify.Steps.{IsExpecting, >>-assoc, checked, check_key-checked}
use veritrail.Go.Verify.Found.{Found, found, signing_ascii}
use veritrail.Go.Verify.Alike.{
  ReadsAlike, FindsAlike, verify_signature-is_signed, opened, check_signature-is_signed,
  payload_steps, find_steps,
}
use veritrail.Outcome.Returns.{check-returns}
use veritrail.Go.Verify.Returns.{resolve-returns, verdict-verify_steps}

-- Steps 4 and 5 pass with the key's algorithm, which is the header's claim.
checked-eq-pass :
    {N : Type 0} (jwk : RegistryJwk) (v : Value N) (alg : Str)
    → checked jwk (as_str v) ≡ pass alg
    → (v ≡ str jwk.alg) × (alg ≡ jwk.alg)
checked-eq-pass jwk v alg h =
    let (_, h1) = >>-eq-pass (require (not (is_revoked jwk.status)) _) _ h in
    let (s, is_s, h2) = >>=-eq-pass (require_some (as_str v) _) _ h1 in
    let (allowed, h3) = >>-eq-pass (require (alg_allowed s (some jwk.alg)) _) _ h2 in
    let same_alg =
      some-injective (((alg_allowed_iff s (some jwk.alg)).0 (require-eq-pass _ _ allowed)).0) in
    let v_is = (as_str-eq-some_iff v s).0 (require_some-eq-pass _ _ is_s) in
    let s_is : s ≡ alg = pass-injective h3 in
    (v_is ∙ ap str (sym same_alg), sym s_is ∙ sym same_alg)

-- What both programs agree on about a receipt.
pub record IsAgreed (p : Platform) (lib : Library) (keys : Option Registry) (c : Compact p.Num)
    : Type 0 where
  pub header_whole : IsWhole c.segs.header_seg
  pub payload_whole : IsWhole c.segs.payload_seg
  pub sig_whole : IsWhole c.segs.sig_seg
  pub reads : ReadsAlike p lib c
  pub signs : FindsAlike p lib keys c
  pub performer_plain : IsPlainClaim (prop (codes "performer_id") c.payload)
  pub kid_plain : IsPlainClaim (prop (codes "kid") c.header)

-- Step 1.
open_receipt-found :
    (p : Platform) (lib : Library) (jws : Str) (keys : Option Registry) (c : Compact p.Num)
    (a : IsAgreed p lib keys c)
    → Found p jws c
    → open_receipt lib jws ≡ pass (opened p lib c a.reads)
unfolding open_receipt ◌>>=◌ ◌>>◌ require require_some
open_receipt-found p lib jws keys c a f =
    let header =
      raw_url_decode-b64url_decode c.segs.header_seg f.header_bytes f.header_seg a.header_whole in
    let same = (b64url_decode-letters c.segs.header_seg f.header_bytes f.header_seg).1 in
    rw
      (
        f.segs_are,
        header,
        raw_url_decode-b64url_decode c.segs.payload_seg c.payload_bytes f.payload_seg
            a.payload_whole,
        raw_url_decode-b64url_decode c.segs.sig_seg c.sig f.sig_seg a.sig_whole,
        ← same,
        a.reads.header.read,
        a.reads.valid,
        a.reads.payload.read,
      )
      refl

module _ (p : Platform) (lib : Library) (keys : Option Registry) (c : Compact p.Num)
    (a : IsAgreed p lib keys c) where
  -- Step 6, after steps 4 and 5 have passed.
  sign_steps :
      (jwk : RegistryJwk) (alg : Str)
      → find_key p keys c ≡ pass (entry jwk)
      → checked jwk (as_str (prop (codes "alg") c.header)) ≡ pass alg
      → require
          (verify_signature lib (go_key jwk) alg (ascii_bytes (signing_text c.segs)) c.sig)
          bad_signature
        ≡ check_signature p alg (entry jwk) c
  sign_steps jwk alg found passed =
      let (claim, same) = checked-eq-pass jwk (prop (codes "alg") c.header) alg passed in
      rw same (
        ap (λ b. require b bad_signature)
          (verify_signature-is_signed p lib jwk c (a.signs jwk found claim))
        ∙ sym (check_signature-is_signed p lib jwk c))

  module _ (policy : Option Policy) (jws : Str) (f : Found p jws c)
      (b : IsExpecting (expected (λ q. q.expected_binding) policy))
      (m : IsExpecting (expected (λ q. q.expected_method) policy)) where
    checked-check_key_of :
        (jwk : RegistryJwk)
        → checked jwk (as_str (prop (codes "alg") c.header)) ≡ check_key p (entry jwk) c
    unfolding check_key status_of alg_of
    checked-check_key_of jwk = refl

    -- What Go does from step 4 on, with the entry of the registry.
    abbrev go_rest : RegistryKey → Outcome Reason (Unit {0})
    go_rest key = do
      GoVerify.check_key key (string_claim lib a.reads.header.raw (codes "alg"))
      require
          (verify_signature lib key (string_claim lib a.reads.header.raw (codes "alg"))
            (encode_utf8 (signing_text c.segs)) c.sig)
          bad_signature
      check_canonical lib c.payload_bytes
      check_context (go_policy policy) (string_claim lib a.reads.payload.raw (codes "binding"))
          (string_claim lib a.reads.payload.raw (codes "method"))

    abbrev rest : Resolved → Outcome Reason (Unit {0})
    rest jwk = do alg ← check_key p jwk c; check_signature p alg jwk c; check_payload p policy c

    -- Steps 4 to 8.
    key_steps :
        (jwk : RegistryJwk)
        → find_key p keys c ≡ pass (entry jwk)
        → go_rest (go_key jwk) ≡ rest (entry jwk)
    key_steps jwk found =
        rw
          (
            payload_steps p lib policy c a.reads b m,
            signing_ascii p jws c f,
            string_claim-prop lib a.reads.header (codes "alg"),
            text_of-as_str (prop (codes "alg") c.header),
          )
          (check_key-checked jwk (as_str (prop (codes "alg") c.header)) (λ alg.
              require
                (verify_signature lib (go_key jwk) alg (ascii_bytes (signing_text c.segs)) c.sig)
                bad_signature
              >> check_payload p policy c)
            ∙ >>=-cong_pass (checked jwk (as_str (prop (codes "alg") c.header))) _
                (λ alg. check_signature p alg (entry jwk) c >> check_payload p policy c)
                (λ alg passed.
                  ap (λ s. s >> check_payload p policy c) (sign_steps jwk alg found passed))
            ∙ ap (λ k. k >>= λ alg. check_signature p alg (entry jwk) c >> check_payload p policy c)
                (checked-check_key_of jwk))

    abbrev go_find : Outcome Reason RegistryKey
    go_find = do
      require (not (any_key forbidden_header_keys a.reads.header.raw)) header_key_material
      resolve (go_keys keys) (string_claim lib a.reads.payload.raw (codes "performer_id"))
          (string_claim lib a.reads.header.raw (codes "kid"))

    go_find-returns : go_find ≢ thrown
    go_find-returns = check-returns _ _ _ (resolve-returns _ _ _)

    go_find-find_key : go_find ≡ go_resolved (find_key p keys c)
    go_find-find_key = find_steps p lib keys c a.reads a.performer_plain a.kid_plain

    from_key :
        (r : Outcome Reason Resolved)
        → find_key p keys c ≡ r
        → (go_resolved r >>= go_rest) ≡ (r >>= rest)
    from_key (pass (entry jwk)) e = unfold ◌>>=◌ in key_steps jwk e
    from_key (pass built_in) e = absurd (go_find-returns (go_find-find_key ∙ ap go_resolved e))
    from_key (fail r) e = unfold ◌>>=◌ in refl
    from_key thrown e = absurd (go_find-returns (go_find-find_key ∙ ap go_resolved e))

    -- Steps 2 to 8.
    check_opened-check_compact :
        check_opened lib (go_keys keys) (go_policy policy) (opened p lib c a.reads)
        ≡ check_compact p keys policy c
    unfolding check_opened check_compact
    check_opened-check_compact =
        sym (
          >>-assoc
            (require (not (any_key forbidden_header_keys a.reads.header.raw)) header_key_material) _
            go_rest)
        ∙ ap (λ k. k >>= go_rest) go_find-find_key
        ∙ from_key (find_key p keys c) refl

-- The receipt of a call of both programs.
abbrev pub go_input : Str → Option Registry → Option Policy → VerifyInput
go_input jws keys policy = record {
  signed_receipt = jws;
  keys = go_keys keys;
  policy = go_policy policy;
}

verify_steps-eq :
    (p : Platform) (lib : Library) (jws : Str) (keys : Option Registry) (policy : Option Policy)
    (c : Compact p.Num)
    → read_compact p (str jws) ≡ some c
    → IsAgreed p lib keys c
    → IsExpecting (expected (λ q. q.expected_binding) policy)
    → IsExpecting (expected (λ q. q.expected_method) policy)
    → GoVerify.verify_steps lib (go_input jws keys policy)
      ≡ verify_steps p (record { signed_receipt = str jws; keys = keys; policy = policy })
unfolding GoVerify.verify_steps verify_steps
verify_steps-eq p lib jws keys policy c h a b m =
    let f = found p jws c h in
    rw (open_receipt-found p lib jws keys c a f, h)
      (unfold require_some ◌>>=◌ in check_opened-check_compact p lib keys c a policy jws f b m)

-- On a receipt that `verify` of verify.ts finds well formed, `Verify` of verify.go returns the same
-- verdict and the same reason code under the same registry and policy. No segment leaves a letter over;
-- performer_id and kid, where they are strings, are not empty and no inherited names; the policy expects
-- no empty string. The Go libraries read the header and the payload as the model's `JSON.parse` does,
-- find the payload valid UTF-8, and canonicalise it as `jcsBytes` does. Where the names find an entry
-- whose alg is the header's, its kty and crv are those of the algorithm, and the crypto libraries agree
-- on the key that its x and y make and on the answer for this signature, which for ES256 is good only if
-- it has 64 bytes.
pub verify-go_input :
    (p : Platform) (lib : Library) (jws : Str) (keys : Option Registry) (policy : Option Policy)
    (c : Compact p.Num)
    → read_compact p (str jws) ≡ some c
    → IsAgreed p lib keys c
    → IsExpecting (expected (λ q. q.expected_binding) policy)
    → IsExpecting (expected (λ q. q.expected_method) policy)
    → verify p (record { signed_receipt = str jws; keys = keys; policy = policy })
      ≡ some (GoVerify.verify lib (go_input jws keys policy))
unfolding verify GoVerify.verify
verify-go_input p lib jws keys policy c h a b m =
    ap Verify.verdict (sym (verify_steps-eq p lib jws keys policy c h a b m))
    ∙ verdict-verify_steps lib (go_input jws keys policy)
