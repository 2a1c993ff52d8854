-- ===== src/Verify/Stages.antt =====
-- The stages of `verify` against `Accepts`, in both directions.
use veritrail.Prelude.{
  subst, subst₂, ◌≡◌, ◌≢◌, refl, sym, ◌∙◌, ◌↔◌, true, false, [], Option, some, arith, All,
}
use veritrail.Platform.{Platform}
use veritrail.Text.{Str, codes, str_eq_iff}
use veritrail.Value.Strings.{as_str-eq-some_iff}
use veritrail.Value.{str, obj, prop, has_own}
use veritrail.Jcs.{jcs_bytes}
use veritrail.Outcome.{
  Outcome, pass, fail, thrown, ◌>>=◌, ◌>>◌, require, require_some, >>=-eq-pass, >>-eq-pass,
  pass-injective, require-eq-pass, require_some-eq-pass,
}
use veritrail.Compact.{Compact, signing_text, ascii_bytes}
use veritrail.Verify.{
  Reason, ok, RegistryJwk, Registry, Policy, forbidden_header_keys, Resolved, entry, status_of,
  alg_of, is_revoked, alg_allowed, check_payload, check_signature, check_key, find_key,
  check_compact, VerifyInput, build_public_key, verify_steps, verdict, verify,
}
use veritrail.Verify.Accepts.{IsRegistered, IsSigned, Meets, IsAccepted, Accepts}
use veritrail.Verify.Checks.{
  not-eq-true, any_own-eq-false_iff, is_revoked-eq-false_iff, alg_allowed_iff, meets_iff,
  verify_signature_iff, resolve_key-eq-entry, resolve_key_of_IsRegistered, alg_of-eq-some,
}

verdict-eq-valid :
    (o : Outcome Reason (Unit {0}))
    → verdict o ≡ some (record { valid = true; reason = ok })
    → o ≡ pass tt
unfolding verdict
verdict-eq-valid (pass tt) h = refl
verdict-eq-valid (fail r) h = ground arith
verdict-eq-valid thrown h = cc

module _ (p : Platform) where
  open p use {Num, PublicKey, create_public_key}

  check_payload_iff :
      (policy : Option Policy) (c : Compact Num)
      → (check_payload p policy c ≡ pass tt) ↔ (
          (jcs_bytes p (obj c.payload) ≡ c.payload_bytes)
          × Meets p policy (λ q. q.expected_binding) (prop (codes "binding") c.payload)
          × Meets p policy (λ q. q.expected_method) (prop (codes "method") c.payload))
  unfolding check_payload
  check_payload_iff policy c = (
    (λ h.
        let (canonical, h1) = >>-eq-pass _ _ h in
        let (binding, method) = >>-eq-pass _ _ h1 in
        (
          (str_eq_iff _ _).0 (require-eq-pass _ _ canonical),
          (meets_iff _ _).0 (require-eq-pass _ _ binding),
          (meets_iff _ _).0 (require-eq-pass _ _ method),
        )),
    (λ (canonical, binding, method).
        unfold require ◌>>◌ ◌>>=◌ in
        rw ((str_eq_iff _ _).1 canonical, (meets_iff _ _).1 binding, (meets_iff _ _).1 method)),
  )

  check_signature_iff :
      (jwk : RegistryJwk) (c : Compact Num)
      → (check_signature p jwk.alg (entry jwk) c ≡ pass tt) ↔ (
          (key : PublicKey) × (create_public_key jwk.kty jwk.crv jwk.x jwk.y ≡ some key)
          × IsSigned p jwk.alg (ascii_bytes (signing_text c.segs)) key c.sig)
  unfolding check_signature build_public_key
  check_signature_iff jwk c = (
    (λ h.
        let (key, built, signed) = >>=-eq-pass _ _ h in
        (
          key,
          require_some-eq-pass _ _ built,
          (verify_signature_iff p _ _ _ _).0 (require-eq-pass _ _ signed),
        )),
    (λ (key, built, signed).
        unfold require require_some ◌>>=◌ in
        rw (built, require_some, (verify_signature_iff p _ _ _ _).1 signed)),
  )

  -- What steps 4 and 5 have established when they end with `alg`.
  abbrev KeyChecked : Resolved → Compact Num → Str → Type 0
  KeyChecked r c alg =
      (jwk : RegistryJwk) × (r ≡ entry jwk)
      × (jwk.alg ≡ alg)
      × (jwk.status ≢ some (codes "revoked"))
      × (prop (codes "alg") c.header ≡ str alg)
      × (alg ≢ codes "none")
      × (alg ≢ [])

  KeyChecked-of :
      (r : Resolved) (c : Compact Num) (alg : Str)
      → is_revoked (status_of r) ≡ false
      → prop (codes "alg") c.header ≡ str alg
      → alg_allowed alg (alg_of r) ≡ true
      → KeyChecked r c alg
  unfolding status_of
  KeyChecked-of r c alg active alg_is allowed =
      let (key_alg, ne_none, ne_empty) = (alg_allowed_iff alg (alg_of r)).0 allowed in
      let (jwk, is_entry, same) = alg_of-eq-some r key_alg in
      (
        jwk,
        is_entry,
        same,
        (is_revoked-eq-false_iff jwk.status).0 (rw (is_entry, status_of) at active),
        alg_is,
        ne_none,
        ne_empty,
      )

  check_key-eq-pass :
      (r : Resolved) (c : Compact Num) (alg : Str) → check_key p r c ≡ pass alg → KeyChecked r c alg
  unfolding check_key
  check_key-eq-pass r c alg h =
      let (active, h1) = >>-eq-pass _ _ h in
      let (a, alg_is, h2) = >>=-eq-pass _ _ h1 in
      let (allowed, same) = >>-eq-pass _ _ h2 in
      subst (KeyChecked r c) (pass-injective same) (
        KeyChecked-of r c a (not-eq-true _ (require-eq-pass _ _ active))
          ((as_str-eq-some_iff _ _).0 (require_some-eq-pass _ _ alg_is))
          (require-eq-pass _ _ allowed))

  check_key_of :
      (jwk : RegistryJwk) (c : Compact Num)
      → jwk.status ≢ some (codes "revoked")
      → prop (codes "alg") c.header ≡ str jwk.alg
      → jwk.alg ≢ codes "none"
      → jwk.alg ≢ []
      → check_key p (entry jwk) c ≡ pass jwk.alg
  unfolding check_key require require_some ◌>>=◌ ◌>>◌
  check_key_of jwk c active alg_is ne_none ne_empty = rw (
    (is_revoked-eq-false_iff (status_of (entry jwk))).1 (unfold status_of in active),
    (as_str-eq-some_iff _ _).1 alg_is,
    (alg_allowed_iff jwk.alg (alg_of (entry jwk))).1 (unfold alg_of in (refl, ne_none, ne_empty)),
  )

  find_key-eq-entry :
      (keys : Option Registry) (c : Compact Num) (jwk : RegistryJwk)
      → find_key p keys c ≡ pass (entry jwk)
      → All (λ k. has_own k c.header ≡ false) forbidden_header_keys
        × ((performer : Str) × (kid : Str) × (prop (codes "performer_id") c.payload ≡ str performer)
            × (prop (codes "kid") c.header ≡ str kid)
            × IsRegistered keys performer kid jwk)
  unfolding find_key
  find_key-eq-entry keys c jwk h =
      let (header, h1) = >>-eq-pass _ _ h in
      let (performer, performer_is, h2) = >>=-eq-pass _ _ h1 in
      let (kid, kid_is, resolved) = >>=-eq-pass _ _ h2 in
      (
        (any_own-eq-false_iff _ _).0 (not-eq-true _ (require-eq-pass _ _ header)),
        (
          performer,
          kid,
          (as_str-eq-some_iff _ _).0 (require_some-eq-pass _ _ performer_is),
          (as_str-eq-some_iff _ _).0 (require_some-eq-pass _ _ kid_is),
          resolve_key-eq-entry p keys performer kid jwk resolved,
        ),
      )

  find_key_of :
      (keys : Option Registry) (c : Compact Num) (performer kid : Str) (jwk : RegistryJwk)
      → All (λ k. has_own k c.header ≡ false) forbidden_header_keys
      → prop (codes "performer_id") c.payload ≡ str performer
      → prop (codes "kid") c.header ≡ str kid
      → IsRegistered keys performer kid jwk
      → find_key p keys c ≡ pass (entry jwk)
  unfolding find_key require require_some ◌>>=◌ ◌>>◌
  find_key_of keys c performer kid jwk none_own performer_is kid_is registered =
      rw
        (
          (any_own-eq-false_iff forbidden_header_keys c.header).1 none_own,
          (as_str-eq-some_iff _ _).1 performer_is,
          (as_str-eq-some_iff _ _).1 kid_is,
        )
        (resolve_key_of_IsRegistered p keys performer kid jwk registered)

  check_compact-IsAccepted :
      (keys : Option Registry) (policy : Option Policy) (c : Compact Num)
      → check_compact p keys policy c ≡ pass tt
      → IsAccepted p keys policy c
  unfolding check_compact
  check_compact-IsAccepted keys policy c h =
      let (r, found, h1) = >>=-eq-pass _ _ h in
      let (alg, checked, h2) = >>=-eq-pass _ _ h1 in
      let (signature, payload) = >>-eq-pass _ _ h2 in
      let (jwk, is_entry, same, active, alg_is, ne_none, ne_empty) =
        check_key-eq-pass r c alg checked in
      let (none_own, (performer, kid, performer_is, kid_is, registered)) =
        find_key-eq-entry keys c jwk (subst (λ x. find_key p keys c ≡ pass x) is_entry found) in
      let (key, key_is, signed) =
        (check_signature_iff jwk c).0
          (subst₂ (λ a x. check_signature p a x c ≡ pass tt) (sym same) is_entry signature) in
      let (canonical, binding, method) = (check_payload_iff policy c).0 payload in
      record {
        no_key_material = none_own;
        performer = performer;
        performer_is = performer_is;
        kid = kid;
        kid_is = kid_is;
        jwk = jwk;
        registered = registered;
        active = active;
        alg_is = subst (λ a. prop (codes "alg") c.header ≡ str a) (sym same) alg_is;
        alg_ne_none = λ e. ne_none (sym same ∙ e);
        alg_ne_empty = λ e. ne_empty (sym same ∙ e);
        key = key;
        key_is = key_is;
        signed = signed;
        canonical = canonical;
        binding_meets = binding;
        method_meets = method;
      }

  check_compact_of_IsAccepted :
      (keys : Option Registry) (policy : Option Policy) (c : Compact Num)
      → IsAccepted p keys policy c
      → check_compact p keys policy c ≡ pass tt
  unfolding check_compact ◌>>=◌ ◌>>◌
  check_compact_of_IsAccepted keys policy c a =
      rw
        (
          find_key_of keys c a.performer a.kid a.jwk a.no_key_material a.performer_is a.kid_is
              a.registered,
          check_key_of a.jwk c a.active a.alg_is a.alg_ne_none a.alg_ne_empty,
          (check_signature_iff a.jwk c).1 (a.key, a.key_is, a.signed),
        )
        ((check_payload_iff policy c).1 (a.canonical, a.binding_meets, a.method_meets))

  pub verify_steps_iff :
      (input : VerifyInput p)
      → (verify_steps p input ≡ pass tt) ↔ Accepts p input.keys input.policy input.signed_receipt
  unfolding verify_steps
  verify_steps_iff input = (
    (λ h.
        let (c, read, rest) = >>=-eq-pass _ _ h in
        record {
          read = c;
          read_is = require_some-eq-pass _ _ read;
          accepted = check_compact-IsAccepted input.keys input.policy c rest;
        }),
    (λ a.
        unfold require_some ◌>>=◌ in
        rw (a.read_is, require_some)
          (check_compact_of_IsAccepted input.keys input.policy a.read a.accepted)),
  )

-- The verdict is `valid` exactly for the receipts that are accepted, and then the reason is `ok`.
pub verify_valid_iff :
    (p : Platform) (input : VerifyInput p)
    → (verify p input ≡ some (record { valid = true; reason = ok }))
      ↔ Accepts p input.keys input.policy input.signed_receipt
unfolding verify
verify_valid_iff p input = (
  (λ h. (verify_steps_iff p input).0 (verdict-eq-valid _ h)),
  (λ a. rw ((verify_steps_iff p input).1 a, verdict)),
)
