-- ===== src/Sign/RoundTrip.antt =====
-- ts/src/commands/sign.ts, with its output given to ts/src/commands/verify.ts.
use veritrail.Prelude.{
  ◌≡◌, ◌≢◌, refl, ap, subst, ◌∙◌, true, false, Option, some, arith, inl, inr, Bool-cases,
}
use veritrail.Platform.{Platform}
use veritrail.Text.{Str, codes, str_eq}
use veritrail.Value.{Value, str, Fields, end, field, prop, set, has_own, or_undefined}
use veritrail.Value.Updates.{get-set-other, has_own-set-other}
use veritrail.Outcome.{pass}
use veritrail.Jcs.Quoted.{IsStr}
use veritrail.Jcs.Sorting.{str_eq_comm}
use veritrail.Jcs.Canonical.{HaveJson, IsJson}
use veritrail.Verify.{RegistryJwk, Registry, Policy, verify, ok}
use veritrail.Verify.Accepts.{IsRegistered, Meets}
use veritrail.Sign.{version, sign}
use veritrail.Sign.Signable.{IsSignable, sign_iff}
use veritrail.Sign.Verified.{IsPublicHalf, verify-frame}

module _ (p : Platform) where
  open p use {Num}

  HaveJson-set :
      (k : Str) (v : Value Num) (fs : Fields Num)
      → IsStr k
      → IsJson p v
      → HaveJson p fs
      → HaveJson p (set k v fs)
  unfolding set has_own
  HaveJson-set k v end hk hv h = (hk, (refl, (hv, tt)))
  HaveJson-set k v (field j w fs) hk hv (hj, (own, (hw, h))) = elim (Bool-cases (str_eq j k)) [
    | inl e ↦ rw e (hj, (own, (hv, h)))
    | inr e ↦ rw e (
      hj,
      (has_own-set-other j k v fs (str_eq_comm k j ∙ e) ∙ own, (hw, HaveJson-set k v fs hk hv h)),
    )
  ]

  abbrev stamped : Fields Num → Fields Num
  stamped receipt = set (codes "v") (str version) receipt

  prop-stamped :
      (k : Str) (fs : Fields Num) → str_eq (codes "v") k ≡ false → prop k (stamped fs) ≡ prop k fs
  prop-stamped k fs h = ap or_undefined (get-set-other k (codes "v") (str version) fs h)

  -- An input that meets the conditions of signing is signed, and `verify` accepts the result: if the
  -- receipt is JSON data that names a performer, the registry holds the active public half of the
  -- key, for EdDSA, under that performer and the kid, and the receipt meets the policy.
  pub verify-sign :
      (input : Value Num) (jws performer : Str) (s : IsSignable p input jws) (jwk : RegistryJwk)
      (keys : Option Registry) (policy : Option Policy)
      → IsStr s.kid
      → HaveJson p s.receipt
      → prop (codes "performer_id") s.receipt ≡ str performer
      → IsRegistered keys performer s.kid jwk
      → jwk.status ≢ some (codes "revoked")
      → jwk.alg ≡ codes "EdDSA"
      → IsPublicHalf p s.key jwk
      → Meets p policy (λ q. q.expected_binding) (prop (codes "binding") s.receipt)
      → Meets p policy (λ q. q.expected_method) (prop (codes "method") s.receipt)
      → (sign p input ≡ pass jws)
        × (verify p (record { signed_receipt = str jws; keys = keys; policy = policy })
            ≡ some (record { valid = true; reason = ok }))
  unfolding str_eq
  verify-sign input jws performer s jwk keys policy hk hr perf reg active alg half meets_b meets_m =
      (
        (sign_iff p input jws).1 s,
        subst
            (λ t.
              verify p (record { signed_receipt = str t; keys = keys; policy = policy })
              ≡ some (record { valid = true; reason = ok }))
            s.jws_is
            (verify-frame p s.kid performer (stamped s.receipt) s.key jwk keys policy hk
              (HaveJson-set (codes "v") (str version) s.receipt (omega arith) (omega arith) hr)
              (prop-stamped (codes "performer_id") s.receipt refl ∙ perf) reg active alg half
              (λ e h. prop-stamped (codes "binding") s.receipt refl ∙ meets_b e h)
              (λ e h. prop-stamped (codes "method") s.receipt refl ∙ meets_m e h)),
      )
