-- ===== src/Cli/Verify.antt =====
-- `verify` and `sign` from the command line: ts/src/cli.ts over ts/src/commands/verify.ts and sign.ts.
use veritrail.Prelude.{
  ◌≡◌, ◌≢◌, ◌↔◌, refl, sym, ap, ◌∙◌, Bool, true, false, List, ◌++◌, append_assoc, Option, none,
  some, if◌then◌else◌,
}
use veritrail.Platform.{Platform}
use veritrail.Text.{Str, Bytes, codes, str_eq, str_eq_iff}
use veritrail.Value.{Value, str, obj, Fields, prop}
use veritrail.Value.Json.{parse}
use veritrail.Jcs.{quote, jcs_string, object_text}
use veritrail.Text.Utf8.{points_from}
use veritrail.Jcs.Quoted.{IsStr}
use veritrail.Jcs.Canonical.{HaveJson}
use veritrail.Outcome.{or_throw, Outcome, pass, fail, thrown, ◌>>=◌}
use veritrail.Verify.{
  Reason, malformed, ok, RegistryJwk, Registry, Policy, VerifyOutput, verify, verdict,
}
use veritrail.Verify.Accepts.{Accepts, IsRegistered, Meets}
use veritrail.Verify.Stages.{verify_valid_iff}
use veritrail.Sign.{sign}
use veritrail.Sign.Signable.{IsSignable}
use veritrail.Sign.Verified.{IsPublicHalf}
use veritrail.Sign.RoundTrip.{verify-sign}
use veritrail.Cli.{read_stdin, run_command, result_line, on_input, on_stdin, main}
use veritrail.Cli.Inputs.{Host, input_fields, as_registry, as_policy}
use veritrail.Cli.Commands.{
  reason_code, verify_value, typed, verify_call, verify_command, sign_command, one_field,
}

-- The line for an output of `verify`.
abbrev pub reason_line : Reason → Str → Str
reason_line reason valid =
    codes "{\"reason\":\"" ++ reason_code reason ++ codes "\",\"valid\":" ++ valid ++ codes "}\n"

abbrev pub ok_line : Str
ok_line = codes "{\"reason\":\"ok\",\"valid\":true}\n"

abbrev pub verify_line : Option VerifyOutput → Str
verify_line none = codes "{\"error\":\"internal_error\"}\n"
verify_line (some out) = reason_line out.reason (if out.valid then codes "true" else codes "false")

module _ (p : Platform) (host : Host p) where
  open p use {Num}

  line-valid :
      (r : Reason)
      → result_line p host (pass (verify_value (record { valid = true; reason = r })))
        ≡ reason_line r (codes "true")
  unfolding result_line verify_value jcs_string object_text points_from
  line-valid malformed = refl
  line-valid _ = refl

  line-invalid :
      (r : Reason)
      → result_line p host (pass (verify_value (record { valid = false; reason = r })))
        ≡ reason_line r (codes "false")
  unfolding result_line verify_value jcs_string object_text points_from
  line-invalid malformed = refl
  line-invalid _ = refl

  thrown_line : result_line p host thrown ≡ verify_line none
  unfolding result_line jcs_string object_text points_from
  thrown_line = refl

  -- The line for what a call of `verify` comes to.
  result_line-verify :
      (o : Option VerifyOutput)
      → result_line p host (or_throw o >>= λ out. pass (verify_value out)) ≡ verify_line o
  unfolding or_throw ◌>>=◌
  result_line-verify none = thrown_line
  result_line-verify (some out) = go out.valid out.reason
    where
      go :
          (valid : Bool) (r : Reason)
          → result_line p host (pass (verify_value (record { valid = valid; reason = r })))
            ≡ verify_line (some (record { valid = valid; reason = r }))
      go true r = line-valid r
      go false r = line-invalid r

  -- For an input of the declared type, the command `verify` writes the reason of `verify` and whether
  -- it is valid, or an internal error where `verify` throws.
  pub main-verify :
      (chunks : List Bytes) (fs : Fields Num) (keys : Option Registry) (policy : Option Policy)
      → parse p (read_stdin chunks) ≡ some (obj fs)
      → as_registry (prop (codes "keys") fs) ≡ some keys
      → as_policy (prop (codes "policy") fs) ≡ some policy
      → main p host (some (codes "verify")) (some chunks)
        ≡ verify_line (
            verify p (record {
              signed_receipt = prop (codes "signed_receipt") fs;
              keys = keys;
              policy = policy;
            }))
  unfolding main on_stdin on_input run_command str_eq verify_command verify_call typed input_fields
      ◌>>=◌
  main-verify chunks fs keys policy parsed keys_are policy_is =
      rw (parsed, on_input, keys_are, policy_is) (result_line-verify _)

  apart : (a b : Str) → str_eq a b ≡ false → a ≡ b → ⊥
  apart a b h e = cc ((str_eq_iff a b).1 e, h)

  verify_line-eq-ok :
      (o : Outcome Reason (Unit {0}))
      → verify_line (verdict o) ≡ ok_line
      → verdict o ≡ some (record { valid = true; reason = ok })
  unfolding verdict reason_code str_eq
  verify_line-eq-ok (pass _) h = refl
  verify_line-eq-ok thrown h = absurd (apart _ ok_line refl h)
  verify_line-eq-ok (fail malformed) h = absurd (apart _ ok_line refl h)
  verify_line-eq-ok (fail _) h = absurd (apart _ ok_line refl h)

  -- For an input of the declared type, the command `verify` writes `{"reason":"ok","valid":true}`
  -- exactly if the receipt meets the conditions of acceptance under the registry and the policy.
  pub main-verify_iff :
      (chunks : List Bytes) (fs : Fields Num) (keys : Option Registry) (policy : Option Policy)
      → parse p (read_stdin chunks) ≡ some (obj fs)
      → as_registry (prop (codes "keys") fs) ≡ some keys
      → as_policy (prop (codes "policy") fs) ≡ some policy
      → (main p host (some (codes "verify")) (some chunks) ≡ ok_line)
        ↔ Accepts p keys policy (prop (codes "signed_receipt") fs)
  unfolding verify reason_code
  main-verify_iff chunks fs keys policy parsed keys_are policy_is =
      let line = main-verify chunks fs keys policy parsed keys_are policy_is in
      (
        (λ h. (verify_valid_iff p _).0 (verify_line-eq-ok _ (sym line ∙ h))),
        (λ a. line ∙ ap verify_line ((verify_valid_iff p _).1 a)),
      )

  -- The line for a receipt that `sign` has signed.
  sign_line :
      (jws : Str)
      → result_line p host (pass (one_field (codes "signed_receipt") jws))
        ≡ codes "{\"signed_receipt\":" ++ quote jws ++ codes "}\n"
  unfolding result_line jcs_string object_text points_from
  sign_line jws =
      ap (λ t. codes "{\"signed_receipt\":" ++ t)
        (append_assoc (quote jws) (codes "}") (codes "\n"))

  main-sign :
      (chunks : List Bytes) (input : Value Num) (jws : Str)
      → parse p (read_stdin chunks) ≡ some input
      → sign p input ≡ pass jws
      → main p host (some (codes "sign")) (some chunks)
        ≡ codes "{\"signed_receipt\":" ++ quote jws ++ codes "}\n"
  unfolding main on_stdin on_input run_command str_eq sign_command ◌>>=◌
  main-sign chunks input jws parsed signed = rw (parsed, on_input, signed) (sign_line jws)

  -- A receipt signed by one run of the program is accepted by another: if the input of the command
  -- `sign` can be signed, its receipt is JSON data that names a performer, the registry in the input of
  -- the command `verify` holds the active public half of the key, for EdDSA, under that performer and
  -- the kid, and the receipt meets the policy there, then the first run writes the signed receipt, and
  -- the second, given it, writes `{"reason":"ok","valid":true}`.
  pub main-sign-verify :
      (to_sign : List Bytes) (input : Value Num) (jws performer : Str) (s : IsSignable p input jws)
      (jwk : RegistryJwk) (to_verify : List Bytes) (fs : Fields Num) (keys : Option Registry)
      (policy : Option Policy)
      → parse p (read_stdin to_sign) ≡ some input
      → parse p (read_stdin to_verify) ≡ some (obj fs)
      → prop (codes "signed_receipt") fs ≡ str jws
      → as_registry (prop (codes "keys") fs) ≡ some keys
      → as_policy (prop (codes "policy") fs) ≡ some policy
      → IsStr s.kid
      → HaveJson p s.receipt
      → prop (codes "performer_id") s.receipt ≡ str performer
      → IsRegistered keys performer s.kid jwk
      → jwk.status ≢ some (codes "revoked")
      → jwk.alg ≡ codes "EdDSA"
      → IsPublicHalf p s.key jwk
      → Meets p policy (λ q. q.expected_binding) (prop (codes "binding") s.receipt)
      → Meets p policy (λ q. q.expected_method) (prop (codes "method") s.receipt)
      → (main p host (some (codes "sign")) (some to_sign)
          ≡ codes "{\"signed_receipt\":" ++ quote jws ++ codes "}\n")
        × (main p host (some (codes "verify")) (some to_verify) ≡ ok_line)
  unfolding reason_code
  main-sign-verify to_sign input jws performer s jwk to_verify fs keys policy parsed parsed' given
        keys_are policy_is hk hr perf reg active alg half mb mm =
      let (signed, valid) =
        verify-sign p input jws performer s jwk keys policy hk hr perf reg active alg half mb mm in
      (
        main-sign to_sign input jws parsed signed,
        main-verify to_verify fs keys policy parsed' keys_are policy_is
            ∙ ap verify_line (
                ap (λ v. verify p (record { signed_receipt = v; keys = keys; policy = policy }))
                  given
                ∙ valid),
      )
