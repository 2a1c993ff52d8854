-- ===== src/Tests/CommandLine.antt =====
-- Runs of the command line of ts/src/cli.ts, and its theorems at concrete inputs.
use veritrail.Prelude.{
  ℕ, ◌≡◌, ◌↔◌, ◌+◌, refl, List, [], ◌∷◌, ◌++◌, none, some, arith, if◌then◌else◌, ltb,
}
use veritrail.Platform.{Platform}
use veritrail.Text.{Bytes, codes}
use veritrail.Text.Hex.{to_hex}
use veritrail.Value.{Fields, null, obj, end, str}
use veritrail.Jcs.{quote}
use veritrail.Verify.Accepts.{Accepts}
use veritrail.Cli.{main, read_stdin}
use veritrail.Cli.Inputs.{Host, as_jwk, as_policy, as_registry}
use veritrail.Cli.Commands.{jcs_command, verify_command}
use veritrail.Cli.Output.{IsOneLine, main-IsOneLine}
use veritrail.Cli.Verify.{ok_line, main-verify_iff, main-sign-verify}
use veritrail.Toy.{toy, toy_runs}
use veritrail.Tests.{V, text, entry, jwk, registry, seed, sign_input, signed}
use veritrail.Tests.Signing.{signable, zeros-IsPublicHalf, registered}

-- Numbers whose text is a digit, and what a length comes to.
abbrev digits : Platform
digits = record toy { number_text = λ n. codes "0" }

abbrev host : Host toy
host = record {
  number_of = λ n. if ltb n 10 then (b'0' + n) ∷ [] else codes "10";
  buffer_from = λ encoding v. none;
  mistyped = λ command input. none;
}

abbrev digits_host : Host digits
digits_host = record {
  number_of = λ n. codes "0";
  buffer_from = λ encoding v. none;
  mistyped = λ command input. none;
}

missing_command : main toy host none none ≡ codes "{\"error\":\"missing_command\"}\n"
unfolding toy_runs main
missing_command = refl

invalid_json :
    main toy host (some (codes "jcs")) (some ((b'{' ∷ []) ∷ []))
    ≡ codes "{\"error\":\"invalid_json\"}\n"
unfolding toy_runs main
invalid_json = refl

-- The chunks are joined, and the keys of the output are sorted.
jcs_run :
    main toy host (some (codes "jcs")) (some (codes "{\"value\":" ∷ codes "{\"b\":[]}}" ∷ []))
    ≡ codes "{\"byte_len\":8,\"canonical_hex\":\"7b2262223a5b5d7d\"}\n"
unfolding toy_runs main to_hex jcs_command
jcs_run = refl

no_input :
    main toy host (some (codes "verify")) (some (codes "null" ∷ []))
    ≡ codes "{\"error\":\"internal_error\"}\n"
unfolding toy_runs main verify_command
no_input = refl

main-IsOneLine_example :
    IsOneLine (main digits digits_host (some (codes "jcs")) (some (codes "{\"value\":[7]}" ∷ [])))
main-IsOneLine_example =
    main-IsOneLine digits digits_host (λ n. (refl, tt)) (some (codes "jcs"))
      (some (codes "{\"value\":[7]}" ∷ []))

abbrev to_sign : List Bytes
to_sign =
    (codes
        "{\"receipt\":{\"performer_id\":\"srv\",\"binding\":\"mcp\",\"parent_receipt_hash\":null},\"kid\":\"k1\",\"private_key_b64\":\""
      ++ seed
      ++ codes "\"}")
    ∷ []

abbrev to_verify : List Bytes
to_verify =
    codes "{\"signed_receipt\":\""
    ∷ signed null
    ∷ codes
        "\",\"keys\":{\"srv\":{\"k1\":{\"kty\":\"OKP\",\"crv\":\"Ed25519\",\"x\":\"AAAAAAAAAAAAAAAAAAAAAAAAAAAAAAAAAAAAAAAAAAA\",\"alg\":\"EdDSA\",\"status\":\"active\"}}}}"
    ∷ []

abbrev jwk_entry : V
jwk_entry = obj (
    entry "kty" (text "OKP") (
      entry "crv" (text "Ed25519") (
        entry "x" (text "AAAAAAAAAAAAAAAAAAAAAAAAAAAAAAAAAAAAAAAAAAA")
          (entry "alg" (text "EdDSA") (entry "status" (text "active") end)))))

abbrev verify_fields : Fields (List ℕ)
verify_fields =
    entry "signed_receipt" (str (signed null))
      (entry "keys" (obj (entry "srv" (obj (entry "k1" jwk_entry end)) end)) end)

main-verify_iff_example :
    (main toy host (some (codes "verify")) (some to_verify) ≡ ok_line)
    ↔ Accepts toy (some registry) none (str (signed null))
unfolding toy_runs signed as_jwk as_registry as_policy read_stdin
main-verify_iff_example =
    main-verify_iff toy host to_verify verify_fields (some registry) none refl refl refl

main-sign-verify_example :
    (main toy host (some (codes "sign")) (some to_sign)
      ≡ codes "{\"signed_receipt\":" ++ quote (signed null) ++ codes "}\n")
    × (main toy host (some (codes "verify")) (some to_verify) ≡ ok_line)
unfolding toy_runs signed as_jwk as_registry as_policy read_stdin signable
main-sign-verify_example =
    main-sign-verify toy host to_sign (sign_input null) (signed null) (codes "srv") signable jwk
      to_verify verify_fields (some registry) none refl refl refl refl refl (omega arith)
      (
        omega arith,
        (
          refl,
          (omega arith, (omega arith, (refl, (omega arith, (omega arith, (refl, (tt, tt))))))),
        ),
      )
      refl registered (λ e. ground arith) refl zeros-IsPublicHalf (λ e h. cc) (λ e h. cc)
