-- ===== src/Mcp/Complete.antt =====
-- The demo of ts/src/mcp/demo.ts, from the call of the tool to the rejection of the forged result.
use veritrail.Prelude.{◌≡◌, ◌≢◌, ◌⊎◌, inl, inr, refl, sym, subst, none, some, arith}
use veritrail.Platform.{Platform}
use veritrail.Text.{Str, Bytes, codes, str_eq}
use veritrail.Text.Base64.RoundTrip.{IsBytes}
use veritrail.Value.{str, num, Fields, field, end, get, set, prop}
use veritrail.Jcs.Quoted.{IsStr}
use veritrail.Jcs.Canonical.{IsNumber}
use veritrail.Hash.Injective.{Collision}
use veritrail.Outcome.{Outcome, pass, or_throw, ◌>>=◌}
use veritrail.Artifact.{read_prop}
use veritrail.Sign.Verified.{IsPublicHalf}
use veritrail.Mcp.{
  TestSigner, KeyPair, generate_test_signer, registry_from_signer, compute_outputs_hash,
  veritrail_tool_result, attach, spread, build_receipt_payload, sign_receipt,
}
use veritrail.Mcp.Payload.{frame-IsStr}
use veritrail.Mcp.Attached.{compute_outputs_hash-veritrail_tool_result}
use veritrail.Mcp.Accepted.{accept_result-veritrail_tool_result}
use veritrail.Mcp.Received.{reject_forged-received, tool_result-received}
use veritrail.Mcp.Server.{
  Arithmetic, Moment, ToolCall, Transport, run_round_trip, build_server, call_tool, add,
  add_options, sum_result, or_generated,
}
use veritrail.Mcp.Demo.{accept_result, reject_forged, demo}

module _ (p : Platform) (arithmetic : Arithmetic p) where
  open p use {Num, number_value}
  open arithmetic use {to_number, plus, number_string, elapsed}

  abbrev add_request : Num → Num → ToolCall p
  add_request a b = record {
    name = codes "add";
    arguments = some (field (codes "a") (num a) (field (codes "b") (num b) end));
  }

  -- A transport that hands the client what the handler returns.
  unfoldable pub Delivers : Transport p → Type 0
  Delivers transport =
      (handler : ToolCall p → Outcome Str (Fields Num)) (call : ToolCall p) (result : Fields Num)
      → handler call ≡ pass result
      → transport handler call ≡ pass result

  run_round_trip-add :
      (transport : Transport p) (spare : KeyPair p) (signer : TestSigner p) (moment : Moment p)
      (a b m n : Num)
      → Delivers transport
      → to_number (num a) ≡ some m
      → to_number (num b) ≡ some n
      → run_round_trip p arithmetic transport spare moment
          (record { signer = some signer; tool_name = codes "add"; a = a; b = b })
        ≡ pass (record {
          result = veritrail_tool_result p (
              add_options p arithmetic signer moment
                (field (codes "a") (num a) (field (codes "b") (num b) end))
                (plus m n));
          signer = signer;
        })
  unfolding Delivers run_round_trip or_generated build_server call_tool add str_eq get or_throw
      ◌>>=◌
  run_round_trip-add transport spare signer moment a b m n delivers ha hb =
      let result = veritrail_tool_result p (
        add_options p arithmetic signer moment
          (field (codes "a") (num a) (field (codes "b") (num b) end)) (plus m n)) in
      let handled : call_tool p arithmetic signer moment (add_request a b) ≡ pass result =
        rw (ha, hb) in
      rw (delivers (call_tool p arithmetic signer moment) (add_request a b) result handled)

  summed :
      (signer : TestSigner p) (moment : Moment p) (params : Fields Num) (sum : Num)
      → (read_prop (codes "sum") (
          prop
            (codes "structuredContent")
            (veritrail_tool_result p (add_options p arithmetic signer moment params sum))))
        ≡ pass (num sum)
  unfolding read_prop veritrail_tool_result attach spread set get str_eq sum_result
  summed signer moment params sum = refl

  reject_forged-tool_result :
      (signer : TestSigner p) (moment : Moment p) (params : Fields Num) (sum : Num)
      → ((b : Bytes) → IsBytes (p.sha256 b))
      → IsStr (number_string sum)
      → IsNumber p sum
      → IsNumber p (number_value (codes "999"))
      → number_string sum ≢ codes "999"
      → (reject_forged p
            (str (compute_outputs_hash p (sum_result p arithmetic sum)))
            (veritrail_tool_result p (add_options p arithmetic signer moment params sum))
          ≡ pass tt)
        ⊎ Collision p
  unfolding sign_receipt
  reject_forged-tool_result signer moment params sum bytes text hs h9 differs =
      let opts = add_options p arithmetic signer moment params sum in
      subst (λ h. (reject_forged p (str h) (veritrail_tool_result p opts) ≡ pass tt) ⊎ Collision p)
        (compute_outputs_hash-veritrail_tool_result p opts).0
        (subst (λ r. (reject_forged p (str (compute_outputs_hash p r)) r ≡ pass tt) ⊎ Collision p)
          (sym (tool_result-received p arithmetic signer moment params sum))
          (reject_forged-received p arithmetic bytes (number_string sum) sum _ text hs
            (frame-IsStr p signer.kid (build_receipt_payload p opts) signer.private_key) h9
            differs))

  accept_result-generated :
      (pair : KeyPair p) (moment : Moment p) (params : Fields Num) (sum : Num)
      → IsPublicHalf p pair.private_key (generate_test_signer p pair none none).public_jwk
      → ((n : Num) → IsStr (number_string n))
      → accept_result p (registry_from_signer p (generate_test_signer p pair none none)) (
          veritrail_tool_result p
            (add_options p arithmetic (generate_test_signer p pair none none) moment params sum))
        ≡ pass (str (compute_outputs_hash p (sum_result p arithmetic sum)))
  unfolding generate_test_signer
  accept_result-generated pair moment params sum half texts =
      accept_result-veritrail_tool_result p
        (add_options p arithmetic (generate_test_signer p pair none none) moment params sum)
        (record {
          kid = omega arith;
          performer_id = omega arith;
          tool_name = omega arith;
          wall_ms = texts (elapsed moment.started moment.finished);
          ts = tt;
        })
        refl (λ e. ground arith) refl half

  -- The demo completes, its receipt accepted, its result bound and the forged result told from it, or
  -- two byte strings have one SHA-256 digest. The transport hands the client what the handler returns,
  -- the generated keys belong together, 2 and 3 are numbers with a sum whose text is not 999, the sum
  -- and 999 are numbers that JSON can carry, texts of numbers hold code units, and SHA-256 returns
  -- bytes.
  pub demo_complete :
      (transport : Transport p) (pair spare : KeyPair p) (moment : Moment p) (two three : Num)
      → ((b : Bytes) → IsBytes (p.sha256 b))
      → Delivers transport
      → IsPublicHalf p pair.private_key (generate_test_signer p pair none none).public_jwk
      → to_number (num (number_value (codes "2"))) ≡ some two
      → to_number (num (number_value (codes "3"))) ≡ some three
      → IsNumber p (plus two three)
      → IsNumber p (number_value (codes "999"))
      → ((n : Num) → IsStr (number_string n))
      → number_string (plus two three) ≢ codes "999"
      → (demo p arithmetic transport pair spare moment ≡ pass tt) ⊎ Collision p
  unfolding demo ◌>>=◌
  demo_complete transport pair spare moment two three bytes delivers half h2 h3 hs h9 texts
        differs =
      let signer = generate_test_signer p pair none none in
      let params =
        field (codes "a") (num (number_value (codes "2")))
          (field (codes "b") (num (number_value (codes "3"))) end) in
      let accepted = accept_result-generated pair moment params (plus two three) half texts in
      elim (reject_forged-tool_result signer moment params (plus two three) bytes
        (texts (plus two three)) hs h9 differs) [
          | inl done ↦ inl (
              rw
                (
                  run_round_trip-add transport spare signer moment _ _ two three delivers h2 h3,
                  summed signer moment params (plus two three),
                  accepted,
                )
                done)
          | inr c ↦ inr c
        ]
