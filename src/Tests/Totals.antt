-- ===== src/Tests/Totals.antt =====
-- That the commands return, the length of a hash string, and the conformance script, at concrete inputs.
use veritrail.Prelude.{
  ◌+◌, ◌*◌, ◌/◌, ◌≡◌, ◌↔◌, refl, sym, ap, subst, ◌∙◌, some-injective, ℕ, false, List, [], ◌∷◌,
  Option, none, some, length, All,
}
use veritrail.Text.{Str, Bytes, codes, str_eq, str_in}
use veritrail.Value.{arr, as_array, as_str, cons, end, nil, null, num, prop, str, undefined}
use veritrail.Hash.{encode_hashstring}
use veritrail.Hash.Bounds.{length-encode_hashstring}
use veritrail.Sse.{events}
use veritrail.Sse.Terminators.{with_breaks, events-with_breaks}
use veritrail.Outcome.{pass}
use veritrail.Verify.{VerifyOutput, verify, inherited_names}
use veritrail.Compact.{Compact, read_compact}
use veritrail.Verify.Total.{Spares, verify-some}
use veritrail.Chain.{VerifyChainOutput, receipt_list, verify_chain}
use veritrail.Chain.Total.{verify_chain-some}
use veritrail.Conformance.{anchor_mismatch, Command, Vector, compare_vectors}
use veritrail.Conformance.Agreement.{IsAgreed, compare_vectors_iff}
use veritrail.Toy.{toy, toy_runs}
use veritrail.Tests.{V, text, entry, registry, signed}

abbrev three : Bytes
three = 1 ∷ 2 ∷ 3 ∷ []

length-encode_hashstring_example : length (encode_hashstring three) ≡ (4 * length three + 13) / 3
length-encode_hashstring_example = length-encode_hashstring three

events-with_breaks_example :
    events (with_breaks (b'\r' ∷ b'\n' ∷ []) (codes "data: a\n\n")) ≡ events (codes "data: a\n\n")
events-with_breaks_example =
    events-with_breaks (codes "data: a\n\n")
      (refl, (refl, (refl, (refl, (refl, (refl, (refl, (refl, (refl, tt)))))))))

abbrev performer_of : Option (Compact (List ℕ)) → Option Str
performer_of none = none
performer_of (some c) = as_str (prop (codes "performer_id") c.payload)

performer_signed : performer_of (read_compact toy (str (signed null))) ≡ some (codes "srv")
unfolding toy_runs signed
performer_signed = refl

no_member : str_in (codes "srv") inherited_names ≡ false
unfolding str_in str_eq
no_member = refl

-- The performer of the receipt has an ordinary name.
spared : Spares toy (str (signed null))
spared c is performer kid named kid_is h e =
    let srv : some (codes "srv") ≡ some performer =
      sym performer_signed ∙ ap performer_of is ∙ named in
    let ordinary : str_in performer inherited_names ≡ false =
      subst (λ s. str_in s inherited_names ≡ false) (some-injective srv) no_member in
    cc (ordinary, h)

verify-some_example :
    (out : VerifyOutput) × (verify toy
        (record { signed_receipt = str (signed null); keys = some registry; policy = none })
      ≡ some out)
verify-some_example =
    verify-some toy
      (record { signed_receipt = str (signed null); keys = some registry; policy = none }) spared

abbrev chain_of_one : V
chain_of_one = arr (cons (str (signed null)) nil)

verify_chain-some_example :
    (out : VerifyChainOutput) × (verify_chain toy
        (record { receipts = chain_of_one; keys = some registry; policy = none })
      ≡ some out)
    × (out.chain_len ≡ length (receipt_list (as_array chain_of_one)))
unfolding receipt_list as_array
verify_chain-some_example =
    verify_chain-some toy (record { receipts = chain_of_one; keys = some registry; policy = none })
      (spared, tt)

-- A command that answers `{"x":1}` whatever it is asked.
abbrev answer : Command toy
answer = λ command input. record {
  error = none;
  status = codes "0";
  stdout = some (codes "{\"x\":\"1\"}\n");
  stderr = none;
}

abbrev vectors : List (Vector toy)
vectors =
    record {
      name = codes "v1";
      command = codes "jcs";
      input = null;
      anchor = some (entry "x" (text "1") end);
    }
    ∷ record { name = codes "v2"; command = codes "jcs"; input = null; anchor = none }
    ∷ []

-- What the output of a vector has under a key may be the length or a character of a string, an element
-- of an array, or a prototype.
read_string :
    anchor_mismatch toy
      (codes "\"ab\"")
      (entry "length" (num (codes "2")) (entry "1" (text "b") (entry "2" undefined end)))
    ≡ pass none
unfolding toy_runs anchor_mismatch
read_string = refl

read_array :
    anchor_mismatch toy
      (codes "[null,\"x\"]")
      (entry "1" (text "x") (entry "length" (num (codes "2")) (entry "__proto__" (arr nil) end)))
    ≡ pass none
unfolding toy_runs anchor_mismatch
read_array = refl

agree_run : compare_vectors toy answer answer vectors ≡ pass 0
unfolding toy_runs compare_vectors
agree_run = refl

compare_vectors_iff_example :
    (compare_vectors toy answer answer vectors ≡ pass 0) ↔ All (IsAgreed toy answer answer) vectors
compare_vectors_iff_example = compare_vectors_iff toy answer answer vectors
