-- ===== src/Go/Chain/Agreement.antt =====
-- `VerifyChain` of go/chain.go and `verifyChain` of ts/src/commands/verify-chain.ts.
use veritrail.Prelude.{
  suc, ◌≡◌, refl, sym, ap, ◌∙◌, List, [], ◌∷◌, map, length, Option, none, some, All,
}
use veritrail.Text.{Str}
use veritrail.Value.{Value, str, arr, as_array, elements, of_elements}
use veritrail.Platform.{Platform}
use veritrail.Outcome.{fail}
use veritrail.Verify.{Registry, Policy}
use veritrail.Chain.{
  ChainReason, receipt_invalid, parent_performer, empty_policy, or_empty, compute_receipt_id,
  receipt_list,
}
use veritrail.Chain
use veritrail.Go.Library.{Library}
use veritrail.Go.Verify.Keys.{go_keys, go_policy}
use veritrail.Go.Chain.{chain_steps, verify_chain}
use veritrail.Go.Chain.Returns.{chain_steps-returns, chain_verdict-returns}
use veritrail.Go.Chain.Shared.{IsExpectingAll, IsShared, chain_steps-shared}

elements-of_elements : {N : Type 0} (vs : List (Value N)) → elements (of_elements vs) ≡ vs
unfolding elements of_elements
elements-of_elements [] = refl
elements-of_elements (v ∷ vs) = ap (◌∷◌ v) (elements-of_elements vs)

length-map : {A B : Type 0} (f : A → B) (xs : List A) → length (map f xs) ≡ length xs
length-map f [] = refl
length-map f (x ∷ xs) = ap suc (length-map f xs)

go_policy-or_empty :
    (policy : Option Policy) → go_policy (some (or_empty policy)) ≡ go_policy policy
go_policy-or_empty none = refl
go_policy-or_empty (some policy) = refl

IsExpectingAll-or_empty :
    (policy : Option Policy) → IsExpectingAll policy → IsExpectingAll (some (or_empty policy))
IsExpectingAll-or_empty none h = h
IsExpectingAll-or_empty (some policy) h = h

verify_list-shared :
    (p : Platform) (lib : Library) (keys : Option Registry) (policy : Option Policy)
    (receipts : List Str)
    → All (IsShared p lib keys) receipts
    → IsExpectingAll policy
    → Chain.verify_list p keys policy (map str receipts)
      ≡ some (
          verify_chain lib
            (record { receipts = receipts; keys = go_keys keys; policy = go_policy policy }))
unfolding Chain.verify_list verify_chain
verify_list-shared p lib keys policy [] h e = chain_verdict-returns 0 (fail _) (λ e'. cc)
verify_list-shared p lib keys policy (jws ∷ receipts) h e =
    ap (λ m. Chain.chain_verdict (length (map {B = Value p.Num} str (jws ∷ receipts))) m)
      (sym (
        chain_steps-shared p lib keys (or_empty policy) (jws ∷ receipts) h
          (IsExpectingAll-or_empty policy e)))
    ∙ ap
        (λ n.
          Chain.chain_verdict n
            (chain_steps lib (go_keys keys) (go_policy (some (or_empty policy))) (jws ∷ receipts)))
        (length-map {B = Value p.Num} str (jws ∷ receipts))
    ∙ ap
        (λ q.
          Chain.chain_verdict (length (jws ∷ receipts))
            (chain_steps lib (go_keys keys) q (jws ∷ receipts)))
        (go_policy-or_empty policy)
    ∙ chain_verdict-returns (length (jws ∷ receipts)) _
        (chain_steps-returns lib (go_keys keys) (go_policy policy) (jws ∷ receipts))

-- On a list of receipts that verify.ts finds well formed, `VerifyChain` of chain.go returns the same
-- verdict, reason code and length as `verifyChain` of verify-chain.ts, under the same registry and
-- policy. The policy expects no empty string. In each receipt no segment leaves a letter over;
-- performer_id and kid, where they are strings, are not empty and no inherited names; a
-- parent_performer_id that is present is a string that is not empty. The Go libraries read each header
-- and payload as the model's `JSON.parse` does, find the payload valid UTF-8, canonicalise it as
-- `jcsBytes` does, and give it the same SHA-256. Where the names find an entry whose alg is the header's,
-- its kty and crv are those of the algorithm, and the crypto libraries agree on the key that its x and y
-- make and on the answer for the signature, which for ES256 is good only if it has 64 bytes.
pub verify_chain-shared :
    (p : Platform) (lib : Library) (keys : Option Registry) (policy : Option Policy)
    (receipts : List Str)
    → All (IsShared p lib keys) receipts
    → IsExpectingAll policy
    → Chain.verify_chain p
        (record { receipts = arr (of_elements (map str receipts)); keys = keys; policy = policy })
      ≡ some (
          verify_chain lib
            (record { receipts = receipts; keys = go_keys keys; policy = go_policy policy }))
unfolding Chain.verify_chain receipt_list as_array
verify_chain-shared p lib keys policy receipts h e =
    ap (Chain.verify_list p keys policy) (elements-of_elements (map str receipts))
    ∙ verify_list-shared p lib keys policy receipts h e
