-- ===== src/Chain/Total.antt =====
-- ts/src/commands/verify-chain.ts returns an output, with the length of the chain, on every branch.
use veritrail.Prelude.{
  ℕ, ◌≡◌, ◌≢◌, refl, List, [], ◌∷◌, Option, none, some, length, All, >>=-eq-some,
}
use veritrail.Platform.{Platform}
use veritrail.Text.{Str}
use veritrail.Value.{Value, as_str, as_array}
use veritrail.Outcome.{Outcome, pass, fail, thrown, ◌>>=◌, ◌>>◌}
use veritrail.Compact.{Compact, read_compact}
use veritrail.Verify.{Registry, Policy, VerifyOutput, verify}
use veritrail.Outcome.Returns.{>>=-returns, >>-returns, require-returns, require_some-returns}
use veritrail.Verify.Total.{Spares, verify-some}
use veritrail.Chain.{
  ChainReason, empty_chain, VerifyChainOutput, VerifyChainInput, Hop, empty_policy, or_empty,
  require_valid, require_string, check_hops, read_hops, check_parents, check_links,
  check_identities, check_repeats, chain_steps, chain_verdict, receipt_list, verify_list,
  verify_chain,
}
use veritrail.Chain.Lineage.{AllAccepted, check_hops_iff}

-- A step that the guard in front of it lets return.
>>-returns_if :
    {R B : Type 0} (m : Outcome R (Unit {0})) (k : Outcome R B)
    → m ≢ thrown
    → (m ≡ pass tt → k ≢ thrown)
    → (m >> k) ≢ thrown
unfolding ◌>>◌ ◌>>=◌
>>-returns_if (pass tt) k hm hk e = hk refl e
>>-returns_if (fail r) k hm hk e = cc
>>-returns_if thrown k hm hk e = hm refl

require_valid-returns : (o : Option VerifyOutput) → o ≢ none → require_valid o ≢ thrown
unfolding require_valid
require_valid-returns none h = λ e. h refl
require_valid-returns (some res) h = require-returns res.valid _

given_string : (o : Option Str) (s : Str) → o ≡ some s → require_string o ≢ thrown
unfolding require_string
given_string (some t) s h = λ e. cc
given_string none s h = λ e. cc

check_repeats-returns : (seen ids : List Str) → check_repeats seen ids ≢ thrown
unfolding check_repeats
check_repeats-returns seen [] = λ e. cc
check_repeats-returns seen (id ∷ ids) =
    >>-returns _ _ (require-returns _ _) (check_repeats-returns (id ∷ seen) ids)

module _ (p : Platform) where
  open p use {Num}

  check_parents-returns : (hops : List (Hop Num)) → check_parents p hops ≢ thrown
  unfolding check_parents
  check_parents-returns [] = λ e. cc
  check_parents-returns (x ∷ []) = require-returns _ _
  check_parents-returns (x ∷ y ∷ hops) =
      >>-returns _ _ (require-returns _ _) (check_parents-returns (y ∷ hops))

  check_links-returns : (hops : List (Hop Num)) → check_links p hops ≢ thrown
  unfolding check_links
  check_links-returns [] = λ e. cc
  check_links-returns (x ∷ []) = λ e. cc
  check_links-returns (x ∷ y ∷ hops) =
      >>-returns _ _ (require-returns _ _) (check_links-returns (y ∷ hops))

  check_identities-returns : (hops : List (Hop Num)) → check_identities p hops ≢ thrown
  unfolding check_identities
  check_identities-returns [] = λ e. cc
  check_identities-returns (x ∷ []) = λ e. cc
  check_identities-returns (x ∷ y ∷ hops) =
      >>-returns _ _ (require-returns _ _) (check_identities-returns (y ∷ hops))

  -- A receipt that has been read is a string.
  require_string-returns :
      (r : Value Num) (c : Compact Num)
      → read_compact p r ≡ some c
      → require_string (as_str r) ≢ thrown
  unfolding read_compact
  require_string-returns r c h =
      let (jws, is, _) = >>=-eq-some (as_str r) _ h in given_string (as_str r) jws is

  read_hops-returns :
      (keys : Option Registry) (policy : Policy) (rs : List (Value Num))
      → AllAccepted p keys policy rs
      → read_hops p rs ≢ thrown
  unfolding read_hops
  read_hops-returns keys policy [] h = λ e. cc
  read_hops-returns keys policy (r ∷ rs) (a, h) =
      >>=-returns _ _ (require_string-returns r a.read a.read_is) (λ jws.
        >>=-returns _ _ (require_some-returns _ _)
          (λ payload. >>=-returns _ _ (read_hops-returns keys empty_policy rs h) (λ hops e. cc)))

  verify-returns :
      (input : veritrail.Verify.VerifyInput p)
      → Spares p input.signed_receipt
      → verify p input ≢ none
  verify-returns input h e = let (out, is) = verify-some p input h in cc

  check_hops-returns :
      (keys : Option Registry) (policy : Policy) (rs : List (Value Num))
      → All (Spares p) rs
      → check_hops p keys policy rs ≢ thrown
  unfolding check_hops
  check_hops-returns keys policy [] h = λ e. cc
  check_hops-returns keys policy (r ∷ rs) (hr, h) =
      >>-returns _ _ (require_valid-returns _ (verify-returns _ hr))
        (check_hops-returns keys empty_policy rs h)

  chain_steps-returns :
      (keys : Option Registry) (policy : Policy) (rs : List (Value Num))
      → All (Spares p) rs
      → chain_steps p keys policy rs ≢ thrown
  unfolding chain_steps
  chain_steps-returns keys policy rs spared =
      >>-returns_if _ _ (check_hops-returns keys policy rs spared) (λ h.
        >>=-returns _ _ (read_hops-returns keys policy rs ((check_hops_iff p keys policy rs).0 h))
          (λ hops. >>-returns _ _ (check_parents-returns hops) (
            >>-returns _ _ (check_links-returns hops)
              (>>-returns _ _ (check_identities-returns hops) (check_repeats-returns [] _)))))

  chain_verdict-some :
      (n : ℕ) (o : Outcome ChainReason (Unit {0}))
      → o ≢ thrown
      → (out : VerifyChainOutput) × (chain_verdict n o ≡ some out) × (out.chain_len ≡ n)
  unfolding chain_verdict
  chain_verdict-some n (pass _) h = (_, refl, refl)
  chain_verdict-some n (fail r) h = (_, refl, refl)
  chain_verdict-some n thrown h = absurd (h refl)

  verify_list-some :
      (keys : Option Registry) (policy : Option Policy) (rs : List (Value Num))
      → All (Spares p) rs
      → (out : VerifyChainOutput) × (verify_list p keys policy rs ≡ some out)
        × (out.chain_len ≡ length rs)
  unfolding verify_list
  verify_list-some keys policy [] h = chain_verdict-some 0 (fail empty_chain) (λ e. cc)
  verify_list-some keys policy (r ∷ rs) h =
      chain_verdict-some (length (r ∷ rs)) _ (chain_steps-returns keys (or_empty policy) (r ∷ rs) h)

  -- `verifyChain` returns an output, whose `chain_len` is the number of receipts whatever the reason,
  -- for every input of which no receipt makes `verify` throw: none that is well formed has a performer
  -- with the name of a member that every object inherits and a kid for which reading the member of
  -- that one throws.
  pub verify_chain-some :
      (input : VerifyChainInput p)
      → All (Spares p) (receipt_list (as_array input.receipts))
      → (out : VerifyChainOutput) × (verify_chain p input ≡ some out)
        × (out.chain_len ≡ length (receipt_list (as_array input.receipts)))
  unfolding verify_chain
  verify_chain-some input h =
      verify_list-some input.keys input.policy (receipt_list (as_array input.receipts)) h
