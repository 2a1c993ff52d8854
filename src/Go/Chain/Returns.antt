-- ===== src/Go/Chain/Returns.antt =====
-- How the steps of `VerifyChain` in go/chain.go end.
use veritrail.Prelude.{◌≡◌, ◌≢◌, refl, ℕ, List, [], ◌∷◌, some}
use veritrail.Text.{Str}
use veritrail.Outcome.{Outcome, pass, fail, thrown}
use veritrail.Outcome.Returns.{
  >>=-returns, >>-returns, require-returns, check-returns, lookup-returns,
}
use veritrail.Chain.{ChainReason}
use veritrail.Chain
use veritrail.Go.Library.{Library}
use veritrail.Go.Verify.{Keys, VerifyPolicy}
use veritrail.Go.Chain.{
  Hop, hop_ids, no_policy, decode_payload, check_hops, read_hops, check_parents, check_links,
  check_identities, check_cycle, chain_steps, chain_verdict,
}

check_parents-returns : (hops : List Hop) → check_parents hops ≢ thrown
unfolding check_parents
check_parents-returns [] = λ e. cc
check_parents-returns (x ∷ []) = require-returns _ _
check_parents-returns (x ∷ y ∷ hops) = check-returns _ _ _ (check_parents-returns (y ∷ hops))

check_cycle-returns : (seen rids : List Str) → check_cycle seen rids ≢ thrown
unfolding check_cycle
check_cycle-returns seen [] = λ e. cc
check_cycle-returns seen (rid ∷ rids) = check-returns _ _ _ (check_cycle-returns (rid ∷ seen) rids)

module _ (lib : Library) where
  check_hops-returns :
      (keys : Keys) (policy : VerifyPolicy) (receipts : List Str)
      → check_hops lib keys policy receipts ≢ thrown
  unfolding check_hops
  check_hops-returns keys policy [] = λ e. cc
  check_hops-returns keys policy (jws ∷ receipts) =
      check-returns _ _ _ (check_hops-returns keys no_policy receipts)

  decode_payload-returns : (jws : Str) → decode_payload lib jws ≢ thrown
  unfolding decode_payload
  decode_payload-returns jws =
      lookup-returns _ _ _
        (λ segs. lookup-returns _ _ _ (λ bytes. lookup-returns _ _ _ (λ payload e. cc)))

  read_hops-returns : (receipts : List Str) → read_hops lib receipts ≢ thrown
  unfolding read_hops
  read_hops-returns [] = λ e. cc
  read_hops-returns (jws ∷ receipts) =
      >>=-returns _ _ (decode_payload-returns jws)
        (λ decoded. >>=-returns _ _ (read_hops-returns receipts) (λ hops e. cc))

  check_links-returns : (hops : List Hop) → check_links lib hops ≢ thrown
  unfolding check_links
  check_links-returns [] = λ e. cc
  check_links-returns (x ∷ []) = λ e. cc
  check_links-returns (x ∷ y ∷ hops) = check-returns _ _ _ (check_links-returns (y ∷ hops))

  check_identities-returns : (hops : List Hop) → check_identities lib hops ≢ thrown
  unfolding check_identities
  check_identities-returns [] = λ e. cc
  check_identities-returns (x ∷ []) = λ e. cc
  check_identities-returns (x ∷ y ∷ hops) =
      check-returns _ _ _ (check_identities-returns (y ∷ hops))

  pub chain_steps-returns :
      (keys : Keys) (policy : VerifyPolicy) (receipts : List Str)
      → chain_steps lib keys policy receipts ≢ thrown
  unfolding chain_steps
  chain_steps-returns keys policy receipts =
      >>-returns _ _ (check_hops-returns keys policy receipts) (
        >>=-returns _ _ (read_hops-returns receipts) (λ hops.
          >>-returns _ _ (check_parents-returns hops) (
            >>-returns _ _ (check_links-returns hops) (
              >>-returns _ _ (check_identities-returns hops)
                (check_cycle-returns [] (hop_ids hops))))))

-- What a call of the one program comes to is what the other returns.
pub chain_verdict-returns :
    (n : ℕ) (m : Outcome ChainReason (Unit {0}))
    → m ≢ thrown
    → Chain.chain_verdict n m ≡ some (chain_verdict n m)
unfolding Chain.chain_verdict chain_verdict
chain_verdict-returns n (pass _) h = refl
chain_verdict-returns n (fail r) h = refl
chain_verdict-returns n thrown h = absurd (h refl)
