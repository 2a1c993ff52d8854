-- ===== src/Go/Verify/Returns.antt =====
-- How the steps of `Verify` in go/verify.go end.
use veritrail.Prelude.{◌≡◌, ◌≢◌, refl, some}
use veritrail.Text.{Str}
use veritrail.Outcome.{Outcome, pass, fail, thrown}
use veritrail.Outcome.Returns.{
  >>=-returns, >>-returns, require-returns, require_some-returns, check-returns, lookup-returns,
}
use veritrail.Verify.{Reason, VerifyOutput}
use veritrail.Verify
use veritrail.Go.Library.{Library}
use veritrail.Go.Verify.{
  RegistryKey, Keys, VerifyPolicy, VerifyInput, Opened, resolve, check_key, check_context,
  check_canonical, check_opened, open_receipt, verify_steps, verdict,
}

pub resolve-returns : (keys : Keys) (performer kid : Str) → resolve keys performer kid ≢ thrown
unfolding resolve
resolve-returns keys performer kid =
    check-returns _ _ _ (check-returns _ _ _ (lookup-returns _ _ _ (λ d. require_some-returns _ _)))

check_key-returns : (key : RegistryKey) (alg : Str) → check_key key alg ≢ thrown
unfolding check_key
check_key-returns key alg =
    check-returns _ _ _ (check-returns _ _ _ (check-returns _ _ _ (require-returns _ _)))

check_context-returns : (policy : VerifyPolicy) (b m : Str) → check_context policy b m ≢ thrown
unfolding check_context
check_context-returns policy b m = check-returns _ _ _ (require-returns _ _)

module _ (lib : Library) where
  check_opened-returns :
      (keys : Keys) (policy : VerifyPolicy) (o : Opened) → check_opened lib keys policy o ≢ thrown
  unfolding check_opened check_canonical
  check_opened-returns keys policy o = check-returns _ _ _ (
      >>=-returns (resolve keys _ _) _ (resolve-returns keys _ _) (λ key.
        >>-returns (check_key key _) _ (check_key-returns key _) (
          check-returns _ _ _ (
            >>-returns _ _ (lookup-returns _ _ _ (λ canon. require-returns _ _))
              (check_context-returns policy _ _)))))

  verify_steps-returns : (input : VerifyInput) → verify_steps lib input ≢ thrown
  unfolding verify_steps open_receipt
  verify_steps-returns input =
      >>=-returns _ _
        (lookup-returns _ _ _ (λ segs. lookup-returns _ _ _ (λ hb. lookup-returns _ _ _ (λ pb.
          lookup-returns _ _ _ (λ sb.
            lookup-returns _ _ _ (λ h. check-returns _ _ _ (lookup-returns _ _ _ (λ pl e. cc))))))))
        (λ o. check_opened-returns input.keys input.policy o)

-- What a call of the one `verify` comes to is what the other returns.
verdict-returns : (m : Outcome Reason (Unit {0})) → m ≢ thrown → Verify.verdict m ≡ some (verdict m)
unfolding Verify.verdict verdict
verdict-returns (pass _) h = refl
verdict-returns (fail r) h = refl
verdict-returns thrown h = absurd (h refl)

pub verdict-verify_steps :
    (lib : Library) (input : VerifyInput)
    → Verify.verdict (verify_steps lib input) ≡ some (verdict (verify_steps lib input))
verdict-verify_steps lib input =
    verdict-returns (verify_steps lib input) (verify_steps-returns lib input)
