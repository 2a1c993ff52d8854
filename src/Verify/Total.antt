-- ===== src/Verify/Total.antt =====
-- ts/src/commands/verify.ts and verify-chain.ts return an output.
use veritrail.Prelude.{
  ◌≡◌, ◌≢◌, refl, Bool, true, false, [], ◌∷◌, Option, none, some, arith, inl, inr, Bool-cases,
}
use veritrail.Platform.{Platform}
use veritrail.Text.{Str, codes, str_eq, str_in}
use veritrail.Value.{Value, prop, as_str}
use veritrail.Outcome.{Outcome, pass, fail, thrown, require_some-eq-pass}
use veritrail.Outcome.Returns.{
  >>=-returns, >>=-returns_pass, >>-returns, check-returns, require-returns, require_some-returns,
}
use veritrail.Compact.{Compact, read_compact}
use veritrail.Verify.{
  Reason, Resolved, Member, own, inherited, absent, RegistryJwk, Registry, Policy, Dict,
  VerifyInput, VerifyOutput, find_key, check_key, check_signature, check_payload, check_compact,
  verify_steps, verify, verdict, resolve_key, keys_in, key_in, of_inherited, member,
  inherited_names,
}

member-eq-inherited :
    {T : Type 0} (k : Str) (d : Dict T) → member k d ≡ inherited → str_in k inherited_names ≡ true
unfolding member
member-eq-inherited k [] h = elim (Bool-cases (str_in k inherited_names)) [
  | inl e ↦ e
  | inr e ↦ ground arith
]
member-eq-inherited k ((j, v) ∷ d) h = elim (Bool-cases (str_eq j k)) [
  | inl e ↦ ground arith
  | inr e ↦ member-eq-inherited k d (ground arith)
]

module _ (p : Platform) where
  open p use {Num, inherited_member}

  -- Reading the member `kid` of a member that every object inherits does not throw, where the performer
  -- of a receipt has the name of such a member. The performer of an ordinary receipt has no such name.
  abbrev pub SparesMembers : Compact Num → Type 0
  SparesMembers c =
      (performer kid : Str)
      → as_str (prop (codes "performer_id") c.payload) ≡ some performer
      → as_str (prop (codes "kid") c.header) ≡ some kid
      → str_in performer inherited_names ≡ true
      → inherited_member performer kid ≢ none

  -- The same for a signed receipt, if it is well formed.
  abbrev pub Spares : Value Num → Type 0
  Spares r = (c : Compact Num) → read_compact p r ≡ some c → SparesMembers c

  of_inherited-returns : (o : Option Bool) → o ≢ none → of_inherited p o ≢ thrown
  unfolding of_inherited
  of_inherited-returns none h e = h refl
  of_inherited-returns (some true) h e = cc
  of_inherited-returns (some false) h e = cc

  key_in-returns : (m : Member RegistryJwk) → key_in p m ≢ thrown
  unfolding key_in
  key_in-returns (own jwk) e = cc
  key_in-returns inherited e = cc
  key_in-returns absent e = cc

  keys_in-returns :
      (performer kid : Str) (m : Member (Dict RegistryJwk))
      → (m ≡ inherited → inherited_member performer kid ≢ none)
      → keys_in p performer kid m ≢ thrown
  unfolding keys_in
  keys_in-returns performer kid (own keys) h = key_in-returns _
  keys_in-returns performer kid inherited h = of_inherited-returns _ (h refl)
  keys_in-returns performer kid absent h = λ e. cc

  resolve_key-returns :
      (keys : Option Registry) (performer kid : Str)
      → (str_in performer inherited_names ≡ true → inherited_member performer kid ≢ none)
      → resolve_key p keys performer kid ≢ thrown
  unfolding resolve_key
  resolve_key-returns none performer kid h = λ e. cc
  resolve_key-returns (some keys) performer kid h =
      keys_in-returns performer kid _ (λ e. h (member-eq-inherited performer keys e))

  find_key-returns :
      (keys : Option Registry) (c : Compact Num) → SparesMembers c → find_key p keys c ≢ thrown
  unfolding find_key
  find_key-returns keys c h = check-returns _ _ _ (
      >>=-returns_pass _ _ (require_some-returns _ _) (λ performer is.
        >>=-returns_pass _ _ (require_some-returns _ _) (λ kid kid_is.
          resolve_key-returns keys performer kid
            (h performer kid (require_some-eq-pass _ _ is) (require_some-eq-pass _ _ kid_is)))))

  check_key-returns : (jwk : Resolved) (c : Compact Num) → check_key p jwk c ≢ thrown
  unfolding check_key
  check_key-returns jwk c = >>-returns _ _ (require-returns _ _) (
      >>=-returns _ _ (require_some-returns _ _)
        (λ alg. >>-returns _ _ (require-returns _ _) (λ e. cc)))

  check_signature-returns :
      (alg : Str) (jwk : Resolved) (c : Compact Num) → check_signature p alg jwk c ≢ thrown
  unfolding check_signature
  check_signature-returns alg jwk c =
      >>=-returns _ _ (require_some-returns _ _) (λ key. require-returns _ _)

  check_payload-returns :
      (policy : Option Policy) (c : Compact Num) → check_payload p policy c ≢ thrown
  unfolding check_payload
  check_payload-returns policy c =
      >>-returns _ _ (require-returns _ _)
        (>>-returns _ _ (require-returns _ _) (require-returns _ _))

  verify_steps-returns :
      (input : VerifyInput p) → Spares input.signed_receipt → verify_steps p input ≢ thrown
  unfolding verify_steps check_compact
  verify_steps-returns input h = >>=-returns_pass _ _ (require_some-returns _ _) (λ c is.
      >>=-returns _ _ (find_key-returns input.keys c (h c (require_some-eq-pass _ _ is))) (λ jwk.
        >>=-returns _ _ (check_key-returns jwk c) (λ alg.
          >>-returns _ _ (check_signature-returns alg jwk c)
            (check_payload-returns input.policy c))))

  verdict-some :
      (o : Outcome Reason (Unit {0})) → o ≢ thrown → (out : VerifyOutput) × (verdict o ≡ some out)
  unfolding verdict
  verdict-some (pass _) h = (_, refl)
  verdict-some (fail r) h = (_, refl)
  verdict-some thrown h = absurd (h refl)

  -- `verify` returns an output, whatever the receipt, the registry and the policy, unless the receipt
  -- is well formed, its performer has the name of a member that every object inherits, and reading the
  -- member of that one that its kid names throws.
  pub verify-some :
      (input : VerifyInput p)
      → Spares input.signed_receipt
      → (out : VerifyOutput) × (verify p input ≡ some out)
  unfolding verify
  verify-some input h = verdict-some (verify_steps p input) (verify_steps-returns input h)
