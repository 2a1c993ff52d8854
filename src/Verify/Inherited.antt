-- ===== src/Verify/Inherited.antt =====
-- The registry lookup of ts/src/commands/verify.ts, for names that objects inherit.
use veritrail.Prelude.{◌≡◌, refl, true, false, Option, none, some}
use veritrail.Platform.{Platform}
use veritrail.Text.{Str, codes}
use veritrail.Value.{Value, str, prop, as_str}
use veritrail.Outcome.{pass, fail, ◌>>=◌, ◌>>◌, require, require_some}
use veritrail.Compact.{Compact, read_compact}
use veritrail.Verify.{
  alg_not_allowed, Registry, Policy, forbidden_header_keys, any_own, inherited, member, built_in,
  resolve_key, keys_in, of_inherited, find_key, check_key, check_compact, verify_steps, verdict,
  verify, status_of, alg_of, is_revoked, alg_allowed,
}

module _ (p : Platform) where
  open p use {Num, inherited_member}

  found_built_in :
      (registry : Registry) (performer kid : Str) (c : Compact Num)
      → any_own forbidden_header_keys c.header ≡ false
      → prop (codes "performer_id") c.payload ≡ str performer
      → prop (codes "kid") c.header ≡ str kid
      → member performer registry ≡ inherited
      → inherited_member performer kid ≡ some true
      → find_key p (some registry) c ≡ pass built_in
  unfolding find_key ◌>>=◌ ◌>>◌ require require_some as_str resolve_key keys_in of_inherited
  found_built_in registry performer kid c clean perf key member_is truthy =
      rw (clean, perf, key, member_is, truthy)

  built_in_refused : (c : Compact Num) → check_key p built_in c ≡ fail alg_not_allowed
  unfolding check_key ◌>>=◌ ◌>>◌ require require_some status_of alg_of is_revoked alg_allowed
  built_in_refused c = go (as_str (prop (codes "alg") c.header))
    where
      go :
          (o : Option Str)
          → (require_some o alg_not_allowed >>= λ alg.
              require (alg_allowed alg none) alg_not_allowed >> pass alg)
            ≡ fail alg_not_allowed
      go none = refl
      go (some alg) = refl

  -- A receipt with no key material in its header whose performer is no entry of the registry, but the
  -- name of a member that every object inherits and in which the kid finds something truthy, is
  -- refused with `alg_not_allowed`, not with `unknown_key`.
  pub verify-inherited :
      (signed_receipt : Value Num) (registry : Registry) (policy : Option Policy)
      (performer kid : Str) (c : Compact Num)
      → read_compact p signed_receipt ≡ some c
      → any_own forbidden_header_keys c.header ≡ false
      → prop (codes "performer_id") c.payload ≡ str performer
      → prop (codes "kid") c.header ≡ str kid
      → member performer registry ≡ inherited
      → inherited_member performer kid ≡ some true
      → verify p (record { signed_receipt = signed_receipt; keys = some registry; policy = policy })
        ≡ some (record { valid = false; reason = alg_not_allowed })
  unfolding verify verify_steps check_compact ◌>>=◌ require_some verdict
  verify-inherited signed_receipt registry policy performer kid c read clean perf key member_is
        truthy =
      rw (
        read,
        require_some,
        found_built_in registry performer kid c clean perf key member_is truthy,
        built_in_refused c,
      )
