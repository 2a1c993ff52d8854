-- ===== src/Verify/Checks.antt =====
-- The single checks of `verify`, each against what it stands for.
use veritrail.Prelude.{
  ◌≡◌, ◌≢◌, refl, ◌↔◌, Bool, true, false, not, List, [], ◌∷◌, Option, none, some, arith, All,
}
use veritrail.Platform.{Platform}
use veritrail.Text.{Str, Bytes, codes, str_eq_iff}
use veritrail.Value.{Value, str, Fields, has_own, is_str}
use veritrail.Outcome.{pass}
use veritrail.Verify.{
  RegistryJwk, Dict, Registry, Member, own, inherited, absent, member, Resolved, entry, built_in,
  any_own, alg_of, is_revoked, alg_allowed, meets, of_inherited, key_in, keys_in, resolve_key,
  verify_signature,
}
use veritrail.Verify.Accepts.{IsRegistered, IsSigned}

pub not-eq-true : (b : Bool) → not b ≡ true → b ≡ false
not-eq-true b h = ground arith

pub any_own-eq-false_iff :
    {N : Type 0} (ks : List Str) (fs : Fields N)
    → (any_own ks fs ≡ false) ↔ All (λ k. has_own k fs ≡ false) ks
unfolding any_own
any_own-eq-false_iff [] fs = ((λ _. tt), (λ _. refl))
any_own-eq-false_iff (k ∷ ks) fs = ground (arith, any_own-eq-false_iff ks fs)

pub is_revoked-eq-false_iff :
    (s : Option Str) → (is_revoked s ≡ false) ↔ (s ≢ some (codes "revoked"))
unfolding is_revoked
is_revoked-eq-false_iff none = ground arith
is_revoked-eq-false_iff (some s) = ground (arith, str_eq_iff s (codes "revoked"))

pub alg_allowed_iff :
    (alg : Str) (key_alg : Option Str)
    → (alg_allowed alg key_alg ≡ true) ↔ ((key_alg ≡ some alg) × (alg ≢ codes "none") × (alg ≢ []))
unfolding alg_allowed
alg_allowed_iff alg none = ground arith
alg_allowed_iff alg (some k) =
    ground (arith, str_eq_iff alg (codes "none"), str_eq_iff alg [], str_eq_iff alg k)

pub meets_iff :
    {N : Type 0} (e : Option Str) (v : Value N)
    → (meets e v ≡ true) ↔ ((s : Str) → e ≡ some s → v ≡ str s)
unfolding meets is_str
meets_iff none v = ground arith
meets_iff (some s) (str t) =
    ((λ h s' e. ground (arith, str_eq_iff t s)), λ h. ground (arith, str_eq_iff t s, h s refl))
meets_iff (some s) v = ((λ h s' e. cc), λ h. cc (h s refl))

pub verify_signature_iff :
    (p : Platform) (alg : Str) (text : Bytes) (key : p.PublicKey) (sig : Bytes)
    → (verify_signature p alg text key sig ≡ true) ↔ IsSigned p alg text key sig
unfolding verify_signature
verify_signature_iff p alg text key sig =
    ground (arith, str_eq_iff alg (codes "EdDSA"), str_eq_iff alg (codes "ES256"))

pub resolve_key-eq-entry :
    (p : Platform) (keys : Option Registry) (performer kid : Str) (jwk : RegistryJwk)
    → resolve_key p keys performer kid ≡ pass (entry jwk)
    → IsRegistered keys performer kid jwk
unfolding resolve_key keys_in key_in of_inherited
resolve_key-eq-entry p none performer kid jwk h = cc
resolve_key-eq-entry p (some keys) performer kid jwk h = go (member performer keys) refl h
  where
    inner :
        (d : Dict RegistryJwk) (m : Member RegistryJwk)
        → member kid d ≡ m
        → key_in p m ≡ pass (entry jwk)
        → member kid d ≡ own jwk
    inner d (own j) e k = ground arith
    inner d inherited e k = cc
    inner d absent e k = cc

    go :
        (m : Member (Dict RegistryJwk))
        → member performer keys ≡ m
        → keys_in p performer kid m ≡ pass (entry jwk)
        → IsRegistered (some keys) performer kid jwk
    go (own d) e k = record {
      registry = keys;
      entries = d;
      given = refl;
      performer_is = e;
      kid_is = inner d (member kid d) refl k;
    }
    go inherited e k = absurd (ground (arith, k))
    go absent e k = cc

pub resolve_key_of_IsRegistered :
    (p : Platform) (keys : Option Registry) (performer kid : Str) (jwk : RegistryJwk)
    → IsRegistered keys performer kid jwk
    → resolve_key p keys performer kid ≡ pass (entry jwk)
unfolding resolve_key keys_in key_in
resolve_key_of_IsRegistered p keys performer kid jwk r =
    rw (r.given, resolve_key, r.performer_is, keys_in, r.kid_is, key_in)

-- Only an entry of the registry has an algorithm.
pub alg_of-eq-some :
    (r : Resolved) {alg : Str}
    → alg_of r ≡ some alg
    → (jwk : RegistryJwk) × (r ≡ entry jwk) × (jwk.alg ≡ alg)
unfolding alg_of
alg_of-eq-some (entry jwk) h = (jwk, refl, ground arith)
alg_of-eq-some built_in h = cc
