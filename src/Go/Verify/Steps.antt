-- ===== src/Go/Verify/Steps.antt =====
-- The steps of `Verify` in go/verify.go against those of ts/src/commands/verify.ts, on a receipt that
-- both read alike.
use veritrail.Prelude.{
  ◌≡◌, refl, sym, ap, ◌∙◌, Bool, true, false, not, ◌&&◌, [], ◌∷◌, Option, none, some, arith,
}
use veritrail.Text.{Str, codes, str_eq}
use veritrail.Value.{Value, undefined, null, bool, num, str, arr, obj, is_str}
use veritrail.Outcome.{Outcome, pass, fail, thrown, ◌>>=◌, ◌>>◌, require, require_some}
use veritrail.Verify.{
  Reason, unknown_key, header_key_material, alg_not_allowed, bad_signature, revoked_key,
  non_canonical_payload, context_mismatch, RegistryJwk, Registry, Policy, Resolved, entry, built_in,
  forbidden_header_keys, any_own, is_revoked, alg_allowed, expected, find_key, resolve_key,
  build_public_key, check_payload, check_signature, check_compact,
}
use veritrail.Verify
use veritrail.Go.Verify.{string_or_empty, check_key, meets}
use veritrail.Go.Verify.Claims.{text_of}
use veritrail.Go.Verify.Keys.{go_key}

-- An expected value of the policy is not the empty string.
abbrev pub IsExpecting : Option Str → Type 0
IsExpecting o = (e : Str) → o ≡ some e → str_eq [] e ≡ false

pub meets-text_of :
    {N : Type 0} (e : Option Str) (v : Value N)
    → IsExpecting e
    → meets e (text_of v) ≡ Verify.meets e v
unfolding meets Verify.meets is_str
meets-text_of none v h = refl
meets-text_of (some e) (str s) h = refl
meets-text_of (some e) undefined h = h e refl
meets-text_of (some e) null h = h e refl
meets-text_of (some e) (bool b) h = h e refl
meets-text_of (some e) (num n) h = h e refl
meets-text_of (some e) (arr xs) h = h e refl
meets-text_of (some e) (obj fs) h = h e refl

pub str_eq_comm : (a b : Str) → str_eq a b ≡ str_eq b a
unfolding str_eq
str_eq_comm [] [] = refl
str_eq_comm [] (y ∷ b) = refl
str_eq_comm (x ∷ a) [] = refl
str_eq_comm (x ∷ a) (y ∷ b) = ground (arith, str_eq_comm a b)

pub >>-assoc :
    {R A B : Type 0} (m : Outcome R (Unit {0})) (k : Outcome R A) (f : A → Outcome R B)
    → ((m >> k) >>= f) ≡ (m >> (k >>= f))
unfolding ◌>>◌ ◌>>=◌
>>-assoc (pass a) k f = refl
>>-assoc (fail r) k f = refl
>>-assoc thrown k f = refl

-- Steps 4 and 5 with the claim of the header's algorithm, `none` where it is no string.
abbrev pub checked : RegistryJwk → Option Str → Outcome Reason Str
checked jwk o = do
  require (not (is_revoked jwk.status)) revoked_key
  alg ← require_some o alg_not_allowed
  require (alg_allowed alg (some jwk.alg)) alg_not_allowed
  pass alg

revoked-go_key :
    (jwk : RegistryJwk) → str_eq (go_key jwk).status (codes "revoked") ≡ is_revoked jwk.status
unfolding is_revoked
revoked-go_key jwk = go jwk.status
  where
    go :
        (o : Option Str)
        → str_eq (elim o [ none ↦ [] | some s ↦ s ]) (codes "revoked") ≡ is_revoked o
    go none = refl
    go (some s) = refl

require-and :
    {R : Type 0} (a b c : Bool) (r : R)
    → (require (not a) r >> (require (not b) r >> require c r)) ≡ require (not b && not a && c) r
unfolding ◌>>◌ ◌>>=◌ require
require-and true true c r = refl
require-and true false c r = refl
require-and false true c r = refl
require-and false false c r = refl

-- The checks of the algorithm, for both of the key's and the header's.
alg_step :
    (s alg : Str)
    → (require (not (str_eq s [])) alg_not_allowed
        >> (require (not (str_eq s (codes "none"))) alg_not_allowed
            >> require (str_eq s alg) alg_not_allowed))
      ≡ require (alg_allowed s (some alg)) alg_not_allowed
unfolding alg_allowed
alg_step s alg = require-and (str_eq s []) (str_eq s (codes "none")) (str_eq s alg) alg_not_allowed

no_alg :
    (k : Outcome Reason (Unit {0}))
    → (require (not (str_eq [] [])) alg_not_allowed >> k) ≡ fail alg_not_allowed
unfolding ◌>>◌ ◌>>=◌ require str_eq
no_alg k = refl

not_string :
    (r : Bool) (k rest : Outcome Reason (Unit {0})) (alg : Str → Outcome Reason Str)
    (after : Str → Outcome Reason (Unit {0}))
    → k ≡ fail alg_not_allowed
    → ((require (not r) revoked_key >> k) >> rest)
      ≡ ((require (not r) revoked_key >> (require_some none alg_not_allowed >>= alg)) >>= after)
unfolding ◌>>◌ ◌>>=◌ require require_some
not_string true k rest alg after h = refl
not_string false k rest alg after h = rw h refl

is_string :
    (r allowed : Bool) (s : Str) (rest : Str → Outcome Reason (Unit {0}))
    → ((require (not r) revoked_key >> require allowed alg_not_allowed) >> rest s)
      ≡ ((require (not r) revoked_key >> (require allowed alg_not_allowed >> pass s)) >>= rest)
unfolding ◌>>◌ ◌>>=◌ require
is_string true b s rest = refl
is_string false true s rest = refl
is_string false false s rest = refl

checked-some :
    (jwk : RegistryJwk) (s : Str)
    → checked jwk (some s) ≡ (
        require (not (is_revoked jwk.status)) revoked_key
        >> (require (alg_allowed s (some jwk.alg)) alg_not_allowed >> pass s))
unfolding require_some ◌>>=◌
checked-some jwk s = refl

-- Steps 4 and 5, and what follows them.
pub check_key-checked :
    (jwk : RegistryJwk) (o : Option Str) (rest : Str → Outcome Reason (Unit {0}))
    → (check_key (go_key jwk) (string_or_empty o) >> rest (string_or_empty o))
      ≡ (checked jwk o >>= rest)
unfolding check_key
check_key-checked jwk none rest = rw (revoked-go_key jwk) (
    not_string (is_revoked jwk.status) _ (rest []) _ rest (
      no_alg (
        require (not (str_eq [] (codes "none"))) alg_not_allowed
        >> require (str_eq [] jwk.alg) alg_not_allowed)))
check_key-checked jwk (some s) rest =
    rw (revoked-go_key jwk, alg_step s jwk.alg)
      (is_string (is_revoked jwk.status) (alg_allowed s (some jwk.alg)) s rest
        ∙ ap (λ m. m >>= rest) (sym (checked-some jwk s)))
