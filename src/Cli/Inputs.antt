-- ===== src/Cli/Inputs.antt =====
-- How ts/src/cli.ts hands the commands what `JSON.parse` returns, cast to their input types.
use veritrail.Prelude.{ℕ, [], ◌∷◌, Option, none, some, ◌>>=◌}
use veritrail.Platform.{Platform}
use veritrail.Text.{Str, Bytes, codes}
use veritrail.Value.{Value, undefined, null, str, obj, Fields, end, field, prop, as_str}
use veritrail.Outcome.{Outcome, pass, thrown}
use veritrail.Verify.{RegistryJwk, Dict, Registry, Policy}

-- What the commands need of the engine beyond the platform, at inputs of any type.
pub record Host (p : Platform) : Type 0 where
  -- A length as a number.
  pub number_of : ℕ → p.Num
  -- `Buffer.from(v, encoding)` for a `v` that is no string, `none` where it throws.
  pub buffer_from : Str → Value p.Num → Option Bytes
  -- The reply of `verify` or `verifyChain` where `keys` or `policy` has not the type that it is cast
  -- to, `none` where the command throws.
  pub mistyped : Str → Value p.Num → Option (Value p.Num)

module _ {N : Type 0} where
  -- The own properties of the input, where reading one does not throw.
  unfoldable pub input_fields : Value N → Outcome Str (Fields N)
  input_fields undefined = thrown
  input_fields null = thrown
  input_fields (obj fs) = pass fs
  input_fields _ = pass end

  -- `s?: string`
  unfoldable pub as_given : Value N → Option (Option Str)
  as_given undefined = some none
  as_given (str s) = some (some s)
  as_given _ = none

  -- `s?: string | null`
  unfoldable pub as_optional : Value N → Option (Option Str)
  as_optional undefined = some none
  as_optional null = some none
  as_optional (str s) = some (some s)
  as_optional _ = none

  -- `policy?: { expected_binding?, expected_method? }`; what is no object has neither.
  unfoldable pub as_policy : Value N → Option (Option Policy)
  unfolding as_optional
  as_policy undefined = some none
  as_policy null = some none
  as_policy (obj fs) = do
    binding ← as_optional (prop (codes "expected_binding") fs)
    method ← as_optional (prop (codes "expected_method") fs)
    some (some (record { expected_binding = binding; expected_method = method }))
  as_policy _ = some (some (record { expected_binding = none; expected_method = none }))

  unfoldable pub jwk_fields : Fields N → Option RegistryJwk
  unfolding as_str as_given
  jwk_fields fs = do
    kty ← as_str (prop (codes "kty") fs)
    crv ← as_str (prop (codes "crv") fs)
    x ← as_str (prop (codes "x") fs)
    y ← as_given (prop (codes "y") fs)
    alg ← as_str (prop (codes "alg") fs)
    status ← as_given (prop (codes "status") fs)
    some (record { kty = kty; crv = crv; x = x; y = y; alg = alg; status = status })

  unfoldable pub as_jwk : Value N → Option RegistryJwk
  unfolding jwk_fields
  as_jwk (obj fs) = jwk_fields fs
  as_jwk _ = none

  -- A `Record` whose values are read by `as`.
  unfoldable pub dict_of : {T : Type 0} → (Value N → Option T) → Fields N → Option (Dict T)
  dict_of read end = some []
  dict_of read (field k v fs) = do t ← read v; d ← dict_of read fs; some ((k, t) ∷ d)

  unfoldable pub as_dict : {T : Type 0} → (Value N → Option T) → Value N → Option (Dict T)
  unfolding dict_of
  as_dict read (obj fs) = dict_of read fs
  as_dict read _ = none

  -- `Record<string, Record<string, RegistryJwk>>`, or nothing.
  unfoldable pub as_registry : Value N → Option (Option Registry)
  unfolding as_dict as_jwk
  as_registry undefined = some none
  as_registry null = some none
  as_registry v = as_dict (as_dict as_jwk) v >>= λ registry. some (some registry)
