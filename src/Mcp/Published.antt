-- ===== src/Mcp/Published.antt =====
-- The registry that ts/src/mcp/server.ts publishes.
use veritrail.Prelude.{◌≡◌, refl, Option, none, some, ◌>>=◌, arith}
use veritrail.Platform.{Platform}
use veritrail.Text.{Str, codes, str_eq}
use veritrail.Value.{get, has_own, as_str, Fields}
use veritrail.Value.Json.{parse}
use veritrail.Jcs.Quoted.{IsStr}
use veritrail.Jcs.Canonical.{IsJson, of_members}
use veritrail.Jcs.Objects.{keys_ok, keys_ok-HaveJson, ◌▸◌}
use veritrail.Stringify.{plain, keep}
use veritrail.Stringify.RoundTrip.{parse-json_string}
use veritrail.Verify.{RegistryJwk}
use veritrail.Artifact.{read_optional}
use veritrail.Cli.Inputs.{as_given, jwk_fields, as_jwk, dict_of, as_dict, as_registry}
use veritrail.Mcp.{TestSigner, spread, registry_from_signer}
use veritrail.Mcp.Payload.{IsOptionalStr}
use veritrail.Mcp.Server.{Arithmetic, jwk_value, optional_field, published_keys, build_server}

-- The parts of a JWK are strings of code units.
pub record IsJwk (jwk : RegistryJwk) : Type 0 where
  pub kty : IsStr jwk.kty
  pub crv : IsStr jwk.crv
  pub x : IsStr jwk.x
  pub y : IsOptionalStr jwk.y
  pub alg : IsStr jwk.alg
  pub status : IsOptionalStr jwk.status

-- The JWK with these parts.
abbrev jwk_of : Str → Str → Str → Option Str → Str → Option Str → RegistryJwk
jwk_of kty crv x y alg status = record {
  kty = kty;
  crv = crv;
  x = x;
  y = y;
  alg = alg;
  status = status;
}

abbrev fields_of : {N : Type 0} → Str → Str → Str → Option Str → Str → Option Str → Fields N
fields_of kty crv x y alg status = spread (jwk_value (jwk_of kty crv x y alg status))

module _ (p : Platform) where
  open p use {Num}

  jwk_of-IsJson :
      (kty crv x : Str) (y : Option Str) (alg : Str) (status : Option Str)
      → IsJwk (jwk_of kty crv x y alg status)
      → IsJson p (jwk_value (jwk_of kty crv x y alg status))
  unfolding jwk_value optional_field keys_ok has_own str_eq spread
  jwk_of-IsJson kty crv x none alg none h =
      keys_ok-HaveJson p (fields_of kty crv x none alg none) refl (h.kty ▸ h.crv ▸ h.x ▸ h.alg ▸ tt)
  jwk_of-IsJson kty crv x none alg (some status) h =
      keys_ok-HaveJson p (fields_of kty crv x none alg (some status)) refl
        (h.kty ▸ h.crv ▸ h.x ▸ h.alg ▸ h.status ▸ tt)
  jwk_of-IsJson kty crv x (some y) alg none h =
      keys_ok-HaveJson p (fields_of kty crv x (some y) alg none) refl
        (h.kty ▸ h.crv ▸ h.x ▸ h.y ▸ h.alg ▸ tt)
  jwk_of-IsJson kty crv x (some y) alg (some status) h =
      keys_ok-HaveJson p (fields_of kty crv x (some y) alg (some status)) refl
        (h.kty ▸ h.crv ▸ h.x ▸ h.y ▸ h.alg ▸ h.status ▸ tt)

  as_jwk-jwk_of :
      (kty crv x : Str) (y : Option Str) (alg : Str) (status : Option Str)
      → as_jwk {N = Num} (plain (jwk_value (jwk_of kty crv x y alg status)))
        ≡ some (jwk_of kty crv x y alg status)
  unfolding as_jwk jwk_fields as_str as_given get str_eq plain keep of_members jwk_value
      optional_field
  as_jwk-jwk_of kty crv x none alg none = refl
  as_jwk-jwk_of kty crv x none alg (some status) = refl
  as_jwk-jwk_of kty crv x (some y) alg none = refl
  as_jwk-jwk_of kty crv x (some y) alg (some status) = refl

  published_keys-IsJson :
      (signer : TestSigner p)
      → IsStr signer.performer_id
      → IsStr signer.kid
      → IsJwk signer.public_jwk
      → IsJson p (published_keys p signer)
  unfolding published_keys has_own
  published_keys-IsJson signer hp hk hj = (
    omega arith,
    (refl, ((hp, (refl, ((hk, (refl, (jwk_of-IsJson _ _ _ _ _ _ hj, tt))), tt))), tt)),
  )

  keys_read :
      (signer : TestSigner p)
      → as_registry (read_optional (codes "veritrail_keys") (plain (published_keys p signer)))
        ≡ some (some (registry_from_signer p signer))
  unfolding as_registry as_dict dict_of read_optional get str_eq plain keep of_members
      published_keys registry_from_signer jwk_value
  keys_read signer = rw (
      as_jwk-jwk_of signer.public_jwk.kty signer.public_jwk.crv signer.public_jwk.x
        signer.public_jwk.y signer.public_jwk.alg signer.public_jwk.status)

  -- The instructions of the server are JSON, and the registry in them is the one that the client builds
  -- from the signer, if the names of the signer and the parts of its JWK hold code units.
  pub as_registry-build_server :
      (arithmetic : Arithmetic p) (signer : TestSigner p)
      → IsStr signer.performer_id
      → IsStr signer.kid
      → IsJwk signer.public_jwk
      → (parse p (build_server p arithmetic signer).instructions >>= λ v.
          as_registry (read_optional (codes "veritrail_keys") v))
        ≡ some (some (registry_from_signer p signer))
  unfolding build_server
  as_registry-build_server arithmetic signer hp hk hj =
      rw (parse-json_string p (published_keys p signer) (published_keys-IsJson signer hp hk hj))
        (keys_read signer)
