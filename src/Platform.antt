-- ===== src/Platform.antt =====
-- What ts/src takes from `node:crypto` and from the number formatting of the JavaScript engine:
-- parameters of the model. Nothing is assumed of them here; a theorem that relies on documented
-- behaviour of one of them takes it as a hypothesis.
use veritrail.Prelude.{ℕ, Bool, List, Option}

pub record Platform : Type 1 where
  -- The numbers of the engine, IEEE doubles.
  pub Num : Type 0
  -- `JSON.stringify(n)`
  pub number_text : Num → List ℕ
  -- The number that a JSON number literal stands for.
  pub number_value : List ℕ → Num
  -- `n` is 0, -0 or NaN.
  pub number_falsy : Num → Bool
  -- `m === n`
  pub number_eq : Num → Num → Bool
  -- Whether `({})[j][k]` is truthy, for a key `j` that every object inherits; `none` where reading it
  -- throws, as for the restricted properties of a function.
  pub inherited_member : List ℕ → List ℕ → Option Bool
  -- `createHash('sha256').update(bytes).digest()`
  pub sha256 : List ℕ → List ℕ
  pub PublicKey : Type 0
  -- `createPublicKey({ key: { kty, crv, x, y }, format: 'jwk' })`, `none` where it throws.
  pub create_public_key : List ℕ → List ℕ → List ℕ → Option (List ℕ) → Option PublicKey
  -- `verify(null, data, key, sig)`, `none` where it throws.
  pub verify_eddsa : List ℕ → PublicKey → List ℕ → Option Bool
  -- `verify('sha256', data, { key, dsaEncoding: 'ieee-p1363' }, sig)`, `none` where it throws.
  pub verify_es256 : List ℕ → PublicKey → List ℕ → Option Bool
  pub PrivateKey : Type 0
  -- `createPrivateKey({ key: der, format: 'der', type: 'pkcs8' })`, `none` where it throws.
  pub create_private_key : List ℕ → Option PrivateKey
  -- `sign(null, data, key)`
  pub sign_eddsa : List ℕ → PrivateKey → List ℕ
