-- ===== src/Go/Library.antt =====
-- What go/*.go takes from encoding/json, unicode/utf8, crypto and github.com/gowebpki/jcs:
-- parameters of the model. Nothing is assumed of them here.
use veritrail.Prelude.{ℕ, Bool, List, Option}
use veritrail.Text.{Str, Bytes}

-- `map[string]json.RawMessage`, each key once.
abbrev pub RawObject : Type 0
RawObject = List (Str × Bytes)

pub record Library : Type 0 where
  -- `json.Unmarshal(data, &m)` into a `map[string]json.RawMessage`, `none` for an error.
  pub unmarshal_object : Bytes → Option RawObject
  -- `json.Unmarshal(raw, &s)` into a string, `none` for an error.
  pub unmarshal_string : Bytes → Option Str
  -- `utf8.Valid(b)`
  pub utf8_valid : Bytes → Bool
  -- `jcs.Transform(b)`, `none` for an error.
  pub transform : Bytes → Option Bytes
  -- `sha256.Sum256(b)`
  pub sha256 : Bytes → Bytes
  -- `ed25519.Verify(pub, message, sig)` for a key of 32 bytes.
  pub ed25519_verify : Bytes → Bytes → Bytes → Bool
  -- `elliptic.P256().IsOnCurve(x, y)`
  pub is_on_curve : ℕ → ℕ → Bool
  -- `ecdsa.Verify(pub, digest, r, s)` for the point `(x, y)` of P-256.
  pub ecdsa_verify : ℕ → ℕ → Bytes → ℕ → ℕ → Bool
