-- ===== src/Mcp/Commits.antt =====
-- What the hashes of ts/src/mcp/veritrail-middleware.ts commit to.
use veritrail.Prelude.{◌≡◌, ◌⊎◌, sym, ap, ◌∙◌, inl, inr, Option, some, arith}
use veritrail.Platform.{Platform}
use veritrail.Text.{Bytes}
use veritrail.Text.Utf8.{lossy_utf8}
use veritrail.Text.Utf8.RoundTrip.{lossy_utf8-encode_utf8}
use veritrail.Text.Base64.RoundTrip.{IsBytes}
use veritrail.Value.{Value}
use veritrail.Value.Json.{parse}
use veritrail.Jcs.{jcs_string, jcs_bytes}
use veritrail.Jcs.Canonical.{canonical, IsJson}
use veritrail.Jcs.RoundTrip.{parse-jcs_string}
use veritrail.Jcs.Texts.{jcs_string-IsText}
use veritrail.Hash.Injective.{Collision, digest_bytes-injective}
use veritrail.Mcp.{hash_of}

module _ (p : Platform) where
  open p use {Num}

  value-injective : {v w : Value Num} → ◌≡◌ {A = Option (Value Num)} (some v) (some w) → v ≡ w
  value-injective h = ground arith

  jcs_string-injective :
      (v w : Value Num)
      → IsJson p v
      → IsJson p w
      → jcs_string p v ≡ jcs_string p w
      → canonical v ≡ canonical w
  jcs_string-injective v w hv hw e =
      value-injective (sym (parse-jcs_string p v hv) ∙ ap (parse p) e ∙ parse-jcs_string p w hw)

  -- JSON data with the same canonical bytes is the same up to the order of keys.
  pub jcs_bytes-injective :
      (v w : Value Num)
      → IsJson p v
      → IsJson p w
      → jcs_bytes p v ≡ jcs_bytes p w
      → canonical v ≡ canonical w
  unfolding jcs_bytes
  jcs_bytes-injective v w hv hw e = jcs_string-injective v w hv hw (
      sym (lossy_utf8-encode_utf8 (jcs_string p v) (jcs_string-IsText p v hv))
      ∙ ap lossy_utf8 e
      ∙ lossy_utf8-encode_utf8 (jcs_string p w) (jcs_string-IsText p w hw))

  -- Two values of JSON data with the same hash are the same up to the order of keys, or two byte
  -- strings have one SHA-256 digest; SHA-256 is assumed to return bytes.
  pub hash_of-commits :
      ((b : Bytes) → IsBytes (p.sha256 b))
      → (v w : Value Num) → IsJson p v
      → IsJson p w
      → hash_of p v ≡ hash_of p w
      → (canonical v ≡ canonical w) ⊎ Collision p
  unfolding hash_of
  hash_of-commits bytes v w hv hw e =
      elim (digest_bytes-injective p bytes (jcs_bytes p v) (jcs_bytes p w) e) [
        | inl same ↦ inl (jcs_bytes-injective v w hv hw same)
        | inr c ↦ inr c
      ]
