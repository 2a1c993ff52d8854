-- ===== src/Mcp/Payload.antt =====
-- The payload of ts/src/mcp/veritrail-middleware.ts and ts/src/a2a/veritrail-a2a-middleware.ts as JSON
-- data.
use veritrail.Prelude.{
  ℕ, ◌<◌, ◌+◌, ◌*◌, ◌/◌, ◌%◌, refl, [], ◌∷◌, ◌++◌, All-append, Option, none, some, arith,
}
use veritrail.Platform.{Platform}
use veritrail.Text.{Str, Bytes, codes, str_eq, str_eq_refl}
use veritrail.Text.Base64.{letter_url, encode_with, base64url}
use veritrail.Jcs.{jcs_bytes}
use veritrail.Value.{obj, has_own, Fields}
use veritrail.Jcs.Quoted.{IsStr}
use veritrail.Jcs.Canonical.{HaveJson, IsJson}
use veritrail.Jcs.Objects.{keys_ok, keys_ok-HaveJson, ◌▸◌}
use veritrail.Hash.{digest_bytes, encode_hashstring}
use veritrail.Verify.{member}
use veritrail.Verify.Accepts.{IsRegistered}
use veritrail.Sign.{frame, signing_input}
use veritrail.Mcp.{
  spread, TestSigner, BuildReceiptOptions, or_default, default_cost, receipt_payload,
  registry_from_signer, hash_of, compute_outputs_hash, build_receipt_payload,
}

letter_url-lt : (n : ℕ) → letter_url n < 0x10000
unfolding letter_url
letter_url-lt n = ground arith

pub base64url-IsStr : (bs : Bytes) → IsStr (base64url bs)
unfolding base64url encode_with
base64url-IsStr [] = tt
base64url-IsStr (a ∷ []) = (letter_url-lt (a / 4), (letter_url-lt (a % 4 * 16), tt))
base64url-IsStr (a ∷ b ∷ []) =
    (letter_url-lt (a / 4), (letter_url-lt (a % 4 * 16 + b / 16), (letter_url-lt (b % 16 * 4), tt)))
base64url-IsStr (a ∷ b ∷ c ∷ rest) = (
  letter_url-lt (a / 4),
  (
    letter_url-lt (a % 4 * 16 + b / 16),
    (letter_url-lt (b % 16 * 4 + c / 64), (letter_url-lt (c % 64), base64url-IsStr rest)),
  ),
)

u-IsStr : (bs : Bytes) → IsStr (b'u' ∷ base64url bs)
u-IsStr bs = (omega arith, base64url-IsStr bs)

-- A string that may be missing holds code units if it is there.
abbrev pub IsOptionalStr : Option Str → Type 0
IsOptionalStr none = Unit
IsOptionalStr (some s) = IsStr s

or_default-IsStr : (o : Option Str) (d : Str) → IsOptionalStr o → IsStr d → IsStr (or_default o d)
or_default-IsStr none d h k = k
or_default-IsStr (some s) d h k = h

module _ (p : Platform) where
  open p use {Num}

  -- A framed receipt is made of letters and dots.
  pub frame-IsStr :
      (kid : Str) (payload : Fields Num) (key : p.PrivateKey) → IsStr (frame p kid payload key)
  unfolding frame signing_input
  frame-IsStr kid payload key =
      let dotted : (s : Str) (bs : Bytes) → IsStr s → IsStr (s ++ b'.' ∷ base64url bs) = λ s bs h.
        All-append (λ c. c < 0x10000) s (b'.' ∷ base64url bs) h (omega arith, base64url-IsStr bs) in
      dotted (signing_input p kid payload) _
        (dotted (base64url _) (jcs_bytes p (obj payload)) (base64url-IsStr _))

  pub digest_bytes-IsStr : (bs : Bytes) → IsStr (digest_bytes p bs)
  unfolding digest_bytes encode_hashstring
  digest_bytes-IsStr bs = u-IsStr (0x12 ∷ 0x20 ∷ p.sha256 bs)

  default_cost-IsJson :
      (wall_ms : Option Str) → IsOptionalStr wall_ms → IsJson p (default_cost wall_ms)
  unfolding keys_ok has_own str_eq spread
  default_cost-IsJson wall_ms h =
      keys_ok-HaveJson p (spread (default_cost wall_ms)) refl
        ((omega arith) ▸ (omega arith) ▸ or_default-IsStr wall_ms _ h (omega arith) ▸ tt ▸ tt)

  pub receipt_payload-HaveJson :
      (binding performer_id method inputs_hash outputs_hash : Str) (wall_ms ts : Option Str)
      (nonce : Bytes)
      → IsStr binding
      → IsStr performer_id
      → IsStr method
      → IsStr inputs_hash
      → IsStr outputs_hash
      → IsOptionalStr wall_ms
      → IsOptionalStr ts
      → HaveJson p
          (receipt_payload binding performer_id method inputs_hash outputs_hash wall_ms ts nonce)
  unfolding keys_ok has_own str_eq
  receipt_payload-HaveJson binding performer_id method inputs_hash outputs_hash wall_ms ts nonce hb
        hp hm hi ho hw ht =
      keys_ok-HaveJson p
        (receipt_payload binding performer_id method inputs_hash outputs_hash wall_ms ts nonce) refl
        ((omega arith)
          ▸ hb
          ▸ tt
          ▸ hp
          ▸ tt
          ▸ tt
          ▸ tt
          ▸ hm
          ▸ hi
          ▸ ho
          ▸ default_cost-IsJson wall_ms hw
          ▸ (omega arith)
          ▸ tt
          ▸ (omega arith)
          ▸ or_default-IsStr ts _ ht (omega arith)
          ▸ u-IsStr nonce
          ▸ tt)

  -- The names and texts in the options hold code units.
  pub record AreStr (opts : BuildReceiptOptions p) : Type 0 where
    pub kid : IsStr opts.signer.kid
    pub performer_id : IsStr opts.signer.performer_id
    pub tool_name : IsStr opts.tool_name
    pub wall_ms : IsOptionalStr opts.wall_ms
    pub ts : IsOptionalStr opts.ts

  pub build_receipt_payload-HaveJson :
      (opts : BuildReceiptOptions p) → AreStr opts → HaveJson p (build_receipt_payload p opts)
  unfolding build_receipt_payload hash_of compute_outputs_hash
  build_receipt_payload-HaveJson opts h =
      receipt_payload-HaveJson (codes "mcp") opts.signer.performer_id
        (codes "mcp:" ++ opts.tool_name) _ _ opts.wall_ms opts.ts opts.nonce (omega arith)
        h.performer_id (All-append _ (codes "mcp:") opts.tool_name (omega arith) h.tool_name)
        (digest_bytes-IsStr _) (digest_bytes-IsStr _) h.wall_ms h.ts

  pub registered :
      (signer : TestSigner p)
      → IsRegistered
          (some (registry_from_signer p signer))
          signer.performer_id
          signer.kid
          signer.public_jwk
  unfolding registry_from_signer member
  registered signer = record {
    registry = registry_from_signer p signer;
    entries = (signer.kid, signer.public_jwk) ∷ [];
    given = refl;
    performer_is = rw (str_eq_refl signer.performer_id);
    kid_is = rw (str_eq_refl signer.kid);
  }
