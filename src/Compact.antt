-- ===== src/Compact.antt =====
-- A JWS in compact form: what verify.ts reads before its first check beyond the structure, and what
-- verify-chain.ts reads again from a hop that has passed.
use veritrail.Prelude.{◌%◌, List, [], ◌∷◌, ◌++◌, Option, none, some, ◌>>=◌, map}
use veritrail.Platform.{Platform}
use veritrail.Text.{Str, Bytes, split}
use veritrail.Text.Base64.{b64url_decode, from_base64}
use veritrail.Text.Utf8.{strict_utf8, lossy_utf8}
use veritrail.Value.{Value, Fields, as_str, as_object}
use veritrail.Value.Json.{parse}

-- The three segments of the JWS.
pub record Segments : Type 0 where
  pub header_seg : Str
  pub payload_seg : Str
  pub sig_seg : Str

unfoldable pub three_parts : List Str → Option Segments
three_parts (h ∷ p ∷ s ∷ []) = some (record { header_seg = h; payload_seg = p; sig_seg = s })
three_parts _ = none

-- `jws.split('.')` with its length check.
unfoldable pub segments : Str → Option Segments
unfolding three_parts split
segments jws = three_parts (split b'.' jws)

-- `${headerSeg}.${payloadSeg}`
abbrev pub signing_text : Segments → Str
signing_text s = s.header_seg ++ b'.' ∷ s.payload_seg

-- `Buffer.from(s, 'ascii')`
unfoldable pub ascii_bytes : Str → Bytes
ascii_bytes s = map (λ c. c % 256) s

-- What step 1 of `verify` has read when it passes.
pub record Compact (N : Type 0) : Type 0 where
  pub segs : Segments
  pub header : Fields N
  pub payload : Fields N
  pub payload_bytes : Bytes
  pub sig : Bytes

module _ (p : Platform) where
  open p use {Num}

  -- Strict UTF-8, then JSON, then an object that is no array.
  unfoldable pub read_object : Bytes → Option (Fields Num)
  unfolding as_object
  read_object bytes = strict_utf8 bytes >>= λ text. parse p text >>= λ v. as_object v

  -- Step 1 of `verify`; `none` is `malformed`.
  unfoldable pub read_compact : Value Num → Option (Compact Num)
  unfolding as_str segments read_object
  read_compact signed = do
    jws ← as_str signed
    segs ← segments jws
    header_bytes ← b64url_decode segs.header_seg
    payload_bytes ← b64url_decode segs.payload_seg
    sig ← b64url_decode segs.sig_seg
    header ← read_object header_bytes
    payload ← read_object payload_bytes
    some (record {
      segs = segs;
      header = header;
      payload = payload;
      payload_bytes = payload_bytes;
      sig = sig;
    })

  -- `parsePayload` of verify-chain.ts: the lenient decoders.
  unfoldable pub parse_payload : Str → Option (Fields Num)
  unfolding segments as_object
  parse_payload jws = do
    segs ← segments jws
    v ← parse p (lossy_utf8 (from_base64 segs.payload_seg))
    as_object v
