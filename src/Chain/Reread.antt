-- ===== src/Chain/Reread.antt =====
-- ts/src/commands/verify-chain.ts reads a payload with lenient decoders, after verify.ts has read it
-- with strict ones: the lemmas that compare the two.
use veritrail.Prelude.{
  some-injective, ◌≡◌, refl, sym, ap, subst, ◌∙◌, [], ◌∷◌, ◌++◌, some, map, arith, >>=-eq-some,
}
use veritrail.Platform.{Platform}
use veritrail.Text.{Str, Bytes, codes, join}
use veritrail.Text.Utf8.{strict_utf8, lossy_utf8, encode_utf8}
use veritrail.Text.Utf8.Decoders.{lossy_utf8-strict_utf8, encode_utf8-brace}
use veritrail.Text.Base64.{b64url_decode, from_base64}
use veritrail.Value.{Value, str, obj, Fields, as_str, as_object}
use veritrail.Value.Json.{parse}
use veritrail.Jcs.{jcs_string, jcs_bytes, jcs_members, object_text, member_text, sort_keys}
use veritrail.Compact.{Compact, Segments, segments, read_object, read_compact, parse_payload}

pub b64url_decode-eq-some : (s : Str) (b : Bytes) → b64url_decode s ≡ some b → from_base64 s ≡ b
unfolding b64url_decode
b64url_decode-eq-some s b h = ground arith

module _ (p : Platform) where
  open p use {Num}

  as_object-eq-some : (v : Value Num) (fs : Fields Num) → as_object v ≡ some fs → v ≡ obj fs
  unfolding as_object
  as_object-eq-some (obj gs) fs h = ground arith
  as_object-eq-some _ fs h = cc

  as_object-obj : (fs : Fields Num) → as_object (obj fs) ≡ some fs
  unfolding as_object
  as_object-obj fs = refl

  -- The canonical bytes of an object begin with a brace.
  canonical_tail : (fs : Fields Num) → (rest : Bytes) × (jcs_bytes p (obj fs) ≡ b'{' ∷ rest)
  unfolding jcs_bytes jcs_string object_text
  canonical_tail fs =
      let tail : Str =
        join (codes ",") (map member_text (sort_keys (jcs_members p fs))) ++ b'}' ∷ [] in
      (encode_utf8 tail, encode_utf8-brace tail)

  -- What `verify` has of the payload segment of a receipt.
  payload_read :
      (jws : Str) (c : Compact Num)
      → read_compact p (str jws) ≡ some c
      → (segs : Segments) × (segments jws ≡ some segs)
        × (from_base64 segs.payload_seg ≡ c.payload_bytes)
        × (read_object p c.payload_bytes ≡ some c.payload)
  unfolding read_compact as_str
  payload_read jws c h =
      let (segs, segs_are, h1) = >>=-eq-some (segments jws) _ h in
      let (hb, _, h2) = >>=-eq-some (b64url_decode segs.header_seg) _ h1 in
      let (pb, pb_is, h3) = >>=-eq-some (b64url_decode segs.payload_seg) _ h2 in
      let (sb, _, h4) = >>=-eq-some (b64url_decode segs.sig_seg) _ h3 in
      let (header, _, h5) = >>=-eq-some (read_object p hb) _ h4 in
      let (payload, payload_is, h6) = >>=-eq-some (read_object p pb) _ h5 in
      let same = some-injective h6 in
      (
        segs,
        segs_are,
        b64url_decode-eq-some segs.payload_seg pb pb_is ∙ ap (λ d. d.payload_bytes) same,
        subst (λ d. read_object p d.payload_bytes ≡ some d.payload) same payload_is,
      )

  -- The lenient reading of bytes that the strict one reads and that begin with a brace.
  lenient :
      (rest : Bytes) (fs : Fields Num)
      → read_object p (b'{' ∷ rest) ≡ some fs
      → parse p (lossy_utf8 (b'{' ∷ rest)) ≡ some (obj fs)
  unfolding read_object
  lenient rest fs h =
      let (text, text_is, h1) = >>=-eq-some (strict_utf8 (b'{' ∷ rest)) _ h in
      let (v, v_is, h2) = >>=-eq-some (parse p text) _ h1 in
      rw (lossy_utf8-strict_utf8 rest text text_is, v_is, as_object-eq-some v fs h2)

  -- A canonical payload that `verify` has read is read again with success, and is the same.
  pub parse_payload_of_canonical :
      (jws : Str) (c : Compact Num)
      → read_compact p (str jws) ≡ some c
      → jcs_bytes p (obj c.payload) ≡ c.payload_bytes
      → parse_payload p jws ≡ some c.payload
  unfolding parse_payload
  parse_payload_of_canonical jws c read canonical =
      let (segs, segs_are, bytes_are, strict) = payload_read jws c read in
      let (rest, brace) = canonical_tail c.payload in
      let bytes : c.payload_bytes ≡ b'{' ∷ rest = sym canonical ∙ brace in
      rw
        (
          segs_are,
          bytes_are,
          bytes,
          lenient rest c.payload (subst (λ b. read_object p b ≡ some c.payload) bytes strict),
        )
        (as_object-obj c.payload)

  -- The payload of an accepted receipt is what its own canonical bytes are read as.
  pub parse-jcs_bytes :
      (jws : Str) (c : Compact Num) (payload : Fields Num)
      → read_compact p (str jws) ≡ some c
      → jcs_bytes p (obj c.payload) ≡ c.payload_bytes
      → parse_payload p jws ≡ some payload
      → (payload ≡ c.payload)
        × (parse p (lossy_utf8 (jcs_bytes p (obj payload))) ≡ some (obj payload))
  unfolding parse_payload
  parse-jcs_bytes jws c payload read canonical again =
      let (segs, segs_are, bytes_are, strict) = payload_read jws c read in
      let (rest, brace) = canonical_tail c.payload in
      let bytes : c.payload_bytes ≡ b'{' ∷ rest = sym canonical ∙ brace in
      let whole : parse p (lossy_utf8 (b'{' ∷ rest)) ≡ some (obj c.payload) =
        lenient rest c.payload (subst (λ b. read_object p b ≡ some c.payload) bytes strict) in
      let (segs', segs_are', h1) = >>=-eq-some (segments jws) _ again in
      let (v, v_is, h2) = >>=-eq-some (parse p (lossy_utf8 (from_base64 segs'.payload_seg))) _ h1 in
      let same_segs : segs ≡ segs' = some-injective (sym segs_are ∙ segs_are') in
      let seg_bytes : from_base64 segs'.payload_seg ≡ b'{' ∷ rest =
        subst (λ s. from_base64 s.payload_seg ≡ b'{' ∷ rest) same_segs (bytes_are ∙ bytes) in
      let v_whole : v ≡ obj c.payload =
        some-injective (sym v_is ∙ ap (λ b. parse p (lossy_utf8 b)) seg_bytes ∙ whole) in
      let same : payload ≡ c.payload =
        some-injective (sym h2 ∙ ap as_object v_whole ∙ as_object-obj c.payload) in
      (
        same,
        subst (λ fs. parse p (lossy_utf8 (jcs_bytes p (obj fs))) ≡ some (obj fs)) (sym same)
            (ap (λ b. parse p (lossy_utf8 b)) brace ∙ whole),
      )
