-- ===== src/Go/Verify/Found.antt =====
-- What step 1 of ts/src/commands/verify.ts found in a receipt that it passes.
use veritrail.Prelude.{
  some-injective, ◌≡◌, ◌<◌, refl, sym, ap, ◌∙◌, true, [], ◌∷◌, some, arith, All, All-append, every,
  >>=-eq-some,
}
use veritrail.Text.{Str, Bytes}
use veritrail.Text.Utf8.{encode_utf8, encode_point, points_from}
use veritrail.Text.Base64.{is_url_letter, b64url_decode}
use veritrail.Value.{str, as_str}
use veritrail.Platform.{Platform}
use veritrail.Compact.{Compact, segments, read_object, read_compact, signing_text, ascii_bytes}
use veritrail.Go.Base64.{b64url_decode-letters}

encode_utf8-ascii : (s : Str) → All (λ c. c < 128) s → encode_utf8 s ≡ ascii_bytes s
unfolding encode_utf8 ascii_bytes points_from encode_point
encode_utf8-ascii [] h = refl
encode_utf8-ascii (c ∷ s) (hc, h) = ground (arith, encode_utf8-ascii s h)

letters-ascii : (s : Str) → every is_url_letter s ≡ true → All (λ c. c < 128) s
letters-ascii [] h = tt
letters-ascii (c ∷ s) h = (ground arith, letters-ascii s (ground arith))

-- What step 1 of `verify` found.
pub record Found (p : Platform) (jws : Str) (c : Compact p.Num) : Type 0 where
  pub segs_are : segments jws ≡ some c.segs
  pub header_bytes : Bytes
  pub header_seg : b64url_decode c.segs.header_seg ≡ some header_bytes
  pub payload_seg : b64url_decode c.segs.payload_seg ≡ some c.payload_bytes
  pub sig_seg : b64url_decode c.segs.sig_seg ≡ some c.sig

pub found :
    (p : Platform) (jws : Str) (c : Compact p.Num)
    → read_compact p (str jws) ≡ some c
    → Found p jws c
unfolding read_compact as_str
found p jws c h =
    let (segs, segs_are, h1) = >>=-eq-some (segments jws) _ h in
    let (hb, hb_is, h2) = >>=-eq-some (b64url_decode segs.header_seg) _ h1 in
    let (pb, pb_is, h3) = >>=-eq-some (b64url_decode segs.payload_seg) _ h2 in
    let (sb, sb_is, h4) = >>=-eq-some (b64url_decode segs.sig_seg) _ h3 in
    let (header, _, h5) = >>=-eq-some (read_object p hb) _ h4 in
    let (payload, _, h6) = >>=-eq-some (read_object p pb) _ h5 in
    let same = some-injective h6 in
    let segs_same = ap (λ d. d.segs) same in
    record {
      segs_are = segs_are ∙ ap some segs_same;
      header_bytes = hb;
      header_seg = ap (λ g. b64url_decode g.header_seg) (sym segs_same) ∙ hb_is;
      payload_seg =
          ap (λ g. b64url_decode g.payload_seg) (sym segs_same)
          ∙ pb_is
          ∙ ap (λ d. some d.payload_bytes) same;
      sig_seg =
          ap (λ g. b64url_decode g.sig_seg) (sym segs_same) ∙ sb_is ∙ ap (λ d. some d.sig) same;
    }

-- The signing text is ASCII, so that both programs sign the same bytes.
pub signing_ascii :
    (p : Platform) (jws : Str) (c : Compact p.Num)
    → Found p jws c
    → encode_utf8 (signing_text c.segs) ≡ ascii_bytes (signing_text c.segs)
signing_ascii p jws c f =
    let h =
      letters-ascii c.segs.header_seg (b64url_decode-letters c.segs.header_seg _ f.header_seg).0 in
    let l =
      letters-ascii c.segs.payload_seg
        (b64url_decode-letters c.segs.payload_seg _ f.payload_seg).0 in
    encode_utf8-ascii (signing_text c.segs)
      (All-append (λ b. b < 128) c.segs.header_seg (b'.' ∷ c.segs.payload_seg) h (ground arith, l))
