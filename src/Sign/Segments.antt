-- ===== src/Sign/Segments.antt =====
-- The segments that ts/src/commands/verify.ts cuts from what ts/src/commands/sign.ts frames.
use veritrail.Prelude.{
  ℕ, ◌≡◌, refl, true, false, [], ◌∷◌, ◌++◌, append_assoc, arith, every, ◌==◌, some,
}
use veritrail.Platform.{Platform}
use veritrail.Text.{Str, Bytes, split}
use veritrail.Text.Base64.{base64url, is_url_letter}
use veritrail.Text.Base64.RoundTrip.{IsBytes, every-base64url, b64url_decode-base64url}
use veritrail.Value.{str, obj, Fields, as_str, as_object}
use veritrail.Jcs.{jcs_bytes}
use veritrail.Jcs.Canonical.{canonical, HaveJson}
use veritrail.Jcs.RoundTrip.{parse-jcs_string}
use veritrail.Jcs.Texts.{jcs_bytes-IsBytes, strict_utf8-jcs_bytes}
use veritrail.Jcs.Lookup.{canonical_fields}
use veritrail.Compact.{segments, three_parts, read_object, read_compact}

letter-ne-dot : (c : ℕ) → is_url_letter c ≡ true → (c == b'.') ≡ false
letter-ne-dot c h = ground arith

split-append :
    (s rest : Str)
    → every is_url_letter s ≡ true
    → split b'.' (s ++ b'.' ∷ rest) ≡ s ∷ split b'.' rest
unfolding split
split-append [] rest h = refl
split-append (c ∷ s) rest h =
    let (hc, hs) : (is_url_letter c ≡ true) × (every is_url_letter s ≡ true) = ground arith in
    rw (letter-ne-dot c hc, split-append s rest hs)

split-whole : (s : Str) → every is_url_letter s ≡ true → split b'.' s ≡ s ∷ []
unfolding split
split-whole [] h = refl
split-whole (c ∷ s) h =
    let (hc, hs) : (is_url_letter c ≡ true) × (every is_url_letter s ≡ true) = ground arith in
    rw (letter-ne-dot c hc, split-whole s hs)

-- Three segments joined with dots.
abbrev pub joined : Str → Str → Str → Str
joined a b c = (a ++ b'.' ∷ b) ++ b'.' ∷ c

pub split-joined :
    (a b c : Bytes)
    → IsBytes a
    → IsBytes b
    → IsBytes c
    → split b'.' (joined (base64url a) (base64url b) (base64url c))
      ≡ base64url a ∷ base64url b ∷ base64url c ∷ []
split-joined a b c ha hb hc = rw (
  append_assoc (base64url a) (b'.' ∷ base64url b) (b'.' ∷ base64url c),
  split-append (base64url a) (base64url b ++ b'.' ∷ base64url c) (every-base64url a ha),
  split-append (base64url b) (base64url c) (every-base64url b hb),
  split-whole (base64url c) (every-base64url c hc),
)

pub segments-joined :
    (a b c : Bytes)
    → IsBytes a
    → IsBytes b
    → IsBytes c
    → segments (joined (base64url a) (base64url b) (base64url c))
      ≡ some (record { header_seg = base64url a; payload_seg = base64url b; sig_seg = base64url c })
unfolding segments three_parts
segments-joined a b c ha hb hc = rw (split-joined a b c ha hb hc)

module _ (p : Platform) where
  open p use {Num}

  -- The canonical bytes of an object are read back as the object in canonical form.
  pub read_object-jcs_bytes :
      (fs : Fields Num)
      → HaveJson p fs
      → read_object p (jcs_bytes p (obj fs)) ≡ some (canonical_fields p fs)
  unfolding read_object as_object canonical
  read_object-jcs_bytes fs h = rw (strict_utf8-jcs_bytes p fs h, parse-jcs_string p (obj fs) h)

  -- Step 1 of `verify` on canonical bytes framed with a signature.
  pub read_compact-joined :
      (header payload : Fields Num) (sig : Bytes)
      → HaveJson p header
      → HaveJson p payload
      → IsBytes sig
      → read_compact p (
          str (
            joined
              (base64url (jcs_bytes p (obj header)))
              (base64url (jcs_bytes p (obj payload)))
              (base64url sig)))
        ≡ some (record {
          segs = record {
            header_seg = base64url (jcs_bytes p (obj header));
            payload_seg = base64url (jcs_bytes p (obj payload));
            sig_seg = base64url sig;
          };
          header = canonical_fields p header;
          payload = canonical_fields p payload;
          payload_bytes = jcs_bytes p (obj payload);
          sig = sig;
        })
  unfolding read_compact as_str
  read_compact-joined header payload sig hh hp hs =
      let bh : IsBytes (jcs_bytes p (obj header)) = jcs_bytes-IsBytes p (obj header) hh in
      let bp : IsBytes (jcs_bytes p (obj payload)) = jcs_bytes-IsBytes p (obj payload) hp in
      rw (
        segments-joined (jcs_bytes p (obj header)) (jcs_bytes p (obj payload)) sig bh bp hs,
        b64url_decode-base64url (jcs_bytes p (obj header)) bh,
        b64url_decode-base64url (jcs_bytes p (obj payload)) bp,
        b64url_decode-base64url sig hs,
        read_object-jcs_bytes header hh,
        read_object-jcs_bytes payload hp,
      )
