-- ===== src/Go/Base64.antt =====
-- `base64.RawURLEncoding.DecodeString` of encoding/base64, as go/verify.go and go/chain.go use it.
use veritrail.Prelude.{
  ◌≡◌, refl, ap, ◌%◌, true, false, not, ◌&&◌, ◌||◌, [], ◌∷◌, ◌==◌, if◌then◌else◌, Option, none,
  some, every, length, arith,
}
use veritrail.Text.{Str, Bytes}
use veritrail.Text.Base64.{is_url_letter, from_base64, b64url_decode}

-- Line breaks are passed over.
unfoldable pub without_breaks : Str → Str
without_breaks [] = []
without_breaks (c ∷ cs) =
    let rest = without_breaks cs in if c == b'\r' || c == b'\n' then rest else c ∷ rest

-- Any other character outside the alphabet is an error, and so is a single letter left over; surplus
-- bits are dropped.
unfoldable pub raw_url_decode : Str → Option Bytes
unfolding without_breaks from_base64
raw_url_decode s =
    let letters = without_breaks s in
    if every is_url_letter letters && not (length letters % 4 == 1)
    then some (from_base64 letters)
    else none

-- No letter of the segment is left over.
abbrev pub IsWhole : Str → Type 0
IsWhole seg = (length seg % 4 == 1) ≡ false

without_breaks-eq : (s : Str) → every is_url_letter s ≡ true → without_breaks s ≡ s
unfolding without_breaks
without_breaks-eq [] h = refl
without_breaks-eq (c ∷ s) h = let ih = without_breaks-eq s (ground arith) in ground arith

pub b64url_decode-letters :
    (seg : Str) (bytes : Bytes)
    → b64url_decode seg ≡ some bytes
    → (every is_url_letter seg ≡ true) × (from_base64 seg ≡ bytes)
unfolding b64url_decode
b64url_decode-letters seg bytes h = ground arith

-- What verify.ts reads of a segment with no letter left over is what Go reads of it.
pub raw_url_decode-b64url_decode :
    (seg : Str) (bytes : Bytes)
    → b64url_decode seg ≡ some bytes
    → IsWhole seg
    → raw_url_decode seg ≡ some bytes
unfolding raw_url_decode
raw_url_decode-b64url_decode seg bytes h whole =
    let (letters, same) = b64url_decode-letters seg bytes h in
    rw (without_breaks-eq seg letters, letters, whole) (ap some same)
