-- ===== src/Text/Base64/RoundTrip.antt =====
-- Decoding what `buf.toString('base64url')` writes.
use veritrail.Prelude.{
  ℕ, ◌+◌, ◌*◌, ◌/◌, ◌%◌, ◌<◌, ◌≡◌, refl, ap, true, false, List, [], ◌∷◌, arith, map, ◌==◌, some,
  All, every, ◌∙◌,
}
use veritrail.Text.Base64.{
  letter_url, encode_with, base64url, letter_value, letter_values, group_bytes, from_base64,
  is_url_letter, b64url_decode,
}

-- Every member is a byte.
abbrev pub IsBytes : List ℕ → Type 0
IsBytes = All (λ b. b < 256)

letter_value-letter_url : (n : ℕ) → n < 64 → letter_value (letter_url n) ≡ some n
unfolding letter_value letter_url
letter_value-letter_url n h = ground arith

is_url_letter-letter_url : (n : ℕ) → n < 64 → is_url_letter (letter_url n) ≡ true
unfolding letter_url
is_url_letter-letter_url n h = ground arith

letter_url-ne-pad : (n : ℕ) → n < 64 → (letter_url n == b'=') ≡ false
unfolding letter_url
letter_url-ne-pad n h = ground arith

letter_values-cons :
    (n : ℕ) (cs : List ℕ) → n < 64 → letter_values (letter_url n ∷ cs) ≡ n ∷ letter_values cs
unfolding letter_values
letter_values-cons n cs h = rw (letter_url-ne-pad n h, letter_value-letter_url n h)

-- The six-bit values that the letters stand for.
sextets : List ℕ → List ℕ
sextets [] = []
sextets (a ∷ []) = (a / 4) ∷ (a % 4 * 16) ∷ []
sextets (a ∷ b ∷ []) = (a / 4) ∷ (a % 4 * 16 + b / 16) ∷ (b % 16 * 4) ∷ []
sextets (a ∷ b ∷ c ∷ rest) =
    (a / 4) ∷ (a % 4 * 16 + b / 16) ∷ (b % 16 * 4 + c / 64) ∷ (c % 64) ∷ sextets rest

encode_with-sextets :
    (letter : ℕ → ℕ) (bs : List ℕ) → encode_with letter bs ≡ map letter (sextets bs)
unfolding encode_with sextets
encode_with-sextets letter [] = refl
encode_with-sextets letter (a ∷ []) = refl
encode_with-sextets letter (a ∷ b ∷ []) = refl
encode_with-sextets letter (a ∷ b ∷ c ∷ rest) = rw (encode_with-sextets letter rest)

sextets-lt : (bs : List ℕ) → IsBytes bs → All (λ n. n < 64) (sextets bs)
unfolding sextets
sextets-lt [] h = tt
sextets-lt (a ∷ []) h = omega arith
sextets-lt (a ∷ b ∷ []) h = omega arith
sextets-lt (a ∷ b ∷ c ∷ rest) (ha, (hb, (hc, h))) =
    (omega arith, (omega arith, (omega arith, (omega arith, sextets-lt rest h))))

letter_values-map : (ns : List ℕ) → All (λ n. n < 64) ns → letter_values (map letter_url ns) ≡ ns
letter_values-map [] h = unfold letter_values in refl
letter_values-map (n ∷ ns) (hn, h) =
    letter_values-cons n (map letter_url ns) hn ∙ ap (◌∷◌ n) (letter_values-map ns h)

every-map : (ns : List ℕ) → All (λ n. n < 64) ns → every is_url_letter (map letter_url ns) ≡ true
every-map [] h = refl
every-map (n ∷ ns) (hn, h) = rw (is_url_letter-letter_url n hn) (every-map ns h)

group_bytes-sextets : (bs : List ℕ) → IsBytes bs → group_bytes (sextets bs) ≡ bs
unfolding group_bytes sextets
group_bytes-sextets [] h = refl
group_bytes-sextets (a ∷ []) h = ground arith
group_bytes-sextets (a ∷ b ∷ []) h = ground arith
group_bytes-sextets (a ∷ b ∷ c ∷ rest) (ha, (hb, (hc, h))) =
    ground (arith, group_bytes-sextets rest h)

-- `Buffer.from(buf.toString('base64url'), 'base64url')` is `buf`.
pub from_base64-base64url : (bs : List ℕ) → IsBytes bs → from_base64 (base64url bs) ≡ bs
unfolding from_base64 base64url
from_base64-base64url bs h =
    rw (encode_with-sextets letter_url bs, letter_values-map (sextets bs) (sextets-lt bs h))
      (group_bytes-sextets bs h)

pub every-base64url : (bs : List ℕ) → IsBytes bs → every is_url_letter (base64url bs) ≡ true
unfolding base64url
every-base64url bs h =
    rw (encode_with-sextets letter_url bs) (every-map (sextets bs) (sextets-lt bs h))

-- The strict decoder of `verify` reads back every segment that is written as base64url.
pub b64url_decode-base64url : (bs : List ℕ) → IsBytes bs → b64url_decode (base64url bs) ≡ some bs
unfolding b64url_decode
b64url_decode-base64url bs h = rw (every-base64url bs h) (ap some (from_base64-base64url bs h))
