-- ===== src/Text/Hex/RoundTrip.antt =====
-- `Buffer.from(s, 'hex')` undoes `buf.toString('hex')`.
use veritrail.Prelude.{
  ℕ, ◌+◌, ◌*◌, ◌/◌, ◌%◌, ◌<◌, ◌≡◌, refl, ap, ◌∙◌, List, [], ◌∷◌, Option, some, arith, length,
}
use veritrail.Text.Base64.RoundTrip.{IsBytes}
use veritrail.Text.Hex.{hex_digit, to_hex, hex_value, hex_pair, from_hex}

hex_value-hex_digit : (n : ℕ) → n < 16 → hex_value (hex_digit n) ≡ some n
unfolding hex_value
hex_value-hex_digit n h = ground arith

hex_pair-some :
    (x y : Option ℕ) (m n : ℕ) → x ≡ some m → y ≡ some n → hex_pair x y ≡ some (m * 16 + n)
hex_pair-some x y m n hx hy = rw (hx, hy)

from_hex-pair :
    (a b n : ℕ) (s : List ℕ)
    → hex_pair (hex_value a) (hex_value b) ≡ some n
    → from_hex (a ∷ b ∷ s) ≡ n ∷ from_hex s
unfolding from_hex
from_hex-pair a b n s h = rw (from_hex, h)

pub from_hex-to_hex : (bs : List ℕ) → IsBytes bs → from_hex (to_hex bs) ≡ bs
unfolding to_hex from_hex
from_hex-to_hex [] h = refl
from_hex-to_hex (b ∷ bs) (hb, h) =
    let whole : b / 16 * 16 + b % 16 ≡ b = omega arith in
    from_hex-pair (hex_digit (b / 16)) (hex_digit (b % 16)) (b / 16 * 16 + b % 16) (to_hex bs) (
      hex_pair-some _ _ (b / 16) (b % 16) (hex_value-hex_digit (b / 16) (omega arith))
        (hex_value-hex_digit (b % 16) (omega arith)))
    ∙ ap (λ n. n ∷ from_hex (to_hex bs)) whole
    ∙ ap (◌∷◌ b) (from_hex-to_hex bs h)

pub length-to_hex : (bs : List ℕ) → length (to_hex bs) ≡ 2 * length bs
unfolding to_hex
length-to_hex [] = refl
length-to_hex (b ∷ bs) = let h = length-to_hex bs in omega (arith, h)
