-- ===== src/Text/Hex.antt =====
-- `buf.toString('hex')` and `Buffer.from(s, 'hex')`.
pub mod RoundTrip
use veritrail.Prelude.{
  ℕ, ◌+◌, ◌-◌, ◌*◌, ◌/◌, ◌%◌, List, [], ◌∷◌, ltb, within, if◌then◌else◌, Option, none, some,
  flat_map,
}

abbrev pub hex_digit : ℕ → ℕ
hex_digit n = if ltb n 10 then b'0' + n else b'a' + (n - 10)

-- `buf.toString('hex')`
unfoldable pub to_hex : List ℕ → List ℕ
to_hex bytes = flat_map (λ b. hex_digit (b / 16) ∷ hex_digit (b % 16) ∷ []) bytes

unfoldable pub hex_value : ℕ → Option ℕ
hex_value c =
    if within b'0' b'9' c
    then some (c - b'0')
    else if within b'a' b'f' c
    then some (c - b'a' + 10)
    else if within b'A' b'F' c
    then some (c - b'A' + 10)
    else none

abbrev pub hex_pair : Option ℕ → Option ℕ → Option ℕ
hex_pair (some a) (some b) = some (a * 16 + b)
hex_pair none _ = none
hex_pair (some _) none = none

-- `Buffer.from(s, 'hex')`: it stops at the first pair that is not two digits, or at a single digit.
unfoldable pub from_hex : List ℕ → List ℕ
unfolding hex_value
from_hex [] = []
from_hex (_ ∷ []) = []
from_hex (a ∷ b ∷ s) =
    let rest = from_hex s in
    elim (hex_pair (hex_value a) (hex_value b)) [ none ↦ [] | some n ↦ n ∷ rest ]
