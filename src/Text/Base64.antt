-- ===== src/Text/Base64.antt =====
-- `buf.toString('base64url')`, `buf.toString('base64')` and `Buffer.from(s, 'base64url')`.
pub mod RoundTrip
use veritrail.Prelude.{
  ℕ, ◌+◌, ◌-◌, ◌*◌, ◌/◌, ◌%◌, Bool, ◌||◌, List, [], ◌∷◌, ltb, ◌==◌, within, if◌then◌else◌, Option,
  none, some, every,
}

-- A letter of the base64url alphabet.
unfoldable pub letter_url : ℕ → ℕ
letter_url n =
    if ltb n 26
    then b'A' + n
    else if ltb n 52
    then b'a' + (n - 26)
    else if ltb n 62
    then b'0' + (n - 52)
    else if n == 62
    then b'-'
    else b'_'

-- A letter of the standard alphabet.
unfoldable pub letter_std : ℕ → ℕ
unfolding letter_url
letter_std n = if n == 62 then b'+' else if n == 63 then b'/' else letter_url n

-- Three bytes make four letters; the last group is shorter, with no padding.
unfoldable pub encode_with : (ℕ → ℕ) → List ℕ → List ℕ
encode_with letter [] = []
encode_with letter (a ∷ []) = letter (a / 4) ∷ letter (a % 4 * 16) ∷ []
encode_with letter (a ∷ b ∷ []) =
    letter (a / 4) ∷ letter (a % 4 * 16 + b / 16) ∷ letter (b % 16 * 4) ∷ []
encode_with letter (a ∷ b ∷ c ∷ rest) =
    letter (a / 4)
    ∷ letter (a % 4 * 16 + b / 16)
    ∷ letter (b % 16 * 4 + c / 64)
    ∷ letter (c % 64)
    ∷ encode_with letter rest

-- `buf.toString('base64url')`
unfoldable pub base64url : List ℕ → List ℕ
unfolding encode_with letter_url
base64url bytes = encode_with letter_url bytes

-- `buf.toString('base64').replace(/=+$/, '')`
unfoldable pub base64_unpadded : List ℕ → List ℕ
unfolding encode_with letter_std
base64_unpadded bytes = encode_with letter_std bytes

-- The decoder reads both alphabets.
unfoldable pub letter_value : ℕ → Option ℕ
letter_value c =
    if within b'A' b'Z' c
    then some (c - b'A')
    else if within b'a' b'z' c
    then some (c - b'a' + 26)
    else if within b'0' b'9' c
    then some (c - b'0' + 52)
    else if c == b'-' || c == b'+'
    then some 62
    else if c == b'_' || c == b'/'
    then some 63
    else none

-- The values of the letters up to the first `=`; what is no letter is passed over.
unfoldable pub letter_values : List ℕ → List ℕ
unfolding letter_value
letter_values [] = []
letter_values (c ∷ cs) =
    let rest = letter_values cs in
    if c == b'=' then [] else elim (letter_value c) [ none ↦ rest | some v ↦ v ∷ rest ]

-- A single letter left over gives no byte, and surplus bits are dropped.
unfoldable pub group_bytes : List ℕ → List ℕ
group_bytes [] = []
group_bytes (_ ∷ []) = []
group_bytes (p ∷ q ∷ []) = (p * 4 + q / 16) ∷ []
group_bytes (p ∷ q ∷ r ∷ []) = (p * 4 + q / 16) ∷ (q % 16 * 16 + r / 4) ∷ []
group_bytes (p ∷ q ∷ r ∷ s ∷ rest) =
    (p * 4 + q / 16) ∷ (q % 16 * 16 + r / 4) ∷ (r % 4 * 64 + s) ∷ group_bytes rest

-- `Buffer.from(s, 'base64')` and `Buffer.from(s, 'base64url')`
unfoldable pub from_base64 : List ℕ → List ℕ
unfolding letter_values group_bytes
from_base64 s = group_bytes (letter_values s)

-- `/^[A-Za-z0-9\-_]*$/.test(s)`
abbrev pub is_url_letter : ℕ → Bool
is_url_letter c =
    within b'A' b'Z' c || within b'a' b'z' c || within b'0' b'9' c || c == b'-' || c == b'_'

-- commands/verify.ts `b64urlDecode`
unfoldable pub b64url_decode : List ℕ → Option (List ℕ)
unfolding from_base64
b64url_decode seg = if every is_url_letter seg then some (from_base64 seg) else none
