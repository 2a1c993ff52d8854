-- ===== src/Text/Utf8.antt =====
-- `Buffer.from(s, 'utf8')`, `buf.toString('utf8')` and `new TextDecoder('utf-8', { fatal: true })`.
pub mod RoundTrip
pub mod Decoders
pub mod Forms
pub mod Inner
pub mod Strict
use veritrail.Prelude.{
  ℕ, ◌+◌, ◌-◌, ◌*◌, ◌/◌, ◌%◌, Bool, List, [], ◌∷◌, ◌++◌, ltb, ◌==◌, within, if◌then◌else◌, Option,
  none, some, flat_map, ◌>>=◌,
}

abbrev replacement : ℕ
replacement = 0xfffd

abbrev pub is_high : ℕ → Bool
is_high c = within 0xd800 0xdbff c

abbrev pub is_low : ℕ → Bool
is_low c = within 0xdc00 0xdfff c

abbrev pub is_surrogate : ℕ → Bool
is_surrogate c = within 0xd800 0xdfff c

abbrev pair_point : ℕ → ℕ → ℕ
pair_point h l = 0x10000 + (h - 0xd800) * 0x400 + (l - 0xdc00)

-- One code unit after a pending high surrogate, if there is one: the points that are complete, and
-- the high surrogate that is pending now.
pair_step : Option ℕ → ℕ → List ℕ × Option ℕ
pair_step none c = if is_high c then ([], some c) else (c ∷ [], none)
pair_step (some h) c =
    if is_low c
    then (pair_point h c ∷ [], none)
    else if is_high c
    then (h ∷ [], some c)
    else (h ∷ c ∷ [], none)

unfoldable pub points_from : Option ℕ → List ℕ → List ℕ
unfolding pair_step
points_from none [] = []
points_from (some h) [] = h ∷ []
points_from pending (c ∷ cs) =
    let (out, pending') = pair_step pending c in out ++ points_from pending' cs

-- The code points of a string; a lone surrogate stays as it is.
abbrev pub code_points : List ℕ → List ℕ
code_points s = points_from none s

-- The UTF-16 code units of a code point.
abbrev pub point_units : ℕ → List ℕ
point_units c =
    if ltb c 0x10000
    then c ∷ []
    else (0xd800 + (c - 0x10000) / 0x400) ∷ (0xdc00 + (c - 0x10000) % 0x400) ∷ []

-- The UTF-8 bytes of a code point; a lone surrogate is replaced by U+FFFD.
unfoldable pub encode_point : ℕ → List ℕ
encode_point c =
    if ltb c 0x80
    then c ∷ []
    else if ltb c 0x800
    then (0xc0 + c / 64) ∷ (0x80 + c % 64) ∷ []
    else if is_surrogate c
    then 0xef ∷ 0xbf ∷ 0xbd ∷ []
    else if ltb c 0x10000
    then (0xe0 + c / 4096) ∷ (0x80 + c / 64 % 64) ∷ (0x80 + c % 64) ∷ []
    else (0xf0 + c / 262144) ∷ (0x80 + c / 4096 % 64) ∷ (0x80 + c / 64 % 64) ∷ (0x80 + c % 64) ∷ []

-- `Buffer.from(s, 'utf8')`
unfoldable pub encode_utf8 : List ℕ → List ℕ
unfolding encode_point points_from
encode_utf8 s = flat_map encode_point (code_points s)

-- The decoder of the Encoding Standard: between characters, or inside one that needs `more` bytes,
-- the next of which lies between `lo` and `hi`.
pub data Decoder : Type 0 where
  start : Decoder
  inside : ℕ → ℕ → ℕ → ℕ → Decoder

-- The first byte of a character. `none` stands for a decoding error.
lead_byte : ℕ → List (Option ℕ) × Decoder
lead_byte b =
    if ltb b 0x80
    then (some b ∷ [], start)
    else if within 0xc2 0xdf b
    then ([], inside 1 0x80 0xbf (b - 0xc0))
    else if within 0xe0 0xef b
    then (
      [],
      inside 2 (if b == 0xe0 then 0xa0 else 0x80) (if b == 0xed then 0x9f else 0xbf) (b - 0xe0),
    )
    else if within 0xf0 0xf4 b
    then (
      [],
      inside 3 (if b == 0xf0 then 0x90 else 0x80) (if b == 0xf4 then 0x8f else 0xbf) (b - 0xf0),
    )
    else (none ∷ [], start)

-- A byte that may not follow ends the character in error and is read again.
decode_byte : Decoder → ℕ → List (Option ℕ) × Decoder
decode_byte start b = lead_byte b
decode_byte (inside more lo hi point) b =
    if within lo hi b
    then (if more == 1
        then (some (point * 64 + (b - 0x80)) ∷ [], start)
        else ([], inside (more - 1) 0x80 0xbf (point * 64 + (b - 0x80))))
    else (let (out, next) = lead_byte b in (none ∷ out, next))

unfoldable pub decode_from : Decoder → List ℕ → List (Option ℕ)
unfolding decode_byte lead_byte
decode_from start [] = []
decode_from (inside _ _ _ _) [] = none ∷ []
decode_from d (b ∷ bs) = let (out, next) = decode_byte d b in out ++ decode_from next bs

lossy_units : Option ℕ → List ℕ
lossy_units none = replacement ∷ []
lossy_units (some c) = point_units c

-- `buf.toString('utf8')`: each error becomes U+FFFD, and a byte order mark is kept.
unfoldable pub lossy_utf8 : List ℕ → List ℕ
unfolding decode_from lossy_units
lossy_utf8 bytes = flat_map lossy_units (decode_from start bytes)

-- The points, if there is no error among them.
unfoldable pub strict_points : List (Option ℕ) → Option (List ℕ)
strict_points [] = some []
strict_points (none ∷ _) = none
strict_points (some c ∷ cs) = strict_points cs >>= λ ps. some (c ∷ ps)

-- The decoder without `ignoreBOM` drops one leading byte order mark.
unfoldable pub drop_bom : List ℕ → List ℕ
drop_bom [] = []
drop_bom (c ∷ cs) = if c == 0xfeff then cs else c ∷ cs

-- commands/verify.ts `strictUtf8`
unfoldable pub strict_utf8 : List ℕ → Option (List ℕ)
unfolding decode_from strict_points drop_bom
strict_utf8 bytes =
    strict_points (decode_from start bytes) >>= λ ps. some (flat_map point_units (drop_bom ps))
