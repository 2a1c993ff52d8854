-- ===== src/Jcs.antt =====
-- ts/src/commands/jcs.ts: RFC 8785 canonical JSON.
pub mod Quoted
pub mod Number
pub mod Sorting
pub mod Canonical
pub mod Reads
pub mod Elements
pub mod Members
pub mod RoundTrip
pub mod Texts
pub mod Lines
pub mod Objects
pub mod Order
pub mod Sorted
pub mod Reread
pub mod Lookup
use veritrail.Prelude.{
  ℕ, ◌/◌, ◌%◌, ◌||◌, List, [], ◌∷◌, ◌++◌, ltb, ◌==◌, if◌then◌else◌, flat_map, length, map,
}
use veritrail.Platform.{Platform}
use veritrail.Text.{Str, Bytes, codes, str_lt, join}
use veritrail.Text.Hex.{hex_digit, to_hex}
use veritrail.Text.Utf8.{code_points, point_units, is_surrogate, encode_utf8}
use veritrail.Value.{
  Value, undefined, null, bool, num, str, arr, obj, Items, nil, cons, Fields, end, field,
}

abbrev unicode_escape : ℕ → Str
unicode_escape c =
    b'\\'
    ∷ b'u'
    ∷ hex_digit (c / 4096)
    ∷ hex_digit (c / 256 % 16)
    ∷ hex_digit (c / 16 % 16)
    ∷ hex_digit (c % 16)
    ∷ []

-- How `JSON.stringify` writes a code point inside a string literal.
unfoldable pub escape_point : ℕ → Str
escape_point c =
    if c == b'"' || c == b'\\'
    then b'\\' ∷ c ∷ []
    else if c == 8
    then codes "\\b"
    else if c == 9
    then codes "\\t"
    else if c == 10
    then codes "\\n"
    else if c == 12
    then codes "\\f"
    else if c == 13
    then codes "\\r"
    else if ltb c 32 || is_surrogate c
    then unicode_escape c
    else point_units c

-- `JSON.stringify(s)` for a string.
unfoldable pub quote : Str → Str
unfolding escape_point
quote s = b'"' ∷ (flat_map escape_point (code_points s) ++ b'"' ∷ [])

-- The keys with the texts of their values.
abbrev pub Members : Type 0
Members = List (Str × Str)

unfoldable pub insert_key : {A : Type 0} → Str × A → List (Str × A) → List (Str × A)
unfolding str_lt
insert_key m [] = m ∷ []
insert_key m (n ∷ ms) = if str_lt n.0 m.0 then n ∷ insert_key m ms else m ∷ n ∷ ms

-- `Object.keys(obj).sort()`, each key with what goes with it.
unfoldable pub sort_keys : {A : Type 0} → List (Str × A) → List (Str × A)
unfolding insert_key
sort_keys [] = []
sort_keys (m ∷ ms) = insert_key m (sort_keys ms)

-- `${JSON.stringify(k)}:${…}`
abbrev pub member_text : Str × Str → Str
member_text m = quote m.0 ++ b':' ∷ m.1

-- `[${items}]`
unfoldable pub array_text : List Str → Str
unfolding join
array_text items = b'[' ∷ (join (codes ",") items ++ b']' ∷ [])

-- `{${pairs.join(',')}}` over the sorted keys.
unfoldable pub object_text : Members → Str
unfolding join sort_keys quote
object_text ms = b'{' ∷ (join (codes ",") (map member_text (sort_keys ms)) ++ b'}' ∷ [])

module _ (p : Platform) where
  open p use {Num, number_text}

  unfoldable mutual
    pub jcs_string : Value Num → Str
    jcs_string undefined = codes "null"
    jcs_string null = codes "null"
    jcs_string (bool b) = if b then codes "true" else codes "false"
    jcs_string (num n) = number_text n
    jcs_string (str s) = quote s
    jcs_string (arr xs) = array_text (jcs_items xs)
    jcs_string (obj fs) = object_text (jcs_members fs)

    pub jcs_items : Items Num → List Str
    jcs_items nil = []
    jcs_items (cons v xs) = jcs_string v ∷ jcs_items xs

    pub jcs_members : Fields Num → Members
    jcs_members end = []
    jcs_members (field k v fs) = (k, jcs_string v) ∷ jcs_members fs

  -- `jcsBytes`
  unfoldable pub jcs_bytes : Value Num → Bytes
  unfolding encode_utf8 jcs_string quote array_text object_text
  jcs_bytes v = encode_utf8 (jcs_string v)

  pub record JcsOutput : Type 0 where
    pub canonical_hex : Str
    pub byte_len : ℕ

  -- `jcs`
  unfoldable pub jcs : Value Num → JcsOutput
  unfolding jcs_bytes to_hex
  jcs v = record { canonical_hex = to_hex (jcs_bytes v); byte_len = length (jcs_bytes v) }
