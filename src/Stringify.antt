-- ===== src/Stringify.antt =====
-- `JSON.stringify` on the values of the model, as ts/src/mcp/server.ts and the demos of ts/src/mcp and
-- ts/src/a2a call it: the properties in the order in which the engine
-- lists them, those that are undefined left out.
pub mod Ordered
pub mod RoundTrip
use veritrail.Prelude.{List, [], ◌∷◌, ◌++◌, map, if◌then◌else◌}
use veritrail.Platform.{Platform}
use veritrail.Text.{Str, codes, join}
use veritrail.Value.{
  Value, undefined, null, bool, num, str, arr, obj, Items, nil, cons, Fields, end, field,
}
use veritrail.Value.Keys.{own_order}
use veritrail.Jcs.{Members, quote, array_text, member_text}
use veritrail.Jcs.Canonical.{of_members}

-- What stands for a property, unless its value is undefined.
unfoldable pub keep : {N A : Type 0} → Value N → A → List A → List A
keep undefined a rest = rest
keep _ a rest = a ∷ rest

-- The members of an object between its braces.
unfoldable pub braced : Members → Str
unfolding join quote
braced ms = b'{' ∷ (join (codes ",") (map member_text ms) ++ b'}' ∷ [])

module _ (p : Platform) where
  open p use {Num, number_text}

  -- `JSON.stringify(v)`, where an undefined `v` is an element of an array.
  unfoldable mutual
    unfolding own_order

    pub json_string : Value Num → Str
    json_string undefined = codes "null"
    json_string null = codes "null"
    json_string (bool b) = if b then codes "true" else codes "false"
    json_string (num n) = number_text n
    json_string (str s) = quote s
    json_string (arr xs) = array_text (json_items xs)
    json_string (obj fs) = braced (own_order (json_members fs))

    pub json_items : Items Num → List Str
    json_items nil = []
    json_items (cons v xs) = json_string v ∷ json_items xs

    pub json_members : Fields Num → Members
    json_members end = []
    json_members (field k v fs) = keep v (k, json_string v) (json_members fs)

-- The value that the text of a value stands for.
module _ {N : Type 0} where
  unfoldable mutual
    unfolding own_order

    pub plain : Value N → Value N
    plain undefined = null
    plain null = null
    plain (bool b) = bool b
    plain (num n) = num n
    plain (str s) = str s
    plain (arr xs) = arr (plain_items xs)
    plain (obj fs) = obj (of_members (own_order (plain_members fs)))

    pub plain_items : Items N → Items N
    plain_items nil = nil
    plain_items (cons v xs) = cons (plain v) (plain_items xs)

    pub plain_members : Fields N → List (Str × Value N)
    plain_members end = []
    plain_members (field k v fs) = keep v (k, plain v) (plain_members fs)
