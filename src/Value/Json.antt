-- ===== src/Value/Json.antt =====
-- `JSON.parse`, over the code units of the text: the grammar of ECMA-404. The properties
-- of an object are created in the order of the text; a repeated key keeps its first place and its last
-- value.
pub mod Consumes
pub mod Shorter
pub mod Fuel
use veritrail.Prelude.{
  ℕ, zero, suc, ◌+◌, ◌-◌, ◌*◌, Bool, true, false, ◌||◌, [], ◌∷◌, ◌++◌, ltb, ◌==◌, within,
  if◌then◌else◌, Option, none, some, ◌>>=◌, length,
}
use veritrail.Platform.{Platform}
use veritrail.Text.{Str, codes}
use veritrail.Text.Hex.{hex_value}
use veritrail.Value.{
  Value, null, bool, num, str, arr, obj, Items, nil, cons, Fields, end, field, get, remove,
}

abbrev is_space : ℕ → Bool
is_space c = c == b' ' || c == b'\n' || c == b'\r' || c == b'\t'

unfoldable pub skip_space : Str → Str
skip_space [] = []
skip_space (c ∷ cs) = if is_space c then skip_space cs else c ∷ cs

-- The text behind the code unit `c`, if it stands next; `expect` allows white space before it.
unfoldable pub strip : ℕ → Str → Option Str
strip c [] = none
strip c (d ∷ r) = if d == c then some r else none

unfoldable pub expect : ℕ → Str → Option Str
unfolding skip_space strip
expect c s = strip c (skip_space s)

-- Inside a string literal: between characters, behind a backslash, or in `\uXXXX` with that many
-- digits to come and the value so far.
pub data Scan : Type 0 where
  plain escaped : Scan
  in_unicode : ℕ → ℕ → Scan

unfoldable pub simple_escape : ℕ → Option ℕ
simple_escape c =
    if c == b'"' || c == b'\\' || c == b'/'
    then some c
    else if c == b'b'
    then some 8
    else if c == b'f'
    then some 12
    else if c == b'n'
    then some 10
    else if c == b'r'
    then some 13
    else if c == b't'
    then some 9
    else none

-- One code unit of a string literal that does not end it.
unfoldable pub scan_unit : Scan → ℕ → Option (Str × Scan)
scan_unit plain c =
    if c == b'\\' then some ([], escaped) else if ltb c 32 then none else some (c ∷ [], plain)
scan_unit escaped c =
    if c == b'u' then some ([], in_unicode 4 0) else (simple_escape c >>= λ d. some (d ∷ [], plain))
scan_unit (in_unicode more acc) c = hex_value c >>= λ v.
    (if more == 1
      then some ((acc * 16 + v) ∷ [], plain)
      else some ([], in_unicode (more - 1) (acc * 16 + v)))

abbrev closes : Scan → ℕ → Bool
closes plain c = c == b'"'
closes escaped c = false
closes (in_unicode _ _) c = false

-- The rest of a string literal, and the text behind its closing quote.
unfoldable pub scan_string : Scan → Str → Option (Str × Str)
unfolding scan_unit simple_escape hex_value
scan_string st [] = none
scan_string st (c ∷ cs) =
    if closes st c
    then some ([], cs)
    else (scan_unit st c >>= λ u. scan_string u.1 cs >>= λ r. some (u.0 ++ r.0, r.1))

abbrev is_digit : ℕ → Bool
is_digit c = within b'0' b'9' c

-- The longest run of digits, and the rest.
unfoldable pub take_digits : Str → Str × Str
take_digits [] = ([], [])
take_digits (c ∷ cs) =
    let (ds, rest) = take_digits cs in if is_digit c then (c ∷ ds, rest) else ([], c ∷ cs)

unfoldable pub if_any : Str × Str → Option (Str × Str)
if_any ([], rest) = none
if_any (d ∷ ds, rest) = some (d ∷ ds, rest)

unfoldable pub some_digits : Str → Option (Str × Str)
unfolding take_digits if_any
some_digits s = if_any (take_digits s)

-- `0`, or digits that do not begin with `0`.
unfoldable pub integer_part : Str → Option (Str × Str)
unfolding some_digits
integer_part [] = none
integer_part (c ∷ cs) = if c == b'0' then some (c ∷ [], cs) else some_digits (c ∷ cs)

unfoldable pub fraction_part : Str → Option (Str × Str)
unfolding some_digits
fraction_part [] = some ([], [])
fraction_part (c ∷ cs) =
    if c == b'.' then (some_digits cs >>= λ r. some (c ∷ r.0, r.1)) else some ([], c ∷ cs)

unfoldable pub exponent_digits : Str → Option (Str × Str)
unfolding some_digits
exponent_digits [] = none
exponent_digits (c ∷ cs) =
    if c == b'+' || c == b'-'
    then (some_digits cs >>= λ r. some (c ∷ r.0, r.1))
    else some_digits (c ∷ cs)

unfoldable pub exponent_part : Str → Option (Str × Str)
unfolding exponent_digits
exponent_part [] = some ([], [])
exponent_part (c ∷ cs) =
    if c == b'e' || c == b'E'
    then (exponent_digits cs >>= λ r. some (c ∷ r.0, r.1))
    else some ([], c ∷ cs)

unfoldable pub sign_part : Str → Str × Str
sign_part [] = ([], [])
sign_part (c ∷ cs) = if c == b'-' then (c ∷ [], cs) else ([], c ∷ cs)

-- The text of a number literal, and the rest.
unfoldable pub number_literal : Str → Option (Str × Str)
unfolding sign_part integer_part fraction_part exponent_part
number_literal s = integer_part (sign_part s).1 >>= λ i. fraction_part i.1 >>= λ f.
    exponent_part f.1 >>= λ e. some ((sign_part s).0 ++ i.0 ++ f.0 ++ e.0, e.1)

-- The text behind a keyword, if it stands next.
unfoldable pub keyword : Str → Str → Option Str
keyword [] s = some s
keyword (k ∷ ks) [] = none
keyword (k ∷ ks) (c ∷ cs) = if c == k then keyword ks cs else none

-- What a value begins with, behind white space.
pub data Token : Type 0 where
  quote bracket brace scalar : Str → Token

unfoldable pub token_at : Str → Token
token_at [] = scalar []
token_at (c ∷ cs) =
    if c == b'"'
    then quote cs
    else if c == b'['
    then bracket cs
    else if c == b'{'
    then brace cs
    else scalar (c ∷ cs)

unfoldable pub token : Str → Token
unfolding skip_space token_at
token s = token_at (skip_space s)

module _ (p : Platform) where
  open p use {Num, number_value}

  unfoldable pub parse_scalar : Str → Option (Value Num × Str)
  unfolding keyword number_literal
  parse_scalar s = elim (keyword (codes "null") s) [
    | some r ↦ some (null, r)
    | none ↦ elim (keyword (codes "true") s) [
      | some r ↦ some (bool true, r)
      | none ↦ elim (keyword (codes "false") s) [
        | some r ↦ some (bool false, r)
        | none ↦ number_literal s >>= λ r. some (num (number_value r.0), r.1)
      ]
    ]
  ]

  -- A member in front of those that follow it.
  unfoldable pub add_member : Str → Value Num → Fields Num → Fields Num
  unfolding get remove
  add_member k v fs = elim (get k fs) [ none ↦ field k v fs | some w ↦ field k w (remove k fs) ]

  -- What stands after the first code unit of a value, given how items and members are read.
  unfoldable pub read_token :
      (Str → Option (Items Num × Str))
      → (Str → Option (Fields Num × Str))
      → Token
      → Option (Value Num × Str)
  unfolding scan_string expect parse_scalar
  read_token items members (quote r) = scan_string plain r >>= λ t. some (str t.0, t.1)
  read_token items members (bracket r) = elim (expect b']' r) [
    | some r' ↦ some (arr nil, r')
    | none ↦ items r >>= λ xs. some (arr xs.0, xs.1)
  ]
  read_token items members (brace r) = elim (expect b'}' r) [
    | some r' ↦ some (obj end, r')
    | none ↦ members r >>= λ fs. some (obj fs.0, fs.1)
  ]
  read_token items members (scalar r) = parse_scalar r

  -- A comma and the items after it, or the closing bracket.
  unfoldable pub more_items :
      (Str → Option (Items Num × Str)) → Value Num × Str → Option (Items Num × Str)
  unfolding expect
  more_items items v = elim (expect b',' v.1) [
    | some r ↦ items r >>= λ xs. some (cons v.0 xs.0, xs.1)
    | none ↦ expect b']' v.1 >>= λ r. some (cons v.0 nil, r)
  ]

  -- A key and the text behind its colon.
  unfoldable pub member_key : Str → Option (Str × Str)
  unfolding expect scan_string
  member_key s =
      expect b'"' s >>= λ q. scan_string plain q >>= λ k. expect b':' k.1 >>= λ c. some (k.0, c)

  -- A comma and the members after it, or the closing brace.
  unfoldable pub more_members :
      (Str → Option (Fields Num × Str)) → Str → Value Num × Str → Option (Fields Num × Str)
  unfolding expect add_member
  more_members members k v = elim (expect b',' v.1) [
    | some r ↦ members r >>= λ fs. some (add_member k v.0 fs.0, fs.1)
    | none ↦ expect b'}' v.1 >>= λ r. some (field k v.0 end, r)
  ]

  -- With fuel for the nesting and the members read; `parse` gives enough.
  unfoldable mutual
    unfolding token read_token more_items member_key more_members

    pub parse_value : ℕ → Str → Option (Value Num × Str)
    parse_value zero s = none
    parse_value (suc f) s = read_token (parse_items f) (parse_members f) (token s)

    pub parse_items : ℕ → Str → Option (Items Num × Str)
    parse_items zero s = none
    parse_items (suc f) s = parse_value f s >>= more_items (parse_items f)

    pub parse_members : ℕ → Str → Option (Fields Num × Str)
    parse_members zero s = none
    parse_members (suc f) s =
        member_key s >>= λ k. parse_value f k.1 >>= more_members (parse_members f) k.0

  abbrev pub whole : Value Num × Str → Option (Value Num)
  whole (v, rest) = elim (skip_space rest) [ [] ↦ some v | _ ∷ _ ↦ none ]

  -- `JSON.parse(s)`, `none` where it throws. Each level of nesting takes a code unit and at most two
  -- units of fuel, and each further member or element takes one of each.
  unfoldable pub parse : Str → Option (Value Num)
  unfolding parse_value token expect scan_string parse_scalar add_member
  parse s = parse_value (2 * length s + 2) s >>= whole
