-- ===== src/Text.antt =====
-- JavaScript strings (sequences of UTF-16 code units) and byte buffers, with the operations of the
-- standard library that ts/src uses on them.
pub mod Utf8
pub mod Base64
pub mod Hex
use Prim.Native.Char.{code}
use Prim.Native.String.{String}
use veritrail.Prelude.{
  ℕ, ◌≡◌, refl, ap, ◌↔◌, Bool, true, false, ◌&&◌, ◌||◌, List, [], ◌∷◌, ◌++◌, arith, ltb, ◌==◌,
  if◌then◌else◌, Option, none, some,
}

-- A string as its UTF-16 code units.
abbrev pub Str : Type 0
Str = List ℕ

-- A `Buffer` as its bytes.
abbrev pub Bytes : Type 0
Bytes = List ℕ

-- An ASCII literal of the source.
abbrev pub codes : String → Str
codes String.[] = []
codes (String.◌∷◌ c s) = code c ∷ codes s

-- `a === b` on strings, and `a.equals(b)` on buffers.
unfoldable pub str_eq : Str → Str → Bool
str_eq [] [] = true
str_eq (x ∷ xs) (y ∷ ys) = x == y && str_eq xs ys
str_eq _ _ = false

pub str_eq_iff : (a b : Str) → (str_eq a b ≡ true) ↔ (a ≡ b)
unfolding str_eq
str_eq_iff (x ∷ a) (y ∷ b) = ground (arith, str_eq_iff a b)
str_eq_iff _ _ = ground arith

pub str_eq_refl : (a : Str) → str_eq a a ≡ true
str_eq_refl a = (str_eq_iff a a).1 refl

-- `a < b` on strings, by code units: the order of `Array.prototype.sort` with no comparator.
unfoldable pub str_lt : Str → Str → Bool
str_lt [] [] = false
str_lt [] (_ ∷ _) = true
str_lt (_ ∷ _) [] = false
str_lt (x ∷ xs) (y ∷ ys) = ltb x y || x == y && str_lt xs ys

-- `xs.includes(s)`
unfoldable pub str_in : Str → List Str → Bool
unfolding str_eq
str_in s [] = false
str_in s (x ∷ xs) = str_eq x s || str_in s xs

-- `xs.join(sep)`
unfoldable pub join : Str → List Str → Str
join sep [] = []
join sep (x ∷ []) = x
join sep (x ∷ y ∷ xs) = x ++ sep ++ join sep (y ∷ xs)

-- One more code unit in front of the first part.
abbrev pub cons_part : ℕ → List Str → List Str
cons_part c [] = (c ∷ []) ∷ []
cons_part c (p ∷ ps) = (c ∷ p) ∷ ps

-- `s.split(sep)` at a separator of one code unit.
unfoldable pub split : ℕ → Str → List Str
split sep [] = [] ∷ []
split sep (c ∷ cs) = if c == sep then [] ∷ split sep cs else cons_part c (split sep cs)
