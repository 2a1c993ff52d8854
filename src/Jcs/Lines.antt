-- ===== src/Jcs/Lines.antt =====
-- The line breaks in the texts of ts/src/commands/jcs.ts.
use veritrail.Prelude.{
  ℕ, ◌/◌, ◌%◌, ◌≡◌, refl, true, false, List, [], ◌∷◌, ◌++◌, map, arith, All, All-append, ◌==◌,
  flat_map,
}
use veritrail.Platform.{Platform}
use veritrail.Text.{Str, codes, join}
use veritrail.Text.Hex.{hex_digit}
use veritrail.Text.Utf8.{code_points, point_units}
use veritrail.Value.{
  Value, undefined, null, bool, num, str, arr, obj, Items, nil, cons, Fields, end, field,
}
use veritrail.Jcs.{
  escape_point, unicode_escape, quote, jcs_string, jcs_items, jcs_members, array_text, object_text,
  member_text, Members,
}
use veritrail.Jcs.Sorting.{All-sort_keys}

-- A text on one line.
abbrev pub IsLine : Str → Type 0
IsLine = All (λ c. (c == 10) ≡ false)

abbrev append-IsLine : (s t : Str) → IsLine s → IsLine t → IsLine (s ++ t)
append-IsLine s t h k = All-append (λ c. (c == 10) ≡ false) s t h k

hex_digit-IsLine : (n : ℕ) → (hex_digit n == 10) ≡ false
hex_digit-IsLine n = ground arith

unicode_escape-IsLine : (c : ℕ) → IsLine (unicode_escape c)
unicode_escape-IsLine c = (
  refl,
  (
    refl,
    (
      hex_digit-IsLine (c / 4096),
      (
        hex_digit-IsLine (c / 256 % 16),
        (hex_digit-IsLine (c / 16 % 16), (hex_digit-IsLine (c % 16), tt)),
      ),
    ),
  ),
)

point_units-IsLine : (c : ℕ) → (c == 10) ≡ false → IsLine (point_units c)
point_units-IsLine c h = ground arith

escape_point-IsLine : (c : ℕ) → IsLine (escape_point c)
unfolding escape_point
escape_point-IsLine c = ground (arith, unicode_escape-IsLine c, point_units-IsLine c)

points-IsLine : (ps : List ℕ) → IsLine (flat_map escape_point ps)
points-IsLine [] = tt
points-IsLine (c ∷ ps) = append-IsLine (escape_point c) _ (escape_point-IsLine c) (points-IsLine ps)

pub quote-IsLine : (s : Str) → IsLine (quote s)
unfolding quote
quote-IsLine s = (
  refl,
  append-IsLine (flat_map escape_point (code_points s)) (b'"' ∷ []) (points-IsLine (code_points s))
      (refl, tt),
)

join-IsLine : (xs : List Str) → All IsLine xs → IsLine (join (codes ",") xs)
unfolding join
join-IsLine [] h = tt
join-IsLine (x ∷ []) (hx, h) = hx
join-IsLine (x ∷ y ∷ xs) (hx, h) =
    append-IsLine (x ++ codes ",") (join (codes ",") (y ∷ xs))
      (append-IsLine x (codes ",") hx (refl, tt)) (join-IsLine (y ∷ xs) h)

enclosed-IsLine :
    (a b : ℕ) (s : Str)
    → (a == 10) ≡ false
    → (b == 10) ≡ false
    → IsLine s
    → IsLine (a ∷ (s ++ b ∷ []))
enclosed-IsLine a b s ha hb h = (ha, append-IsLine s (b ∷ []) h (hb, tt))

members-IsLine : (ms : Members) → All (λ m. IsLine m.1) ms → All IsLine (map member_text ms)
members-IsLine [] h = tt
members-IsLine (m ∷ ms) (hm, h) =
    (append-IsLine (quote m.0) (b':' ∷ m.1) (quote-IsLine m.0) (refl, hm), members-IsLine ms h)

module _ (p : Platform) (numbers : (n : p.Num) → IsLine (p.number_text n)) where
  open p use {Num}

  mutual
    unfolding jcs_string array_text object_text

    value-IsLine : (v : Value Num) → IsLine (jcs_string p v)
    value-IsLine undefined = (refl, (refl, (refl, (refl, tt))))
    value-IsLine null = (refl, (refl, (refl, (refl, tt))))
    value-IsLine (bool true) = (refl, (refl, (refl, (refl, tt))))
    value-IsLine (bool false) = (refl, (refl, (refl, (refl, (refl, tt)))))
    value-IsLine (num n) = numbers n
    value-IsLine (str s) = quote-IsLine s
    value-IsLine (arr xs) =
        enclosed-IsLine b'[' b']' _ refl refl (join-IsLine (jcs_items p xs) (items-IsLine xs))
    value-IsLine (obj fs) = enclosed-IsLine b'{' b'}' _ refl refl (
        join-IsLine _ (
          members-IsLine _ (All-sort_keys (λ m. IsLine m.1) (jcs_members p fs) (fields-IsLine fs))))

    items-IsLine : (xs : Items Num) → All IsLine (jcs_items p xs)
    items-IsLine nil = tt
    items-IsLine (cons v xs) = (value-IsLine v, items-IsLine xs)

    fields-IsLine : (fs : Fields Num) → All (λ m. IsLine m.1) (jcs_members p fs)
    fields-IsLine end = tt
    fields-IsLine (field k v fs) = (value-IsLine v, fields-IsLine fs)

  pub jcs_string-IsLine : (v : Value Num) → IsLine (jcs_string p v)
  jcs_string-IsLine v = value-IsLine v
