-- ===== src/Jcs/Quoted.antt =====
-- The string literals of `JSON.stringify`, as `JSON.parse` reads them.
use veritrail.Prelude.{
  ℕ, ◌+◌, ◌*◌, ◌/◌, ◌%◌, ◌<◌, ◌≤◌, ◌≡◌, refl, sym, ap, ◌∙◌, ◌⊎◌, inl, inr, true, false, ◌||◌, List,
  [], ◌∷◌, ◌++◌, append_assoc, append-nil, arith, ltb, ◌==◌, if◌then◌else◌, Option, none, some, All,
  flat_map, Bool-cases, ◌>>=◌, ◌-◌,
}
use veritrail.Text.{Str}
use veritrail.Text.Hex.{hex_digit, hex_value}
use veritrail.Text.Utf8.{is_surrogate, code_points, point_units}
use veritrail.Text.Utf8.RoundTrip.{
  units-code_points, code_points-lt, IsText, IsText-append, IsText-ascii,
}
use veritrail.Value.Json.{plain, simple_escape, in_unicode, scan_string, scan_unit}
use veritrail.Jcs.{escape_point, unicode_escape, quote}

-- A 16-bit string.
abbrev pub IsStr : Str → Type 0
IsStr = All (λ c. c < 0x10000)

-- What is read, with more in front.
abbrev prepend : Str → Option (Str × Str) → Option (Str × Str)
prepend a o = o >>= λ r. some (a ++ r.0, r.1)

prepend_nil : (o : Option (Str × Str)) → prepend [] o ≡ o
prepend_nil none = refl
prepend_nil (some r) = refl

hex_value-hex_digit : (n : ℕ) → n < 16 → hex_value (hex_digit n) ≡ some n
unfolding hex_value
hex_value-hex_digit n h = ground arith

scan_digit :
    (more next acc n : ℕ) (tail : Str)
    → (more == 1) ≡ false
    → more - 1 ≡ next
    → n < 16
    → scan_string (in_unicode more acc) (hex_digit n ∷ tail)
      ≡ scan_string (in_unicode next (acc * 16 + n)) tail
unfolding scan_string scan_unit
scan_digit more next acc n tail e d h = rw (hex_value-hex_digit n h, e, d) (prepend_nil _)

scan_last_digit :
    (acc n : ℕ) (tail : Str)
    → n < 16
    → scan_string (in_unicode 1 acc) (hex_digit n ∷ tail)
      ≡ prepend ((acc * 16 + n) ∷ []) (scan_string plain tail)
unfolding scan_string scan_unit
scan_last_digit acc n tail h = rw (hex_value-hex_digit n h)

scan_unicode_mark :
    (tail : Str) → scan_string plain (b'\\' ∷ b'u' ∷ tail) ≡ scan_string (in_unicode 4 0) tail
unfolding scan_string scan_unit
scan_unicode_mark tail = prepend_nil _ ∙ prepend_nil _

scan_unicode :
    (c : ℕ) (tail : Str)
    → c < 0x10000
    → scan_string plain (unicode_escape c ++ tail) ≡ prepend (c ∷ []) (scan_string plain tail)
scan_unicode c tail h =
    scan_unicode_mark _
    ∙ scan_digit 4 3 0 (c / 4096) _ refl refl (omega arith)
    ∙ scan_digit 3 2 _ (c / 256 % 16) _ refl refl (omega arith)
    ∙ scan_digit 2 1 _ (c / 16 % 16) _ refl refl (omega arith)
    ∙ scan_last_digit _ (c % 16) tail (omega arith)
    ∙ ap (λ d. prepend (d ∷ []) (scan_string plain tail)) (omega arith)

prepend-prepend :
    (a b : Str) (o : Option (Str × Str)) → prepend a (prepend b o) ≡ prepend (a ++ b) o
prepend-prepend a b none = refl
prepend-prepend a b (some r) = ap (λ t. some (t, r.1)) (sym (append_assoc a b r.0))

scan_backslash :
    (c d : ℕ) (tail : Str)
    → simple_escape c ≡ some d
    → (c == b'u') ≡ false
    → scan_string plain (b'\\' ∷ c ∷ tail) ≡ prepend (d ∷ []) (scan_string plain tail)
unfolding scan_string scan_unit
scan_backslash c d tail e n = rw (n, e) (prepend_nil _)

scan_plain :
    (u : ℕ) (tail : Str)
    → (u == b'"') ≡ false
    → (u == b'\\') ≡ false
    → ltb u 32 ≡ false
    → scan_string plain (u ∷ tail) ≡ prepend (u ∷ []) (scan_string plain tail)
unfolding scan_string scan_unit
scan_plain u tail q b l = rw (q, b, l)

scan_pair :
    (u v : ℕ) (tail : Str)
    → 0xd800 ≤ u
    → 0xdc00 ≤ v
    → scan_string plain (u ∷ v ∷ tail) ≡ prepend (u ∷ v ∷ []) (scan_string plain tail)
scan_pair u v tail hu hv =
    scan_plain u (v ∷ tail) (ground arith) (ground arith) (ground arith)
    ∙ ap (prepend (u ∷ [])) (scan_plain v tail (ground arith) (ground arith) (ground arith))
    ∙ prepend-prepend (u ∷ []) (v ∷ []) (scan_string plain tail)

scan_units :
    (c : ℕ) (tail : Str)
    → (c == b'"') ≡ false
    → (c == b'\\') ≡ false
    → ltb c 32 ≡ false
    → scan_string plain (point_units c ++ tail) ≡ prepend (point_units c) (scan_string plain tail)
scan_units c tail q b l = elim (Bool-cases (ltb c 0x10000)) [
  | inl one ↦ rw one (scan_plain c tail q b l)
  | inr two ↦ rw two (
      scan_pair (0xd800 + (c - 0x10000) / 0x400) (0xdc00 + (c - 0x10000) % 0x400) tail (omega arith)
        (omega arith))
]

scan_special :
    (c : ℕ) (tail : Str)
    → (c == b'"' || c == b'\\') ≡ true
    → scan_string plain (b'\\' ∷ c ∷ tail) ≡ prepend (point_units c) (scan_string plain tail)
scan_special c tail h =
    let one : ◌≡◌ {A = Str} (c ∷ []) (point_units c) = ground arith in
    scan_backslash c c tail (unfold simple_escape in ground arith) (ground arith)
    ∙ ap (λ u. prepend u (scan_string plain tail)) one

scan_control :
    (c letter : ℕ) (tail : Str)
    → simple_escape letter ≡ some c
    → (letter == b'u') ≡ false
    → ltb c 0x10000 ≡ true
    → scan_string plain (b'\\' ∷ letter ∷ tail) ≡ prepend (point_units c) (scan_string plain tail)
scan_control c letter tail e n l = rw l (scan_backslash letter c tail e n)

-- A control character or a lone surrogate, and what is written as it stands.
scan_rest :
    (c : ℕ) (tail : Str)
    → (c == b'"' || c == b'\\') ≡ false
    → scan_string plain
        ((if ltb c 32 || is_surrogate c then unicode_escape c else point_units c) ++ tail)
      ≡ prepend (point_units c) (scan_string plain tail)
scan_rest c tail q = elim (Bool-cases (ltb c 32 || is_surrogate c)) [
  | inl e ↦
      let one : ◌≡◌ {A = Str} (c ∷ []) (point_units c) = ground arith in
      rw e (scan_unicode c tail (ground arith) ∙ ap (λ u. prepend u (scan_string plain tail)) one)
  | inr e ↦ rw e (scan_units c tail (ground arith) (ground arith) (ground arith))
]

scan_escape_point :
    (c : ℕ) (tail : Str)
    → scan_string plain (escape_point c ++ tail) ≡ prepend (point_units c) (scan_string plain tail)
unfolding escape_point simple_escape
scan_escape_point c tail = elim (Bool-cases (c == b'"' || c == b'\\')) [
  | inl e ↦ rw e (scan_special c tail e)
  | inr q ↦ rw q (elim (Bool-cases (c == 8)) [
    | inl e ↦ rw e (scan_control c b'b' tail (ground arith) refl (ground arith))
    | inr e8 ↦ rw e8 (elim (Bool-cases (c == 9)) [
      | inl e ↦ rw e (scan_control c b't' tail (ground arith) refl (ground arith))
      | inr e9 ↦ rw e9 (elim (Bool-cases (c == 10)) [
        | inl e ↦ rw e (scan_control c b'n' tail (ground arith) refl (ground arith))
        | inr e10 ↦ rw e10 (elim (Bool-cases (c == 12)) [
          | inl e ↦ rw e (scan_control c b'f' tail (ground arith) refl (ground arith))
          | inr e12 ↦ rw e12 (elim (Bool-cases (c == 13)) [
            | inl e ↦ rw e (scan_control c b'r' tail (ground arith) refl (ground arith))
            | inr e13 ↦ rw e13 (scan_rest c tail q)
          ])
        ])
      ])
    ])
  ])
]

scan_points :
    (ps : List ℕ) (rest : Str)
    → scan_string plain (flat_map escape_point ps ++ b'"' ∷ rest)
      ≡ some (flat_map point_units ps, rest)
scan_points [] rest = unfold scan_string in refl
scan_points (c ∷ ps) rest =
    ap (scan_string plain) (append_assoc (escape_point c) (flat_map escape_point ps) (b'"' ∷ rest))
    ∙ scan_escape_point c (flat_map escape_point ps ++ b'"' ∷ rest)
    ∙ ap (prepend (point_units c)) (scan_points ps rest)

-- The literal of a string is read back as that string, up to its closing quote.
pub scan_string-quote :
    (s : Str) (rest : Str)
    → IsStr s
    → scan_string plain (flat_map escape_point (code_points s) ++ b'"' ∷ rest) ≡ some (s, rest)
scan_string-quote s rest h =
    scan_points (code_points s) rest ∙ ap (λ t. some (t, rest)) (units-code_points s h)

escape_point_cases :
    (c : ℕ)
    → All (λ u. u < 128) (escape_point c)
      ⊎ ((escape_point c ≡ point_units c) × (is_surrogate c ≡ false))
unfolding escape_point
escape_point_cases c = elim (Bool-cases (ltb c 128)) [
  | inl small ↦ inl (ground arith)
  | inr big ↦ elim (Bool-cases (is_surrogate c)) [
    | inl lone ↦ inl (ground arith)
    | inr scalar ↦ inr (ground arith, scalar)
  ]
]

escape_point-IsText : (c : ℕ) → c < 0x110000 → IsText (escape_point c)
escape_point-IsText c h = elim (escape_point_cases c) [
  | inl ascii ↦ IsText-ascii _ ascii
  | inr (same, scalar) ↦ record {
    points = c ∷ [];
    scalar = ((h, scalar), tt);
    units_are = same ∙ sym (append-nil _);
  }
]

flat_map-IsText : (ps : List ℕ) → All (λ c. c < 0x110000) ps → IsText (flat_map escape_point ps)
flat_map-IsText [] h = IsText-ascii [] tt
flat_map-IsText (c ∷ ps) (hc, h) = IsText-append (escape_point-IsText c hc) (flat_map-IsText ps h)

-- A literal has no lone surrogate, whatever the string.
pub quote-IsText : (s : Str) → IsStr s → IsText (quote s)
unfolding quote
quote-IsText s h = IsText-append {a = b'"' ∷ []} (IsText-ascii _ (omega arith)) (
    IsText-append (flat_map-IsText (code_points s) (code_points-lt s h))
      (IsText-ascii (b'"' ∷ []) (omega arith)))
