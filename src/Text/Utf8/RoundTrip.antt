-- ===== src/Text/Utf8/RoundTrip.antt =====
-- UTF-8 and UTF-16 of the same text: what `Buffer.from(s, 'utf8')` writes is read back.
use veritrail.Prelude.{
  ℕ, ◌<◌, ◌≡◌, refl, sym, ap, ◌∙◌, inl, inr, true, false, List, [], ◌∷◌, ◌++◌, map, arith, ltb,
  Option, none, some, All, All-append, flat_map, flat_map-append, Bool-cases,
}
use veritrail.Text.Utf8.{
  is_surrogate, is_high, is_low, points_from, code_points, point_units, encode_point, encode_utf8,
  start, decode_from, lossy_units, lossy_utf8, strict_points, drop_bom, strict_utf8,
}

-- A Unicode scalar value.
abbrev pub IsScalar : ℕ → Type 0
IsScalar c = (c < 0x110000) × (is_surrogate c ≡ false)

one_byte :
    (c : ℕ) (rest : List ℕ)
    → c < 0x80
    → decode_from start (encode_point c ++ rest) ≡ some c ∷ decode_from start rest
unfolding decode_from encode_point
one_byte c rest h = ground arith

two_bytes :
    (c : ℕ) (rest : List ℕ)
    → ltb c 0x80 ≡ false
    → c < 0x800
    → decode_from start (encode_point c ++ rest) ≡ some c ∷ decode_from start rest
unfolding decode_from encode_point
two_bytes c rest l h = ground arith

three_bytes :
    (c : ℕ) (rest : List ℕ)
    → ltb c 0x800 ≡ false
    → c < 0x10000
    → is_surrogate c ≡ false
    → decode_from start (encode_point c ++ rest) ≡ some c ∷ decode_from start rest
unfolding decode_from encode_point
three_bytes c rest l h s = ground arith

four_bytes :
    (c : ℕ) (rest : List ℕ)
    → ltb c 0x10000 ≡ false
    → c < 0x110000
    → decode_from start (encode_point c ++ rest) ≡ some c ∷ decode_from start rest
unfolding decode_from encode_point
four_bytes c rest l h = ground arith

points_from-point_units :
    (c : ℕ) (rest : List ℕ)
    → IsScalar c
    → points_from none (point_units c ++ rest) ≡ c ∷ points_from none rest
unfolding points_from
points_from-point_units c rest h = ground arith

decode_from-encode_point :
    (c : ℕ) (rest : List ℕ)
    → IsScalar c
    → decode_from start (encode_point c ++ rest) ≡ some c ∷ decode_from start rest
decode_from-encode_point c rest (h, s) = elim (Bool-cases (ltb c 0x80)) [
  | inl l ↦ one_byte c rest (ground arith)
  | inr l ↦ elim (Bool-cases (ltb c 0x800)) [
    | inl m ↦ two_bytes c rest l (ground arith)
    | inr m ↦ elim (Bool-cases (ltb c 0x10000)) [
      | inl n ↦ three_bytes c rest m (ground arith) s
      | inr n ↦ four_bytes c rest n h
    ]
  ]
]

pub decode_from-flat_map :
    (ps : List ℕ) → All IsScalar ps → decode_from start (flat_map encode_point ps) ≡ map some ps
decode_from-flat_map [] h = unfold decode_from in refl
decode_from-flat_map (c ∷ ps) (hc, h) =
    decode_from-encode_point c (flat_map encode_point ps) hc
    ∙ ap (◌∷◌ (some c)) (decode_from-flat_map ps h)

points_from-flat_map :
    (ps : List ℕ) → All IsScalar ps → points_from none (flat_map point_units ps) ≡ ps
points_from-flat_map [] h = unfold points_from in refl
points_from-flat_map (c ∷ ps) (hc, h) =
    points_from-point_units c (flat_map point_units ps) hc ∙ ap (◌∷◌ c) (points_from-flat_map ps h)

pub strict_points-map : (ps : List ℕ) → strict_points (map some ps) ≡ some ps
unfolding strict_points
strict_points-map [] = refl
strict_points-map (c ∷ ps) = rw (strict_points-map ps)

-- A text with no lone surrogate: the UTF-16 form of scalar values.
pub record IsText (s : List ℕ) : Type 0 where
  pub points : List ℕ
  pub scalar : All IsScalar points
  pub units_are : s ≡ flat_map point_units points

abbrev pub text_of : (ps : List ℕ) → All IsScalar ps → IsText (flat_map point_units ps)
text_of ps h = record { points = ps; scalar = h; units_are = refl }

pub IsText-append : {a b : List ℕ} → IsText a → IsText b → IsText (a ++ b)
IsText-append x y = record {
  points = x.points ++ y.points;
  scalar = All-append IsScalar x.points y.points x.scalar y.scalar;
  units_are = rw (x.units_are, y.units_are) (sym (flat_map-append point_units x.points y.points));
}

-- ASCII text stands for itself.
pub IsText-ascii : (s : List ℕ) → All (λ c. c < 128) s → IsText s
IsText-ascii [] h = text_of [] tt
IsText-ascii (c ∷ s) (hc, h) =
    IsText-append {a = c ∷ []}
      (record { points = c ∷ []; scalar = ground arith; units_are = ground arith })
      (IsText-ascii s h)

pub encode_utf8-IsText :
    {s : List ℕ} (t : IsText s) → encode_utf8 s ≡ flat_map encode_point t.points
unfolding encode_utf8
encode_utf8-IsText t = rw (t.units_are, points_from-flat_map t.points t.scalar)

-- The strict decoder reads back a text that does not begin with a byte order mark.
pub strict_utf8-encode_utf8 :
    (s : List ℕ) (t : IsText s)
    → drop_bom t.points ≡ t.points
    → strict_utf8 (encode_utf8 s) ≡ some s
unfolding strict_utf8
strict_utf8-encode_utf8 s t no_bom = rw (
  encode_utf8-IsText t,
  strict_utf8,
  decode_from-flat_map t.points t.scalar,
  strict_points-map t.points,
  no_bom,
  ← t.units_are,
)

lossy_units-map : (ps : List ℕ) → flat_map lossy_units (map some ps) ≡ flat_map point_units ps
unfolding lossy_units
lossy_units-map [] = refl
lossy_units-map (c ∷ ps) = rw (lossy_units-map ps)

-- `Buffer.from(s, 'utf8').toString('utf8')` is `s`, for a text with no lone surrogate.
pub lossy_utf8-encode_utf8 : (s : List ℕ) → IsText s → lossy_utf8 (encode_utf8 s) ≡ s
unfolding lossy_utf8
lossy_utf8-encode_utf8 s t =
    rw (encode_utf8-IsText t, decode_from-flat_map t.points t.scalar, lossy_units-map t.points)
      (sym t.units_are)

encode_point-IsBytes : (c : ℕ) → c < 0x110000 → All (λ b. b < 256) (encode_point c)
unfolding encode_point
encode_point-IsBytes c h = ground arith

pub encode_utf8-IsBytes : {s : List ℕ} → IsText s → All (λ b. b < 256) (encode_utf8 s)
encode_utf8-IsBytes t = rw (encode_utf8-IsText t) (go t.points t.scalar)
  where
    go : (ps : List ℕ) → All IsScalar ps → All (λ b. b < 256) (flat_map encode_point ps)
    go [] h = tt
    go (c ∷ ps) (hc, h) =
        All-append (λ b. b < 256) (encode_point c) (flat_map encode_point ps)
          (encode_point-IsBytes c hc.0) (go ps h)

abbrev IsPending : Option ℕ → Type 0
IsPending none = Unit
IsPending (some d) = is_high d ≡ true

abbrev held : Option ℕ → List ℕ
held none = []
held (some d) = d ∷ []

-- The points of a string give back its code units.
units-points_from :
    (pending : Option ℕ) (s : List ℕ)
    → All (λ c. c < 0x10000) s
    → IsPending pending
    → flat_map point_units (points_from pending s) ≡ held pending ++ s
unfolding points_from
units-points_from none [] h k = refl
units-points_from (some d) [] h k = ground arith
units-points_from none (c ∷ cs) (hc, h) k = elim (Bool-cases (is_high c)) [
  | inl high ↦ rw high (units-points_from (some c) cs h high)
  | inr low ↦ rw low (ground (arith, units-points_from none cs h tt))
]
units-points_from (some d) (c ∷ cs) (hc, h) k = elim (Bool-cases (is_low c)) [
  | inl low ↦ rw low (ground (arith, units-points_from none cs h tt))
  | inr other ↦ elim (Bool-cases (is_high c)) [
    | inl high ↦ rw (other, high) (ground (arith, units-points_from (some c) cs h high))
    | inr plain ↦ rw (other, plain) (ground (arith, units-points_from none cs h tt))
  ]
]

pub units-code_points :
    (s : List ℕ) → All (λ c. c < 0x10000) s → flat_map point_units (code_points s) ≡ s
units-code_points s h = units-points_from none s h tt

points_from-lt :
    (pending : Option ℕ) (s : List ℕ)
    → All (λ c. c < 0x10000) s
    → IsPending pending
    → All (λ c. c < 0x110000) (points_from pending s)
unfolding points_from
points_from-lt none [] h k = tt
points_from-lt (some d) [] h k = ground arith
points_from-lt none (c ∷ cs) (hc, h) k = elim (Bool-cases (is_high c)) [
  | inl high ↦ rw high (points_from-lt (some c) cs h high)
  | inr low ↦ rw low (ground (arith, points_from-lt none cs h tt))
]
points_from-lt (some d) (c ∷ cs) (hc, h) k = elim (Bool-cases (is_low c)) [
  | inl low ↦ rw low (ground (arith, points_from-lt none cs h tt))
  | inr other ↦ elim (Bool-cases (is_high c)) [
    | inl high ↦ rw (other, high) (ground (arith, points_from-lt (some c) cs h high))
    | inr plain ↦ rw (other, plain) (ground (arith, points_from-lt none cs h tt))
  ]
]

pub code_points-lt :
    (s : List ℕ) → All (λ c. c < 0x10000) s → All (λ c. c < 0x110000) (code_points s)
code_points-lt s h = points_from-lt none s h tt
