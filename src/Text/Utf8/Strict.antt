-- ===== src/Text/Utf8/Strict.antt =====
-- `new TextDecoder('utf-8', { fatal: true })`: which bytes it accepts.
use veritrail.Prelude.{
  some-injective, ℕ, zero, suc, subst, ◌+◌, ◌-◌, ◌*◌, ◌≤◌, ◌<◌, ◌≡◌, ◌↔◌, refl, sym, ap, ◌∙◌, true,
  false, List, [], ◌∷◌, ◌++◌, Option, none, some, arith, flat_map, >>=-eq-some, within, ltb, ◌==◌,
  inl, inr, Bool-cases, All, length, if◌then◌else◌,
}
use veritrail.Text.Utf8.RoundTrip.{IsScalar}
use veritrail.Text.Utf8.{
  encode_point, decode_from, strict_points, strict_utf8, drop_bom, point_units, start, inside,
  lead_byte, decode_byte,
}
use veritrail.Text.Utf8.RoundTrip.{decode_from-flat_map, strict_points-map}
use veritrail.Text.Utf8.Inner.{Inner, Last, no_error, inner, last}
use veritrail.Text.Utf8.Forms.{
  two_form, two_scalar, three_form, three_scalar, four_form, four_scalar,
}

-- One character: its bytes are the UTF-8 form of a scalar value.
pub record Decoded (bytes ps : List ℕ) : Type 0 where
  pub point : ℕ
  pub rest : List ℕ
  pub points : List ℕ
  pub bytes_are : bytes ≡ encode_point point ++ rest
  pub shorter : length rest < length bytes
  pub is_scalar : IsScalar point
  pub points_are : ps ≡ point ∷ points
  pub later : strict_points (decode_from start rest) ≡ some points

module _ (b : ℕ) (bs : List ℕ) where
  decode_from-ascii : ltb b 0x80 ≡ true → decode_from start (b ∷ bs) ≡ some b ∷ decode_from start bs
  unfolding decode_from decode_byte lead_byte
  decode_from-ascii e = rw e refl

  module _ (a : ltb b 0x80 ≡ false) where
    decode_from-two :
        within 0xc2 0xdf b ≡ true
        → decode_from start (b ∷ bs) ≡ decode_from (inside 1 0x80 0xbf (b - 0xc0)) bs
    unfolding decode_from decode_byte lead_byte
    decode_from-two e = rw (a, e) refl

    module _ (t : within 0xc2 0xdf b ≡ false) where
      decode_from-three :
          within 0xe0 0xef b ≡ true
          → decode_from start (b ∷ bs)
            ≡ decode_from
                (inside 2
                  (if b == 0xe0 then 0xa0 else 0x80)
                  (if b == 0xed then 0x9f else 0xbf)
                  (b - 0xe0))
                bs
      unfolding decode_from decode_byte lead_byte
      decode_from-three e = rw (a, t, e) refl

      decode_from-four :
          within 0xe0 0xef b ≡ false
          → within 0xf0 0xf4 b ≡ true
          → decode_from start (b ∷ bs)
            ≡ decode_from
                (inside 3
                  (if b == 0xf0 then 0x90 else 0x80)
                  (if b == 0xf4 then 0x8f else 0xbf)
                  (b - 0xf0))
                bs
      unfolding decode_from decode_byte lead_byte
      decode_from-four d e = rw (a, t, d, e) refl

      decode_from-invalid :
          within 0xe0 0xef b ≡ false
          → within 0xf0 0xf4 b ≡ false
          → (out : List (Option ℕ)) × (decode_from start (b ∷ bs) ≡ none ∷ out)
      unfolding decode_from decode_byte lead_byte
      decode_from-invalid d e = rw (a, t, d, e) (_, refl)

  ascii :
      (ps : List ℕ)
      → ltb b 0x80 ≡ true
      → strict_points (decode_from start (b ∷ bs)) ≡ some ps
      → Decoded (b ∷ bs) ps
  unfolding encode_point strict_points
  ascii ps e h =
      let (qs, is, same) =
        >>=-eq-some (strict_points (decode_from start bs)) _
          (ap strict_points (sym (decode_from-ascii e)) ∙ h) in
      record {
        point = b;
        rest = bs;
        points = qs;
        bytes_are = rw e refl;
        shorter = omega arith;
        is_scalar = (ground arith, ground arith);
        points_are = sym (some-injective same);
        later = is;
      }

  two : (ps : List ℕ) → 0xc2 ≤ b → b ≤ 0xdf → Last 0x80 0xbf (b - 0xc0) bs ps → Decoded (b ∷ bs) ps
  two ps l h k = record {
    point = (b - 0xc0) * 64 + (k.byte - 0x80);
    rest = k.rest;
    points = k.points;
    bytes_are = rw (k.bytes_are, two_form b k.byte l h k.low k.high) refl;
    shorter = rw k.bytes_are (omega arith);
    is_scalar = two_scalar b k.byte l h k.low k.high;
    points_are = k.points_are;
    later = k.later;
  }

  three :
      (ps : List ℕ)
      → 0xe0 ≤ b
      → b ≤ 0xef
      → Inner 1
          (if b == 0xe0 then 0xa0 else 0x80)
          (if b == 0xed then 0x9f else 0xbf)
          (b - 0xe0)
          bs
          ps
      → Decoded (b ∷ bs) ps
  three ps l h i =
      let k = last 0x80 0xbf ((b - 0xe0) * 64 + (i.byte - 0x80)) i.rest ps i.later in
      record {
        point = ((b - 0xe0) * 64 + (i.byte - 0x80)) * 64 + (k.byte - 0x80);
        rest = k.rest;
        points = k.points;
        bytes_are =
            rw (i.bytes_are, k.bytes_are, three_form b i.byte k.byte l h i.low i.high k.low k.high)
              refl;
        shorter = rw (i.bytes_are, k.bytes_are) (omega arith);
        is_scalar = three_scalar b i.byte k.byte l h i.low i.high k.low k.high;
        points_are = k.points_are;
        later = k.later;
      }

  four :
      (ps : List ℕ)
      → 0xf0 ≤ b
      → b ≤ 0xf4
      → Inner 2
          (if b == 0xf0 then 0x90 else 0x80)
          (if b == 0xf4 then 0x8f else 0xbf)
          (b - 0xf0)
          bs
          ps
      → Decoded (b ∷ bs) ps
  four ps l h i =
      let j = inner 2 0x80 0xbf ((b - 0xf0) * 64 + (i.byte - 0x80)) i.rest ps refl i.later in
      let k =
        last 0x80 0xbf (((b - 0xf0) * 64 + (i.byte - 0x80)) * 64 + (j.byte - 0x80)) j.rest ps
          j.later in
      record {
        point = (((b - 0xf0) * 64 + (i.byte - 0x80)) * 64 + (j.byte - 0x80)) * 64 + (k.byte - 0x80);
        rest = k.rest;
        points = k.points;
        bytes_are =
            rw
              (
                i.bytes_are,
                j.bytes_are,
                k.bytes_are,
                four_form b i.byte j.byte k.byte l h i.low i.high j.low j.high k.low k.high,
              )
              refl;
        shorter = rw (i.bytes_are, j.bytes_are, k.bytes_are) (omega arith);
        is_scalar = four_scalar b i.byte j.byte k.byte l h i.low i.high j.low j.high k.low k.high;
        points_are = k.points_are;
        later = k.later;
      }

  decoded :
      (ps : List ℕ) → strict_points (decode_from start (b ∷ bs)) ≡ some ps → Decoded (b ∷ bs) ps
  decoded ps h = elim (Bool-cases (ltb b 0x80)) [
    | inl a ↦ ascii ps a h
    | inr a ↦ elim (Bool-cases (within 0xc2 0xdf b)) [
      | inl e ↦
          two ps (ground arith) (ground arith)
            (last 0x80 0xbf (b - 0xc0) bs ps (ap strict_points (sym (decode_from-two a e)) ∙ h))
      | inr t ↦ elim (Bool-cases (within 0xe0 0xef b)) [
        | inl e ↦ three ps (ground arith) (ground arith) (
            inner 2 _ _ (b - 0xe0) bs ps refl
              (ap strict_points (sym (decode_from-three a t e)) ∙ h))
        | inr d ↦ elim (Bool-cases (within 0xf0 0xf4 b)) [
          | inl e ↦ four ps (ground arith) (ground arith) (
              inner 3 _ _ (b - 0xf0) bs ps refl
                (ap strict_points (sym (decode_from-four a t d e)) ∙ h))
          | inr e ↦ no_error _ ps (decode_from-invalid a t d e) h
        ]
      ]
    ]
  ]

-- The bytes are the UTF-8 form of these scalar values.
abbrev pub IsUtf8 : List ℕ → List ℕ → Type 0
IsUtf8 bytes points = (bytes ≡ flat_map encode_point points) × All IsScalar points

strict_points-IsUtf8 :
    (n : ℕ) (bytes ps : List ℕ)
    → length bytes ≤ n
    → strict_points (decode_from start bytes) ≡ some ps
    → IsUtf8 bytes ps
strict_points-IsUtf8 n [] ps le h =
    unfold decode_from strict_points in
    (let none_left : [] ≡ ps = some-injective h in rw (← none_left) (refl, tt))
strict_points-IsUtf8 zero (b ∷ bs) ps le h = absurd (omega arith)
strict_points-IsUtf8 (suc n) (b ∷ bs) ps le h =
    let d = decoded b bs ps h in
    let (same, scalar) =
      strict_points-IsUtf8 n d.rest d.points (omega (arith, d.shorter)) d.later in
    (
      d.bytes_are
          ∙ ap (λ r. encode_point d.point ++ r) same
          ∙ ap (flat_map encode_point) (sym d.points_are),
      subst (All IsScalar) (sym d.points_are) (d.is_scalar, scalar),
    )

-- `strictUtf8` returns a text exactly if the bytes are the UTF-8 form of a sequence of scalar values:
-- the text of these, less a byte order mark in front. For any other bytes it fails.
pub strict_utf8_iff :
    (bytes s : List ℕ)
    → (strict_utf8 bytes ≡ some s)
      ↔ ((points : List ℕ) × IsUtf8 bytes points × (s ≡ flat_map point_units (drop_bom points)))
unfolding strict_utf8
strict_utf8_iff bytes s = (forth, back)
  where
    forth :
        strict_utf8 bytes ≡ some s
        → (points : List ℕ) × IsUtf8 bytes points × (s ≡ flat_map point_units (drop_bom points))
    forth h =
        let (ps, is, same) = >>=-eq-some (strict_points (decode_from start bytes)) _ h in
        (
          ps,
          strict_points-IsUtf8 (length bytes) bytes ps (omega arith) is,
          sym (some-injective same),
        )

    back :
        (points : List ℕ) × IsUtf8 bytes points × (s ≡ flat_map point_units (drop_bom points))
        → strict_utf8 bytes ≡ some s
    back (ps, (same, scalar), text) =
        rw (same, text, strict_utf8, decode_from-flat_map ps scalar, strict_points-map ps) refl
