-- ===== src/Text/Utf8/Decoders.antt =====
-- The strict and the lenient UTF-8 decoder, compared.
use veritrail.Prelude.{
  some-injective, ℕ, ◌≡◌, refl, ap, ◌∙◌, List, [], ◌∷◌, Option, none, some, arith, flat_map,
  >>=-eq-some,
}
use veritrail.Text.Utf8.{
  encode_utf8, points_from, pair_step, encode_point, decode_from, strict_points, strict_utf8,
  lossy_utf8, drop_bom, point_units, start, lossy_units, lead_byte, decode_byte,
}

lossy_units-strict_points :
    (out : List (Option ℕ)) (ps : List ℕ)
    → strict_points out ≡ some ps
    → flat_map lossy_units out ≡ flat_map point_units ps
unfolding strict_points lossy_units
lossy_units-strict_points [] ps h = ground arith
lossy_units-strict_points (none ∷ out) ps h = cc
lossy_units-strict_points (some c ∷ out) ps h =
    let (qs, e, same) = >>=-eq-some (strict_points out) _ h in
    rw (lossy_units-strict_points out qs e) (ap (flat_map point_units) (some-injective same))

-- A text whose first byte is that of a brace, so that no byte order mark is dropped.
pub lossy_utf8-strict_utf8 :
    (rest : List ℕ) (s : List ℕ) → strict_utf8 (b'{' ∷ rest) ≡ some s → lossy_utf8 (b'{' ∷ rest) ≡ s
unfolding strict_utf8 lossy_utf8 decode_from decode_byte lead_byte strict_points lossy_units
    drop_bom
lossy_utf8-strict_utf8 rest s h =
    let (ps, e, same) = >>=-eq-some (strict_points (some b'{' ∷ decode_from start rest)) _ h in
    let (qs, e', same') = >>=-eq-some (strict_points (decode_from start rest)) _ e in
    ap (◌∷◌ b'{') (lossy_units-strict_points (decode_from start rest) qs e')
    ∙ ap (λ qs. flat_map point_units (drop_bom qs)) (some-injective same')
    ∙ some-injective same

pub encode_utf8-brace : (s : List ℕ) → encode_utf8 (b'{' ∷ s) ≡ b'{' ∷ encode_utf8 s
unfolding encode_utf8 points_from pair_step encode_point
encode_utf8-brace s = refl
