-- ===== src/Go/Sse/Agreement.antt =====
-- The events of a stream in go/veritrail.go and in ts/src/commands/sse-outputs-hash.ts.
use veritrail.Prelude.{
  ℕ, ◌<◌, ◌≡◌, refl, sym, ap, ◌∙◌, true, false, not, ◌&&◌, List, [], ◌∷◌, ◌++◌, map, if◌then◌else◌,
  All, every, Bool, arith, ltb, flat_map,
}
use veritrail.Text.{Str, Bytes, codes, join}
use veritrail.Text.Utf8.{is_surrogate, point_units, encode_point, encode_utf8}
use veritrail.Text.Utf8.RoundTrip.{
  IsScalar, IsText, text_of, encode_utf8-IsText, lossy_utf8-encode_utf8,
}
use veritrail.Sse.{strip_bom, events, parse_sse}
use veritrail.Sse.Coding.{IsWide, WideCodes, IsCoding}
use veritrail.Sse.Coding.Fields.{events-flat_map, join-flat_map}
use veritrail.Go.Sse.{sse_decode}
use veritrail.Go.Sse.Lines.{decode_text-events}

-- A scalar value in the place of any code.
unfoldable scalar : ℕ → ℕ
scalar c = if ltb c 0x110000 && not (is_surrogate c) then c else 0xfffd

scalar-IsScalar : (c : ℕ) → IsScalar (scalar c)
unfolding scalar
scalar-IsScalar c = ground arith

scalar-eq : (c : ℕ) → IsScalar c → scalar c ≡ c
unfolding scalar
scalar-eq c (h, s) = ground arith

scalars-eq : (ps : List ℕ) → All IsScalar ps → map scalar ps ≡ ps
scalars-eq [] h = refl
scalars-eq (c ∷ ps) (hc, h) = rw (scalar-eq c hc, scalars-eq ps h) refl

scalars-IsScalar : (ps : List ℕ) → All IsScalar (map scalar ps)
scalars-IsScalar [] = tt
scalars-IsScalar (c ∷ ps) = (scalar-IsScalar c, scalars-IsScalar ps)

flat_map-map :
    (f : ℕ → List ℕ) (ps : List ℕ) → flat_map f (map scalar ps) ≡ flat_map (λ c. f (scalar c)) ps
flat_map-map f [] = refl
flat_map-map f (c ∷ ps) = ap (λ x. f (scalar c) ++ x) (flat_map-map f ps)

abbrev are_wide : List ℕ → Bool
are_wide [] = false
are_wide (c ∷ cs) = every (λ b. not (ltb b 128)) (c ∷ cs)

every-IsWide : (w : List ℕ) → every (λ b. not (ltb b 128)) w ≡ true → All IsWide w
every-IsWide [] h = tt
every-IsWide (c ∷ w) h = (ground arith, every-IsWide w (ground arith))

are_wide-WideCodes : (w : List ℕ) → are_wide w ≡ true → WideCodes w
are_wide-WideCodes [] h = cc
are_wide-WideCodes (c ∷ w) h = record {
  first = c;
  others = w;
  codes_are = refl;
  are_wide = every-IsWide (c ∷ w) h;
}

are_wide-point_units : (c : ℕ) → IsWide c → are_wide (point_units (scalar c)) ≡ true
unfolding scalar
are_wide-point_units c h = ground arith

are_wide-encode_point : (c : ℕ) → IsWide c → are_wide (encode_point (scalar c)) ≡ true
unfolding scalar encode_point
are_wide-encode_point c h = ground arith

point_units-ascii : (c : ℕ) → c < 128 → point_units (scalar c) ≡ c ∷ []
unfolding scalar
point_units-ascii c h = ground arith

encode_point-ascii : (c : ℕ) → c < 128 → encode_point (scalar c) ≡ c ∷ []
unfolding scalar encode_point
encode_point-ascii c h = ground arith

-- UTF-16 and UTF-8 keep ASCII.
units-IsCoding : IsCoding (λ c. point_units (scalar c))
units-IsCoding = record {
  ascii = point_units-ascii;
  wide = λ c h. are_wide-WideCodes (point_units (scalar c)) (are_wide-point_units c h);
}

bytes-IsCoding : IsCoding (λ c. encode_point (scalar c))
bytes-IsCoding = record {
  ascii = encode_point-ascii;
  wide = λ c h. are_wide-WideCodes (encode_point (scalar c)) (are_wide-encode_point c h);
}

-- The UTF-8 bytes of a list of points, written in UTF-16.
encode_utf8-units :
    (ps : List ℕ)
    → encode_utf8 (flat_map (λ c. point_units (scalar c)) ps)
      ≡ flat_map (λ c. encode_point (scalar c)) ps
encode_utf8-units ps =
    ap encode_utf8 (sym (flat_map-map point_units ps))
    ∙ encode_utf8-IsText (text_of (map scalar ps) (scalars-IsScalar ps))
    ∙ flat_map-map encode_point ps

encode_utf8-all_units :
    (msgs : List (List ℕ))
    → map encode_utf8 (map (flat_map (λ c. point_units (scalar c))) msgs)
      ≡ map (flat_map (λ c. encode_point (scalar c))) msgs
encode_utf8-all_units [] = refl
encode_utf8-all_units (m ∷ msgs) = rw (encode_utf8-units m, encode_utf8-all_units msgs) refl

events-units :
    (s : Str) (t : IsText s)
    → events s ≡ map (flat_map (λ c. point_units (scalar c))) (events t.points)
events-units s t =
    ap events (
      t.units_are
      ∙ ap (flat_map point_units) (sym (scalars-eq t.points t.scalar))
      ∙ flat_map-map point_units t.points)
    ∙ events-flat_map (λ c. point_units (scalar c)) units-IsCoding t.points

events-bytes :
    (s : Str) (t : IsText s)
    → events (encode_utf8 s) ≡ map (flat_map (λ c. encode_point (scalar c))) (events t.points)
events-bytes s t =
    ap events (
      encode_utf8-IsText t
      ∙ ap (flat_map encode_point) (sym (scalars-eq t.points t.scalar))
      ∙ flat_map-map encode_point t.points)
    ∙ events-flat_map (λ c. encode_point (scalar c)) bytes-IsCoding t.points

-- On a stream that is UTF-8 behind a byte order mark, if it has one, the Go decoder gives the
-- messages of the TypeScript decoder, each as the bytes of its UTF-8 form.
pub sse_decode-parse_sse :
    (raw : Bytes) (s : Str)
    → strip_bom raw ≡ encode_utf8 s
    → IsText s
    → sse_decode raw ≡ map encode_utf8 (parse_sse raw)
unfolding sse_decode parse_sse
sse_decode-parse_sse raw s h t = rw h (
    decode_text-events (encode_utf8 s)
    ∙ events-bytes s t
    ∙ sym (encode_utf8-all_units (events t.points))
    ∙ ap (map encode_utf8) (sym (events-units s t))
    ∙ ap (λ u. map encode_utf8 (events u)) (sym (lossy_utf8-encode_utf8 s t)))

pub parse_sse-events :
    (raw : Bytes) (s : Str) → strip_bom raw ≡ encode_utf8 s → IsText s → parse_sse raw ≡ events s
unfolding parse_sse
parse_sse-events raw s h t = rw h (ap events (lossy_utf8-encode_utf8 s t))

-- The UTF-8 form of the joined messages of a text is that of the messages, joined.
pub join-encode_utf8 :
    (s : Str)
    → IsText s
    → join (codes "\n") (map encode_utf8 (events s)) ≡ encode_utf8 (join (codes "\n") (events s))
join-encode_utf8 s t = rw (events-units s t) (
    ap (join (codes "\n")) (encode_utf8-all_units (events t.points))
    ∙ join-flat_map (λ c. encode_point (scalar c)) bytes-IsCoding (events t.points)
    ∙ sym (encode_utf8-units (join (codes "\n") (events t.points)))
    ∙ ap encode_utf8
        (sym (join-flat_map (λ c. point_units (scalar c)) units-IsCoding (events t.points))))
