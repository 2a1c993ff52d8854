-- ===== src/Jcs/Texts.antt =====
-- The texts of ts/src/commands/jcs.ts as UTF-8.
use veritrail.Prelude.{
  ℕ, ◌<◌, ◌≡◌, refl, true, false, List, [], ◌∷◌, ◌++◌, map, arith, All, some, flat_map,
}
use veritrail.Platform.{Platform}
use veritrail.Text.{Str, codes, join}
use veritrail.Text.Utf8.{point_units, drop_bom, strict_utf8}
use veritrail.Text.Utf8.RoundTrip.{
  IsText, text_of, IsText-append, IsText-ascii, strict_utf8-encode_utf8, encode_utf8-IsBytes,
}
use veritrail.Value.{
  Value, undefined, null, bool, num, str, arr, obj, Items, nil, cons, Fields, end, field,
}
use veritrail.Jcs.{
  jcs_string, jcs_items, jcs_members, jcs_bytes, array_text, object_text, member_text, Members,
}
use veritrail.Jcs.Quoted.{IsStr, quote-IsText}
use veritrail.Jcs.Sorting.{All-sort_keys}
use veritrail.Jcs.Canonical.{IsJson, AreJson, HaveJson}

-- A text between two characters.
enclosed-IsText : (a b : ℕ) (s : Str) → a < 128 → b < 128 → IsText s → IsText (a ∷ (s ++ b ∷ []))
enclosed-IsText a b s ha hb t =
    IsText-append (IsText-ascii (a ∷ []) (ha, tt))
      (IsText-append t (IsText-ascii (b ∷ []) (hb, tt)))

join-IsText : (xs : List Str) → All IsText xs → IsText (join (codes ",") xs)
unfolding join
join-IsText [] h = text_of [] tt
join-IsText (x ∷ []) (hx, h) = hx
join-IsText (x ∷ y ∷ xs) (hx, h) =
    IsText-append (IsText-append hx (IsText-ascii (codes ",") (omega arith, tt)))
      (join-IsText (y ∷ xs) h)

-- The text of a member, for one whose key holds code units.
abbrev TextMember : Str × Str → Type 0
TextMember m = IsStr m.0 × IsText m.1

members-IsText : (ms : Members) → All TextMember ms → All IsText (map member_text ms)
members-IsText [] h = tt
members-IsText (m ∷ ms) ((hk, hv), h) = (
  IsText-append (quote-IsText m.0 hk)
      (IsText-append (IsText-ascii (codes ":") (omega arith, tt)) hv),
  members-IsText ms h,
)

module _ (p : Platform) where
  open p use {Num}

  mutual
    unfolding jcs_string array_text object_text

    value-IsText : (v : Value Num) → IsJson p v → IsText (jcs_string p v)
    value-IsText undefined h = IsText-ascii (codes "null") (omega arith)
    value-IsText null h = IsText-ascii (codes "null") (omega arith)
    value-IsText (bool true) h = IsText-ascii (codes "true") (omega arith)
    value-IsText (bool false) h = IsText-ascii (codes "false") (omega arith)
    value-IsText (num n) h = IsText-ascii _ h.ascii
    value-IsText (str s) h = quote-IsText s h
    value-IsText (arr xs) h =
        enclosed-IsText b'[' b']' _ (omega arith) (omega arith)
          (join-IsText (jcs_items p xs) (items-IsText xs h))
    value-IsText (obj fs) h = enclosed-IsText b'{' b'}' _ (omega arith) (omega arith) (
        join-IsText _
          (members-IsText _ (All-sort_keys TextMember (jcs_members p fs) (fields-IsText fs h))))

    items-IsText : (xs : Items Num) → AreJson p xs → All IsText (jcs_items p xs)
    items-IsText nil h = tt
    items-IsText (cons v xs) (hv, h) = (value-IsText v hv, items-IsText xs h)

    fields-IsText : (fs : Fields Num) → HaveJson p fs → All TextMember (jcs_members p fs)
    fields-IsText end h = tt
    fields-IsText (field k v fs) (hk, (own, (hv, h))) =
        ((hk, value-IsText v hv), fields-IsText fs h)

  pub jcs_string-IsText : (v : Value Num) → IsJson p v → IsText (jcs_string p v)
  jcs_string-IsText v h = value-IsText v h

  pub jcs_bytes-IsBytes : (v : Value Num) → IsJson p v → All (λ b. b < 256) (jcs_bytes p v)
  unfolding jcs_bytes
  jcs_bytes-IsBytes v h = encode_utf8-IsBytes (jcs_string-IsText v h)

-- A text that begins with a brace has no byte order mark.
drop_bom_brace : (s : Str) (ps : List ℕ) → b'{' ∷ s ≡ flat_map point_units ps → drop_bom ps ≡ ps
unfolding drop_bom
drop_bom_brace s [] h = refl
drop_bom_brace s (c ∷ ps) h = ground arith

module _ (p : Platform) where
  -- The strict decoder reads back the canonical bytes of an object.
  pub strict_utf8-jcs_bytes :
      (fs : Fields p.Num)
      → HaveJson p fs
      → strict_utf8 (jcs_bytes p (obj fs)) ≡ some (jcs_string p (obj fs))
  unfolding jcs_bytes jcs_string object_text
  strict_utf8-jcs_bytes fs h =
      let t : IsText (jcs_string p (obj fs)) = jcs_string-IsText p (obj fs) h in
      strict_utf8-encode_utf8 (jcs_string p (obj fs)) t (drop_bom_brace _ t.points t.units_are)
