-- ===== src/Stringify/RoundTrip.antt =====
-- `JSON.parse` on the texts of `JSON.stringify`.
use veritrail.Prelude.{
  ℕ, zero, suc, ◌+◌, ◌*◌, ◌<◌, ◌≡◌, refl, ap, ◌∙◌, subst, false, List, [], ◌∷◌, ◌++◌, append_assoc,
  append-nil, map, arith, some, All, length, length-append, inl, inr, Bool-cases,
}
use veritrail.Platform.{Platform}
use veritrail.Text.{Str, codes, join, str_eq}
use veritrail.Value.{
  Value, undefined, null, bool, num, str, arr, obj, Items, nil, cons, Fields, end, field, has_own,
}
use veritrail.Value.Json.{token, parse_value, parse_items, parse, skip_space}
use veritrail.Value.Keys.{own_order}
use veritrail.Stringify.Ordered.{All-own_order, map-own_order, own_order-IsDistinct}
use veritrail.Jcs.{array_text}
use veritrail.Jcs.Sorting.{IsDistinct, LacksKey}
use veritrail.Jcs.Number.{IsDelimited}
use veritrail.Jcs.Canonical.{of_members, IsJson, AreJson, HaveJson}
use veritrail.Jcs.Reads.{
  Starts, Starts-append, expect-Starts, Reads, Reads-null, Reads-bool, Reads-num, Reads-str,
}
use veritrail.Jcs.Elements.{parse_items-last, parse_items-more, Reads-nil}
use veritrail.Jcs.Members.{IsEntry, Entry, key_text, entry_member, entry_texts, Reads-members}
use veritrail.Stringify.{
  keep, braced, json_string, json_items, json_members, plain, plain_items, plain_members,
}

map-keep :
    {N A B : Type 0} (f : A → B) (v : Value N) (a : A) (rest : List A)
    → map f (keep v a rest) ≡ keep v (f a) (map f rest)
unfolding keep
map-keep f undefined a rest = refl
map-keep f _ a rest = refl

All-keep :
    {N A : Type 0} (P : A → Type 0) (v : Value N) (a : A) (rest : List A)
    → P a
    → All P rest
    → All P (keep v a rest)
unfolding keep
All-keep P undefined a rest h hs = hs
All-keep P null a rest h hs = (h, hs)
All-keep P (bool _) a rest h hs = (h, hs)
All-keep P (num _) a rest h hs = (h, hs)
All-keep P (str _) a rest h hs = (h, hs)
All-keep P (arr _) a rest h hs = (h, hs)
All-keep P (obj _) a rest h hs = (h, hs)

module _ (p : Platform) where
  open p use {Num}

  -- The text of an element, and the value that is read.
  abbrev Element : Type 0
  Element = Str × Value Num

  abbrev IsElement : Element → Type 0
  IsElement e = Reads p e.0 e.1

  unfoldable values : List Element → Items Num
  values [] = nil
  values (e ∷ es) = cons e.1 (values es)

  abbrev texts : List Element → Str
  texts es = join (codes ",") (map (λ e. e.0) es)

  texts-Starts : (e : Element) (es : List Element) → IsElement e → Starts (texts (e ∷ es))
  unfolding join
  texts-Starts e [] h = h.starts
  texts-Starts e (e' ∷ es) h = Starts-append _ _ (Starts-append _ _ h.starts)

  parse_items-values :
      (e : Element) (es : List Element) (f : ℕ) (rest : Str)
      → All IsElement (e ∷ es)
      → 2 * length (texts (e ∷ es)) + 1 < f
      → parse_items p f (texts (e ∷ es) ++ b']' ∷ rest) ≡ some (values (e ∷ es), rest)
  unfolding join values
  parse_items-values e [] f rest (r, rs) h = parse_items-last p e.0 e.1 f rest r h
  parse_items-values e (e' ∷ es) zero rest r h = absurd (omega arith)
  parse_items-values e (e' ∷ es) (suc f) rest (r, rs) h =
      let whole = length-append (e.0 ++ codes ",") (texts (e' ∷ es)) in
      let comma = length-append e.0 (codes ",") in
      parse_items-more p e.0 e.1 (texts (e' ∷ es)) (values (e' ∷ es)) f rest r
        (omega (arith, whole, comma))
        (parse_items-values e' es f rest rs (omega (arith, whole, comma)))

  Reads-values :
      (es : List Element)
      → All IsElement es
      → Reads p (array_text (map (λ e. e.0) es)) (arr (values es))
  unfolding array_text values
  Reads-values [] h = Reads-nil p
  Reads-values (e ∷ es) h = record { starts = refl; reads = go }
    where
      body : Str
      body = texts (e ∷ es)

      go :
          (f : ℕ) (rest : Str)
          → 2 * length (b'[' ∷ (body ++ b']' ∷ [])) < f
          → IsDelimited rest
          → parse_value p f (b'[' ∷ (body ++ b']' ∷ []) ++ rest)
            ≡ some (arr (values (e ∷ es)), rest)
      go zero rest k d = absurd (omega arith)
      go (suc f) rest k d =
          ap (parse_value p (suc f)) (ap (◌∷◌ b'[') (append_assoc body (b']' ∷ []) rest))
          ∙ unfold parse_value token skip_space in
            rw (
              parse_value,
              expect-Starts b']' body (b']' ∷ rest) (texts-Starts e es h.0) refl,
              parse_items-values e es f rest h (omega (arith, length-append body (b']' ∷ []))),
            )

  unfoldable elements_of : Items Num → List Element
  elements_of nil = []
  elements_of (cons v xs) = (json_string p v, plain v) ∷ elements_of xs

  elements_of-texts : (xs : Items Num) → map (λ e. e.0) (elements_of xs) ≡ json_items p xs
  unfolding elements_of json_items
  elements_of-texts nil = refl
  elements_of-texts (cons v xs) = ap (◌∷◌ (json_string p v)) (elements_of-texts xs)

  elements_of-values : (xs : Items Num) → values (elements_of xs) ≡ plain_items xs
  unfolding elements_of values plain_items
  elements_of-values nil = refl
  elements_of-values (cons v xs) = ap (cons (plain v)) (elements_of-values xs)

  unfoldable entries_of : Fields Num → List (Entry p)
  entries_of end = []
  entries_of (field k v fs) = keep v (k, (json_string p v, plain v)) (entries_of fs)

  entries_of-key_text : (fs : Fields Num) → map (key_text p) (entries_of fs) ≡ json_members p fs
  unfolding entries_of json_members
  entries_of-key_text end = refl
  entries_of-key_text (field k v fs) =
      map-keep (key_text p) v _ (entries_of fs)
      ∙ ap (keep v (k, json_string p v)) (entries_of-key_text fs)

  entries_of-entry_member :
      (fs : Fields Num) → map (entry_member p) (entries_of fs) ≡ plain_members fs
  unfolding entries_of plain_members
  entries_of-entry_member end = refl
  entries_of-entry_member (field k v fs) =
      map-keep (entry_member p) v _ (entries_of fs)
      ∙ ap (keep v (k, plain v)) (entries_of-entry_member fs)

  entries_of-LacksKey :
      (k : Str) (fs : Fields Num) → has_own k fs ≡ false → LacksKey k (entries_of fs)
  unfolding has_own entries_of
  entries_of-LacksKey k end h = tt
  entries_of-LacksKey k (field j v fs) h = elim (Bool-cases (str_eq j k)) [
    | inl e ↦ cc (rw (e, has_own) at h)
    | inr e ↦
        All-keep (λ x. str_eq x.0 k ≡ false) v _ (entries_of fs) e
          (entries_of-LacksKey k fs (rw (e, has_own) at h))
  ]

  IsDistinct-keep :
      (v : Value Num) (e : Entry p) (es : List (Entry p))
      → LacksKey e.0 es
      → IsDistinct es
      → IsDistinct (keep v e es)
  unfolding keep
  IsDistinct-keep undefined e es l d = d
  IsDistinct-keep null e es l d = (l, d)
  IsDistinct-keep (bool _) e es l d = (l, d)
  IsDistinct-keep (num _) e es l d = (l, d)
  IsDistinct-keep (str _) e es l d = (l, d)
  IsDistinct-keep (arr _) e es l d = (l, d)
  IsDistinct-keep (obj _) e es l d = (l, d)

  entries_of-IsDistinct : (fs : Fields Num) → HaveJson p fs → IsDistinct (entries_of fs)
  unfolding entries_of
  entries_of-IsDistinct end h = tt
  entries_of-IsDistinct (field k v fs) (hk, (own, (hv, h))) =
      IsDistinct-keep v _ (entries_of fs) (entries_of-LacksKey k fs own)
        (entries_of-IsDistinct fs h)

  Reads-braced :
      (es : List (Entry p))
      → All (IsEntry p) es
      → IsDistinct es
      → Reads p (braced (map (key_text p) es)) (obj (of_members (map (entry_member p) es)))
  unfolding braced
  Reads-braced es v d = rw (entry_texts p es) (Reads-members p es v d)

  mutual
    unfolding json_string plain elements_of entries_of

    Reads-json : (v : Value Num) → IsJson p v → Reads p (json_string p v) (plain v)
    Reads-json undefined h = Reads-null p
    Reads-json null h = Reads-null p
    Reads-json (bool b) h = Reads-bool p b
    Reads-json (num n) h = Reads-num p n h
    Reads-json (str s) h = Reads-str p s h
    Reads-json (arr xs) h =
        rw (← elements_of-texts xs, ← elements_of-values xs)
          (Reads-values (elements_of xs) (elements_of-IsElement xs h))
    Reads-json (obj fs) h =
        rw
          (
            ← entries_of-key_text fs,
            ← entries_of-entry_member fs,
            ← map-own_order (key_text p) (λ e. refl) (entries_of fs),
            ← map-own_order (entry_member p) (λ e. refl) (entries_of fs),
          )
          (Reads-braced (own_order (entries_of fs))
            (All-own_order (IsEntry p) (entries_of fs) (entries_of-IsEntry fs h))
            (own_order-IsDistinct (entries_of fs) (entries_of-IsDistinct fs h)))

    elements_of-IsElement : (xs : Items Num) → AreJson p xs → All IsElement (elements_of xs)
    elements_of-IsElement nil h = tt
    elements_of-IsElement (cons v xs) (hv, h) = (Reads-json v hv, elements_of-IsElement xs h)

    entries_of-IsEntry : (fs : Fields Num) → HaveJson p fs → All (IsEntry p) (entries_of fs)
    entries_of-IsEntry end h = tt
    entries_of-IsEntry (field k v fs) (hk, (own, (hv, h))) =
        All-keep (IsEntry p) v _ (entries_of fs) (hk, Reads-json v hv) (entries_of-IsEntry fs h)

  -- `JSON.parse` of what `JSON.stringify` writes for JSON data gives the data back, its properties in the
  -- order in which the engine lists them, less those that are undefined.
  pub parse-json_string : (v : Value Num) → IsJson p v → parse p (json_string p v) ≡ some (plain v)
  unfolding parse
  parse-json_string v h =
      let r : parse_value p (2 * length (json_string p v) + 2) (json_string p v)
          ≡ some (plain v, []) =
        subst (λ t. parse_value p (2 * length (json_string p v) + 2) t ≡ some (plain v, []))
          (append-nil _)
          ((Reads-json v h).reads (2 * length (json_string p v) + 2) [] (omega arith) tt) in
      rw (parse, r)
