-- ===== src/Jcs/Elements.antt =====
-- How `JSON.parse` reads the canonical text of an array, given how it reads its elements.
use veritrail.Prelude.{
  ℕ, zero, suc, ◌+◌, ◌*◌, ◌<◌, ◌≡◌, refl, ap, ◌∙◌, [], ◌∷◌, ◌++◌, append_assoc, arith, some, length,
  length-append,
}
use veritrail.Platform.{Platform}
use veritrail.Text.{Str, codes, join}
use veritrail.Value.{Value, arr, Items, nil, cons}
use veritrail.Value.Json.{token, expect, parse_value, parse_items, skip_space}
use veritrail.Jcs.{jcs_string, jcs_items, array_text}
use veritrail.Jcs.Number.{IsDelimited}
use veritrail.Jcs.Canonical.{canonical, canonical_items}
use veritrail.Jcs.Reads.{Starts, expect-Starts, Starts-append, Reads}

module _ (p : Platform) where
  open p use {Num, number_text, number_value}

  -- The elements of an array, up to the closing bracket.
  unfoldable pub ItemsRead : Value Num → Items Num → Type 0
  ItemsRead v xs =
      (f : ℕ) (rest : Str)
      → 2 * length (join (codes ",") (jcs_items p (cons v xs))) + 1 < f
      → parse_items p f (join (codes ",") (jcs_items p (cons v xs)) ++ b']' ∷ rest)
        ≡ some (canonical_items (cons v xs), rest)

  pub parse_items-last :
      (t : Str) (v : Value Num) (f : ℕ) (rest : Str)
      → Reads p t v
      → 2 * length t + 1 < f
      → parse_items p f (t ++ b']' ∷ rest) ≡ some (cons v nil, rest)
  unfolding parse_items expect skip_space
  parse_items-last t v zero rest r h = absurd (omega arith)
  parse_items-last t v (suc f) rest r h = rw (r.reads f (b']' ∷ rest) (omega arith) refl)

  pub parse_items-more :
      (t : Str) (v : Value Num) (ts : Str) (xs : Items Num) (f : ℕ) (rest : Str)
      → Reads p t v
      → 2 * length t < f
      → parse_items p f (ts ++ b']' ∷ rest) ≡ some (xs, rest)
      → parse_items p (suc f) ((t ++ codes "," ++ ts) ++ b']' ∷ rest) ≡ some (cons v xs, rest)
  unfolding parse_items expect skip_space
  parse_items-more t v ts xs f rest r h later = rw (
    append_assoc (t ++ codes ",") ts (b']' ∷ rest),
    append_assoc t (codes ",") (ts ++ b']' ∷ rest),
    r.reads f (b',' ∷ (ts ++ b']' ∷ rest)) h refl,
    later,
  )

  pub ItemsRead-nil : (v : Value Num) → Reads p (jcs_string p v) (canonical v) → ItemsRead v nil
  unfolding ItemsRead jcs_items canonical_items join
  ItemsRead-nil v r f rest h = parse_items-last (jcs_string p v) (canonical v) f rest r h

  pub ItemsRead-cons :
      (v w : Value Num) (xs : Items Num)
      → Reads p (jcs_string p v) (canonical v)
      → ItemsRead w xs
      → ItemsRead v (cons w xs)
  unfolding ItemsRead jcs_items canonical_items join
  ItemsRead-cons v w xs r later zero rest h = absurd (omega arith)
  ItemsRead-cons v w xs r later (suc f) rest h =
      let t = jcs_string p v in
      let ts = join (codes ",") (jcs_items p (cons w xs)) in
      let whole = length-append (t ++ codes ",") ts in
      let comma = length-append t (codes ",") in
      parse_items-more t (canonical v) ts (canonical_items (cons w xs)) f rest r
        (omega (arith, whole, comma)) (later f rest (omega (arith, whole, comma)))

  pub items-Starts :
      (v : Value Num) (xs : Items Num)
      → Starts (jcs_string p v)
      → Starts (join (codes ",") (jcs_items p (cons v xs)))
  unfolding join jcs_items
  items-Starts v nil h = h
  items-Starts v (cons w xs) h = Starts-append _ _ (Starts-append _ _ h)

  -- An array whose elements are read.
  pub Reads-nil : Reads p (array_text []) (arr nil)
  unfolding array_text join
  Reads-nil = record { starts = refl; reads = go }
    where
      go :
          (f : ℕ) (rest : Str)
          → 4 < f
          → IsDelimited rest
          → parse_value p f (b'[' ∷ b']' ∷ rest) ≡ some (arr nil, rest)
      go zero rest h d = absurd (omega arith)
      go (suc f) rest h d = unfold parse_value token skip_space expect in refl

  pub Reads-arr :
      (v : Value Num) (xs : Items Num)
      → Starts (jcs_string p v)
      → ItemsRead v xs
      → Reads p (array_text (jcs_items p (cons v xs))) (arr (canonical_items (cons v xs)))
  unfolding array_text ItemsRead jcs_items canonical_items
  Reads-arr v xs starts items = record { starts = refl; reads = go }
    where
      body : Str
      body = join (codes ",") (jcs_items p (cons v xs))

      go :
          (f : ℕ) (rest : Str)
          → 2 * length (b'[' ∷ (body ++ b']' ∷ [])) < f
          → IsDelimited rest
          → parse_value p f (b'[' ∷ (body ++ b']' ∷ []) ++ rest)
            ≡ some (arr (canonical_items (cons v xs)), rest)
      go zero rest h d = absurd (omega arith)
      go (suc f) rest h d =
          ap (parse_value p (suc f)) (ap (◌∷◌ b'[') (append_assoc body (b']' ∷ []) rest))
          ∙ unfold parse_value token skip_space in
            rw (
              parse_value,
              expect-Starts b']' body (b']' ∷ rest) (items-Starts v xs starts) refl,
              items f rest (omega (arith, length-append body (b']' ∷ []))),
            )
