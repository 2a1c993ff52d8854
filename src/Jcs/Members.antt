-- ===== src/Jcs/Members.antt =====
-- How `JSON.parse` reads the canonical text of an object, given how it reads its members.
use veritrail.Prelude.{
  ℕ, zero, suc, ◌+◌, ◌*◌, ◌<◌, ◌≡◌, refl, ap, ◌∙◌, List, [], ◌∷◌, ◌++◌, append_assoc, map, arith,
  none, some, All, length, flat_map, length-append,
}
use veritrail.Platform.{Platform}
use veritrail.Text.{Str, codes, join}
use veritrail.Text.Utf8.{code_points}
use veritrail.Value.{Value, obj, Fields, end, field, get}
use veritrail.Value.Json.{token, expect, parse_value, parse_members, add_member, skip_space}
use veritrail.Jcs.{jcs_string, object_text, sort_keys, member_text, quote, escape_point}
use veritrail.Jcs.Sorting.{map-sort_keys, All-sort_keys, IsDistinct, LacksKey, sort_keys-IsDistinct}
use veritrail.Jcs.Quoted.{IsStr, scan_string-quote}
use veritrail.Jcs.Number.{IsDelimited}
use veritrail.Jcs.Canonical.{of_members, canonical}
use veritrail.Jcs.Reads.{Starts, expect-Starts, Reads}

module _ (p : Platform) where
  open p use {Num, number_text, number_value}

  -- What is known of a member: its key, the text of its value, and the value that is read.
  abbrev pub Entry : Type 0
  Entry = Str × (Str × Value Num)

  abbrev pub IsEntry : Entry → Type 0
  IsEntry e = IsStr e.0 × Reads p e.1.0 e.1.1

  abbrev pub entry_text : Entry → Str
  entry_text e = member_text (e.0, e.1.0)

  abbrev pub key_text : Entry → Str × Str
  key_text e = (e.0, e.1.0)

  abbrev pub entry_member : Entry → Str × Value Num
  entry_member e = (e.0, e.1.1)

  pub get-LacksKey :
      (k : Str) (es : List Entry) → LacksKey k es → get k (of_members (map entry_member es)) ≡ none
  unfolding get of_members
  get-LacksKey k [] h = refl
  get-LacksKey k (e ∷ es) (he, h) = rw he (get-LacksKey k es h)

  pub entry_text-append :
      (e : Entry) (rest : Str)
      → entry_text e ++ rest
        ≡ b'"' ∷ (flat_map escape_point (code_points e.0) ++ b'"' ∷ b':' ∷ (e.1.0 ++ rest))
  unfolding quote
  entry_text-append e rest = simp append_assoc

  -- The last member, up to the closing brace.
  pub parse_members-last :
      (e : Entry) (f : ℕ) (rest : Str)
      → IsEntry e
      → 2 * length e.1.0 + 1 < f
      → parse_members p f (entry_text e ++ b'}' ∷ rest)
        ≡ some (of_members (entry_member e ∷ []), rest)
  parse_members-last e zero rest v h = absurd (omega arith)
  parse_members-last e (suc f) rest (key, value) h =
      ap (parse_members p (suc f)) (entry_text-append e (b'}' ∷ rest))
      ∙ unfold parse_members expect skip_space of_members in
        rw (
          parse_members,
          scan_string-quote e.0 (b':' ∷ (e.1.0 ++ b'}' ∷ rest)) key,
          value.reads f (b'}' ∷ rest) (omega arith) refl,
        )

  -- A member in front of others.
  pub parse_members-more :
      (e : Entry) (ts : Str) (fs : Fields Num) (f : ℕ) (rest : Str)
      → IsEntry e
      → get e.0 fs ≡ none
      → 2 * length e.1.0 < f
      → parse_members p f (ts ++ b'}' ∷ rest) ≡ some (fs, rest)
      → parse_members p (suc f) ((entry_text e ++ codes "," ++ ts) ++ b'}' ∷ rest)
        ≡ some (field e.0 e.1.1 fs, rest)
  parse_members-more e ts fs f rest (key, value) new h later =
      ap (parse_members p (suc f)) (
        append_assoc (entry_text e ++ codes ",") ts (b'}' ∷ rest)
        ∙ append_assoc (entry_text e) (codes ",") (ts ++ b'}' ∷ rest)
        ∙ entry_text-append e (b',' ∷ (ts ++ b'}' ∷ rest)))
      ∙ unfold parse_members expect skip_space add_member in
        rw (
          parse_members,
          scan_string-quote e.0 (b':' ∷ (e.1.0 ++ b',' ∷ (ts ++ b'}' ∷ rest))) key,
          value.reads f (b',' ∷ (ts ++ b'}' ∷ rest)) h refl,
          later,
          add_member,
          new,
        )

  pub parse_members-entries :
      (e : Entry) (es : List Entry) (f : ℕ) (rest : Str)
      → All IsEntry (e ∷ es)
      → IsDistinct (e ∷ es)
      → 2 * length (join (codes ",") (map entry_text (e ∷ es))) + 1 < f
      → parse_members p f (join (codes ",") (map entry_text (e ∷ es)) ++ b'}' ∷ rest)
        ≡ some (of_members (map entry_member (e ∷ es)), rest)
  unfolding join of_members
  parse_members-entries e [] f rest (v, vs) d h =
      parse_members-last e f rest v (omega (arith, length-append (quote e.0) (b':' ∷ e.1.0)))
  parse_members-entries e (e' ∷ es) zero rest v d h = absurd (omega arith)
  parse_members-entries e (e' ∷ es) (suc f) rest (v, vs) (lacks, d) h =
      let ts = join (codes ",") (map entry_text (e' ∷ es)) in
      let whole = length-append (entry_text e ++ codes ",") ts in
      let comma = length-append (entry_text e) (codes ",") in
      let first = length-append (quote e.0) (b':' ∷ e.1.0) in
      parse_members-more e ts (of_members (map entry_member (e' ∷ es))) f rest v
        (get-LacksKey e.0 (e' ∷ es) lacks) (omega (arith, whole, comma, first))
        (parse_members-entries e' es f rest vs d (omega (arith, whole, comma, first)))

  unfoldable pub entries : Fields Num → List Entry
  entries end = []
  entries (field k v fs) = (k, (jcs_string p v, canonical v)) ∷ entries fs

  pub members-Starts :
      (e : Entry) (es : List Entry) → Starts (join (codes ",") (map entry_text (e ∷ es)))
  unfolding join quote
  members-Starts e [] = refl
  members-Starts e (e' ∷ es) = refl

  pub Reads-members :
      (es : List Entry)
      → All IsEntry es
      → IsDistinct es
      → Reads p
          (b'{' ∷ (join (codes ",") (map entry_text es) ++ b'}' ∷ []))
          (obj (of_members (map entry_member es)))
  unfolding join of_members
  Reads-members [] v d = record { starts = refl; reads = go }
    where
      go :
          (f : ℕ) (rest : Str)
          → 4 < f
          → IsDelimited rest
          → parse_value p f (b'{' ∷ b'}' ∷ rest) ≡ some (obj end, rest)
      go zero rest h d = absurd (omega arith)
      go (suc f) rest h d = unfold parse_value token skip_space expect in refl
  Reads-members (e ∷ es) v d = record { starts = refl; reads = go }
    where
      body : Str
      body = join (codes ",") (map entry_text (e ∷ es))

      go :
          (f : ℕ) (rest : Str)
          → 2 * length (b'{' ∷ (body ++ b'}' ∷ [])) < f
          → IsDelimited rest
          → parse_value p f (b'{' ∷ (body ++ b'}' ∷ []) ++ rest)
            ≡ some (obj (of_members (map entry_member (e ∷ es))), rest)
      go zero rest h k = absurd (omega arith)
      go (suc f) rest h k =
          ap (parse_value p (suc f)) (ap (◌∷◌ b'{') (append_assoc body (b'}' ∷ []) rest))
          ∙ unfold parse_value token skip_space in
            rw (
              parse_value,
              expect-Starts b'}' body (b'}' ∷ rest) (members-Starts e es) refl,
              parse_members-entries e es f rest v d (omega (arith, length-append body (b'}' ∷ []))),
            )

  pub entry_texts : (es : List Entry) → map member_text (map key_text es) ≡ map entry_text es
  entry_texts [] = refl
  entry_texts (e ∷ es) = ap (◌∷◌ (entry_text e)) (entry_texts es)

  -- An object whose members are read, whatever their order.
  pub Reads-obj :
      (es : List Entry)
      → All IsEntry es
      → IsDistinct es
      → Reads p (object_text (map key_text es)) (obj (of_members (sort_keys (map entry_member es))))
  unfolding object_text
  Reads-obj es v d =
      rw
        (
          ← map-sort_keys {A = Str × Value Num} key_text (λ e. refl) es,
          ← map-sort_keys {A = Str × Value Num} entry_member (λ e. refl) es,
          entry_texts (sort_keys es),
        )
        (Reads-members (sort_keys es) (All-sort_keys IsEntry es v) (sort_keys-IsDistinct es d))
