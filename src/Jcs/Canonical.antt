-- ===== src/Jcs/Canonical.antt =====
-- The value that a canonical text stands for: keys sorted at every level, `undefined` as null.
use veritrail.Prelude.{◌<◌, ◌≡◌, refl, ap, ◌∙◌, false, List, [], ◌∷◌, map, some, All}
use veritrail.Platform.{Platform}
use veritrail.Text.{Str}
use veritrail.Value.{
  Value, undefined, null, bool, num, str, arr, obj, Items, nil, cons, Fields, end, field, has_own,
}
use veritrail.Value.Json.{number_literal}
use veritrail.Jcs.{Members, jcs_string, jcs_items, jcs_members, array_text, object_text, sort_keys}
use veritrail.Jcs.Sorting.{map-sort_keys, sort_keys_idem}
use veritrail.Jcs.Quoted.{IsStr}

module _ {N : Type 0} where
  -- An object with these members, in this order.
  unfoldable pub of_members : List (Str × Value N) → Fields N
  of_members [] = end
  of_members (m ∷ ms) = field m.0 m.1 (of_members ms)

  unfoldable mutual
    pub canonical : Value N → Value N
    canonical undefined = null
    canonical null = null
    canonical (bool b) = bool b
    canonical (num n) = num n
    canonical (str s) = str s
    canonical (arr xs) = arr (canonical_items xs)
    canonical (obj fs) = obj (of_members (sort_keys (canonical_members fs)))

    pub canonical_items : Items N → Items N
    canonical_items nil = nil
    canonical_items (cons v xs) = cons (canonical v) (canonical_items xs)

    pub canonical_members : Fields N → List (Str × Value N)
    canonical_members end = []
    canonical_members (field k v fs) = (k, canonical v) ∷ canonical_members fs

module _ (p : Platform) where
  open p use {Num, number_text, number_value}

  -- A number that JSON can carry: its text is a literal, and stands for it. NaN, the infinities and
  -- -0 are no such numbers.
  pub record IsNumber (n : Num) : Type 0 where
    pub literal : number_literal (number_text n) ≡ some (number_text n, [])
    pub value : number_value (number_text n) ≡ n
    pub ascii : All (λ c. c < 128) (number_text n)

  -- A value whose strings hold code units, whose numbers JSON can carry, and whose objects have each
  -- key once.
  abbrev mutual
    pub IsJson : Value Num → Type 0
    IsJson undefined = Unit
    IsJson null = Unit
    IsJson (bool b) = Unit
    IsJson (num n) = IsNumber n
    IsJson (str s) = IsStr s
    IsJson (arr xs) = AreJson xs
    IsJson (obj fs) = HaveJson fs

    pub AreJson : Items Num → Type 0
    AreJson nil = Unit
    AreJson (cons v xs) = IsJson v × AreJson xs

    pub HaveJson : Fields Num → Type 0
    HaveJson end = Unit
    HaveJson (field k v fs) = IsStr k × ((has_own k fs ≡ false) × (IsJson v × HaveJson fs))

  -- A member with the text of its value.
  abbrev text_member : Str × Value Num → Str × Str
  text_member m = (m.0, jcs_string p m.1)

  jcs_members-of_members :
      (ms : List (Str × Value Num)) → jcs_members p (of_members ms) ≡ map text_member ms
  unfolding of_members jcs_members
  jcs_members-of_members [] = refl
  jcs_members-of_members (m ∷ ms) = ap (◌∷◌ (text_member m)) (jcs_members-of_members ms)

  object_text-sort_keys : (ms : Members) → object_text (sort_keys ms) ≡ object_text ms
  unfolding object_text
  object_text-sort_keys ms = rw (sort_keys_idem ms)

  mutual
    unfolding canonical jcs_string

    jcs_string-canonical_ind : (v : Value Num) → jcs_string p (canonical v) ≡ jcs_string p v
    jcs_string-canonical_ind undefined = refl
    jcs_string-canonical_ind null = refl
    jcs_string-canonical_ind (bool b) = refl
    jcs_string-canonical_ind (num n) = refl
    jcs_string-canonical_ind (str s) = refl
    jcs_string-canonical_ind (arr xs) = ap array_text (jcs_items-canonical xs)
    jcs_string-canonical_ind (obj fs) =
        ap object_text (
          jcs_members-of_members (sort_keys (canonical_members fs))
          ∙ map-sort_keys text_member (λ m. refl) (canonical_members fs))
        ∙ object_text-sort_keys (map text_member (canonical_members fs))
        ∙ ap object_text (jcs_members-canonical fs)

    jcs_items-canonical : (xs : Items Num) → jcs_items p (canonical_items xs) ≡ jcs_items p xs
    jcs_items-canonical nil = refl
    jcs_items-canonical (cons v xs) = rw (jcs_string-canonical_ind v, jcs_items-canonical xs)

    jcs_members-canonical :
        (fs : Fields Num) → map text_member (canonical_members fs) ≡ jcs_members p fs
    jcs_members-canonical end = refl
    jcs_members-canonical (field k v fs) = rw (jcs_string-canonical_ind v, jcs_members-canonical fs)

  -- The canonical form of a value has the same canonical text.
  pub jcs_string-canonical : (v : Value Num) → jcs_string p (canonical v) ≡ jcs_string p v
  jcs_string-canonical v = jcs_string-canonical_ind v
