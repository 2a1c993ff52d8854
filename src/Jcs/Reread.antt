-- ===== src/Jcs/Reread.antt =====
-- The data that the canonical text of a value gives back, whatever the order of the keys.
use veritrail.Prelude.{◌≡◌, false, List, [], ◌∷◌, some, inl, inr, Bool-cases, ◌∙◌}
use veritrail.Platform.{Platform}
use veritrail.Text.{Str, str_eq, str_lt}
use veritrail.Value.{
  Value, undefined, null, bool, num, str, arr, obj, Items, nil, cons, Fields, end, field,
}
use veritrail.Value.Json.{parse}
use veritrail.Jcs.{insert_key, sort_keys, jcs_string}
use veritrail.Jcs.Sorting.{str_eq_comm, LacksKey, IsDistinct, All-sort_keys}
use veritrail.Jcs.Order.{
  SameValue, same, arrays, objects, SameItems, no_items, items, SameFields, no_fields, fields,
  swapped, chained,
}
use veritrail.Jcs.Canonical.{
  of_members, canonical, canonical_items, canonical_members, IsJson, AreJson, HaveJson,
}
use veritrail.Jcs.Lookup.{canonical_members-IsDistinct}
use veritrail.Jcs.RoundTrip.{parse-jcs_string}

module _ {N : Type 0} where
  -- A value with null for `undefined`, as JSON has it; the keys keep their order.
  unfoldable mutual
    pub with_nulls : Value N → Value N
    with_nulls undefined = null
    with_nulls null = null
    with_nulls (bool b) = bool b
    with_nulls (num n) = num n
    with_nulls (str s) = str s
    with_nulls (arr xs) = arr (items_with_nulls xs)
    with_nulls (obj fs) = obj (fields_with_nulls fs)

    pub items_with_nulls : Items N → Items N
    items_with_nulls nil = nil
    items_with_nulls (cons v xs) = cons (with_nulls v) (items_with_nulls xs)

    pub fields_with_nulls : Fields N → Fields N
    fields_with_nulls end = end
    fields_with_nulls (field k v fs) = field k (with_nulls v) (fields_with_nulls fs)

  SameFields-refl : (fs : Fields N) → SameFields fs fs
  SameFields-refl end = no_fields
  SameFields-refl (field k v fs) = fields k (same v) (SameFields-refl fs)

  insert_key-SameFields :
      (m : Str × Value N) (ms : List (Str × Value N))
      → LacksKey m.0 ms
      → SameFields (of_members (m ∷ ms)) (of_members (insert_key m ms))
  unfolding of_members insert_key
  insert_key-SameFields m [] l = SameFields-refl _
  insert_key-SameFields m (n ∷ ms) (ln, l) = elim (Bool-cases (str_lt n.0 m.0)) [
    | inl e ↦ rw e (
        chained (swapped m.0 n.0 m.1 n.1 (of_members ms) (str_eq_comm m.0 n.0 ∙ ln))
          (fields n.0 (same n.1) (insert_key-SameFields m ms l)))
    | inr e ↦ rw e (SameFields-refl _)
  ]

  sort_keys-SameFields :
      (ms : List (Str × Value N))
      → IsDistinct ms
      → SameFields (of_members ms) (of_members (sort_keys ms))
  unfolding of_members sort_keys
  sort_keys-SameFields [] d = no_fields
  sort_keys-SameFields (m ∷ ms) (l, d) =
      chained (fields m.0 (same m.1) (sort_keys-SameFields ms d))
        (insert_key-SameFields m (sort_keys ms) (All-sort_keys (λ x. str_eq x.0 m.0 ≡ false) ms l))

module _ (p : Platform) where
  open p use {Num}

  mutual
    unfolding with_nulls canonical of_members

    with_nulls-canonical : (v : Value Num) → IsJson p v → SameValue (with_nulls v) (canonical v)
    with_nulls-canonical undefined h = same null
    with_nulls-canonical null h = same null
    with_nulls-canonical (bool b) h = same (bool b)
    with_nulls-canonical (num n) h = same (num n)
    with_nulls-canonical (str s) h = same (str s)
    with_nulls-canonical (arr xs) h = arrays (items_with_nulls-canonical xs h)
    with_nulls-canonical (obj fs) h = objects _ _ (
        chained (fields_with_nulls-canonical fs h)
          (sort_keys-SameFields (canonical_members fs) (canonical_members-IsDistinct p fs h)))

    items_with_nulls-canonical :
        (xs : Items Num) → AreJson p xs → SameItems (items_with_nulls xs) (canonical_items xs)
    items_with_nulls-canonical nil h = no_items
    items_with_nulls-canonical (cons v xs) (hv, h) =
        items (with_nulls-canonical v hv) (items_with_nulls-canonical xs h)

    fields_with_nulls-canonical :
        (fs : Fields Num)
        → HaveJson p fs
        → SameFields (fields_with_nulls fs) (of_members (canonical_members fs))
    fields_with_nulls-canonical end h = no_fields
    fields_with_nulls-canonical (field k v fs) (hk, (own, (hv, h))) =
        fields k (with_nulls-canonical v hv) (fields_with_nulls-canonical fs h)

  -- The canonical text of JSON data is JSON, and `JSON.parse` gives the data back, up to the order of
  -- keys at every level, with null for `undefined`.
  pub parse-jcs_string-SameValue :
      (v : Value Num)
      → IsJson p v
      → (w : Value Num) × (parse p (jcs_string p v) ≡ some w) × SameValue (with_nulls v) w
  parse-jcs_string-SameValue v h = (canonical v, parse-jcs_string p v h, with_nulls-canonical v h)
