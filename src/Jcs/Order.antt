-- ===== src/Jcs/Order.antt =====
-- ts/src/commands/jcs.ts and the order of the properties of an object.
use veritrail.Prelude.{◌≡◌, refl, sym, ap, ◌∙◌, true, false, List, [], ◌∷◌, inl, inr, Bool-cases}
use veritrail.Platform.{Platform}
use veritrail.Text.{Str, str_eq, str_eq_iff, str_lt}
use veritrail.Value.{Value, arr, obj, Items, nil, cons, Fields, end, field}
use veritrail.Jcs.{
  insert_key, sort_keys, jcs_string, jcs_items, jcs_members, array_text, object_text,
}
use veritrail.Jcs.Sorting.{str_lt_trans, str_lt_total, str_lt_asym}

-- Two values that differ in the order of the properties of objects, at any depth.
mutual
  pub data SameValue {N : Type 0} : Value N → Value N → Type 0 where
    same : (v : Value N) → SameValue v v
    arrays : {xs ys : Items N} → SameItems xs ys → SameValue (arr xs) (arr ys)
    objects : (fs gs : Fields N) → SameFields fs gs → SameValue (obj fs) (obj gs)

  pub data SameItems {N : Type 0} : Items N → Items N → Type 0 where
    no_items : SameItems nil nil
    items :
        {v w : Value N} {xs ys : Items N}
        → SameValue v w
        → SameItems xs ys
        → SameItems (cons v xs) (cons w ys)

  pub data SameFields {N : Type 0} : Fields N → Fields N → Type 0 where
    no_fields : SameFields end end
    fields :
        (k : Str) {v w : Value N} {fs gs : Fields N}
        → SameValue v w
        → SameFields fs gs
        → SameFields (field k v fs) (field k w gs)
    swapped :
        (j k : Str) (v w : Value N) (fs : Fields N)
        → str_eq j k ≡ false
        → SameFields (field j v (field k w fs)) (field k w (field j v fs))
    chained : {fs gs hs : Fields N} → SameFields fs gs → SameFields gs hs → SameFields fs hs

lt_of_differ : (a b : Str) → str_eq a b ≡ false → str_lt a b ≡ false → str_lt b a ≡ true
lt_of_differ a b h k = elim (Bool-cases (str_lt b a)) [
  | inl e ↦ e
  | inr e ↦ cc ((str_eq_iff a b).1 (str_lt_total a b k e), h)
]

module _ {A : Type 0} where
  insert_key_comm :
      (m n : Str × A) (ms : List (Str × A))
      → str_lt m.0 n.0 ≡ true
      → insert_key m (insert_key n ms) ≡ insert_key n (insert_key m ms)
  unfolding insert_key
  insert_key_comm m n [] lt = rw (lt, str_lt_asym m.0 n.0 lt)
  insert_key_comm m n (o ∷ ms) lt = elim (Bool-cases (str_lt o.0 m.0)) [
    | inl om ↦
        let on : str_lt o.0 n.0 ≡ true = str_lt_trans o.0 m.0 n.0 om lt in
        rw (om, on, insert_key, om) (ap (◌∷◌ o) (insert_key_comm m n ms lt))
    | inr om ↦ elim (Bool-cases (str_lt o.0 n.0)) [
      | inl on ↦ rw (om, on, insert_key, om, lt)
      | inr on ↦ rw (om, on, insert_key, str_lt_asym m.0 n.0 lt, lt)
    ]
  ]

  insert_key_swap :
      (m n : Str × A) (ms : List (Str × A))
      → str_eq m.0 n.0 ≡ false
      → insert_key m (insert_key n ms) ≡ insert_key n (insert_key m ms)
  insert_key_swap m n ms h = elim (Bool-cases (str_lt m.0 n.0)) [
    | inl lt ↦ insert_key_comm m n ms lt
    | inr ge ↦ sym (insert_key_comm n m ms (lt_of_differ m.0 n.0 h ge))
  ]

same_sorted_text :
    (ms ns : List (Str × Str)) → sort_keys ms ≡ sort_keys ns → object_text ms ≡ object_text ns
unfolding object_text
same_sorted_text ms ns h = rw h

module _ (p : Platform) where
  open p use {Num}

  mutual
    unfolding jcs_string object_text sort_keys

    same_text : {v w : Value Num} → SameValue v w → jcs_string p v ≡ jcs_string p w
    same_text (same v) = refl
    same_text (arrays h) = ap array_text (same_texts h)
    same_text (objects fs gs h) =
        same_sorted_text (jcs_members p fs) (jcs_members p gs) (same_members h)

    same_texts : {xs ys : Items Num} → SameItems xs ys → jcs_items p xs ≡ jcs_items p ys
    same_texts no_items = refl
    same_texts (items h k) = rw (same_text h, same_texts k)

    same_members :
        {fs gs : Fields Num}
        → SameFields fs gs
        → sort_keys (jcs_members p fs) ≡ sort_keys (jcs_members p gs)
    same_members no_fields = refl
    same_members (fields k h r) = rw (same_text h, same_members r)
    same_members (swapped j k v w fs differ) =
        insert_key_swap (j, jcs_string p v) (k, jcs_string p w) (sort_keys (jcs_members p fs))
          differ
    same_members (chained h k) = same_members h ∙ same_members k

  -- Values that differ only in the order of the properties of objects, at any depth, have one
  -- canonical text.
  pub jcs_string-SameValue : (v w : Value Num) → SameValue v w → jcs_string p v ≡ jcs_string p w
  jcs_string-SameValue v w h = same_text h
