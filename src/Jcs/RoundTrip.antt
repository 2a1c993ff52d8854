-- ===== src/Jcs/RoundTrip.antt =====
-- `JSON.parse` on the texts of ts/src/commands/jcs.ts.
use veritrail.Prelude.{
  ◌+◌, ◌*◌, ◌≡◌, refl, ap, subst, false, [], ◌∷◌, append-nil, map, arith, some, All, length, inl,
  inr, Bool-cases,
}
use veritrail.Platform.{Platform}
use veritrail.Text.{Str, str_eq}
use veritrail.Value.{
  Value, undefined, null, bool, num, str, arr, obj, Items, nil, cons, Fields, end, field, has_own,
}
use veritrail.Value.Json.{parse_value, parse}
use veritrail.Jcs.{jcs_string, jcs_items, jcs_members, array_text}
use veritrail.Jcs.Sorting.{IsDistinct, LacksKey}
use veritrail.Jcs.Canonical.{
  canonical, canonical_items, canonical_members, IsJson, AreJson, HaveJson,
}
use veritrail.Jcs.Reads.{Reads, Reads-null, Reads-bool, Reads-num, Reads-str}
use veritrail.Jcs.Elements.{ItemsRead, ItemsRead-nil, ItemsRead-cons, Reads-nil, Reads-arr}
use veritrail.Jcs.Members.{IsEntry, key_text, entry_member, entries, Reads-obj}

module _ (p : Platform) where
  open p use {Num, number_text, number_value}

  entries-LacksKey : (k : Str) (fs : Fields Num) → has_own k fs ≡ false → LacksKey k (entries p fs)
  unfolding has_own entries
  entries-LacksKey k end h = tt
  entries-LacksKey k (field j v fs) h = elim (Bool-cases (str_eq j k)) [
    | inl e ↦ cc (rw (e, has_own) at h)
    | inr e ↦ (e, entries-LacksKey k fs (rw (e, has_own) at h))
  ]

  entries-IsDistinct : (fs : Fields Num) → HaveJson p fs → IsDistinct (entries p fs)
  unfolding entries
  entries-IsDistinct end h = tt
  entries-IsDistinct (field k v fs) (hk, (own, (hv, h))) =
      (entries-LacksKey k fs own, entries-IsDistinct fs h)

  entries-key_text : (fs : Fields Num) → map (key_text p) (entries p fs) ≡ jcs_members p fs
  unfolding entries jcs_members
  entries-key_text end = refl
  entries-key_text (field k v fs) = ap (◌∷◌ (k, jcs_string p v)) (entries-key_text fs)

  entries-entry_member :
      (fs : Fields Num) → map (entry_member p) (entries p fs) ≡ canonical_members fs
  unfolding entries canonical_members
  entries-entry_member end = refl
  entries-entry_member (field k v fs) = ap (◌∷◌ (k, canonical v)) (entries-entry_member fs)

  mutual
    unfolding jcs_string canonical entries

    Reads-value : (v : Value Num) → IsJson p v → Reads p (jcs_string p v) (canonical v)
    Reads-value undefined h = Reads-null p
    Reads-value null h = Reads-null p
    Reads-value (bool b) h = Reads-bool p b
    Reads-value (num n) h = Reads-num p n h
    Reads-value (str s) h = Reads-str p s h
    Reads-value (arr xs) h = Reads-items xs h
    Reads-value (obj fs) h =
        rw (← entries-key_text fs, ← entries-entry_member fs)
          (Reads-obj p (entries p fs) (entries-IsEntry fs h) (entries-IsDistinct fs h))

    Reads-items :
        (xs : Items Num)
        → AreJson p xs
        → Reads p (array_text (jcs_items p xs)) (arr (canonical_items xs))
    Reads-items nil h = Reads-nil p
    Reads-items (cons v xs) (hv, h) =
        Reads-arr p v xs (Reads-value v hv).starts (items_read v xs (Reads-value v hv) h)

    items_read :
        (v : Value Num) (xs : Items Num)
        → Reads p (jcs_string p v) (canonical v)
        → AreJson p xs
        → ItemsRead p v xs
    items_read v nil r h = ItemsRead-nil p v r
    items_read v (cons w xs) r (hw, h) =
        ItemsRead-cons p v w xs r (items_read w xs (Reads-value w hw) h)

    entries-IsEntry : (fs : Fields Num) → HaveJson p fs → All (IsEntry p) (entries p fs)
    entries-IsEntry end h = tt
    entries-IsEntry (field k v fs) (hk, (own, (hv, h))) =
        ((hk, Reads-value v hv), entries-IsEntry fs h)

  -- `JSON.parse` of the canonical text of a JSON value succeeds, and gives the value with its keys
  -- sorted at every level and `undefined` as null.
  pub parse-jcs_string :
      (v : Value Num) → IsJson p v → parse p (jcs_string p v) ≡ some (canonical v)
  unfolding parse
  parse-jcs_string v h =
      let r : parse_value p (2 * length (jcs_string p v) + 2) (jcs_string p v)
          ≡ some (canonical v, []) =
        subst (λ t. parse_value p (2 * length (jcs_string p v) + 2) t ≡ some (canonical v, []))
          (append-nil _)
          ((Reads-value v h).reads (2 * length (jcs_string p v) + 2) [] (omega arith) tt) in
      rw (parse, r)
